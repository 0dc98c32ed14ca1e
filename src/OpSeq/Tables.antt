-- ===== src/OpSeq/Tables.antt =====
-- The tables of lib/RDIEval.cc that say what each op asks of the stack of static types, what it
-- does to that stack, and which argument it carries.
use omni_notify_omni_orb.OpSeq.Codes.{OpCode, OpArgT, StackPre, StackEffect}

-- RDI_Op2StackPre
unfoldable pub op2_stack_pre : OpCode → StackPre
op2_stack_pre OpCode.nop = StackPre.none
op2_stack_pre OpCode.return_b = StackPre.b
op2_stack_pre OpCode.signal_n = StackPre.n_ushort
op2_stack_pre OpCode.push_cc2c = StackPre.none
op2_stack_pre OpCode.push_sc2s = StackPre.none
op2_stack_pre OpCode.push_ic2i = StackPre.none
op2_stack_pre OpCode.push_bc2b = StackPre.none
op2_stack_pre OpCode.push_nc_ushort = StackPre.none
op2_stack_pre OpCode.push_nc2n_s = StackPre.none
op2_stack_pre OpCode.push_nc2n_ul = StackPre.none
op2_stack_pre OpCode.push_nc2n_l = StackPre.none
op2_stack_pre OpCode.push_nc2n_ull = StackPre.none
op2_stack_pre OpCode.push_nc2n_ll = StackPre.none
op2_stack_pre OpCode.push_nc2n_f = StackPre.none
op2_stack_pre OpCode.push_nc2n_d = StackPre.none
op2_stack_pre OpCode.ctelt_nc2n = StackPre.none
op2_stack_pre OpCode.swap_uu2uu = StackPre.two
op2_stack_pre OpCode.pop_u = StackPre.one
op2_stack_pre OpCode.pop_uu = StackPre.two
op2_stack_pre OpCode.cvt_u2b = StackPre.u
op2_stack_pre OpCode.cvt_u2s = StackPre.u
op2_stack_pre OpCode.cvt_u2n = StackPre.one
op2_stack_pre OpCode.or_bb2b = StackPre.bb
op2_stack_pre OpCode.and_bb2b = StackPre.bb
op2_stack_pre OpCode.not_b2b = StackPre.b
op2_stack_pre OpCode.in_uu2b = StackPre.two_u
op2_stack_pre OpCode.add_nn2n = StackPre.nn
op2_stack_pre OpCode.sub_nn2n = StackPre.nn
op2_stack_pre OpCode.mul_nn2n = StackPre.nn
op2_stack_pre OpCode.div_nn2n = StackPre.nn
op2_stack_pre OpCode.rem_nn2n = StackPre.nn
op2_stack_pre OpCode.substr_ss2b = StackPre.ss
op2_stack_pre OpCode.cmp_uu2n = StackPre.two
op2_stack_pre OpCode.eqz_n2b = StackPre.n
op2_stack_pre OpCode.nez_n2b = StackPre.n
op2_stack_pre OpCode.lez_n2b = StackPre.n
op2_stack_pre OpCode.ltz_n2b = StackPre.n
op2_stack_pre OpCode.gez_n2b = StackPre.n
op2_stack_pre OpCode.gtz_n2b = StackPre.n
op2_stack_pre OpCode.if_t_b2b = StackPre.b
op2_stack_pre OpCode.if_f_b2b = StackPre.b
op2_stack_pre OpCode.goto = StackPre.none
op2_stack_pre OpCode.label = StackPre.none
op2_stack_pre OpCode.wkp_nc2u = StackPre.none
op2_stack_pre OpCode.special_sc2u = StackPre.none
op2_stack_pre OpCode.compend = StackPre.one
op2_stack_pre OpCode.default_x2b = StackPre.one
op2_stack_pre OpCode.exist_x2b = StackPre.one
op2_stack_pre OpCode.dot_len_u2n_l = StackPre.u
op2_stack_pre OpCode.dot_d_u2u = StackPre.u
op2_stack_pre OpCode.dot_tid_u2s = StackPre.u
op2_stack_pre OpCode.dot_rid_u2s = StackPre.u
op2_stack_pre OpCode.dot_id_usc2u = StackPre.u
op2_stack_pre OpCode.dot_num_ulc2u = StackPre.u
op2_stack_pre OpCode.assoc_usc2u = StackPre.u
op2_stack_pre OpCode.index_ulc2u = StackPre.u
op2_stack_pre OpCode.tagdef_u2u = StackPre.u
op2_stack_pre OpCode.tagid_usc2u = StackPre.u
op2_stack_pre OpCode.tagnum_ulc2u = StackPre.u
op2_stack_pre OpCode.tagchar_usc2u = StackPre.u
op2_stack_pre OpCode.tagbool_ubc2u = StackPre.u
op2_stack_pre OpCode.debug1 = StackPre.none
op2_stack_pre OpCode.debug2 = StackPre.none

-- RDI_Op2StackEffect
unfoldable pub op2_stack_effect : OpCode → StackEffect
op2_stack_effect OpCode.nop = StackEffect.none
op2_stack_effect OpCode.return_b = StackEffect.none
op2_stack_effect OpCode.signal_n = StackEffect.none
op2_stack_effect OpCode.push_cc2c = StackEffect.to_c
op2_stack_effect OpCode.push_sc2s = StackEffect.to_s
op2_stack_effect OpCode.push_ic2i = StackEffect.to_i
op2_stack_effect OpCode.push_bc2b = StackEffect.to_b
op2_stack_effect OpCode.push_nc_ushort = StackEffect.to_n_ushort
op2_stack_effect OpCode.push_nc2n_s = StackEffect.to_n
op2_stack_effect OpCode.push_nc2n_ul = StackEffect.to_n
op2_stack_effect OpCode.push_nc2n_l = StackEffect.to_n
op2_stack_effect OpCode.push_nc2n_ull = StackEffect.to_n
op2_stack_effect OpCode.push_nc2n_ll = StackEffect.to_n
op2_stack_effect OpCode.push_nc2n_f = StackEffect.to_n
op2_stack_effect OpCode.push_nc2n_d = StackEffect.to_n
op2_stack_effect OpCode.ctelt_nc2n = StackEffect.to_n
op2_stack_effect OpCode.swap_uu2uu = StackEffect.swap
op2_stack_effect OpCode.pop_u = StackEffect.drop_one
op2_stack_effect OpCode.pop_uu = StackEffect.drop_two
op2_stack_effect OpCode.cvt_u2b = StackEffect.x_to_b
op2_stack_effect OpCode.cvt_u2s = StackEffect.x_to_s
op2_stack_effect OpCode.cvt_u2n = StackEffect.x_to_n
op2_stack_effect OpCode.or_bb2b = StackEffect.xx_to_b
op2_stack_effect OpCode.and_bb2b = StackEffect.xx_to_b
op2_stack_effect OpCode.not_b2b = StackEffect.x_to_b
op2_stack_effect OpCode.in_uu2b = StackEffect.xx_to_b
op2_stack_effect OpCode.add_nn2n = StackEffect.xx_to_n
op2_stack_effect OpCode.sub_nn2n = StackEffect.xx_to_n
op2_stack_effect OpCode.mul_nn2n = StackEffect.xx_to_n
op2_stack_effect OpCode.div_nn2n = StackEffect.xx_to_n
op2_stack_effect OpCode.rem_nn2n = StackEffect.xx_to_n
op2_stack_effect OpCode.substr_ss2b = StackEffect.xx_to_b
op2_stack_effect OpCode.cmp_uu2n = StackEffect.xx_to_n
op2_stack_effect OpCode.eqz_n2b = StackEffect.x_to_b
op2_stack_effect OpCode.nez_n2b = StackEffect.x_to_b
op2_stack_effect OpCode.lez_n2b = StackEffect.x_to_b
op2_stack_effect OpCode.ltz_n2b = StackEffect.x_to_b
op2_stack_effect OpCode.gez_n2b = StackEffect.x_to_b
op2_stack_effect OpCode.gtz_n2b = StackEffect.x_to_b
op2_stack_effect OpCode.if_t_b2b = StackEffect.none
op2_stack_effect OpCode.if_f_b2b = StackEffect.none
op2_stack_effect OpCode.goto = StackEffect.none
op2_stack_effect OpCode.label = StackEffect.none
op2_stack_effect OpCode.wkp_nc2u = StackEffect.to_u
op2_stack_effect OpCode.special_sc2u = StackEffect.to_u
op2_stack_effect OpCode.compend = StackEffect.none
op2_stack_effect OpCode.default_x2b = StackEffect.x_to_b
op2_stack_effect OpCode.exist_x2b = StackEffect.x_to_b
op2_stack_effect OpCode.dot_len_u2n_l = StackEffect.x_to_n
op2_stack_effect OpCode.dot_d_u2u = StackEffect.x_to_u
op2_stack_effect OpCode.dot_tid_u2s = StackEffect.x_to_s
op2_stack_effect OpCode.dot_rid_u2s = StackEffect.x_to_s
op2_stack_effect OpCode.dot_id_usc2u = StackEffect.x_to_u
op2_stack_effect OpCode.dot_num_ulc2u = StackEffect.x_to_u
op2_stack_effect OpCode.assoc_usc2u = StackEffect.x_to_u
op2_stack_effect OpCode.index_ulc2u = StackEffect.x_to_u
op2_stack_effect OpCode.tagdef_u2u = StackEffect.x_to_u
op2_stack_effect OpCode.tagid_usc2u = StackEffect.x_to_u
op2_stack_effect OpCode.tagnum_ulc2u = StackEffect.x_to_u
op2_stack_effect OpCode.tagchar_usc2u = StackEffect.x_to_u
op2_stack_effect OpCode.tagbool_ubc2u = StackEffect.x_to_u
op2_stack_effect OpCode.debug1 = StackEffect.none
op2_stack_effect OpCode.debug2 = StackEffect.none

-- RDI_Op2ArgT
unfoldable pub op2_arg_t : OpCode → OpArgT
op2_arg_t OpCode.nop = OpArgT.none
op2_arg_t OpCode.return_b = OpArgT.none
op2_arg_t OpCode.signal_n = OpArgT.none
op2_arg_t OpCode.push_cc2c = OpArgT.sc
op2_arg_t OpCode.push_sc2s = OpArgT.sc
op2_arg_t OpCode.push_ic2i = OpArgT.sc
op2_arg_t OpCode.push_bc2b = OpArgT.bc
op2_arg_t OpCode.push_nc_ushort = OpArgT.nc_us
op2_arg_t OpCode.push_nc2n_s = OpArgT.nc_s
op2_arg_t OpCode.push_nc2n_ul = OpArgT.nc_ul
op2_arg_t OpCode.push_nc2n_l = OpArgT.nc_l
op2_arg_t OpCode.push_nc2n_ull = OpArgT.nc_ull
op2_arg_t OpCode.push_nc2n_ll = OpArgT.nc_ll
op2_arg_t OpCode.push_nc2n_f = OpArgT.nc_f
op2_arg_t OpCode.push_nc2n_d = OpArgT.nc_d
op2_arg_t OpCode.ctelt_nc2n = OpArgT.nc_us
op2_arg_t OpCode.swap_uu2uu = OpArgT.none
op2_arg_t OpCode.pop_u = OpArgT.none
op2_arg_t OpCode.pop_uu = OpArgT.none
op2_arg_t OpCode.cvt_u2b = OpArgT.none
op2_arg_t OpCode.cvt_u2s = OpArgT.none
op2_arg_t OpCode.cvt_u2n = OpArgT.none
op2_arg_t OpCode.or_bb2b = OpArgT.none
op2_arg_t OpCode.and_bb2b = OpArgT.none
op2_arg_t OpCode.not_b2b = OpArgT.none
op2_arg_t OpCode.in_uu2b = OpArgT.none
op2_arg_t OpCode.add_nn2n = OpArgT.none
op2_arg_t OpCode.sub_nn2n = OpArgT.none
op2_arg_t OpCode.mul_nn2n = OpArgT.none
op2_arg_t OpCode.div_nn2n = OpArgT.none
op2_arg_t OpCode.rem_nn2n = OpArgT.none
op2_arg_t OpCode.substr_ss2b = OpArgT.none
op2_arg_t OpCode.cmp_uu2n = OpArgT.none
op2_arg_t OpCode.eqz_n2b = OpArgT.none
op2_arg_t OpCode.nez_n2b = OpArgT.none
op2_arg_t OpCode.lez_n2b = OpArgT.none
op2_arg_t OpCode.ltz_n2b = OpArgT.none
op2_arg_t OpCode.gez_n2b = OpArgT.none
op2_arg_t OpCode.gtz_n2b = OpArgT.none
op2_arg_t OpCode.if_t_b2b = OpArgT.lbl
op2_arg_t OpCode.if_f_b2b = OpArgT.lbl
op2_arg_t OpCode.goto = OpArgT.lbl
op2_arg_t OpCode.label = OpArgT.sc
op2_arg_t OpCode.wkp_nc2u = OpArgT.nc_us
op2_arg_t OpCode.special_sc2u = OpArgT.sc
op2_arg_t OpCode.compend = OpArgT.none
op2_arg_t OpCode.default_x2b = OpArgT.none
op2_arg_t OpCode.exist_x2b = OpArgT.none
op2_arg_t OpCode.dot_len_u2n_l = OpArgT.none
op2_arg_t OpCode.dot_d_u2u = OpArgT.none
op2_arg_t OpCode.dot_tid_u2s = OpArgT.none
op2_arg_t OpCode.dot_rid_u2s = OpArgT.none
op2_arg_t OpCode.dot_id_usc2u = OpArgT.sc
op2_arg_t OpCode.dot_num_ulc2u = OpArgT.nc_l
op2_arg_t OpCode.assoc_usc2u = OpArgT.sc
op2_arg_t OpCode.index_ulc2u = OpArgT.nc_l
op2_arg_t OpCode.tagdef_u2u = OpArgT.none
op2_arg_t OpCode.tagid_usc2u = OpArgT.sc
op2_arg_t OpCode.tagnum_ulc2u = OpArgT.nc_l
op2_arg_t OpCode.tagchar_usc2u = OpArgT.sc
op2_arg_t OpCode.tagbool_ubc2u = OpArgT.bc
op2_arg_t OpCode.debug1 = OpArgT.none
op2_arg_t OpCode.debug2 = OpArgT.none
