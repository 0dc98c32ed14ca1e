-- ===== src/OpSeq/Codes.antt =====
-- The instruction set of the constraint evaluator: the enumerations of include/RDIEvalDefs.h. The
-- names are the source's without their `RDI_..._` prefix; a capital N (a number known to be an
-- unsigned short) is `n_ushort`.

-- RDI_StaticT
pub data StaticT : Type 0 where
  b c i n n_ushort s u : StaticT

-- RDI_OpCode
pub data OpCode : Type 0 where
  nop return_b signal_n push_cc2c push_sc2s push_ic2i push_bc2b push_nc_ushort : OpCode
  push_nc2n_s push_nc2n_ul push_nc2n_l push_nc2n_ull push_nc2n_ll push_nc2n_f : OpCode
  push_nc2n_d ctelt_nc2n swap_uu2uu pop_u pop_uu cvt_u2b cvt_u2s cvt_u2n or_bb2b : OpCode
  and_bb2b not_b2b in_uu2b add_nn2n sub_nn2n mul_nn2n div_nn2n rem_nn2n substr_ss2b : OpCode
  cmp_uu2n eqz_n2b nez_n2b lez_n2b ltz_n2b gez_n2b gtz_n2b if_t_b2b if_f_b2b goto : OpCode
  label wkp_nc2u special_sc2u compend default_x2b exist_x2b dot_len_u2n_l dot_d_u2u : OpCode
  dot_tid_u2s dot_rid_u2s dot_id_usc2u dot_num_ulc2u assoc_usc2u index_ulc2u : OpCode
  tagdef_u2u tagid_usc2u tagnum_ulc2u tagchar_usc2u tagbool_ubc2u debug1 debug2 : OpCode

-- RDI_OpArgT
pub data OpArgT : Type 0 where
  none sc bc nc_us nc_s nc_ul nc_l nc_ull nc_ll nc_f nc_d lbl : OpArgT

-- RDI_StackPre: `one` and `two` are X and XX, `two_u` is Xu.
pub data StackPre : Type 0 where
  none one two two_u b n n_ushort u bb ss nn : StackPre

-- RDI_StackEffect: `drop_one`, `drop_two` are X and XX, and `x_to_b` is X2b.
pub data StackEffect : Type 0 where
  none drop_one drop_two swap : StackEffect
  to_b to_c to_i to_n to_n_ushort to_s to_u : StackEffect
  x_to_b x_to_n x_to_s x_to_u xx_to_b xx_to_n : StackEffect
