-- ===== src/Rvm/Step.antt =====
-- One op, and the loop of RDI_RVM::eval (lib/RDIRVM.cc) with reset (include/RDIDynamicEvalDefs.h).
use omni_notify_omni_orb.Common.{
  ℕ, zero, suc, Bool, true, false, Option, none, some, List, [], ltb, length, get_elem?, check,
  ◌>>=◌, ◌>>◌,
}
use omni_notify_omni_orb.Common.Int.{ℤ}
use omni_notify_omni_orb.OpSeq.Codes.{OpCode}
use omni_notify_omni_orb.OpSeq.Seq.{Op, OpArg, Text}
use omni_notify_omni_orb.Rvm.Value.{RtVal}
use omni_notify_omni_orb.Rvm.Env.{Env}
use omni_notify_omni_orb.Rvm.Arith.{MachineOp, undefined_code, type_mismatch, none_such}
use omni_notify_omni_orb.Rvm.Machine.{
  Rvm, StepOutcome, goes_on, returns, escapes, next_op, eval_return_b, eval_signal_n,
  eval_push_cc2c, eval_push_sc2s, eval_push_ic2i, eval_push_bc2b, eval_push_nc_ushort,
  eval_push_nc2n_s, eval_push_nc2n_ul, eval_push_nc2n_l, eval_push_nc2n_ull, eval_push_nc2n_ll,
  eval_push_nc2n_f, eval_push_nc2n_d, eval_ctelt,
}
use omni_notify_omni_orb.Rvm.Ops.{
  eval_swap, eval_pop_u, eval_pop_uu, converts, cvt_u2b, cvt_u2s, cvt_u2n, eval_or_bb2b,
  eval_and_bb2b, eval_not_b2b, eval_arith, eval_substr, eval_if_t, eval_if_f, eval_goto,
}
use omni_notify_omni_orb.Rvm.Compare.{ZeroTest, eval_zero_test, eval_cmp_uu2n}
use omni_notify_omni_orb.Rvm.Parts.{
  PartResult, walk_part, of_dynany, dot_len, dot_d, type_text, dot_id, dot_num, assoc, index,
  tagdef, tagid, tagnum, tagchar, tagbool, eval_wkp, eval_special, eval_compend, eval_default,
  eval_exist,
}
use omni_notify_omni_orb.Rvm.Contain.{eval_in_uu2b}

-- The arguments of the part ops; `none` for an argument of another type.
abbrev pub with_text : {B : Type 0} → OpArg → (Text → Option B) → Option B
with_text (OpArg.sc t) f = f t
with_text _ f = none

abbrev pub with_long : {B : Type 0} → OpArg → (ℤ → Option B) → Option B
with_long (OpArg.nc_l z) f = f z
with_long _ f = none

abbrev pub with_bool : {B : Type 0} → OpArg → (Bool → Option B) → Option B
with_bool (OpArg.bc b) f = f b
with_bool _ f = none

-- The op walks from a component to a part of it.
abbrev pub is_part : OpCode → Bool
is_part OpCode.dot_len_u2n_l = true
is_part OpCode.dot_d_u2u = true
is_part OpCode.dot_tid_u2s = true
is_part OpCode.dot_rid_u2s = true
is_part OpCode.dot_id_usc2u = true
is_part OpCode.dot_num_ulc2u = true
is_part OpCode.assoc_usc2u = true
is_part OpCode.index_ulc2u = true
is_part OpCode.tagdef_u2u = true
is_part OpCode.tagid_usc2u = true
is_part OpCode.tagnum_ulc2u = true
is_part OpCode.tagchar_usc2u = true
is_part OpCode.tagbool_ubc2u = true
is_part _ = false

-- The op ends a component.
abbrev pub is_end : OpCode → Bool
is_end OpCode.compend = true
is_end OpCode.default_x2b = true
is_end OpCode.exist_x2b = true
is_end _ = false

module _ {D A : Type 0} (env : Env D A) where
  -- What a part op makes of the top.
  unfoldable pub part_of : OpCode → OpArg → RtVal D → Option (PartResult D)
  unfolding dot_len dot_d dot_id dot_num assoc index tagdef tagid tagnum tagchar tagbool
  part_of OpCode.dot_len_u2n_l a v = of_dynany env none_such (dot_len env) v
  part_of OpCode.dot_d_u2u a v = of_dynany env type_mismatch (dot_d env) v
  part_of OpCode.dot_tid_u2s a v = type_text env env.api.name env.basics.basic_name v
  part_of OpCode.dot_rid_u2s a v = type_text env env.api.id env.basics.basic_id v
  part_of OpCode.dot_id_usc2u a v = with_text a λ t. of_dynany env type_mismatch (dot_id env t) v
  part_of OpCode.dot_num_ulc2u a v = with_long a λ z. of_dynany env type_mismatch (dot_num env z) v
  part_of OpCode.assoc_usc2u a v = with_text a λ t. of_dynany env type_mismatch (assoc env t) v
  part_of OpCode.index_ulc2u a v = with_long a λ z. of_dynany env type_mismatch (index env z) v
  part_of OpCode.tagdef_u2u a v = of_dynany env type_mismatch (tagdef env) v
  part_of OpCode.tagid_usc2u a v = with_text a λ t. of_dynany env type_mismatch (tagid env t) v
  part_of OpCode.tagnum_ulc2u a v = with_long a λ z. of_dynany env type_mismatch (tagnum env z) v
  part_of OpCode.tagchar_usc2u a v = with_text a λ t. of_dynany env type_mismatch (tagchar env t) v
  part_of OpCode.tagbool_ubc2u a v = with_bool a λ b. of_dynany env type_mismatch (tagbool env b) v
  part_of _ a v = none

module _ {D A : Type 0} (env : Env D A) (ops : List Op) where
  -- The cases of the switch in `eval`.
  unfoldable pub step : OpCode → OpArg → Rvm D → Option (StepOutcome D)
  unfolding walk_part part_of
  step OpCode.nop a m = next_op env ops m
  step OpCode.return_b a m = eval_return_b env ops m
  step OpCode.signal_n a m = eval_signal_n env ops m
  step OpCode.push_cc2c a m = eval_push_cc2c env ops a m
  step OpCode.push_sc2s a m = eval_push_sc2s env ops a m
  step OpCode.push_ic2i a m = eval_push_ic2i env ops a m
  step OpCode.push_bc2b a m = eval_push_bc2b env ops a m
  step OpCode.push_nc_ushort a m = eval_push_nc_ushort env ops a m
  step OpCode.push_nc2n_s a m = eval_push_nc2n_s env ops a m
  step OpCode.push_nc2n_ul a m = eval_push_nc2n_ul env ops a m
  step OpCode.push_nc2n_l a m = eval_push_nc2n_l env ops a m
  step OpCode.push_nc2n_ull a m = eval_push_nc2n_ull env ops a m
  step OpCode.push_nc2n_ll a m = eval_push_nc2n_ll env ops a m
  step OpCode.push_nc2n_f a m = eval_push_nc2n_f env ops a m
  step OpCode.push_nc2n_d a m = eval_push_nc2n_d env ops a m
  step OpCode.ctelt_nc2n a m = eval_ctelt env ops a m
  step OpCode.swap_uu2uu a m = eval_swap env ops m
  step OpCode.pop_u a m = eval_pop_u env ops m
  step OpCode.pop_uu a m = eval_pop_uu env ops m
  step OpCode.cvt_u2b a m = converts env ops (cvt_u2b env) m
  step OpCode.cvt_u2s a m = converts env ops (cvt_u2s env) m
  step OpCode.cvt_u2n a m = converts env ops (cvt_u2n env) m
  step OpCode.or_bb2b a m = eval_or_bb2b env ops m
  step OpCode.and_bb2b a m = eval_and_bb2b env ops m
  step OpCode.not_b2b a m = eval_not_b2b env ops m
  step OpCode.in_uu2b a m = eval_in_uu2b env ops m
  step OpCode.add_nn2n a m = eval_arith env ops MachineOp.add m
  step OpCode.sub_nn2n a m = eval_arith env ops MachineOp.sub m
  step OpCode.mul_nn2n a m = eval_arith env ops MachineOp.mul m
  step OpCode.div_nn2n a m = eval_arith env ops MachineOp.div m
  step OpCode.rem_nn2n a m = eval_arith env ops MachineOp.rem m
  step OpCode.substr_ss2b a m = eval_substr env ops m
  step OpCode.cmp_uu2n a m = eval_cmp_uu2n env ops m
  step OpCode.eqz_n2b a m = eval_zero_test env ops ZeroTest.eqz m
  step OpCode.nez_n2b a m = eval_zero_test env ops ZeroTest.nez m
  step OpCode.lez_n2b a m = eval_zero_test env ops ZeroTest.lez m
  step OpCode.ltz_n2b a m = eval_zero_test env ops ZeroTest.ltz m
  step OpCode.gez_n2b a m = eval_zero_test env ops ZeroTest.gez m
  step OpCode.gtz_n2b a m = eval_zero_test env ops ZeroTest.gtz m
  step OpCode.if_t_b2b a m = eval_if_t env ops a m
  step OpCode.if_f_b2b a m = eval_if_f env ops a m
  step OpCode.goto a m = eval_goto env ops a m
  step OpCode.label a m = next_op env ops m
  step OpCode.wkp_nc2u a m = eval_wkp env ops a m
  step OpCode.special_sc2u a m = eval_special env ops a m
  step OpCode.compend a m = eval_compend env ops m
  step OpCode.default_x2b a m = eval_default env ops m
  step OpCode.exist_x2b a m = eval_exist env ops m
  step OpCode.debug1 a m = next_op env ops m
  step OpCode.debug2 a m = next_op env ops m
  step code a m = walk_part env ops (part_of env code a) m

  unfoldable pub step_at : Rvm D → Option (StepOutcome D)
  unfolding step
  step_at m = get_elem? ops m.pc >>= λ op. step op.code op.arg m

-- How an evaluation ends: with its results, by an exception or a trap, or not within the fuel.
pub data Verdict (D : Type 0) : Type 0 where
  ended : Rvm D → Verdict D
  escaped : Verdict D
  unfinished : Verdict D

module _ {D A : Type 0} (env : Env D A) (ops : List Op) where
  -- The `while` loop of `eval`, in at most so many rounds.
  unfoldable pub run : ℕ → Rvm D → Option (Verdict D)
  unfolding step_at
  run zero m = some unfinished
  run (suc f) m =
      let later : Rvm D → Option (Verdict D) = run f in
      step_at env ops m >>= λ o. elim o [
        | goes_on m' ↦ later m'
        | returns m' ↦ some (ended m')
        | escapes ↦ some escaped
      ]

  -- reset
  abbrev pub reset : Rvm D
  reset = record { pc = 0; stack = []; r_code = undefined_code; r_bool = false }

  -- RDI_RVM::eval; the sequence is not empty.
  unfoldable pub eval : ℕ → Option (Verdict D)
  unfolding run
  eval fuel = check (ltb 0 (length ops)) >> run fuel reset
