-- ===== src/Rvm/Tests.antt =====
-- A constraint, `$.a > 3 or FALSE` as it is compiled, for the
-- machine of lib/RDIRVM.cc.
mod Sample
use omni_notify_omni_orb.Common.{
  ℕ, zero, suc, ◌+◌, ◌<◌, Bool, true, false, Option, none, some, List, [], ◌∷◌, length, ◌≡◌, ◌⊎◌,
  inl, inr, refl, sym, subst, get_elem?, some_eq, arith, ◌∙◌, ◌==◌, ltb, not,
}
use omni_notify_omni_orb.Common.Int.{ℤ, pos, negsuc, ◌+ℤ◌}
use omni_notify_omni_orb.OpSeq.Codes.{StaticT, OpCode}
use omni_notify_omni_orb.OpSeq.Seq.{Op, OpArg, Text, plain_op}
use omni_notify_omni_orb.OpSeq.Stack.{
  Stack, check_pre, model_effect, require, effect, require_one, require_two, push_type, retype_top,
  retype_two,
}
use omni_notify_omni_orb.OpSeq.Tables.{op2_arg_t, op2_stack_pre, op2_stack_effect}
use omni_notify_omni_orb.OpSeq.Jumps.{has_arg_t}
use omni_notify_omni_orb.Rvm.Value.{RtVal, kind_of}
use omni_notify_omni_orb.Rvm.Env.{
  Env, Floats, TcKind, Getters, DynApi, BasicTypes, EventView, is_any,
}
use omni_notify_omni_orb.Rvm.Machine.{jump_target}
use omni_notify_omni_orb.Rvm.Step.{is_part, is_end, eval, run, step_at, step}
use omni_notify_omni_orb.Rvm.Typing.{IsSound, Lands, looks_up, is_component}
use omni_notify_omni_orb.Rvm.Safety.Conversions.{Stays}
use omni_notify_omni_orb.Rvm.Program.{
  OpFits, IsProgram, Finishes, is_signal, PushesError, CurTimeOk, eval-Finishes, straight-OpFits,
  EachFits, fits_at,
}
use omni_notify_omni_orb.Rvm.Tests.Sample.{
  Thing, leaf, box, any_of, sample_env, sample-IsSound, thing_api, wholes, name_a,
}
use omni_notify_omni_orb.Rvm.Arith.{MachineOp, eval_arithop}
use omni_notify_omni_orb.Rvm.Env.{simplify}
use omni_notify_omni_orb.Common.{Returns}
use omni_notify_omni_orb.Rvm.Typing.{machine}
use omni_notify_omni_orb.Rvm.Numbers.{Computes, eval_arithop-Returns}
use omni_notify_omni_orb.Rvm.Opens.{Opens, simplify-Opens}
use omni_notify_omni_orb.Rvm.Safety.Plain.{Good}
use omni_notify_omni_orb.Rvm.Safety.Steps.{step-Follows}

abbrev sample_ops : List Op
sample_ops =
    record { code = OpCode.wkp_nc2u; arg = OpArg.nc_us 0 }
    ∷ record { code = OpCode.dot_id_usc2u; arg = OpArg.sc name_a }
    ∷ plain_op OpCode.compend
    ∷ plain_op OpCode.cvt_u2n
    ∷ record { code = OpCode.push_nc2n_ul; arg = OpArg.nc_ul 3 }
    ∷ plain_op OpCode.cmp_uu2n
    ∷ plain_op OpCode.gtz_n2b
    ∷ record { code = OpCode.if_t_b2b; arg = OpArg.lbl (pos 4) (b'L' ∷ []) }
    ∷ record { code = OpCode.push_bc2b; arg = OpArg.bc false }
    ∷ plain_op OpCode.or_bb2b
    ∷ record { code = OpCode.label; arg = OpArg.sc (b'L' ∷ []) }
    ∷ plain_op OpCode.return_b
    ∷ []

abbrev sample_list : List Stack
sample_list =
    []
    ∷ (StaticT.u ∷ [])
    ∷ (StaticT.u ∷ [])
    ∷ (StaticT.u ∷ [])
    ∷ (StaticT.n ∷ [])
    ∷ (StaticT.n ∷ StaticT.n ∷ [])
    ∷ (StaticT.n ∷ [])
    ∷ (StaticT.b ∷ [])
    ∷ (StaticT.b ∷ [])
    ∷ (StaticT.b ∷ StaticT.b ∷ [])
    ∷ (StaticT.b ∷ [])
    ∷ (StaticT.b ∷ [])
    ∷ (StaticT.b ∷ [])
    ∷ []

abbrev sample_types : ℕ → Stack
sample_types pc = elim (get_elem? sample_list pc) [ none ↦ [] | some st ↦ st ]

-- An op of the sample that only goes on, and the next one.
straight :
    (pc : ℕ) (op next : Op)
    → ((p : ℕ) → Lands 12 op.code op.arg pc p → p ≡ pc + 1)
    → has_arg_t (op2_arg_t op.code) op.arg ≡ true
    → CurTimeOk op.code op.arg
    → Stays 12 op.code op.arg pc
    → check_pre op.code (sample_types pc) ≡ some tt
    → model_effect op.code (sample_types pc) ≡ some (sample_types (pc + 1))
    → get_elem? sample_ops (pc + 1) ≡ some next
    → (looks_up op.code ≡ true → (is_part next.code ≡ true) ⊎ (is_end next.code ≡ true))
    → is_signal next.code ≡ false
    → OpFits sample_ops sample_types pc op
straight pc op next only q k room pre eff there follows plain =
    straight-OpFits sample_ops sample_types pc op only q k room pre eff (λ x at.
      let same : next ≡ x = some_eq (sym there ∙ at) in
      subst
        (λ y.
          ((looks_up op.code ≡ true) → (is_part y.code ≡ true) ⊎ (is_end y.code ≡ true))
          × (is_signal y.code ≡ true → PushesError op))
        same (follows, λ e. cc))

abbrev op_at : ℕ → Op
op_at pc = elim (get_elem? sample_ops pc) [ none ↦ plain_op OpCode.nop | some op ↦ op ]

jump-Lands : (p : ℕ) → Lands 12 OpCode.if_t_b2b (op_at 7).arg 7 p → (p ≡ 8) ⊎ (p ≡ 11)
unfolding jump_target ◌+ℤ◌
jump-Lands p (inl e) = inl e
jump-Lands p (inr e) = inr (sym (some_eq e))

-- What holds after the jump holds at the two ops it may go to.
at_either :
    (P : ℕ → Type 0) → P 8 → P 11 → (p : ℕ) → Lands 12 OpCode.if_t_b2b (op_at 7).arg 7 p → P p
at_either P x y p l = elim (jump-Lands p l) [
  | inl e ↦ subst P (sym e) x
  | inr e ↦ subst P (sym e) y
]

jump_fits : OpFits sample_ops sample_types 7 (op_at 7)
unfolding has_arg_t op2_arg_t check_pre require op2_stack_pre model_effect effect op2_stack_effect
    require_one jump_target ◌+ℤ◌
jump_fits = record {
  left = StaticT.b ∷ [];
  argument = refl;
  element = tt;
  stays = (omega arith, 11, refl);
  before = refl;
  after = refl;
  lands_on = at_either (λ p. sample_types p ≡ StaticT.b ∷ []) refl refl;
  forward = at_either (λ p. 7 < p) (omega arith) (omega arith);
  followed = λ p next l at e. cc;
  signalled = λ p next l at.
      at_either
        (λ k.
          get_elem? sample_ops k ≡ some next → is_signal next.code ≡ true → PushesError (op_at 7))
        (λ e f. absurd (no_signal (op_at 8) next refl e f))
        (λ e f. absurd (no_signal (op_at 11) next refl e f)) p l at;
}
  where
    no_signal :
        (x y : Op) → is_signal x.code ≡ false → some x ≡ some y → is_signal y.code ≡ true → ⊥
    no_signal x y h e f = cc

sample_each : EachFits sample_ops sample_types 0 sample_ops
unfolding has_arg_t op2_arg_t check_pre require op2_stack_pre model_effect effect op2_stack_effect
    require_one require_two push_type retype_top retype_two jump_target
sample_each = (
  straight 0 (op_at 0) (op_at 1) (λ p l. l) refl tt (omega arith) refl refl refl (λ e. inl refl)
      refl,
  (
    straight 1 (op_at 1) (op_at 2) (λ p l. l) refl tt (omega arith) refl refl refl (λ e. inr refl)
        refl,
    (
      straight 2 (op_at 2) (op_at 3) (λ p l. l) refl tt (omega arith) refl refl refl (λ e. cc) refl,
      (
        straight 3 (op_at 3) (op_at 4) (λ p l. l) refl tt (omega arith) refl refl refl (λ e. cc)
            refl,
        (
          straight 4 (op_at 4) (op_at 5) (λ p l. l) refl tt (omega arith) refl refl refl (λ e. cc)
              refl,
          (
            straight 5 (op_at 5) (op_at 6) (λ p l. l) refl tt (omega arith) refl refl refl (λ e. cc)
                refl,
            (
              straight 6 (op_at 6) (op_at 7) (λ p l. l) refl tt (omega arith) refl refl refl
                  (λ e. cc) refl,
              (
                jump_fits,
                (
                  straight 8 (op_at 8) (op_at 9) (λ p l. l) refl tt (omega arith) refl refl refl
                      (λ e. cc) refl,
                  (
                    straight 9 (op_at 9) (op_at 10) (λ p l. l) refl tt (omega arith) refl refl refl
                        (λ e. cc) refl,
                    (
                      straight 10 (op_at 10) (op_at 11) (λ p l. l) refl tt (omega arith) refl refl
                          refl (λ e. cc) refl,
                      (
                        straight-OpFits sample_ops sample_types 11 (op_at 11) (λ p l. l) refl tt tt
                            refl refl (λ x at. cc),
                        tt,
                      ),
                    ),
                  ),
                ),
              ),
            ),
          ),
        ),
      ),
    ),
  ),
)

sample-IsProgram : IsProgram sample_ops sample_types
sample-IsProgram = record {
  entry = refl;
  nonempty = omega arith;
  fits = λ pc op e.
      subst (λ y. OpFits sample_ops sample_types y op) (plus_zero pc)
        (fits_at sample_ops sample_types 0 sample_ops sample_each pc op e);
}
  where
    plus_zero : (k : ℕ) → k + 0 ≡ k
    plus_zero k = omega arith

-- The constraint holds of the event: the member `a` is 7.
eval-Finishes_example : Finishes sample_ops (eval sample_env sample_ops (length sample_ops))
eval-Finishes_example =
    eval-Finishes sample_env sample_ops sample_types sample-IsSound sample-IsProgram

step-Follows_example :
    Good sample_env sample_ops OpCode.gtz_n2b OpArg.no_arg 6 false (StaticT.b ∷ []) (
      step sample_env sample_ops OpCode.gtz_n2b OpArg.no_arg
        (machine 6 (RtVal.short (pos 1) ∷ []) 1 false))
unfolding has_arg_t op2_arg_t check_pre require op2_stack_pre model_effect effect op2_stack_effect
    require_one retype_top
step-Follows_example =
    step-Follows sample_env sample_ops 6 false sample-IsSound OpCode.gtz_n2b OpArg.no_arg
      (StaticT.n ∷ []) (StaticT.b ∷ []) (RtVal.short (pos 1) ∷ []) refl tt (omega arith) refl refl
      (refl, tt)

eval_arithop-Returns_example :
    Returns
      (eval_arithop {D = Thing} wholes MachineOp.div (RtVal.ushort 7) (RtVal.long (negsuc 1)))
      (Computes MachineOp.div)
eval_arithop-Returns_example =
    eval_arithop-Returns wholes MachineOp.div (RtVal.ushort 7) (RtVal.long (negsuc 1)) refl refl

-- The Any around the struct is taken off.
test_simplify : simplify sample_env (RtVal.dynany (any_of 7)) ≡ some (RtVal.dynany (box 7))
unfolding simplify
test_simplify = refl

simplify-Opens_example :
    Returns
      (simplify sample_env (RtVal.dynany (any_of 7)))
      (λ v. (is_component (kind_of v) ≡ true) × Opens sample_env (any_of 7) v)
simplify-Opens_example = simplify-Opens sample_env sample-IsSound (any_of 7)
