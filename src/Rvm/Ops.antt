-- ===== src/Rvm/Ops.antt =====
-- The ops on the values of the stack that do not look into an event (lib/RDIRVM.cc): conversions,
-- logic, arithmetic and jumps.
use omni_notify_omni_orb.Common.{
  Bool, true, false, not, ◌&&◌, ◌||◌, Option, none, some, List, [], ◌∷◌, length, ◌>>=◌,
  if◌then◌else◌,
}
use omni_notify_omni_orb.Common.Int.{ℤ}
use omni_notify_omni_orb.OpSeq.Seq.{Op, OpArg}
use omni_notify_omni_orb.Rvm.Value.{RtVal, leading_char, ushort_of_char}
use omni_notify_omni_orb.Rvm.Env.{Env}
use omni_notify_omni_orb.Rvm.Arith.{
  MachineOp, ArithResult, value, signal, trap, eval_arithop, type_mismatch,
}
use omni_notify_omni_orb.Rvm.Machine.{
  Rvm, StepOutcome, goes_on, escapes, next_op, signals, jump_target, strstr,
}

module _ {D A : Type 0} (env : Env D A) where
  -- The value that a conversion leaves, `none` for a type mismatch.
  unfoldable pub cvt_u2b : RtVal D → Option (RtVal D)
  cvt_u2b (RtVal.boolean b) = some (RtVal.boolean b)
  cvt_u2b (RtVal.dynany d) = env.api.dyn.get_boolean d >>= λ b. some (RtVal.boolean b)
  cvt_u2b _ = none

  unfoldable pub cvt_u2s : RtVal D → Option (RtVal D)
  cvt_u2s (RtVal.string t) = some (RtVal.string t)
  cvt_u2s (RtVal.char_or_string t) = some (RtVal.string t)
  cvt_u2s (RtVal.dynany d) = env.api.dyn.get_string d >>= λ t. some (RtVal.string t)
  cvt_u2s _ = none

  unfoldable pub cvt_u2n : RtVal D → Option (RtVal D)
  cvt_u2n (RtVal.short z) = some (RtVal.short z)
  cvt_u2n (RtVal.ushort n) = some (RtVal.ushort n)
  cvt_u2n (RtVal.long z) = some (RtVal.long z)
  cvt_u2n (RtVal.ulong n) = some (RtVal.ulong n)
  cvt_u2n (RtVal.float x) = some (RtVal.float x)
  cvt_u2n (RtVal.double x) = some (RtVal.double x)
  cvt_u2n (RtVal.boolean b) = some (RtVal.ushort (if b then 1 else 0))
  cvt_u2n (RtVal.char c) = some (RtVal.ushort c)
  cvt_u2n (RtVal.octet o) = some (RtVal.ushort o)
  cvt_u2n (RtVal.char_or_string t) = some (RtVal.ushort (ushort_of_char (leading_char t)))
  cvt_u2n _ = none

module _ {D A : Type 0} (env : Env D A) (ops : List Op) where
  unfoldable pub eval_swap : Rvm D → Option (StepOutcome D)
  eval_swap m = elim m.stack [
    | [] ↦ none
    | v ∷ vs ↦ elim vs [ [] ↦ none | w ∷ ws ↦ next_op env ops (record m { stack = w ∷ v ∷ ws }) ]
  ]

  unfoldable pub eval_pop_u : Rvm D → Option (StepOutcome D)
  eval_pop_u m = elim m.stack [ [] ↦ none | v ∷ vs ↦ next_op env ops (record m { stack = vs }) ]

  unfoldable pub eval_pop_uu : Rvm D → Option (StepOutcome D)
  eval_pop_uu m = elim m.stack [
    | [] ↦ none
    | v ∷ vs ↦ elim vs [ [] ↦ none | w ∷ ws ↦ next_op env ops (record m { stack = ws }) ]
  ]

  -- The three conversions of the top, with the signal.
  unfoldable pub converts : (RtVal D → Option (RtVal D)) → Rvm D → Option (StepOutcome D)
  converts f m = elim m.stack [
    | [] ↦ none
    | v ∷ vs ↦ elim (f v) [
      | none ↦ signals env ops type_mismatch m
      | some w ↦ next_op env ops (record m { stack = w ∷ vs })
    ]
  ]

  -- An op on the two booleans on top: first the one below.
  unfoldable pub logic : (Bool → Bool → Bool) → Rvm D → Option (StepOutcome D)
  logic f m = elim m.stack [
    | [] ↦ none
    | v ∷ vs ↦ elim vs [
      | [] ↦ none
      | w ∷ ws ↦ elim v [
        | RtVal.boolean r ↦ elim w [
          | RtVal.boolean l ↦ next_op env ops (record m { stack = RtVal.boolean (f l r) ∷ ws })
          | _ ↦ none
        ]
        | _ ↦ none
      ]
    ]
  ]

  unfoldable pub eval_or_bb2b : Rvm D → Option (StepOutcome D)
  unfolding logic
  eval_or_bb2b m = logic (λ l r. l || r) m

  unfoldable pub eval_and_bb2b : Rvm D → Option (StepOutcome D)
  unfolding logic
  eval_and_bb2b m = logic (λ l r. l && r) m

  unfoldable pub eval_not_b2b : Rvm D → Option (StepOutcome D)
  eval_not_b2b m = elim m.stack [
    | [] ↦ none
    | v ∷ vs ↦ elim v [
      | RtVal.boolean b ↦ next_op env ops (record m { stack = RtVal.boolean (not b) ∷ vs })
      | _ ↦ none
    ]
  ]

  -- The result of the arithmetic in place of the two operands, `rest` below them.
  unfoldable pub settles : Rvm D → List (RtVal D) → ArithResult D → Option (StepOutcome D)
  settles m rest (value v) = next_op env ops (record m { stack = v ∷ rest })
  settles m rest (signal c) = signals env ops c m
  settles m rest trap = some escapes

  -- The five arithmetic ops.
  unfoldable pub eval_arith : MachineOp → Rvm D → Option (StepOutcome D)
  unfolding settles eval_arithop
  eval_arith op m = elim m.stack [
    | [] ↦ none
    | r ∷ vs ↦ elim vs [ [] ↦ none | l ∷ rest ↦ eval_arithop env.floats op l r >>= settles m rest ]
  ]

  unfoldable pub eval_substr : Rvm D → Option (StepOutcome D)
  unfolding strstr
  eval_substr m = elim m.stack [
    | [] ↦ none
    | v ∷ vs ↦ elim vs [
      | [] ↦ none
      | w ∷ rest ↦ elim v [
        | RtVal.string r ↦ elim w [
          | RtVal.string l ↦
              next_op env ops (record m { stack = RtVal.boolean (strstr l r) ∷ rest })
          | _ ↦ none
        ]
        | _ ↦ none
      ]
    ]
  ]

  unfoldable pub jumps : ℤ → Rvm D → Option (StepOutcome D)
  unfolding jump_target
  jumps off m = jump_target (length ops) m.pc off >>= λ p. some (goes_on (record m { pc = p }))

  -- A jump where the boolean on top is `wanted`, which stays on the stack.
  unfoldable pub branch : Bool → OpArg → Rvm D → Option (StepOutcome D)
  unfolding jumps next_op
  branch wanted (OpArg.lbl off name) m = elim m.stack [
    | [] ↦ none
    | v ∷ vs ↦ elim v [
      | RtVal.boolean b ↦ if (if wanted then b else not b) then jumps off m else next_op env ops m
      | _ ↦ none
    ]
  ]
  branch wanted _ m = none

  unfoldable pub eval_if_t : OpArg → Rvm D → Option (StepOutcome D)
  unfolding branch
  eval_if_t a m = branch true a m

  unfoldable pub eval_if_f : OpArg → Rvm D → Option (StepOutcome D)
  unfolding branch
  eval_if_f a m = branch false a m

  -- After its jump, this op goes one op further.
  unfoldable pub eval_goto : OpArg → Rvm D → Option (StepOutcome D)
  unfolding jump_target next_op
  eval_goto (OpArg.lbl off name) m =
      jump_target (length ops) m.pc off >>= λ p. next_op env ops (record m { pc = p })
  eval_goto _ m = none
