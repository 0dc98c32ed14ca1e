-- ===== src/Rvm/Machine.antt =====
-- The state of RDI_RVM and the ops that do not look into an event (lib/RDIRVM.cc). The array
-- `_stack` up to `_top` is a list, top first. A failed assertion, RDI_Fatal, a read below the stack
-- or of an argument of another type is `none`.
use omni_notify_omni_orb.Common.{
  ℕ, ◌+◌, ◌%◌, ◌/◌, ◌^◌, Bool, true, false, not, ◌&&◌, ◌||◌, Option, none, some, List, [], ◌∷◌,
  length, ltb, ◌==◌, check, ◌>>◌, if◌then◌else◌,
}
use omni_notify_omni_orb.Common.Int.{ℤ, pos, negsuc, ◌+ℤ◌}
use omni_notify_omni_orb.OpSeq.Seq.{Op, OpArg, Text}
use omni_notify_omni_orb.OpSeq.Stack.{stack_size}
use omni_notify_omni_orb.Rvm.Value.{RtVal}
use omni_notify_omni_orb.Rvm.Env.{Env}
use omni_notify_omni_orb.Rvm.Arith.{ok_code, type_mismatch, none_such}

-- `_PC`, `_stack` with `_top`, and the two results.
pub record Rvm (D : Type 0) : Type 0 where
  pub pc : ℕ
  pub stack : List (RtVal D)
  pub r_code : ℕ
  pub r_bool : Bool

-- What an op leads to: the next op, the end of the evaluation, or an exception or a trap that
-- leaves `eval`.
pub data StepOutcome (D : Type 0) : Type 0 where
  goes_on : Rvm D → StepOutcome D
  returns : Rvm D → StepOutcome D
  escapes : StepOutcome D

-- An element of $curtime to push, or the signal that stands in its place.
pub data CurTime (D : Type 0) : Type 0 where
  pushed : RtVal D → CurTime D
  signalled : ℕ → CurTime D
  nothing : CurTime D

abbrev pub is_zero_ℤ : ℤ → Bool
is_zero_ℤ (pos n) = n == 0
is_zero_ℤ (negsuc n) = false

abbrev pub in_array : ℕ → ℤ → Option ℕ
in_array len (pos n) = check (ltb n len) >> some n
in_array len (negsuc n) = none

-- The target of a jump, with its assertions.
unfoldable pub jump_target : ℕ → ℕ → ℤ → Option ℕ
jump_target len pc off = check (not (is_zero_ℤ off)) >> in_array len (pos pc +ℤ off)

-- strstr(t, s) != 0
unfoldable pub begins : Text → Text → Bool
begins [] t = true
begins (x ∷ s) [] = false
begins (x ∷ s) (y ∷ t) = (x == y) && begins s t

unfoldable pub strstr : Text → Text → Bool
unfolding begins
strstr s [] = begins s []
strstr s (y ∷ t) = begins s (y ∷ t) || strstr s t

module _ {D A : Type 0} (env : Env D A) (ops : List Op) where
  -- RDI_NEXT_OP
  unfoldable pub next_op : Rvm D → Option (StepOutcome D)
  next_op m = check (ltb (m.pc + 1) (length ops)) >> some (goes_on (record m { pc = m.pc + 1 }))

  -- RDI_CLEANUP_SIGNAL and RDI_CLEANUP_RETURN, after `r_code` is set.
  abbrev pub cleanup : Rvm D → Option (StepOutcome D)
  cleanup m = some (returns (record m { stack = [] }))

  abbrev pub signals : ℕ → Rvm D → Option (StepOutcome D)
  signals c m = cleanup (record m { r_code = c })

  -- One more value on the stack, then the next op.
  unfoldable pub push : RtVal D → Rvm D → Option (StepOutcome D)
  unfolding next_op
  push v m = check (ltb (length m.stack) stack_size) >> next_op (record m { stack = v ∷ m.stack })

  unfoldable pub eval_return_b : Rvm D → Option (StepOutcome D)
  eval_return_b m = elim m.stack [
    | [] ↦ none
    | v ∷ vs ↦ elim v [
      | RtVal.boolean b ↦ cleanup (record m { r_bool = b; r_code = ok_code })
      | _ ↦ none
    ]
  ]

  unfoldable pub eval_signal_n : Rvm D → Option (StepOutcome D)
  eval_signal_n m = elim m.stack [
    | [] ↦ none
    | v ∷ vs ↦ elim v [ RtVal.ushort n ↦ check (not (n == ok_code)) >> signals n m | _ ↦ none ]
  ]

  -- The thirteen ops that push their argument.
  unfoldable pub eval_push_cc2c : OpArg → Rvm D → Option (StepOutcome D)
  unfolding push
  eval_push_cc2c (OpArg.sc t) m = push (RtVal.char_or_string t) m
  eval_push_cc2c _ m = none

  unfoldable pub eval_push_sc2s : OpArg → Rvm D → Option (StepOutcome D)
  unfolding push
  eval_push_sc2s (OpArg.sc t) m = push (RtVal.string t) m
  eval_push_sc2s _ m = none

  unfoldable pub eval_push_ic2i : OpArg → Rvm D → Option (StepOutcome D)
  unfolding push
  eval_push_ic2i (OpArg.sc t) m = push (RtVal.enum_ident t) m
  eval_push_ic2i _ m = none

  unfoldable pub eval_push_bc2b : OpArg → Rvm D → Option (StepOutcome D)
  unfolding push
  eval_push_bc2b (OpArg.bc b) m = push (RtVal.boolean b) m
  eval_push_bc2b _ m = none

  unfoldable pub eval_push_nc_ushort : OpArg → Rvm D → Option (StepOutcome D)
  unfolding push
  eval_push_nc_ushort (OpArg.nc_us n) m = push (RtVal.ushort n) m
  eval_push_nc_ushort _ m = none

  unfoldable pub eval_push_nc2n_s : OpArg → Rvm D → Option (StepOutcome D)
  unfolding push
  eval_push_nc2n_s (OpArg.nc_s z) m = push (RtVal.short z) m
  eval_push_nc2n_s _ m = none

  unfoldable pub eval_push_nc2n_ul : OpArg → Rvm D → Option (StepOutcome D)
  unfolding push
  eval_push_nc2n_ul (OpArg.nc_ul n) m = push (RtVal.ulong n) m
  eval_push_nc2n_ul _ m = none

  unfoldable pub eval_push_nc2n_l : OpArg → Rvm D → Option (StepOutcome D)
  unfolding push
  eval_push_nc2n_l (OpArg.nc_l z) m = push (RtVal.long z) m
  eval_push_nc2n_l _ m = none

  unfoldable pub eval_push_nc2n_ull : OpArg → Rvm D → Option (StepOutcome D)
  unfolding push
  eval_push_nc2n_ull (OpArg.nc_ull n) m = push (RtVal.ulonglong n) m
  eval_push_nc2n_ull _ m = none

  unfoldable pub eval_push_nc2n_ll : OpArg → Rvm D → Option (StepOutcome D)
  unfolding push
  eval_push_nc2n_ll (OpArg.nc_ll z) m = push (RtVal.longlong z) m
  eval_push_nc2n_ll _ m = none

  unfoldable pub eval_push_nc2n_f : OpArg → Rvm D → Option (StepOutcome D)
  unfolding push
  eval_push_nc2n_f (OpArg.nc_f x) m = push (RtVal.float x) m
  eval_push_nc2n_f _ m = none

  unfoldable pub eval_push_nc2n_d : OpArg → Rvm D → Option (StepOutcome D)
  unfolding push
  eval_push_nc2n_d (OpArg.nc_d x) m = push (RtVal.double x) m
  eval_push_nc2n_d _ m = none

  -- The element of $curtime with a number of RDI_CurTimeElt; without server QoS the inaccuracies
  -- are 0.
  unfoldable pub curtime_element : ℕ → CurTime D
  curtime_element e =
      let inacc : ℕ × ℕ = elim env.event.clock_inacc [ none ↦ (0, 0) | some p ↦ p ] in
      let t = env.event.timestamp in
      if e == 0
      then signalled none_such
      else if e == 1
      then signalled type_mismatch
      else if e == 2
      then pushed (RtVal.ulonglong t)
      else if e == 3
      then pushed (RtVal.ulong (t % 2 ^ 32))
      else if e == 4
      then pushed (RtVal.ulong (t / 2 ^ 32))
      else if e == 5
      then pushed (RtVal.ulong inacc.0)
      else if e == 6
      then pushed (RtVal.ushort inacc.1)
      else if e == 7
      then pushed (RtVal.short env.event.tdf)
      else nothing

  unfoldable pub push_curtime : Rvm D → CurTime D → Option (StepOutcome D)
  unfolding push next_op
  push_curtime m (pushed v) = push v m
  push_curtime m (signalled c) = signals c m
  push_curtime m nothing = next_op m

  unfoldable pub eval_ctelt : OpArg → Rvm D → Option (StepOutcome D)
  unfolding curtime_element push_curtime
  eval_ctelt (OpArg.nc_us e) m = push_curtime m (curtime_element e)
  eval_ctelt _ m = none
