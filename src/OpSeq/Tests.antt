-- ===== src/OpSeq/Tests.antt =====
-- Runs of the op sequence's operations, and its theorems at concrete sequences.
use omni_notify_omni_orb.Common.{true, some, [], ◌++◌, ◌∷◌, ◌≡◌, refl, inl, inr, arith}
use omni_notify_omni_orb.Common.Int.{pos}
use omni_notify_omni_orb.OpSeq.Codes.{StaticT, OpCode}
use omni_notify_omni_orb.OpSeq.Stack.{is_b, is_n, is_s, check_pre, model_effect}
use omni_notify_omni_orb.OpSeq.Seq.{
  Op, OpArg, OpSeq, append, append_seq, n_required, s_required, b_required, plain_op, ops,
  n_from_bool, s_from_char,
}
use omni_notify_omni_orb.OpSeq.Safety.{IsTyped, types, append-IsTyped, append_seq-IsTyped}
use omni_notify_omni_orb.OpSeq.Required.{
  Meets, n_required-Meets, s_required-Meets, b_required-Meets,
}
use omni_notify_omni_orb.OpSeq.Jumps.{finalize}
use omni_notify_omni_orb.OpSeq.Jumps.Landing.{Lands, finalize-Lands}
use omni_notify_omni_orb.OpSeq.Jumps.Total.{finalize_total}
use omni_notify_omni_orb.OpSeq.Jumps.Final.{ReturnsBool, finalize-IsTyped}

push_true : Op
push_true = record { code = OpCode.push_bc2b; arg = OpArg.bc true }

push_a : Op
push_a = record { code = OpCode.push_cc2c; arg = OpArg.sc (b'a' ∷ []) }

jump : Op
jump = record { code = OpCode.if_t_b2b; arg = OpArg.lbl (pos 0) (b'L' ∷ []) }

label : Op
label = record { code = OpCode.label; arg = OpArg.sc (b'L' ∷ []) }

-- `true`, a conditional jump to the end, and its label.
bools : OpSeq
unfolding push_true jump label
bools = record { rev_ops = label ∷ jump ∷ push_true ∷ []; stack_t = StaticT.b ∷ [] }

one_bool : OpSeq
unfolding push_true
one_bool = record { rev_ops = push_true ∷ []; stack_t = StaticT.b ∷ [] }

one_char : OpSeq
unfolding push_a
one_char = record { rev_ops = push_a ∷ []; stack_t = StaticT.c ∷ [] }

setup : Unit {0}
unfolding bools one_bool one_char append append_seq n_required s_required b_required finalize types
    n_from_bool s_from_char check_pre model_effect
setup = tt

bools-IsTyped : IsTyped bools
unfolding setup
bools-IsTyped = record { agrees = (inl refl, tt); room = omega arith }

one_bool-IsTyped : IsTyped one_bool
unfolding setup
one_bool-IsTyped = record { agrees = (inl refl, tt); room = omega arith }

one_char-IsTyped : IsTyped one_char
unfolding setup
one_char-IsTyped = record { agrees = (inl refl, tt); room = omega arith }

abbrev bool_and_char : OpSeq
unfolding one_bool push_a
bool_and_char = record { rev_ops = push_a ∷ push_true ∷ []; stack_t = StaticT.c ∷ StaticT.b ∷ [] }

append-IsTyped_example : IsTyped bool_and_char
unfolding setup
append-IsTyped_example = append-IsTyped one_bool bool_and_char push_a one_bool-IsTyped refl

append_seq-IsTyped_example :
    IsTyped bool_and_char × (ops bool_and_char ≡ ops one_bool ++ ops one_char)
unfolding setup
append_seq-IsTyped_example =
    append_seq-IsTyped one_bool one_char bool_and_char one_bool-IsTyped refl

abbrev one_number : OpSeq
one_number = record {
  rev_ops = record { code = OpCode.push_nc_ushort; arg = OpArg.nc_us 1 } ∷ [];
  stack_t = StaticT.n ∷ [];
}

abbrev one_string : OpSeq
one_string = record {
  rev_ops = record { code = OpCode.push_sc2s; arg = OpArg.sc (b'a' ∷ []) } ∷ [];
  stack_t = StaticT.s ∷ [];
}

n_required-Meets_example : Meets is_n one_bool one_number
unfolding setup
n_required-Meets_example = n_required-Meets one_bool one_number one_bool-IsTyped refl

s_required-Meets_example : Meets is_s one_char one_string
unfolding setup
s_required-Meets_example = s_required-Meets one_char one_string one_char-IsTyped refl

b_required-Meets_example : Meets is_b one_bool one_bool
unfolding setup
b_required-Meets_example = b_required-Meets one_bool one_bool one_bool-IsTyped refl

abbrev resolved_jump : Op
resolved_jump = record { code = OpCode.if_t_b2b; arg = OpArg.lbl (pos 2) (b'L' ∷ []) }

abbrev final : OpSeq
unfolding label push_true
final = record {
  rev_ops = plain_op OpCode.return_b ∷ label ∷ resolved_jump ∷ push_true ∷ [];
  stack_t = StaticT.b ∷ [];
}

-- The jump skips the label and lands on the return that finalize added.
finalize_runs : finalize bools ≡ some final
unfolding setup
finalize_runs = refl

finalize-Lands_example : Lands (ops final) 1 (pos 2) (b'L' ∷ [])
unfolding setup
finalize-Lands_example =
    finalize-Lands bools final 1 resolved_jump (pos 2) (b'L' ∷ []) refl refl refl

finalize-IsTyped_example : IsTyped final × ReturnsBool final
unfolding setup
finalize-IsTyped_example = finalize-IsTyped bools final bools-IsTyped refl

finalize_total_example : (t : OpSeq) × (finalize bools ≡ some t)
unfolding setup
finalize_total_example =
    finalize_total bools label (jump ∷ push_true ∷ []) refl (inr (_, refl))
      (tt, (record { named = refl; label = 2; inside = omega arith; is_target = refl }, (tt, tt)))
      refl
