-- ===== src/OpSeq/Seq.antt =====
-- RDI_Op, and RDI_OpSeq with append and the three requirement methods (lib/RDIOpSeq.cc). Strings are
-- lists of character codes and are copied by value. `_maxtop` and `_stackT_descr`, which only the
-- debugging output reads, are left out.
use omni_notify_omni_orb.Common.{
  ℕ, ◌+◌, Bool, true, false, Option, none, some, List, [], ◌∷◌, ltb, length, check, ◌>>=◌, ◌>>◌,
  if◌then◌else◌, reverse,
}
use omni_notify_omni_orb.Common.Int.{ℤ}
use omni_notify_omni_orb.OpSeq.Codes.{StaticT, OpCode}
use omni_notify_omni_orb.OpSeq.Stack.{Stack, check_pre, model_effect}

-- RDI_Eval_OPSEQ_SIZE
abbrev pub opseq_size : ℕ
opseq_size = 2048

abbrev pub Text : Type 0
Text = List ℕ

-- RDI_OpArg with its tag RDI_OpArgT; a float or a double is held by its bit pattern. A label is
-- RDI_OpLabel: an offset relative to the op, and a name.
pub data OpArg : Type 0 where
  no_arg : OpArg
  sc : Text → OpArg
  bc : Bool → OpArg
  nc_us : ℕ → OpArg
  nc_s : ℤ → OpArg
  nc_ul : ℕ → OpArg
  nc_l : ℤ → OpArg
  nc_ull : ℕ → OpArg
  nc_ll : ℤ → OpArg
  nc_f nc_d : ℕ → OpArg
  lbl : ℤ → Text → OpArg

pub record Op : Type 0 where
  pub code : OpCode
  pub arg : OpArg

-- RDI_Op(RDI_OpCode c)
abbrev pub plain_op : OpCode → Op
plain_op c = record { code = c; arg = OpArg.no_arg }

-- `_op` up to `_opstail`, last op first, and `_stackT` up to `_top`, top first.
pub record OpSeq : Type 0 where
  pub rev_ops : List Op
  pub stack_t : Stack

-- The ops in the order of the array.
abbrev pub ops : OpSeq → List Op
ops s = reverse s.rev_ops

-- RDI_OpSeq() and clearops
abbrev pub empty_seq : OpSeq
empty_seq = record { rev_ops = []; stack_t = [] }

unfoldable pub append : OpSeq → Op → Option OpSeq
append s op = do
  check_pre op.code s.stack_t
  check (ltb (length s.rev_ops) opseq_size)
  st ← model_effect op.code s.stack_t
  some (record { rev_ops = op ∷ s.rev_ops; stack_t = st })

unfoldable pub append_each : OpSeq → List Op → Option OpSeq
append_each s [] = some s
append_each s (op ∷ os) = append s op >>= λ t. append_each t os

-- append(RDI_OpSeq* s)
unfoldable pub append_seq : OpSeq → OpSeq → Option OpSeq
unfolding append_each
append_seq s t = append_each s (ops t)

-- The messages of the requirement methods, without the error context that they begin with.
pub data Mismatch : Type 0 where
  found_ident found_string : OpArg → Mismatch
  found_bool found_char found_text found_number : Mismatch

-- A requirement method leaves the sequence, perhaps changed, or sets `err` and writes a message.
pub data Required : Type 0 where
  fine : OpSeq → Required
  mismatch : Mismatch → Required

abbrev pub appended : OpSeq → OpCode → Option Required
appended s c = append s (plain_op c) >>= λ t. some (fine t)

-- The argument of the last op; the array is not read below its start.
unfoldable pub last_arg : List Op → OpArg
last_arg [] = OpArg.no_arg
last_arg (op ∷ os) = op.arg

-- (CORBA::UShort) of the first character, a signed char; an empty string begins with its terminator.
unfoldable pub first_char : Text → ℕ
first_char [] = 0
first_char (ch ∷ cs) = if ltb ch 128 then ch else ch + 65280

unfoldable pub bool_ushort : Bool → ℕ
bool_ushort true = 1
bool_ushort false = 0

abbrev pub push_ushort : ℕ → Op
push_ushort us = record { code = OpCode.push_nc_ushort; arg = OpArg.nc_us us }

abbrev pub is_push_bool : OpCode → Bool
is_push_bool OpCode.push_bc2b = true
is_push_bool _ = false

abbrev pub is_push_char : OpCode → Bool
is_push_char OpCode.push_cc2c = true
is_push_char _ = false

-- `_v_bc` and `_v_sc` of an op that has such an argument.
unfoldable pub bool_arg : OpArg → Option Bool
bool_arg (OpArg.bc x) = some x
bool_arg _ = none

unfoldable pub text_arg : OpArg → Option Text
text_arg (OpArg.sc x) = some x
text_arg _ = none

-- A bool where a number is required: a constant that was just pushed becomes a number constant,
-- any other is converted at run time.
unfoldable pub n_from_bool : List Op → Stack → Option Required
unfolding append bool_arg bool_ushort
n_from_bool [] st = none
n_from_bool (op ∷ os) st =
    if is_push_bool op.code
    then bool_arg op.arg >>= (λ x.
      some (fine (record { rev_ops = push_ushort (bool_ushort x) ∷ os; stack_t = StaticT.n ∷ st })))
    else appended (record { rev_ops = op ∷ os; stack_t = StaticT.b ∷ st }) OpCode.cvt_u2n

-- A character where a number is required becomes a number constant.
unfoldable pub n_from_char : List Op → Stack → Option Required
unfolding text_arg first_char
n_from_char [] st = none
n_from_char (op ∷ os) st = do
  check (is_push_char op.code)
  x ← text_arg op.arg
  some (fine (record { rev_ops = push_ushort (first_char x) ∷ os; stack_t = StaticT.n ∷ st }))

-- A character where a string is required becomes a string constant.
unfoldable pub s_from_char : List Op → Stack → Option Required
s_from_char [] st = none
s_from_char (op ∷ os) st = do
  check (is_push_char op.code)
  some (
      fine
        (record { rev_ops = record op { code = OpCode.push_sc2s } ∷ os; stack_t = StaticT.s ∷ st }))

unfoldable pub n_required_on : OpSeq → Stack → Option Required
unfolding last_arg
n_required_on s [] = none
n_required_on s (StaticT.n ∷ st) = some (fine s)
n_required_on s (StaticT.n_ushort ∷ st) = some (fine s)
n_required_on s (StaticT.u ∷ st) = appended s OpCode.cvt_u2n
n_required_on s (StaticT.b ∷ st) = n_from_bool s.rev_ops st
n_required_on s (StaticT.c ∷ st) = n_from_char s.rev_ops st
n_required_on s (StaticT.i ∷ st) = some (mismatch (found_ident (last_arg s.rev_ops)))
n_required_on s (StaticT.s ∷ st) = some (mismatch (found_string (last_arg s.rev_ops)))

unfoldable pub n_required : OpSeq → Option Required
unfolding n_required_on
n_required s = n_required_on s s.stack_t

unfoldable pub s_required_on : OpSeq → Stack → Option Required
unfolding last_arg
s_required_on s [] = none
s_required_on s (StaticT.s ∷ st) = some (fine s)
s_required_on s (StaticT.u ∷ st) = appended s OpCode.cvt_u2s
s_required_on s (StaticT.c ∷ st) = s_from_char s.rev_ops st
s_required_on s (StaticT.i ∷ st) = some (mismatch (found_ident (last_arg s.rev_ops)))
s_required_on s (StaticT.b ∷ st) = some (mismatch found_bool)
s_required_on s (StaticT.n ∷ st) = some (mismatch found_number)
s_required_on s (StaticT.n_ushort ∷ st) = some (mismatch found_number)

unfoldable pub s_required : OpSeq → Option Required
unfolding s_required_on
s_required s = s_required_on s s.stack_t

unfoldable pub b_required_on : OpSeq → Stack → Option Required
unfolding last_arg
b_required_on s [] = none
b_required_on s (StaticT.b ∷ st) = some (fine s)
b_required_on s (StaticT.u ∷ st) = appended s OpCode.cvt_u2b
b_required_on s (StaticT.i ∷ st) = some (mismatch (found_ident (last_arg s.rev_ops)))
b_required_on s (StaticT.c ∷ st) = some (mismatch found_char)
b_required_on s (StaticT.s ∷ st) = some (mismatch found_text)
b_required_on s (StaticT.n ∷ st) = some (mismatch found_number)
b_required_on s (StaticT.n_ushort ∷ st) = some (mismatch found_number)

unfoldable pub b_required : OpSeq → Option Required
unfolding b_required_on
b_required s = b_required_on s s.stack_t
