-- ===== src/Constraint.antt =====
-- The constraint tree RDI_Constraint and its code generation (lib/RDIConstraint.cc,
-- include/RDIConstraint.h, label names from lib/RDIEval.cc). A node's `_genfun` is its constructor.
-- `_descr` and `_extra_descr` are read by the debugging output alone and are left out, but for the
-- label prefix.
pub mod Component
pub mod Names
pub mod Build
pub mod Parts
pub mod Grown
pub mod Built
pub mod Parsed
pub mod Typing
pub mod Rules
pub mod Demands
pub mod Shapes
mod Ops
pub mod Safety
pub mod Compile
pub mod Consts
mod Tests
use omni_notify_omni_orb.Common.{
  ℕ, zero, suc, ◌+◌, ◌/◌, ◌%◌, Bool, true, false, Option, none, some, List, [], ◌∷◌, ◌++◌, ltb,
  ◌>>=◌, if◌then◌else◌,
}
use omni_notify_omni_orb.Common.Int.{pos}
use omni_notify_omni_orb.OpSeq.Codes.{OpCode}
use omni_notify_omni_orb.OpSeq.Seq.{
  Op, OpArg, OpSeq, Text, Required, fine, mismatch, Mismatch, append, plain_op, n_required,
  s_required, b_required,
}

-- RDI_CompareOp
pub data CompareOp : Type 0 where
  eq ne le lt ge gt : CompareOp

-- RDI_ArithOp
pub data ArithOp : Type 0 where
  add sub mul div rem cmp : ArithOp

-- RDI_CompareOpZCmpCode
unfoldable pub compare_code : CompareOp → OpCode
compare_code CompareOp.eq = OpCode.eqz_n2b
compare_code CompareOp.ne = OpCode.nez_n2b
compare_code CompareOp.le = OpCode.lez_n2b
compare_code CompareOp.lt = OpCode.ltz_n2b
compare_code CompareOp.ge = OpCode.gez_n2b
compare_code CompareOp.gt = OpCode.gtz_n2b

-- RDI_ArithOp_opcode
unfoldable pub arith_code : ArithOp → OpCode
arith_code ArithOp.add = OpCode.add_nn2n
arith_code ArithOp.sub = OpCode.sub_nn2n
arith_code ArithOp.mul = OpCode.mul_nn2n
arith_code ArithOp.div = OpCode.div_nn2n
arith_code ArithOp.rem = OpCode.rem_nn2n
arith_code ArithOp.cmp = OpCode.cmp_uu2n

-- A node with its children `_lchild` and `_rchild`; `chain` is a component node with the nodes down
-- its `_rchild` pointers, each by its `_cachedop1`.
pub data Constraint : Type 0 where
  or_node and_node in_node substr_node : Constraint → Constraint → Constraint
  not_node comp_end exist default_node : Constraint → Constraint
  compare_node : CompareOp → Constraint → Constraint → Constraint
  arith_node : ArithOp → Constraint → Constraint → Constraint
  cached_op runtime_error : Op → Constraint
  chain : Op → List Op → Constraint

-- The error contexts that the generators pass to the requirement methods.
pub data Context : Type 0 where
  lhs_of_or rhs_of_or lhs_of_and rhs_of_and not_operand rhs_of_substr final_result : Context
  lhs_of_arith rhs_of_arith : ArithOp → Context

-- What a generator works on: the op sequence and the static counter of labels.
pub record GenState : Type 0 where
  pub seq : OpSeq
  pub newlblctr : ℕ

-- A generator returns with or without an error message.
pub data Outcome : Type 0 where
  done : GenState → Outcome
  failed : Context → Mismatch → Outcome

infixl 6 ◌then_do◌
-- `if (ps->e) return;` between two steps.
abbrev pub ◌then_do◌ : Option Outcome → (GenState → Option Outcome) → Option Outcome
none then_do k = none
some (failed c e) then_do k = some (failed c e)
some (done g) then_do k = k g

unfoldable pub emit : Op → GenState → Option Outcome
emit op g = append g.seq op >>= λ s. some (done (record g { seq = s }))

unfoldable pub emit_each : List Op → GenState → Option Outcome
unfolding emit
emit_each [] g = some (done g)
emit_each (op ∷ os) g = emit op g then_do emit_each os

abbrev pub settle : Context → GenState → Required → Outcome
settle c g (fine s) = done (record g { seq = s })
settle c g (mismatch e) = failed c e

unfoldable pub demand : (OpSeq → Option Required) → Context → GenState → Option Outcome
demand required c g = required g.seq >>= λ r. some (settle c g r)

-- "%d" of a label number, in enough rounds.
unfoldable pub decimal_from : ℕ → ℕ → Text → Text
decimal_from zero n acc = acc
decimal_from (suc f) n acc =
    let digits : Text = (48 + n % 10) ∷ acc in
    let rest = decimal_from f (n / 10) digits in if ltb n 10 then digits else rest

-- "LBL_OrTrue_" and "LBL_AndFalse_"
abbrev pub or_prefix : Text
or_prefix = b'L' ∷ b'B' ∷ b'L' ∷ b'_' ∷ b'O' ∷ b'r' ∷ b'T' ∷ b'r' ∷ b'u' ∷ b'e' ∷ b'_' ∷ []

abbrev pub and_prefix : Text
and_prefix =
    b'L' ∷ b'B' ∷ b'L' ∷ b'_' ∷ b'A' ∷ b'n' ∷ b'd' ∷ b'F' ∷ b'a' ∷ b'l' ∷ b's' ∷ b'e' ∷ b'_' ∷ []

-- RDI_Op::newlblnm, which also counts up; see `counted`.
unfoldable pub newlblnm : Text → GenState → Text
unfolding decimal_from
newlblnm prefix g = prefix ++ decimal_from (suc g.newlblctr) g.newlblctr []

abbrev pub counted : GenState → GenState
counted g = record g { newlblctr = g.newlblctr + 1 }

abbrev pub jump_op : OpCode → Text → Op
jump_op c l = record { code = c; arg = OpArg.lbl (pos 0) l }

abbrev pub label_op : Text → Op
label_op l = record { code = OpCode.label; arg = OpArg.sc l }

-- The generators GenOr, GenAnd, GenNot, GenCompare, GenIN, GenSubStr, GenArith, GenCompEnd, GenExist,
-- GenDefault, GenRuntimeError, GenCachedOp1 and GenCachedChain.
unfoldable pub gen : Constraint → GenState → Option Outcome
unfolding emit emit_each demand newlblnm compare_code arith_code
gen (or_node l r) g =
    let name = newlblnm or_prefix g in
    gen l (counted g)
    then_do demand b_required lhs_of_or
    then_do emit (jump_op OpCode.if_t_b2b name)
    then_do emit (plain_op OpCode.pop_u)
    then_do gen r
    then_do demand b_required rhs_of_or
    then_do emit (label_op name)
gen (and_node l r) g =
    let name = newlblnm and_prefix g in
    gen l (counted g)
    then_do demand b_required lhs_of_and
    then_do emit (jump_op OpCode.if_f_b2b name)
    then_do emit (plain_op OpCode.pop_u)
    then_do gen r
    then_do demand b_required rhs_of_and
    then_do emit (label_op name)
gen (not_node c) g =
    gen c g then_do demand b_required not_operand then_do emit (plain_op OpCode.not_b2b)
gen (compare_node op l r) g =
    gen l g
    then_do gen r
    then_do emit (plain_op OpCode.cmp_uu2n)
    then_do emit (plain_op (compare_code op))
gen (in_node l r) g = gen l g then_do gen r then_do emit (plain_op OpCode.in_uu2b)
gen (substr_node l r) g =
    gen l g
    then_do demand s_required rhs_of_substr
    then_do gen r
    then_do demand s_required rhs_of_substr
    then_do emit (plain_op OpCode.substr_ss2b)
gen (arith_node op l r) g =
    gen l g
    then_do demand n_required (lhs_of_arith op)
    then_do gen r
    then_do demand n_required (rhs_of_arith op)
    then_do emit (plain_op (arith_code op))
gen (comp_end c) g = gen c g then_do emit (plain_op OpCode.compend)
gen (exist c) g = gen c g then_do emit (plain_op OpCode.exist_x2b)
gen (default_node c) g = gen c g then_do emit (plain_op OpCode.default_x2b)
gen (runtime_error op) g = emit op g then_do emit (plain_op OpCode.signal_n)
gen (cached_op op) g = emit op g
gen (chain op parts) g = emit op g then_do emit_each parts

-- do_codegen with `requirebool`
unfoldable pub do_codegen : Constraint → GenState → Option Outcome
unfolding gen
do_codegen c g = gen c g then_do demand b_required final_result
