-- ===== src/OpSeq/Stack.antt =====
-- The stack of static types: check_pre and model_effect (lib/RDIOpSeq.cc). The array `_stackT` up to
-- `_top` is a list whose head is the top, so `_top` is its length less one; the slots above `_top`
-- are never read before they are written. A failed assertion is a fault.
use omni_notify_omni_orb.Common.{
  ℕ, Bool, true, false, Option, none, some, List, [], ◌∷◌, ltb, length, check, ◌>>◌,
}
use omni_notify_omni_orb.OpSeq.Codes.{StaticT, StackPre, StackEffect, OpCode}
use omni_notify_omni_orb.OpSeq.Tables.{op2_stack_pre, op2_stack_effect}

-- RDI_Eval_STACK_SIZE
abbrev pub stack_size : ℕ
stack_size = 10

abbrev pub Stack : Type 0
Stack = List StaticT

abbrev pub is_b : StaticT → Bool
is_b StaticT.b = true
is_b _ = false

abbrev pub is_s : StaticT → Bool
is_s StaticT.s = true
is_s _ = false

abbrev pub is_u : StaticT → Bool
is_u StaticT.u = true
is_u _ = false

abbrev pub is_n_ushort : StaticT → Bool
is_n_ushort StaticT.n_ushort = true
is_n_ushort _ = false

-- The type is n or N.
abbrev pub is_n : StaticT → Bool
is_n StaticT.n = true
is_n StaticT.n_ushort = true
is_n _ = false

-- The assertions about the top of the stack.
unfoldable pub require_one : (StaticT → Bool) → Stack → Option (Unit {0})
require_one p [] = none
require_one p (t ∷ st) = check (p t)

-- The assertions about the two topmost types, first the one below the top.
unfoldable pub require_two : (StaticT → Bool) → (StaticT → Bool) → Stack → Option (Unit {0})
require_two p q [] = none
require_two p q (t ∷ []) = none
require_two p q (t ∷ t' ∷ st) = check (p t') >> check (q t)

abbrev pub any_type : StaticT → Bool
any_type t = true

unfoldable pub require : StackPre → Stack → Option (Unit {0})
unfolding require_one require_two
require StackPre.none st = some tt
require StackPre.one st = require_one any_type st
require StackPre.two st = require_two any_type any_type st
require StackPre.two_u st = require_two any_type is_u st
require StackPre.b st = require_one is_b st
require StackPre.n st = require_one is_n st
require StackPre.n_ushort st = require_one is_n_ushort st
require StackPre.u st = require_one is_u st
require StackPre.bb st = require_two is_b is_b st
require StackPre.ss st = require_two is_s is_s st
require StackPre.nn st = require_two is_n is_n st

unfoldable pub check_pre : OpCode → Stack → Option (Unit {0})
unfolding require op2_stack_pre
check_pre code st = require (op2_stack_pre code) st

-- One more type on the stack, which must not outgrow its array.
unfoldable pub push_type : StaticT → Stack → Option Stack
push_type t st = do check (ltb (length st) stack_size); some (t ∷ st)

-- The top type is replaced.
unfoldable pub retype_top : StaticT → Stack → Option Stack
retype_top t [] = none
retype_top t (_ ∷ st) = some (t ∷ st)

-- The two topmost types are replaced by one.
unfoldable pub retype_two : StaticT → Stack → Option Stack
retype_two t [] = none
retype_two t (_ ∷ []) = none
retype_two t (_ ∷ _ ∷ st) = some (t ∷ st)

unfoldable pub drop_one : Stack → Option Stack
drop_one [] = none
drop_one (_ ∷ st) = some st

unfoldable pub drop_two : Stack → Option Stack
drop_two [] = none
drop_two (_ ∷ []) = none
drop_two (_ ∷ _ ∷ st) = some st

unfoldable pub swap_top : Stack → Option Stack
swap_top [] = none
swap_top (_ ∷ []) = none
swap_top (t ∷ t' ∷ st) = some (t' ∷ t ∷ st)

unfoldable pub effect : StackEffect → Stack → Option Stack
unfolding push_type retype_top retype_two drop_one drop_two swap_top
effect StackEffect.none st = some st
effect StackEffect.drop_one st = drop_one st
effect StackEffect.drop_two st = drop_two st
effect StackEffect.swap st = swap_top st
effect StackEffect.to_b st = push_type StaticT.b st
effect StackEffect.to_c st = push_type StaticT.c st
effect StackEffect.to_i st = push_type StaticT.i st
effect StackEffect.to_n st = push_type StaticT.n st
effect StackEffect.to_n_ushort st = push_type StaticT.n_ushort st
effect StackEffect.to_s st = push_type StaticT.s st
effect StackEffect.to_u st = push_type StaticT.u st
effect StackEffect.x_to_b st = retype_top StaticT.b st
effect StackEffect.x_to_n st = retype_top StaticT.n st
effect StackEffect.x_to_s st = retype_top StaticT.s st
effect StackEffect.x_to_u st = retype_top StaticT.u st
effect StackEffect.xx_to_b st = retype_two StaticT.b st
effect StackEffect.xx_to_n st = retype_two StaticT.n st

unfoldable pub model_effect : OpCode → Stack → Option Stack
unfolding effect op2_stack_effect
model_effect code st = effect (op2_stack_effect code) st
