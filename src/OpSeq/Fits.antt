-- ===== src/OpSeq/Fits.antt =====
-- When the stack of types after running the ops is at least as precise as the recorded one: a
-- number known to be N may be recorded as n. The checks and effects of lib/RDIOpSeq.cc respect it.
use omni_notify_omni_orb.Common.{
  Bool, true, Option, some, [], ◌∷◌, ◌≡◌, refl, ◌⊎◌, inl, inr, ltb, Bool-cases, some_eq, ltb→lt,
  lt→ltb, ◌<◌, subst, Returns, length, arith,
}
use omni_notify_omni_orb.OpSeq.Tables.{op2_stack_pre, op2_stack_effect}
use omni_notify_omni_orb.OpSeq.Codes.{StaticT, StackPre, StackEffect, OpCode}
use omni_notify_omni_orb.OpSeq.Stack.{
  Stack, require_one, require_two, require, check_pre, push_type, retype_top, retype_two, drop_one,
  drop_two, swap_top, effect, model_effect, stack_size, is_b, is_s, is_n, is_u, is_n_ushort,
  any_type,
}

-- The type `t` may stand where `t'` is recorded.
abbrev pub Fits : StaticT → StaticT → Type 0
Fits t t' = (t ≡ t') ⊎ ((t ≡ StaticT.n_ushort) × (t' ≡ StaticT.n))

abbrev pub FitAll : Stack → Stack → Type 0
FitAll [] [] = Unit {0}
FitAll [] (t' ∷ st') = ⊥
FitAll (t ∷ st) [] = ⊥
FitAll (t ∷ st) (t' ∷ st') = Fits t t' × FitAll st st'

pub length-FitAll : (st st' : Stack) → FitAll st st' → length st ≡ length st'
length-FitAll [] [] h = refl
length-FitAll [] (t' ∷ st') h = elim h [ ]
length-FitAll (t ∷ st) [] h = elim h [ ]
length-FitAll (t ∷ st) (t' ∷ st') h = omega (arith, length-FitAll st st' h.1)

-- A test that the finer type passes whenever the recorded one does.
abbrev Monotone : (StaticT → Bool) → Type 0
Monotone p = (t t' : StaticT) → Fits t t' → p t' ≡ true → p t ≡ true

pub is_b-Monotone : Monotone is_b
is_b-Monotone t t' f h = ground arith

pub is_s-Monotone : Monotone is_s
is_s-Monotone t t' f h = ground arith

pub is_u-Monotone : Monotone is_u
is_u-Monotone t t' f h = ground arith

pub is_n-Monotone : Monotone is_n
is_n-Monotone t t' f h = ground arith

pub is_n_ushort-Monotone : Monotone is_n_ushort
is_n_ushort-Monotone t t' f h = ground arith

pub require_one_mono :
    (p : StaticT → Bool) (m : Monotone p) (st st' : Stack)
    → FitAll st st'
    → require_one p st' ≡ some tt
    → require_one p st ≡ some tt
unfolding require_one
require_one_mono p m [] [] f h = h
require_one_mono p m [] (t' ∷ st') f h = elim f [ ]
require_one_mono p m (t ∷ st) [] f h = elim f [ ]
require_one_mono p m (t ∷ st) (t' ∷ st') f h = ground (arith, m t t')

require_two_mono :
    (p q : StaticT → Bool) (m : Monotone p) (k : Monotone q) (st st' : Stack)
    → FitAll st st'
    → require_two p q st' ≡ some tt
    → require_two p q st ≡ some tt
unfolding require_two
require_two_mono p q m k [] [] f h = h
require_two_mono p q m k [] (t' ∷ st') f h = elim f [ ]
require_two_mono p q m k (t ∷ st) [] f h = elim f [ ]
require_two_mono p q m k (t ∷ []) (t' ∷ []) f h = h
require_two_mono p q m k (t ∷ []) (t' ∷ v' ∷ st') f h = elim f.1 [ ]
require_two_mono p q m k (t ∷ v ∷ st) (t' ∷ []) f h = elim f.1 [ ]
require_two_mono p q m k (t ∷ v ∷ st) (t' ∷ v' ∷ st') f h = ground (arith, m v v', k t t')

any_type-Monotone : Monotone any_type
any_type-Monotone t t' f h = refl

require_mono :
    (pre : StackPre) (st st' : Stack)
    → FitAll st st'
    → require pre st' ≡ some tt
    → require pre st ≡ some tt
unfolding require
require_mono StackPre.none st st' f h = h
require_mono StackPre.one st st' f h = require_one_mono any_type any_type-Monotone st st' f h
require_mono StackPre.two st st' f h =
    require_two_mono any_type any_type any_type-Monotone any_type-Monotone st st' f h
require_mono StackPre.two_u st st' f h =
    require_two_mono any_type is_u any_type-Monotone is_u-Monotone st st' f h
require_mono StackPre.b st st' f h = require_one_mono is_b is_b-Monotone st st' f h
require_mono StackPre.n st st' f h = require_one_mono is_n is_n-Monotone st st' f h
require_mono StackPre.n_ushort st st' f h =
    require_one_mono is_n_ushort is_n_ushort-Monotone st st' f h
require_mono StackPre.u st st' f h = require_one_mono is_u is_u-Monotone st st' f h
require_mono StackPre.bb st st' f h =
    require_two_mono is_b is_b is_b-Monotone is_b-Monotone st st' f h
require_mono StackPre.ss st st' f h =
    require_two_mono is_s is_s is_s-Monotone is_s-Monotone st st' f h
require_mono StackPre.nn st st' f h =
    require_two_mono is_n is_n is_n-Monotone is_n-Monotone st st' f h

-- A precondition that the recorded types meet is met by the finer types.
pub check_pre_mono :
    (code : OpCode) (st st' : Stack)
    → FitAll st st'
    → check_pre code st' ≡ some tt
    → check_pre code st ≡ some tt
unfolding check_pre
check_pre_mono code st st' f h = require_mono (op2_stack_pre code) st st' f h

-- An effect on the finer types, where the recorded ones went to `r'`.
abbrev pub Follows : Option Stack → Stack → Type 0
Follows r r' = Returns r λ st. FitAll st r'

pub push_type-some :
    (t : StaticT) (st : Stack) → length st < stack_size → push_type t st ≡ some (t ∷ st)
unfolding push_type
push_type-some t st h = rw (lt→ltb (length st) stack_size h)

pub push_type_inv :
    (t : StaticT) (st r : Stack) → push_type t st ≡ some r → (r ≡ t ∷ st) × (length st < stack_size)
unfolding push_type
push_type_inv t st r h = elim (Bool-cases (ltb (length st) stack_size)) [
  | inl e ↦ (cc (rw e at h), ltb→lt (length st) stack_size e)
  | inr e ↦ cc (rw e at h)
]

push_type-Follows :
    (t : StaticT) (st st' r' : Stack)
    → FitAll st st'
    → push_type t st' ≡ some r'
    → Follows (push_type t st) r'
push_type-Follows t st st' r' f h =
    let (e, room) = push_type_inv t st' r' h in
    rw (push_type-some t st (omega (arith, length-FitAll st st' f)), e) (inl refl, f)

retype_top-Follows :
    (t : StaticT) (st st' r' : Stack)
    → FitAll st st'
    → retype_top t st' ≡ some r'
    → Follows (retype_top t st) r'
unfolding retype_top
retype_top-Follows t st [] r' f h = cc
retype_top-Follows t [] (v' ∷ st') r' f h = elim f [ ]
retype_top-Follows t (v ∷ st) (v' ∷ st') r' f h =
    subst (FitAll (t ∷ st)) (some_eq h) (inl refl, f.1)

retype_two-Follows :
    (t : StaticT) (st st' r' : Stack)
    → FitAll st st'
    → retype_two t st' ≡ some r'
    → Follows (retype_two t st) r'
unfolding retype_two
retype_two-Follows t st [] r' f h = cc
retype_two-Follows t st (v' ∷ []) r' f h = cc
retype_two-Follows t [] (v' ∷ w' ∷ st') r' f h = elim f [ ]
retype_two-Follows t (v ∷ []) (v' ∷ w' ∷ st') r' f h = elim f.1 [ ]
retype_two-Follows t (v ∷ w ∷ st) (v' ∷ w' ∷ st') r' f h =
    subst (FitAll (t ∷ st)) (some_eq h) (inl refl, f.1.1)

drop_one-Follows :
    (st st' r' : Stack) → FitAll st st' → drop_one st' ≡ some r' → Follows (drop_one st) r'
unfolding drop_one
drop_one-Follows st [] r' f h = cc
drop_one-Follows [] (v' ∷ st') r' f h = elim f [ ]
drop_one-Follows (v ∷ st) (v' ∷ st') r' f h = subst (FitAll st) (some_eq h) f.1

drop_two-Follows :
    (st st' r' : Stack) → FitAll st st' → drop_two st' ≡ some r' → Follows (drop_two st) r'
unfolding drop_two
drop_two-Follows st [] r' f h = cc
drop_two-Follows st (v' ∷ []) r' f h = cc
drop_two-Follows [] (v' ∷ w' ∷ st') r' f h = elim f [ ]
drop_two-Follows (v ∷ []) (v' ∷ w' ∷ st') r' f h = elim f.1 [ ]
drop_two-Follows (v ∷ w ∷ st) (v' ∷ w' ∷ st') r' f h = subst (FitAll st) (some_eq h) f.1.1

swap_top-Follows :
    (st st' r' : Stack) → FitAll st st' → swap_top st' ≡ some r' → Follows (swap_top st) r'
unfolding swap_top
swap_top-Follows st [] r' f h = cc
swap_top-Follows st (v' ∷ []) r' f h = cc
swap_top-Follows [] (v' ∷ w' ∷ st') r' f h = elim f [ ]
swap_top-Follows (v ∷ []) (v' ∷ w' ∷ st') r' f h = elim f.1 [ ]
swap_top-Follows (v ∷ w ∷ st) (v' ∷ w' ∷ st') r' f h =
    subst (FitAll (w ∷ v ∷ st)) (some_eq h) (f.1.0, (f.0, f.1.1))

effect-Follows :
    (e : StackEffect) (st st' r' : Stack)
    → FitAll st st'
    → effect e st' ≡ some r'
    → Follows (effect e st) r'
unfolding effect
effect-Follows StackEffect.none st st' r' f h = subst (FitAll st) (some_eq h) f
effect-Follows StackEffect.drop_one st st' r' f h = drop_one-Follows st st' r' f h
effect-Follows StackEffect.drop_two st st' r' f h = drop_two-Follows st st' r' f h
effect-Follows StackEffect.swap st st' r' f h = swap_top-Follows st st' r' f h
effect-Follows StackEffect.to_b st st' r' f h = push_type-Follows StaticT.b st st' r' f h
effect-Follows StackEffect.to_c st st' r' f h = push_type-Follows StaticT.c st st' r' f h
effect-Follows StackEffect.to_i st st' r' f h = push_type-Follows StaticT.i st st' r' f h
effect-Follows StackEffect.to_n st st' r' f h = push_type-Follows StaticT.n st st' r' f h
effect-Follows StackEffect.to_n_ushort st st' r' f h =
    push_type-Follows StaticT.n_ushort st st' r' f h
effect-Follows StackEffect.to_s st st' r' f h = push_type-Follows StaticT.s st st' r' f h
effect-Follows StackEffect.to_u st st' r' f h = push_type-Follows StaticT.u st st' r' f h
effect-Follows StackEffect.x_to_b st st' r' f h = retype_top-Follows StaticT.b st st' r' f h
effect-Follows StackEffect.x_to_n st st' r' f h = retype_top-Follows StaticT.n st st' r' f h
effect-Follows StackEffect.x_to_s st st' r' f h = retype_top-Follows StaticT.s st st' r' f h
effect-Follows StackEffect.x_to_u st st' r' f h = retype_top-Follows StaticT.u st st' r' f h
effect-Follows StackEffect.xx_to_b st st' r' f h = retype_two-Follows StaticT.b st st' r' f h
effect-Follows StackEffect.xx_to_n st st' r' f h = retype_two-Follows StaticT.n st st' r' f h

-- The effect of an op on the finer types is as fine as that on the recorded ones.
pub model_effect-Follows :
    (code : OpCode) (st st' r' : Stack)
    → FitAll st st'
    → model_effect code st' ≡ some r'
    → Follows (model_effect code st) r'
unfolding model_effect
model_effect-Follows code st st' r' f h = effect-Follows (op2_stack_effect code) st st' r' f h
