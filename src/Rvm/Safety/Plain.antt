-- ===== src/Rvm/Safety/Plain.antt =====
-- Proofs about the ops that push, drop, convert and test values (lib/RDIRVM.cc).
use omni_notify_omni_orb.Common.{
  ℕ, ◌+◌, ◌<◌, Bool, true, false, Option, some, List, [], ◌∷◌, length, ◌≡◌, inl, inr, refl, subst,
  lt→ltb, check, ◌>>◌, Returns, arith, some_eq, Option-cases,
}
use omni_notify_omni_orb.OpSeq.Codes.{StaticT, OpCode}
use omni_notify_omni_orb.OpSeq.Seq.{Op, OpArg}
use omni_notify_omni_orb.OpSeq.Stack.{
  Stack, require_two, push_type, retype_top, retype_two, drop_one, drop_two, swap_top, stack_size,
  is_b, is_s, is_n, is_n_ushort,
}
use omni_notify_omni_orb.OpSeq.Fits.{push_type_inv}
use omni_notify_omni_orb.Rvm.Value.{RtVal, RtKind, kind_of, is_number}
use omni_notify_omni_orb.Rvm.Env.{Env}
use omni_notify_omni_orb.Rvm.Arith.{undefined_code}
use omni_notify_omni_orb.Rvm.Machine.{Rvm, StepOutcome, next_op, push, signals}
use omni_notify_omni_orb.Rvm.Ops.{converts, logic, eval_swap, eval_pop_u, eval_pop_uu}
use omni_notify_omni_orb.Rvm.Typing.{kind_fits, AllFit, Lands, Follows, machine}

pub length-AllFit :
    {D : Type 0} (st : Stack) (stk : List (RtVal D)) → AllFit st stk → length st ≡ length stk
length-AllFit [] [] h = refl
length-AllFit [] (v ∷ vs) h = elim h [ ]
length-AllFit (t ∷ ts) [] h = elim h [ ]
length-AllFit (t ∷ ts) (v ∷ vs) h = omega (arith, length-AllFit ts vs h.1)

pub both_checks : (x y : Bool) → (check x >> check y) ≡ some tt → (x ≡ true) × (y ≡ true)
both_checks true true h = (refl, refl)
both_checks true false h = cc
both_checks false y h = cc

pub boolean_value :
    {D : Type 0} (t : StaticT) (v : RtVal D)
    → is_b t ≡ true
    → kind_fits t (kind_of v) ≡ true
    → (x : Bool) × (v ≡ RtVal.boolean x)
boolean_value StaticT.b (RtVal.boolean x) h k = (x, refl)
boolean_value t v h k = ground arith

pub string_value :
    {D : Type 0} (t : StaticT) (v : RtVal D)
    → is_s t ≡ true
    → kind_fits t (kind_of v) ≡ true
    → (x : List ℕ) × (v ≡ RtVal.string x)
string_value StaticT.s (RtVal.string x) h k = (x, refl)
string_value t v h k = ground arith

pub ushort_value :
    {D : Type 0} (t : StaticT) (v : RtVal D)
    → is_n_ushort t ≡ true
    → kind_fits t (kind_of v) ≡ true
    → (x : ℕ) × (v ≡ RtVal.ushort x)
ushort_value StaticT.n_ushort (RtVal.ushort x) h k = (x, refl)
ushort_value t v h k = ground arith

pub number_kind :
    (t : StaticT) (k : RtKind) → is_n t ≡ true → kind_fits t k ≡ true → is_number k ≡ true
number_kind t k h h' = ground arith

module _ {D A : Type 0} (env : Env D A) (ops : List Op) (code : OpCode) (a : OpArg) (pc : ℕ)
    (rb : Bool) where
  abbrev pub Good : Stack → Option (StepOutcome D) → Type 0
  Good st o = Returns o (Follows (length ops) code a pc st)

  -- The machine before the op, which evaluates.
  abbrev pub here : List (RtVal D) → Rvm D
  here stk = machine pc stk undefined_code rb

  pub moved :
      (st st' : Stack) (o : Option (StepOutcome D)) → some st ≡ some st' → Good st o → Good st' o
  moved st st' o e h = subst (λ x. Good x o) (some_eq e) h

  pub signals-Good : (st : Stack) (c : ℕ) (m : Rvm D) → Good st (signals env ops c m)
  signals-Good st c m = refl

  module _ (next : pc + 1 < length ops) (lands : Lands (length ops) code a pc (pc + 1)) where
    pub next-Good :
        (st : Stack) (stk : List (RtVal D)) → AllFit st stk → Good st (next_op env ops (here stk))
    unfolding next_op
    next-Good st stk h = rw (lt→ltb (pc + 1) (length ops) next) (next, lands, inl (refl, h))

    pub push-Good :
        (t : StaticT) (st st' : Stack) (v : RtVal D) (stk : List (RtVal D))
        → kind_fits t (kind_of v) ≡ true
        → AllFit st stk
        → push_type t st ≡ some st'
        → Good st' (push env ops v (here stk))
    unfolding push
    push-Good t st st' v stk k h e =
        let (same, room) = push_type_inv t st st' e in
        rw (same, lt→ltb (length stk) stack_size (omega (arith, length-AllFit st stk h)))
          (next-Good (t ∷ st) (v ∷ stk) (k, h))

    pub converts-Good :
        (f : RtVal D → Option (RtVal D)) (t : StaticT) (st st' : Stack) (stk : List (RtVal D))
        → ((v w : RtVal D) → f v ≡ some w → kind_fits t (kind_of w) ≡ true)
        → AllFit st stk
        → retype_top t st ≡ some st'
        → Good st' (converts env ops f (here stk))
    unfolding converts retype_top
    converts-Good f t [] st' stk k h e = cc
    converts-Good f t (t' ∷ ts) st' [] k h e = elim h [ ]
    converts-Good f t (t' ∷ ts) st' (v ∷ vs) k h e = elim (Option-cases (f v)) [
      | inl none_left ↦ rw none_left refl
      | inr (w, left) ↦ rw left (moved _ _ _ e (next-Good (t ∷ ts) (w ∷ vs) (k v w left, h.1)))
    ]

    pub logic-Good :
        (f : Bool → Bool → Bool) (st st' : Stack) (stk : List (RtVal D))
        → require_two is_b is_b st ≡ some tt
        → AllFit st stk
        → retype_two StaticT.b st ≡ some st'
        → Good st' (logic env ops f (here stk))
    unfolding logic retype_two require_two
    logic-Good f [] st' stk r h e = cc
    logic-Good f (t ∷ []) st' stk r h e = cc
    logic-Good f (t ∷ t' ∷ ts) st' [] r h e = elim h [ ]
    logic-Good f (t ∷ t' ∷ ts) st' (v ∷ []) r h e = elim h.1 [ ]
    logic-Good f (t ∷ t' ∷ ts) st' (v ∷ v' ∷ vs) r h e =
        let (below, top) = both_checks (is_b t') (is_b t) r in
        let (x, p) = boolean_value t v top h.0 in
        let (y, q) = boolean_value t' v' below h.1.0 in
        rw (p, q)
          (moved _ _ _ e (next-Good (StaticT.b ∷ ts) (RtVal.boolean (f y x) ∷ vs) (refl, h.1.1)))

    pub swap-Good :
        (st st' : Stack) (stk : List (RtVal D))
        → AllFit st stk
        → swap_top st ≡ some st'
        → Good st' (eval_swap env ops (here stk))
    unfolding eval_swap swap_top
    swap-Good [] st' stk h e = cc
    swap-Good (t ∷ []) st' stk h e = cc
    swap-Good (t ∷ t' ∷ ts) st' [] h e = elim h [ ]
    swap-Good (t ∷ t' ∷ ts) st' (v ∷ []) h e = elim h.1 [ ]
    swap-Good (t ∷ t' ∷ ts) st' (v ∷ v' ∷ vs) h e =
        moved _ _ _ e (next-Good (t' ∷ t ∷ ts) (v' ∷ v ∷ vs) (h.1.0, (h.0, h.1.1)))

    pub pop-Good :
        (st st' : Stack) (stk : List (RtVal D))
        → AllFit st stk
        → drop_one st ≡ some st'
        → Good st' (eval_pop_u env ops (here stk))
    unfolding eval_pop_u drop_one
    pop-Good [] st' stk h e = cc
    pop-Good (t ∷ ts) st' [] h e = elim h [ ]
    pop-Good (t ∷ ts) st' (v ∷ vs) h e = moved _ _ _ e (next-Good ts vs h.1)

    pub pop_two-Good :
        (st st' : Stack) (stk : List (RtVal D))
        → AllFit st stk
        → drop_two st ≡ some st'
        → Good st' (eval_pop_uu env ops (here stk))
    unfolding eval_pop_uu drop_two
    pop_two-Good [] st' stk h e = cc
    pop_two-Good (t ∷ []) st' stk h e = cc
    pop_two-Good (t ∷ t' ∷ ts) st' [] h e = elim h [ ]
    pop_two-Good (t ∷ t' ∷ ts) st' (v ∷ []) h e = elim h.1 [ ]
    pop_two-Good (t ∷ t' ∷ ts) st' (v ∷ v' ∷ vs) h e = moved _ _ _ e (next-Good ts vs h.1.1)
