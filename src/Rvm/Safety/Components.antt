-- ===== src/Rvm/Safety/Components.antt =====
-- Proofs about the ops that start, follow and end a component (lib/RDIRVM.cc), where the component
-- is there and where it is missing.
use omni_notify_omni_orb.Common.{
  ℕ, ◌+◌, ◌<◌, Bool, true, false, Option, none, some, List, [], ◌∷◌, length, ◌≡◌, ◌≢◌, inl, inr,
  refl, lt→ltb, ◌>>=◌, Returns, arith, Bool-cases, Option-cases, check_inv, ◌==◌,
}
use omni_notify_omni_orb.OpSeq.Codes.{StaticT, OpCode}
use omni_notify_omni_orb.OpSeq.Seq.{Op, OpArg}
use omni_notify_omni_orb.OpSeq.Stack.{Stack, require_one, push_type, retype_top, is_u, stack_size}
use omni_notify_omni_orb.OpSeq.Fits.{push_type_inv}
use omni_notify_omni_orb.Rvm.Value.{RtVal, kind_of}
use omni_notify_omni_orb.Rvm.Env.{Env}
use omni_notify_omni_orb.Rvm.Arith.{undefined_code, none_such}
use omni_notify_omni_orb.Rvm.Machine.{StepOutcome, next_op, push}
use omni_notify_omni_orb.Rvm.Parts.{
  PartResult, found, missing, uncaught, place, walk_part, start_part, eval_compend, default_of,
  eval_default, eval_exist,
}
use omni_notify_omni_orb.Rvm.Typing.{
  kind_fits, is_component, AllFit, BelowFit, Lands, machine, looks_up, may_escape,
}
use omni_notify_omni_orb.Rvm.Safety.Plain.{length-AllFit, Good, here, next-Good, moved}
use omni_notify_omni_orb.Rvm.Safety.Walks.{PartFits}

not_undefined : (k : ℕ) → k ≢ undefined_code → (k == undefined_code) ≡ false
not_undefined k h = elim (Bool-cases (k == undefined_code)) [
  | inl e ↦ absurd (h (ground arith))
  | inr e ↦ e
]

component_value :
    {D : Type 0} (t : StaticT) (v : RtVal D)
    → is_u t ≡ true
    → kind_fits t (kind_of v) ≡ true
    → is_component (kind_of v) ≡ true
component_value StaticT.u v h k = k
component_value t v h k = ground arith

module _ {D A : Type 0} (env : Env D A) (ops : List Op) (code : OpCode) (a : OpArg) (pc : ℕ)
    (rb : Bool) (next : pc + 1 < length ops) (lands : Lands (length ops) code a pc (pc + 1)) where
  abbrev Fine : Stack → Option (StepOutcome D) → Type 0
  Fine st o = Good env ops code a pc rb st o

  -- A component is missing after the op.
  skipping-Good :
      (st : Stack) (stk : List (RtVal D)) (rc : ℕ)
      → looks_up code ≡ true
      → rc ≢ undefined_code
      → BelowFit st stk
      → Fine st (next_op env ops (machine pc stk rc rb))
  unfolding next_op
  skipping-Good st stk rc l n h =
      rw (lt→ltb (pc + 1) (length ops) next) (next, lands, inr (l, (n, h)))

  place-Good :
      (t t' : StaticT) (ts : Stack) (v : RtVal D) (vs : List (RtVal D)) (o : PartResult D)
      → looks_up code ≡ true
      → AllFit ts vs
      → PartFits t (may_escape code) o
      → Fine (t ∷ ts) (place env ops vs (here env ops code a pc rb (v ∷ vs)) o)
  unfolding place
  place-Good t t' ts v vs (found w) l h f =
      next-Good env ops code a pc rb next lands (t ∷ ts) (w ∷ vs) (f, h)
  place-Good t t' ts v vs (missing k) l h f = skipping-Good (t ∷ ts) (v ∷ vs) k l f h
  place-Good t t' ts v vs uncaught l h f = f

  placed-Good :
      (t t' : StaticT) (ts : Stack) (v : RtVal D) (vs : List (RtVal D)) (o : Option (PartResult D))
      → looks_up code ≡ true
      → AllFit ts vs
      → Returns o (PartFits t (may_escape code))
      → Fine (t ∷ ts) (o >>= place env ops vs (here env ops code a pc rb (v ∷ vs)))
  placed-Good t t' ts v vs none l h f = f
  placed-Good t t' ts v vs (some o) l h f = place-Good t t' ts v vs o l h f

  pub walk_part-Good :
      (f : RtVal D → Option (PartResult D)) (t : StaticT) (st st' : Stack) (stk : List (RtVal D))
      → looks_up code ≡ true
      → ((v : RtVal D)
          → is_component (kind_of v) ≡ true
          → Returns (f v) (PartFits t (may_escape code)))
      → require_one is_u st ≡ some tt
      → AllFit st stk
      → retype_top t st ≡ some st'
      → Fine st' (walk_part env ops f (here env ops code a pc rb stk))
  unfolding walk_part require_one retype_top
  walk_part-Good f t [] st' stk l k r h e = cc
  walk_part-Good f t (t' ∷ ts) st' [] l k r h e = elim h [ ]
  walk_part-Good f t (t' ∷ ts) st' (v ∷ vs) l k r h e = moved env ops code a pc rb _ _ _ e (
      placed-Good t t' ts v vs (f v) l h.1 (k v (component_value t' v (check_inv (is_u t') r) h.0)))

  -- The op is skipped.
  pub walk_part-Skipped :
      (f : RtVal D → Option (PartResult D)) (t : StaticT) (st st' : Stack) (stk : List (RtVal D))
      (rc : ℕ)
      → looks_up code ≡ true
      → rc ≢ undefined_code
      → BelowFit st stk
      → retype_top t st ≡ some st'
      → Fine st' (walk_part env ops f (machine pc stk rc rb))
  unfolding walk_part retype_top
  walk_part-Skipped f t [] st' stk rc l n h e = cc
  walk_part-Skipped f t (t' ∷ ts) st' [] rc l n h e = elim h [ ]
  walk_part-Skipped f t (t' ∷ ts) st' (v ∷ vs) rc l n h e =
      rw (not_undefined rc n)
        (moved env ops code a pc rb _ _ _ e (skipping-Good (t ∷ ts) (v ∷ vs) rc l n h))

  pub start_part-Good :
      (o : Option (RtVal D)) (st st' : Stack) (stk : List (RtVal D))
      → looks_up code ≡ true
      → ((v : RtVal D) → o ≡ some v → is_component (kind_of v) ≡ true)
      → AllFit st stk
      → push_type StaticT.u st ≡ some st'
      → Fine st' (start_part env ops o (here env ops code a pc rb stk))
  unfolding start_part push
  start_part-Good o st st' stk l k h e =
      let (same, space) = push_type_inv StaticT.u st st' e in
      let room = lt→ltb (length stk) stack_size (omega (arith, length-AllFit st stk h)) in
      elim (Option-cases o) [
        | inl p ↦
            rw (same, p, room)
              (skipping-Good (StaticT.u ∷ st) (RtVal.null ∷ stk) none_such l (λ q. omega (arith, q))
                h)
        | inr (v, p) ↦
            rw (same, p, room)
              (next-Good env ops code a pc rb next lands (StaticT.u ∷ st) (v ∷ stk) (k v p, h))
      ]

  pub exist-Good :
      (st st' : Stack) (stk : List (RtVal D)) (rc : ℕ)
      → BelowFit st stk
      → retype_top StaticT.b st ≡ some st'
      → Fine st' (eval_exist env ops (machine pc stk rc rb))
  unfolding eval_exist retype_top
  exist-Good [] st' stk rc h e = cc
  exist-Good (t ∷ ts) st' [] rc h e = elim h [ ]
  exist-Good (t ∷ ts) st' (v ∷ vs) rc h e =
      moved env ops code a pc rb _ _ _ e (
        next-Good env ops code a pc rb next lands (StaticT.b ∷ ts) (RtVal.boolean _ ∷ vs) (refl, h))

  pub default-Good :
      (st st' : Stack) (stk : List (RtVal D))
      → BelowFit st stk
      → retype_top StaticT.b st ≡ some st'
      → Fine st' (eval_default env ops (here env ops code a pc rb stk))
  unfolding eval_default retype_top
  default-Good [] st' stk h e = cc
  default-Good (t ∷ ts) st' [] h e = elim h [ ]
  default-Good (t ∷ ts) st' (v ∷ vs) h e = elim (Option-cases (default_of env v)) [
    | inl q ↦ rw q refl
    | inr (x, q) ↦ rw q (
        moved env ops code a pc rb _ _ _ e (
          next-Good env ops code a pc rb next lands (StaticT.b ∷ ts) (RtVal.boolean x ∷ vs)
            (refl, h)))
  ]

  -- The two end ops that signal a missing component.
  pub default-Skipped :
      (st' : Stack) (stk : List (RtVal D)) (rc : ℕ)
      → rc ≢ undefined_code
      → Fine st' (eval_default env ops (machine pc stk rc rb))
  unfolding eval_default
  default-Skipped st' stk rc n = rw (not_undefined rc n) refl

  pub compend-Good :
      (st st' : Stack) (stk : List (RtVal D))
      → AllFit st stk
      → some st ≡ some st'
      → Fine st' (eval_compend env ops (here env ops code a pc rb stk))
  unfolding eval_compend
  compend-Good st st' stk h e =
      moved env ops code a pc rb _ _ _ e (next-Good env ops code a pc rb next lands st stk h)

  pub compend-Skipped :
      (st' : Stack) (stk : List (RtVal D)) (rc : ℕ)
      → rc ≢ undefined_code
      → Fine st' (eval_compend env ops (machine pc stk rc rb))
  unfolding eval_compend
  compend-Skipped st' stk rc n = rw (not_undefined rc n) refl
