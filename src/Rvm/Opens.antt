-- ===== src/Rvm/Opens.antt =====
-- Proofs about the value that RDI_RTVal::simplify makes of a DynAny (lib/RDIDynamicEval.cc).
use omni_notify_omni_orb.Common.{
  ℕ, zero, suc, ◌<◌, true, false, Option, none, some, ◌≡◌, inl, inr, Bool-cases, Option-cases,
  Returns, arith,
}
use omni_notify_omni_orb.Rvm.Value.{RtVal, kind_of}
use omni_notify_omni_orb.Rvm.Env.{
  Env, is_any, is_simple, simple, init_from_any, simplify_dyn, simplify,
}
use omni_notify_omni_orb.Rvm.Typing.{is_component, IsSound}
use omni_notify_omni_orb.Rvm.Simple.{simplify-Returns}

module _ {D A : Type 0} (env : Env D A) where
  -- What a DynAny stands for: a simple value is read, an enum is one, an Any is what the value in it
  -- stands for, and all else is the DynAny.
  pub data Opens : D → RtVal D → Type 0 where
    reads :
        {d : D}
        → is_simple (env.api.dyn.type_of d) ≡ true
        → Opens d
            (simple env env.api.dyn (RtVal.dynany d) (RtVal.dynany d) d (env.api.dyn.type_of d))
    enumerates :
        {d : D}
        → is_simple (env.api.dyn.type_of d) ≡ false
        → env.api.is_dyn_enum d ≡ true
        → Opens d (RtVal.enum_val d)
    stays :
        {d : D}
        → is_simple (env.api.dyn.type_of d) ≡ false
        → env.api.is_dyn_enum d ≡ false
        → is_any (env.api.dyn.type_of d) ≡ false
        → Opens d (RtVal.dynany d)
    unwraps_simple :
        {d : D} {x : A}
        → env.api.is_dyn_enum d ≡ false
        → is_any (env.api.dyn.type_of d) ≡ true
        → env.api.get_any d ≡ some x
        → is_simple (env.api.any.type_of x) ≡ true
        → Opens d (simple env env.api.any RtVal.null RtVal.null x (env.api.any.type_of x))
    unwraps_nothing :
        {d : D} {x : A}
        → env.api.is_dyn_enum d ≡ false
        → is_any (env.api.dyn.type_of d) ≡ true
        → env.api.get_any d ≡ some x
        → is_simple (env.api.any.type_of x) ≡ false
        → env.api.create x ≡ none
        → Opens d RtVal.null
    unwraps :
        {d e : D} {x : A} {v : RtVal D}
        → env.api.is_dyn_enum d ≡ false
        → is_any (env.api.dyn.type_of d) ≡ true
        → env.api.get_any d ≡ some x
        → is_simple (env.api.any.type_of x) ≡ false
        → env.api.create x ≡ some e
        → Opens e v
        → Opens d v

  Returns-map :
      (o : Option (RtVal D)) (P Q : RtVal D → Type 0)
      → Returns o P
      → ((v : RtVal D) → P v → Q v)
      → Returns o Q
  Returns-map none P Q h k = elim h [ ]
  Returns-map (some v) P Q h k = k v h

  Returns-both :
      (o : Option (RtVal D)) (P Q : RtVal D → Type 0)
      → Returns o P
      → Returns o Q
      → Returns o (λ v. P v × Q v)
  Returns-both none P Q h k = elim h [ ]
  Returns-both (some v) P Q h k = (h, k)

  module _ (sound : IsSound env) where
    init_from_any-Opens :
        (inner : D → Option (RtVal D)) (d : D) (x : A)
        → env.api.is_dyn_enum d ≡ false
        → is_any (env.api.dyn.type_of d) ≡ true
        → env.api.get_any d ≡ some x
        → ((e : D) → env.api.create x ≡ some e → Returns (inner e) (Opens e))
        → Returns (init_from_any env inner x) (Opens d)
    init_from_any-Opens inner d x plain any got h =
        elim (Bool-cases (is_simple (env.api.any.type_of x))) [
          | inl e ↦ rw e (unwraps_simple plain any got e)
          | inr e ↦ elim (Option-cases (env.api.create x)) [
            | inl e' ↦ rw (e, e') (unwraps_nothing plain any got e e')
            | inr (y, e') ↦
                rw (e, e')
                  (Returns-map (inner y) (Opens y) (Opens d) (h y e')
                    (λ v o. unwraps plain any got e e' o))
          ]
        ]

    simplify_dyn-Opens :
        (f : ℕ) (d : D) → env.api.depth d < f → Returns (simplify_dyn env f d) (Opens d)
    unfolding simplify_dyn
    simplify_dyn-Opens zero d h = absurd (omega arith)
    simplify_dyn-Opens (suc f) d h = elim (Bool-cases (is_simple (env.api.dyn.type_of d))) [
      | inl e ↦ rw e (reads e)
      | inr e ↦ elim (Bool-cases (env.api.is_dyn_enum d)) [
        | inl e' ↦ rw (e, e') (enumerates e e')
        | inr e' ↦ elim (Bool-cases (is_any (env.api.dyn.type_of d))) [
          | inr e'' ↦ rw (e, e', e'') (stays e e' e'')
          | inl e'' ↦
              let (x, got) = sound.opens d e'' in
              rw (e, e', e'', got)
                (init_from_any-Opens (simplify_dyn env f) d x e' e'' got (λ y made.
                  let deeper = sound.nested d x y got made in simplify_dyn-Opens f y (omega arith)))
        ]
      ]
    ]

    -- Where an Any can be taken out of a DynAny of type Any and is nested less deeply than it:
    -- simplify of a DynAny comes to an end in as many rounds as Anys are nested in it and one more,
    -- and gives what the DynAny stands for, with every Any around the value taken off; it is neither
    -- of the two kinds of literals.
    pub simplify-Opens :
        (d : D)
        → Returns
            (simplify env (RtVal.dynany d))
            (λ v. (is_component (kind_of v) ≡ true) × Opens d v)
    unfolding simplify
    simplify-Opens d =
        Returns-both (simplify_dyn env (suc (env.api.depth d)) d) _ (Opens d)
          (simplify-Returns env sound d)
          (simplify_dyn-Opens (suc (env.api.depth d)) d (omega arith))
