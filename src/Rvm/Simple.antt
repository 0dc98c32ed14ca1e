-- ===== src/Rvm/Simple.antt =====
-- Proofs about RDI_RTVal::simplify (lib/RDIDynamicEval.cc).
use omni_notify_omni_orb.Common.{
  ℕ, zero, suc, ◌<◌, true, Option, none, some, ◌≡◌, refl, inl, inr, Bool-cases, Option-cases,
  Returns, arith, ◌>>=◌,
}
use omni_notify_omni_orb.Rvm.Value.{RtVal, kind_of}
use omni_notify_omni_orb.Rvm.Env.{
  Env, Getters, TcKind, is_any, is_simple, some_or, simple, init_from_any, simplify_dyn, simplify,
}
use omni_notify_omni_orb.Rvm.Typing.{is_component, IsSound}

abbrev IsComponent : {D : Type 0} → RtVal D → Type 0
IsComponent v = is_component (kind_of v) ≡ true

module _ {D A : Type 0} (env : Env D A) where
  some_or-IsComponent :
      {V : Type 0} (o : Option V) (f : V → RtVal D) (d : RtVal D)
      → ((v : V) → IsComponent (f v))
      → IsComponent d
      → IsComponent (some_or d (o >>= λ v. some (f v)))
  some_or-IsComponent none f d h k = k
  some_or-IsComponent (some v) f d h k = h v

  simple-IsComponent :
      {X : Type 0} (g : Getters X) (d r : RtVal D) (x : X) (k : TcKind)
      → IsComponent d
      → IsComponent r
      → IsComponent (simple env g d r x k)
  simple-IsComponent g d r x TcKind.null p q = refl
  simple-IsComponent g d r x TcKind.void p q = refl
  simple-IsComponent g d r x TcKind.any p q = q
  simple-IsComponent g d r x TcKind.other p q = q
  simple-IsComponent g d r x TcKind.ushort p q =
      some_or-IsComponent (g.get_ushort x) _ d (λ v. refl) p
  simple-IsComponent g d r x TcKind.short p q =
      some_or-IsComponent (g.get_short x) _ d (λ v. refl) p
  simple-IsComponent g d r x TcKind.ulong p q =
      some_or-IsComponent (g.get_ulong x) _ d (λ v. refl) p
  simple-IsComponent g d r x TcKind.long p q = some_or-IsComponent (g.get_long x) _ d (λ v. refl) p
  simple-IsComponent g d r x TcKind.ulonglong p q =
      some_or-IsComponent (g.get_ulonglong x) _ d (λ v. refl) p
  simple-IsComponent g d r x TcKind.longlong p q =
      some_or-IsComponent (g.get_longlong x) _ d (λ v. refl) p
  simple-IsComponent g d r x TcKind.float p q =
      some_or-IsComponent (g.get_float x) _ d (λ v. refl) p
  simple-IsComponent g d r x TcKind.double p q =
      some_or-IsComponent (g.get_double x) _ d (λ v. refl) p
  simple-IsComponent g d r x TcKind.boolean p q =
      some_or-IsComponent (g.get_boolean x) _ d (λ v. refl) p
  simple-IsComponent g d r x TcKind.char p q = some_or-IsComponent (g.get_char x) _ d (λ v. refl) p
  simple-IsComponent g d r x TcKind.octet p q =
      some_or-IsComponent (g.get_octet x) _ d (λ v. refl) p
  simple-IsComponent g d r x TcKind.string p q =
      some_or-IsComponent (g.get_string x) _ d (λ v. refl) p

  module _ (sound : IsSound env) where
    -- What comes of an Any, where the DynAny made of it is simplified in time.
    init_from_any-Returns :
        (inner : D → Option (RtVal D)) (x : A)
        → ((e : D) → env.api.create x ≡ some e → Returns (inner e) IsComponent)
        → Returns (init_from_any env inner x) IsComponent
    init_from_any-Returns inner x h = elim (Bool-cases (is_simple (env.api.any.type_of x))) [
      | inl e ↦ rw e (simple-IsComponent env.api.any RtVal.null RtVal.null x _ refl refl)
      | inr e ↦ elim (Option-cases (env.api.create x)) [
        | inl e' ↦ rw (e, e') refl
        | inr (y, e') ↦ rw (e, e') (h y e')
      ]
    ]

    simplify_dyn-Returns :
        (f : ℕ) (d : D) → env.api.depth d < f → Returns (simplify_dyn env f d) IsComponent
    unfolding simplify_dyn
    simplify_dyn-Returns zero d h = absurd (omega arith)
    simplify_dyn-Returns (suc f) d h = elim (Bool-cases (is_simple (env.api.dyn.type_of d))) [
      | inl e ↦
          rw e (simple-IsComponent env.api.dyn (RtVal.dynany d) (RtVal.dynany d) d _ refl refl)
      | inr e ↦ elim (Bool-cases (env.api.is_dyn_enum d)) [
        | inl e' ↦ rw (e, e') refl
        | inr e' ↦ elim (Bool-cases (is_any (env.api.dyn.type_of d))) [
          | inr e'' ↦ rw (e, e', e'') refl
          | inl e'' ↦
              let (x, got) = sound.opens d e'' in
              rw (e, e', e'', got)
                (init_from_any-Returns (simplify_dyn env f) x (λ y made.
                  let deeper = sound.nested d x y got made in
                  simplify_dyn-Returns f y (omega arith)))
        ]
      ]
    ]

    -- Simplify of a DynAny comes to an end in as many rounds as Anys are nested in it and one more,
    -- and gives neither of the two kinds of literals, where an Any can be taken out of a DynAny of
    -- type Any and is nested less deeply than it.
    pub simplify-Returns :
        (d : D) → Returns (simplify env (RtVal.dynany d)) λ v. is_component (kind_of v) ≡ true
    unfolding simplify
    simplify-Returns d = simplify_dyn-Returns (suc (env.api.depth d)) d (omega arith)
