-- ===== src/Constraint/Grown.antt =====
-- Proofs about the parts of a component that grows by the methods add_* (lib/RDIConstraint.cc).
use omni_notify_omni_orb.Common.{
  ℕ, Bool, false, Option, none, some, List, [], ◌∷◌, ◌++◌, map, ◌≡◌, refl, ap, ◌∙◌, subst, inl, inr,
  Bool-cases, Option-cases, if◌then◌else◌,
}
use omni_notify_omni_orb.Common.Int.{ℤ}
use omni_notify_omni_orb.OpSeq.Codes.{StaticT}
use omni_notify_omni_orb.OpSeq.Seq.{Op, Text}
use omni_notify_omni_orb.Constraint.Typing.{Parts, ended, part, part_type}
use omni_notify_omni_orb.Constraint.Component.{
  Component, Part, part_op, PartToken, Built, built, rejected, add_last, is_end_part, ends_in_part,
  to_long, neg, dot_ident, dot_digits, in_brackets, in_parens, tag_string, tag_ident, tag_empty,
  tag_bool, tag_digits,
}
use omni_notify_omni_orb.Constraint.Names.{end_parts, curtime_name}
use omni_notify_omni_orb.Constraint.Build.{bad_delim, fix_string}
use omni_notify_omni_orb.Constraint.Parts.{
  find_name, new_comp, add_number, add_tag_char, add_part, add_parts, ◌then_built◌,
}

-- The type that a part leaves.
abbrev pub type_of : Part → StaticT
type_of Part.dot_len = StaticT.n
type_of Part.dot_tid = StaticT.s
type_of Part.dot_rid = StaticT.s
type_of _ = StaticT.u

pub part_typed : (p : Part) → part_type (part_op p).code ≡ some (type_of p)
part_typed Part.dot_len = refl
part_typed _ = refl

inner_part : (p : Part) → is_end_part p ≡ false → type_of p ≡ StaticT.u
inner_part Part.dot_len h = cc
inner_part Part.dot_tid h = cc
inner_part Part.dot_rid h = cc
inner_part _ h = refl

-- The parts fit one behind the other on a value of unknown type.
abbrev pub Fits : List Part → Type 0
Fits ps = (t : StaticT) × Parts StaticT.u (map part_op ps) t

pub unknown_next :
    (p : Part) (t t₀ : StaticT) (os : List Op) → Parts t₀ (part_op p ∷ os) t → t₀ ≡ StaticT.u
unknown_next p t t₀ os (part e type rest) = e

Fits-snoc : (ps : List Part) (p : Part) → ends_in_part ps ≡ false → Fits ps → Fits (ps ++ (p ∷ []))
unfolding ends_in_part
Fits-snoc [] p h f = (type_of p, part refl (part_typed p) ended)
Fits-snoc (q ∷ []) p h f =
    (type_of p, part refl (part_typed q) (part (inner_part q h) (part_typed p) ended))
Fits-snoc (q ∷ q' ∷ ps) p h (t, part {t' = t'} e type rest) =
    let is_u = unknown_next q' t t' (map part_op ps) rest in
    let (t₂, fits) =
      Fits-snoc (q' ∷ ps) p h (t, subst (λ z. Parts z (map part_op (q' ∷ ps)) t) is_u rest) in
    (t₂, part refl (type ∙ ap some is_u) fits)

abbrev pub Keeps : Built Component → Type 0
Keeps (built c) = Fits c.parts
Keeps (rejected e) = Unit {0}

abbrev pub KeepsIfAny : Option (Built Component) → Type 0
KeepsIfAny none = Unit {0}
KeepsIfAny (some r) = Keeps r

add_last-Keeps : (p : Part) (c : Component) → Fits c.parts → Keeps (add_last p c)
unfolding add_last
add_last-Keeps p c f = elim (Bool-cases (ends_in_part c.parts)) [
  | inl h ↦ rw h tt
  | inr h ↦ rw h (Fits-snoc c.parts p h f)
]

add_number-Keeps :
    (strtol : Text → ℤ × ℕ) (f : ℤ → Part) (digits : Text) (c : Component)
    → Fits c.parts
    → Keeps (add_number strtol f digits c)
unfolding add_number
add_number-Keeps strtol f digits c fits = elim (Bool-cases (ends_in_part c.parts)) [
  | inl h ↦ rw h tt
  | inr h ↦ elim (Bool-cases (bad_delim digits (strtol digits).1)) [
    | inl bad ↦ rw (h, bad) tt
    | inr good ↦ rw (h, good) (Fits-snoc c.parts _ h fits)
  ]
]

add_tag_char-Keeps : (t : Text) (c : Component) → Fits c.parts → KeepsIfAny (add_tag_char t c)
unfolding add_tag_char
add_tag_char-Keeps t c fits = elim (Bool-cases (ends_in_part c.parts)) [
  | inl h ↦ rw h tt
  | inr h ↦ elim (Option-cases (fix_string t)) [
    | inl bad ↦ rw (h, bad) tt
    | inr (x, good) ↦ rw (h, good) (Fits-snoc c.parts (Part.tagchar x) h fits)
  ]
]

then_built-Keeps :
    (m : Option (Built Component)) (k : Component → Option (Built Component))
    → KeepsIfAny m
    → ((c : Component) → Fits c.parts → KeepsIfAny (k c))
    → KeepsIfAny (m then_built k)
then_built-Keeps none k h next = tt
then_built-Keeps (some (rejected e)) k h next = tt
then_built-Keeps (some (built c)) k h next = next c h

module _ (str_eq_i : Text → Text → Bool) where
  pub new_comp-Fits : (top : Option Text) → Fits (new_comp str_eq_i top).parts
  unfolding new_comp
  new_comp-Fits none = (StaticT.u, ended)
  new_comp-Fits (some t) = elim (Bool-cases (str_eq_i t curtime_name)) [
    | inl h ↦ rw h (StaticT.u, ended)
    | inr h ↦ elim (Option-cases (find_name str_eq_i t end_parts)) [
      | inl e ↦ rw (h, e) (StaticT.u, ended)
      | inr (p, e) ↦ rw (h, e) (type_of p, part refl (part_typed p) ended)
    ]
  ]

  module _ (strtol : Text → ℤ × ℕ) where
    add_part-Keeps :
        (p : PartToken) (c : Component) → Fits c.parts → KeepsIfAny (add_part str_eq_i strtol p c)
    unfolding add_part
    add_part-Keeps (dot_ident t) c f = add_last-Keeps _ c f
    add_part-Keeps (dot_digits t) c f = add_number-Keeps strtol Part.dot_num t c f
    add_part-Keeps (in_brackets t) c f = add_number-Keeps strtol Part.index t c f
    add_part-Keeps (in_parens t) c f = add_last-Keeps _ c f
    add_part-Keeps tag_empty c f = add_last-Keeps _ c f
    add_part-Keeps (tag_bool x) c f = add_last-Keeps _ c f
    add_part-Keeps (tag_string t) c f = add_tag_char-Keeps t c f
    add_part-Keeps (tag_ident t) c f = add_last-Keeps _ c f
    add_part-Keeps (tag_digits t minus) c f =
        add_number-Keeps strtol (λ n. Part.tagnum (if minus then to_long (neg n) else n)) t c f

    pub add_parts-Keeps :
        (ps : List PartToken) (c : Component)
        → Fits c.parts
        → KeepsIfAny (add_parts str_eq_i strtol ps c)
    unfolding add_parts
    add_parts-Keeps [] c f = f
    add_parts-Keeps (p ∷ ps) c f =
        then_built-Keeps (add_part str_eq_i strtol p c) (add_parts str_eq_i strtol ps)
          (add_part-Keeps p c f) (add_parts-Keeps ps)
