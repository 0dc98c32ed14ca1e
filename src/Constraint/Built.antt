-- ===== src/Constraint/Built.antt =====
-- Proofs about comp_done, NewCompEnd, NewExist and NewDefault (lib/RDIConstraint.cc).
use omni_notify_omni_orb.Common.{
  ℕ, Bool, false, Option, none, some, List, [], ◌∷◌, map, ◌≡◌, ◌≢◌, refl, sym, ap, ◌∙◌, subst,
  some_eq, some_ne_none, bind_inv,
}
use omni_notify_omni_orb.Common.Int.{ℤ}
use omni_notify_omni_orb.OpSeq.Codes.{StaticT}
use omni_notify_omni_orb.OpSeq.Seq.{Op, Text, bool_arg}
use omni_notify_omni_orb.Constraint.{Constraint}
use omni_notify_omni_orb.Constraint.Typing.{
  IsBuilt, Parts, ended, part, start_type, cached_built, chain_built, comp_end_built, exist_built,
  default_built,
}
use omni_notify_omni_orb.Constraint.Component.{
  Component, component_node, Start, wkp, special, curtime_start, curtime, Part, part_op, start_op,
  PartToken, WellKnownPart, Built, built, rejected,
}
use omni_notify_omni_orb.Constraint.Names.{special_parts, dollar_parts}
use omni_notify_omni_orb.Constraint.Ops.{part_no_const, start_no_const}
use omni_notify_omni_orb.Constraint.Build.{
  is_elt, new_bool_const, new_comp_end, new_exist, new_default, exist_on, comp_end_on,
  without_dot_d, default_on,
}
use omni_notify_omni_orb.Constraint.Parts.{
  find_name, new_comp, well_known, comp_done, comp_done_on, add_parts, parse_component,
  ◌then_built◌,
}
use omni_notify_omni_orb.Constraint.Grown.{
  Fits, KeepsIfAny, unknown_next, new_comp-Fits, add_parts-Keeps,
}

-- A component that is finished: its parts fit behind its start.
abbrev Finished : Component → Type 0
Finished c =
    (t₀ : StaticT) × (t : StaticT) × (start_type (start_op c.start).code ≡ some t₀)
    × Parts t₀ (map part_op c.parts) t

abbrev FinishedIfAny : Option (Built Component) → Type 0
FinishedIfAny none = Unit {0}
FinishedIfAny (some (built c)) = Finished c
FinishedIfAny (some (rejected e)) = Unit {0}

Parts-no_char : (t t₀ : StaticT) (os : List Op) → Parts t₀ os t → t₀ ≢ StaticT.c → t ≢ StaticT.c
Parts-no_char t t₀ [] ended h = h
Parts-no_char t t₀ (op ∷ os) (part {t' = t'} e type rest) h =
    Parts-no_char t t' os rest (part_no_const op.code t' type).1

unknown_start :
    (st : Start) (ps : List Part)
    → start_type (start_op st).code ≡ some StaticT.u
    → Fits ps
    → Finished (record { start = st; parts = ps })
unknown_start st ps k (t, fits) = (StaticT.u, t, k, fits)

well_known-Finished :
    (c : Component) (ps : List Part) (w : Option WellKnownPart)
    → Finished c
    → Fits ps
    → Finished (well_known c ps w)
well_known-Finished c ps none h f = h
well_known-Finished c ps (some w) h f = unknown_start (wkp w) ps refl f

Fits-tail : (t : Text) (ps : List Part) → Fits (Part.dot_id t ∷ ps) → Fits ps
Fits-tail t ps (t₁, part {t' = t'} e type rest) =
    (t₁, subst (λ z. Parts z (map part_op ps) t₁) (sym (some_eq type)) rest)

then_built-Finished :
    (m : Option (Built Component)) (f : Component → Component)
    → KeepsIfAny m
    → ((c : Component) → Fits c.parts → Finished (f c))
    → FinishedIfAny (m then_built λ c. some (built (f c)))
then_built-Finished none f h next = tt
then_built-Finished (some (rejected e)) f h next = tt
then_built-Finished (some (built c)) f h next = next c h

comp_end_on-IsBuilt :
    (st : Start) (n : Constraint) (t : StaticT)
    → IsBuilt n t
    → t ≢ StaticT.c
    → IsBuilt (comp_end_on st n) t
comp_end_on-IsBuilt curtime_start n t h nc = h
comp_end_on-IsBuilt (curtime e) n t h nc = h
comp_end_on-IsBuilt (wkp w) n t h nc = comp_end_built h nc
comp_end_on-IsBuilt (special x) n t h nc = comp_end_built h nc

bool_const-IsBuilt : (x : Bool) → IsBuilt (new_bool_const x) StaticT.b
unfolding bool_arg
bool_const-IsBuilt x =
    cached_built refl (record { bool_const = λ e. some_ne_none x; char_const = λ e. cc })

without_dot_d-Fits : (ps qs : List Part) → without_dot_d ps ≡ some qs → Fits ps → Fits qs
unfolding without_dot_d
without_dot_d-Fits [] qs run f = cc
without_dot_d-Fits (Part.dot_d ∷ []) qs run f = subst Fits (some_eq run) (StaticT.u, ended)
without_dot_d-Fits (p ∷ []) qs run f = absurd (some_ne_none qs (sym run))
without_dot_d-Fits (p ∷ q ∷ ps) qs run (t, part {t' = t'} e type rest) =
    let (rest_ps, split, last) = bind_inv (without_dot_d (q ∷ ps)) _ run in
    let is_u = unknown_next q t t' (map part_op ps) rest in
    let (t₂, fits) =
      without_dot_d-Fits (q ∷ ps) rest_ps split
        (t, subst (λ z. Parts z (map part_op (q ∷ ps)) t) is_u rest) in
    subst Fits (some_eq last) (t₂, part refl (type ∙ ap some is_u) fits)

exist_on-IsBuilt :
    (st : Start) (n : Constraint) (t : StaticT) → IsBuilt n t → IsBuilt (exist_on st n) StaticT.b
exist_on-IsBuilt curtime_start n t h = bool_const-IsBuilt false
exist_on-IsBuilt (curtime e) n t h = bool_const-IsBuilt (is_elt e)
exist_on-IsBuilt (wkp w) n t h = exist_built h
exist_on-IsBuilt (special x) n t h = exist_built h

pub built_eq : {A : Type 0} {a a' : A} → built a ≡ built a' → a ≡ a'
built_eq e = cc

default_on-IsBuilt :
    (st : Start) (ps : List Part) (rest : Option (List Part)) (n : Constraint) (t₀ t : StaticT)
    → start_type (start_op st).code ≡ some t₀
    → Parts t₀ (map part_op ps) t
    → without_dot_d ps ≡ rest
    → default_on st rest ≡ built n
    → IsBuilt n StaticT.b
default_on-IsBuilt (wkp w) ps (some qs) n t₀ t k fits split run =
    let (t', f) =
      without_dot_d-Fits ps qs split
        (t, subst (λ z. Parts z (map part_op ps) t) (sym (some_eq k)) fits) in
    subst (λ z. IsBuilt z StaticT.b) (built_eq run) (default_built (chain_built refl f))
default_on-IsBuilt (special x) ps (some qs) n t₀ t k fits split run =
    let (t', f) =
      without_dot_d-Fits ps qs split
        (t, subst (λ z. Parts z (map part_op ps) t) (sym (some_eq k)) fits) in
    subst (λ z. IsBuilt z StaticT.b) (built_eq run) (default_built (chain_built refl f))
default_on-IsBuilt (wkp w) ps none n t₀ t k fits split run = cc
default_on-IsBuilt (special x) ps none n t₀ t k fits split run = cc
default_on-IsBuilt curtime_start ps rest n t₀ t k fits split run = cc
default_on-IsBuilt (curtime e) ps rest n t₀ t k fits split run = cc

module _ (str_eq_i : Text → Text → Bool) where
  comp_done_on-Finished :
      (st : Start) (ps : List Part) → Fits ps → Finished (comp_done_on str_eq_i st ps)
  unfolding comp_done_on
  comp_done_on-Finished (special t) ps f =
      well_known-Finished (record { start = special t; parts = ps }) ps
        (find_name str_eq_i t special_parts) (unknown_start (special t) ps refl f) f
  comp_done_on-Finished (wkp w) (Part.dot_id t ∷ ps) f =
      well_known-Finished (record { start = wkp w; parts = Part.dot_id t ∷ ps }) ps
        (find_name str_eq_i t dollar_parts) (unknown_start (wkp w) (Part.dot_id t ∷ ps) refl f)
        (Fits-tail t ps f)
  comp_done_on-Finished (wkp w) ps f = unknown_start (wkp w) ps refl f
  comp_done_on-Finished curtime_start ps f = (StaticT.n, StaticT.n, refl, ended)
  comp_done_on-Finished (curtime x) ps f = (StaticT.n, StaticT.n, refl, ended)

  module _ (strtol : Text → ℤ × ℕ) where
    parse_component-Finished :
        (top : Option Text) (ps : List PartToken)
        → FinishedIfAny (parse_component str_eq_i strtol top ps)
    unfolding parse_component comp_done
    parse_component-Finished top ps =
        then_built-Finished (add_parts str_eq_i strtol ps (new_comp str_eq_i top))
          (comp_done str_eq_i)
          (add_parts-Keeps str_eq_i strtol ps (new_comp str_eq_i top) (new_comp-Fits str_eq_i top))
          (λ c f. comp_done_on-Finished c.start c.parts f)

    -- A component that the parser builds: NewCompEnd and NewExist on top of it give trees of the kind
    -- that the parser builds, the second one that of a bool.
    pub parse_component-IsBuilt :
        (top : Option Text) (ps : List PartToken) (c : Component)
        → parse_component str_eq_i strtol top ps ≡ some (built c)
        → ((t : StaticT) × IsBuilt (new_comp_end c) t) × IsBuilt (new_exist c) StaticT.b
    parse_component-IsBuilt top ps c h =
        let (t₀, t, k, fits) : Finished c =
          subst FinishedIfAny h (parse_component-Finished top ps) in
        let tree : IsBuilt (component_node c) t = chain_built k fits in
        let other = Parts-no_char t t₀ (map part_op c.parts) fits (start_no_const _ t₀ k).1 in
        ((t, comp_end_on-IsBuilt c.start _ t tree other), exist_on-IsBuilt c.start _ t tree)

    -- So does NewDefault, where it gives a tree: that of a bool.
    pub new_default-IsBuilt :
        (top : Option Text) (ps : List PartToken) (c : Component) (n : Constraint)
        → parse_component str_eq_i strtol top ps ≡ some (built c)
        → new_default c ≡ built n
        → IsBuilt n StaticT.b
    unfolding new_default
    new_default-IsBuilt top ps c n h run =
        let (t₀, t, k, fits) : Finished c =
          subst FinishedIfAny h (parse_component-Finished top ps) in
        default_on-IsBuilt c.start c.parts (without_dot_d c.parts) n t₀ t k fits refl run
