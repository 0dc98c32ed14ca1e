-- ===== src/Constraint/Parsed.antt =====
-- Proofs about the path from the tokens of a component to the code of its tree (lib/yacc.y,
-- lib/RDIConstraint.cc).
use omni_notify_omni_orb.Common.{
  ℕ, suc, ◌+◌, ◌≤◌, ◌<◌, Bool, Option, none, some, List, [], ◌∷◌, map, length, ◌≡◌, refl, ap, arith,
  subst, some_eq, bind_inv,
}
use omni_notify_omni_orb.Common.Int.{ℤ}
use omni_notify_omni_orb.OpSeq.Codes.{StaticT}
use omni_notify_omni_orb.OpSeq.Seq.{Text, opseq_size}
use omni_notify_omni_orb.Constraint.{Constraint, do_codegen, default_node}
use omni_notify_omni_orb.Constraint.Typing.{IsBuilt, size, depth}
use omni_notify_omni_orb.Constraint.Component.{
  Component, component_node, Start, wkp, special, curtime_start, curtime, Part, part_op, PartToken,
  built,
}
use omni_notify_omni_orb.Constraint.Build.{
  new_comp_end, new_exist, new_default, comp_end_on, exist_on, default_on, without_dot_d,
}
use omni_notify_omni_orb.Constraint.Parts.{parse_component}
use omni_notify_omni_orb.Constraint.Rules.{Ends}
use omni_notify_omni_orb.Constraint.Compile.{fresh, LeavesBool, do_codegen-LeavesBool}
use omni_notify_omni_orb.Constraint.Built.{parse_component-IsBuilt, new_default-IsBuilt, built_eq}

-- A tree of at most n ops, which takes one slot of the stack.
abbrev IsSmall : Constraint → ℕ → Type 0
IsSmall c n = (size c ≤ n) × (depth c ≤ 1)

length-map : {A B : Type 0} (f : A → B) (xs : List A) → length (map f xs) ≡ length xs
length-map f [] = refl
length-map f (x ∷ xs) = ap suc (length-map f xs)

component_node-IsSmall : (c : Component) → IsSmall (component_node c) (1 + length c.parts)
unfolding size depth
component_node-IsSmall c = (omega (arith, length-map part_op c.parts), omega arith)

comp_end_on-IsSmall :
    (st : Start) (n : Constraint) (k : ℕ) → IsSmall n k → IsSmall (comp_end_on st n) (k + 1)
unfolding size depth
comp_end_on-IsSmall curtime_start n k (h, d) = (omega (arith, h), d)
comp_end_on-IsSmall (curtime e) n k (h, d) = (omega (arith, h), d)
comp_end_on-IsSmall (wkp w) n k (h, d) = (omega (arith, h), d)
comp_end_on-IsSmall (special x) n k (h, d) = (omega (arith, h), d)

exist_on-IsSmall :
    (st : Start) (n : Constraint) (k : ℕ) → IsSmall n k → IsSmall (exist_on st n) (k + 1)
unfolding size depth
exist_on-IsSmall curtime_start n k (h, d) = (omega arith, omega arith)
exist_on-IsSmall (curtime e) n k (h, d) = (omega arith, omega arith)
exist_on-IsSmall (wkp w) n k (h, d) = (omega (arith, h), d)
exist_on-IsSmall (special x) n k (h, d) = (omega (arith, h), d)

length-without_dot_d : (ps qs : List Part) → without_dot_d ps ≡ some qs → length qs ≤ length ps
unfolding without_dot_d
length-without_dot_d [] qs run = cc
length-without_dot_d (Part.dot_d ∷ []) qs run =
    subst (λ z. length z ≤ 1) (some_eq run) (omega arith)
length-without_dot_d (p ∷ []) qs run = cc
length-without_dot_d (p ∷ q ∷ ps) qs run =
    let (rest, split, last) = bind_inv (without_dot_d (q ∷ ps)) _ run in
    let shorter = length-without_dot_d (q ∷ ps) rest split in
    subst (λ z. length z ≤ suc (suc (length ps))) (some_eq last) (omega (arith, shorter))

default_node-IsSmall :
    (c : Component) → IsSmall (default_node (component_node c)) (2 + length c.parts)
unfolding size depth
default_node-IsSmall c = (omega (arith, length-map part_op c.parts), omega arith)

shorter_tree :
    (st : Start) (ps qs : List Part) (n : Constraint)
    → without_dot_d ps ≡ some qs
    → default_node (component_node (record { start = st; parts = qs })) ≡ n
    → IsSmall n (2 + length ps)
shorter_tree st ps qs n split e =
    let (few, flat) = default_node-IsSmall (record { start = st; parts = qs }) in
    subst (λ z. IsSmall z (2 + length ps)) e
      (omega (arith, few, length-without_dot_d ps qs split), flat)

default_on-IsSmall :
    (st : Start) (ps : List Part) (rest : Option (List Part)) (n : Constraint)
    → without_dot_d ps ≡ rest
    → default_on st rest ≡ built n
    → IsSmall n (2 + length ps)
default_on-IsSmall (wkp w) ps (some qs) n split run =
    shorter_tree (wkp w) ps qs n split (built_eq run)
default_on-IsSmall (special x) ps (some qs) n split run =
    shorter_tree (special x) ps qs n split (built_eq run)
default_on-IsSmall (wkp w) ps none n split run = cc
default_on-IsSmall (special x) ps none n split run = cc
default_on-IsSmall curtime_start ps rest n split run = cc
default_on-IsSmall (curtime e) ps rest n split run = cc

-- Code generation for a small tree, from an empty sequence.
small-LeavesBool :
    (n : Constraint) (t : StaticT) (k lbl : ℕ)
    → IsBuilt n t
    → IsSmall n k
    → k < opseq_size
    → Ends (do_codegen n (fresh lbl)) LeavesBool
small-LeavesBool n t k lbl h (few, flat) room =
    do_codegen-LeavesBool n t lbl h (omega (arith, few, room)) (omega (arith, flat))

module _ (str_eq_i : Text → Text → Bool) (strtol : Text → ℤ × ℕ) where
  -- Whatever parts follow a dollar sign, and whatever the string comparison and the conversion of
  -- digits do: for a component that the parser builds, with at most 2045 parts, code generation for
  -- the trees that NewCompEnd and NewExist make of it fails no assertion, from an empty sequence,
  -- and without an error message the sequence is typed and leaves one bool.
  pub parse_component-LeavesBool :
      (top : Option Text) (ps : List PartToken) (c : Component) (lbl : ℕ)
      → parse_component str_eq_i strtol top ps ≡ some (built c)
      → length c.parts + 2 < opseq_size
      → Ends (do_codegen (new_comp_end c) (fresh lbl)) LeavesBool
        × Ends (do_codegen (new_exist c) (fresh lbl)) LeavesBool
  parse_component-LeavesBool top ps c lbl h room =
      let ((t, ending), existing) = parse_component-IsBuilt str_eq_i strtol top ps c h in
      let small = component_node-IsSmall c in
      (
        small-LeavesBool _ t _ lbl ending (comp_end_on-IsSmall c.start _ _ small)
            (omega (arith, room)),
        small-LeavesBool _ StaticT.b _ lbl existing (exist_on-IsSmall c.start _ _ small)
            (omega (arith, room)),
      )

  -- For a component that the parser builds, with at most 2045 parts, where NewDefault makes a tree of
  -- it: code generation for the tree fails no assertion, from an empty sequence, and without an error
  -- message the sequence is typed and leaves one bool.
  pub new_default-LeavesBool :
      (top : Option Text) (ps : List PartToken) (c : Component) (n : Constraint) (lbl : ℕ)
      → parse_component str_eq_i strtol top ps ≡ some (built c)
      → new_default c ≡ built n
      → length c.parts + 2 < opseq_size
      → Ends (do_codegen n (fresh lbl)) LeavesBool
  unfolding new_default
  new_default-LeavesBool top ps c n lbl h run room =
      small-LeavesBool n StaticT.b (2 + length c.parts) lbl
        (new_default-IsBuilt str_eq_i strtol top ps c n h run)
        (default_on-IsSmall c.start c.parts (without_dot_d c.parts) n refl run)
        (omega (arith, room))
