-- ===== src/Constraint/Compile.antt =====
-- Proofs about do_codegen and NewIn (lib/RDIConstraint.cc).
use omni_notify_omni_orb.Common.{
  ℕ, suc, ◌+◌, ◌≤◌, ◌<◌, Option, none, some, [], ◌∷◌, ◌≡◌, ◌≢◌, refl, sym, ap, ◌∙◌, arith,
  some_ne_none,
}
use omni_notify_omni_orb.OpSeq.Codes.{StaticT, OpCode}
use omni_notify_omni_orb.OpSeq.Stack.{Stack, check_pre, is_b, stack_size}
use omni_notify_omni_orb.OpSeq.Seq.{plain_op, b_required, empty_seq, append, opseq_size}
use omni_notify_omni_orb.OpSeq.Safety.{IsTyped, types}
use omni_notify_omni_orb.Constraint.{
  Constraint, in_node, comp_end, GenState, Outcome, done, failed, ◌then_do◌, emit, demand, gen,
  do_codegen, final_result,
}
use omni_notify_omni_orb.Constraint.Typing.{IsBuilt, size, depth}
use omni_notify_omni_orb.Constraint.Component.{built}
use omni_notify_omni_orb.Constraint.Build.{new_in}
use omni_notify_omni_orb.Constraint.Rules.{Ends, Ends-mono, Ready, then_do-Ends}
use omni_notify_omni_orb.Constraint.Demands.{Demanded, b_demand}
use omni_notify_omni_orb.Constraint.Shapes.{Leaves, bool-Ready, tables}
use omni_notify_omni_orb.Constraint.Safety.{gen-Ends}

-- An empty sequence, with labels counted from k.
abbrev pub fresh : ℕ → GenState
fresh k = record { seq = empty_seq; newlblctr = k }

empty-Ready : (k : ℕ) → Ready [] 0 (fresh k).seq
unfolding types
empty-Ready k = record {
  typed = record { agrees = tt; room = omega arith };
  stack_eq = refl;
  count = omega arith;
}

-- A typed sequence that leaves one bool on the stack.
abbrev pub LeavesBool : GenState → Type 0
LeavesBool g = IsTyped g.seq × (g.seq.stack_t ≡ StaticT.b ∷ [])

-- Code generation from an empty sequence for a tree that the parser builds, in which the right side
-- of each `in` leaves an unknown type, where the arrays have room for it: no assertion fails, and
-- without an error message the sequence is typed and leaves one bool.
pub do_codegen-LeavesBool :
    (c : Constraint) (t : StaticT) (k : ℕ)
    → IsBuilt c t
    → size c < opseq_size
    → depth c ≤ stack_size
    → Ends (do_codegen c (fresh k)) LeavesBool
unfolding do_codegen
do_codegen-LeavesBool c t k h room deep =
    then_do-Ends (Leaves t [] (0 + size c)) LeavesBool (gen c (fresh k))
      (demand b_required final_result)
      (gen-Ends h [] 0 (omega arith) (omega arith) (fresh k) (empty-Ready k))
      (λ g l.
        Ends-mono (Demanded is_b [] (suc (0 + size c))) LeavesBool
          (demand b_required final_result g)
          (λ g' d. let r = bool-Ready [] (suc (0 + size c)) g' d in (r.typed, r.stack_eq))
          (b_demand final_result g t [] (0 + size c) (omega arith) l.0))

no_in :
    (t t' : StaticT) (st : Stack) → t' ≢ StaticT.u → check_pre OpCode.in_uu2b (t' ∷ t ∷ st) ≡ none
unfolding tables
no_in t StaticT.u st h = absurd (h refl)
no_in t _ st h = refl

-- GenIN fails its assertion on another type than the unknown one.
in_needs_unknown :
    (t t' : StaticT) (st : Stack) (n : ℕ) (m : Option Outcome) (g' : GenState)
    → t' ≢ StaticT.u
    → Ends m (Leaves t' (t ∷ st) n)
    → m then_do emit (plain_op OpCode.in_uu2b) ≢ some (done g')
unfolding emit append
in_needs_unknown t t' st n none g' h e run = cc
in_needs_unknown t t' st n (some (failed c x)) g' h e run = cc
in_needs_unknown t t' st n (some (done g)) g' h e run =
    let stuck : check_pre OpCode.in_uu2b g.seq.stack_t ≡ none =
      ap (check_pre OpCode.in_uu2b) e.0.stack_eq ∙ no_in t t' st h in
    let fault : emit (plain_op OpCode.in_uu2b) g ≡ none = rw stuck refl in
    some_ne_none (done g') (sym run ∙ fault)

-- NewIn accepts, as its right side, a node with an end mark whose code leaves another type than the
-- unknown one, such as a number or a string; and code generation for that tree from an empty
-- sequence, where the arrays have room, never returns without an error message.
pub new_in-stuck :
    (l n : Constraint) (t t' : StaticT) (k : ℕ) (g' : GenState)
    → IsBuilt l t
    → IsBuilt (comp_end n) t'
    → t' ≢ StaticT.u
    → size l + size (comp_end n) ≤ opseq_size
    → depth l ≤ stack_size
    → depth n < stack_size
    → (new_in l (comp_end n) ≡ built (in_node l (comp_end n)))
      × (gen (in_node l (comp_end n)) (fresh k) ≢ some (done g'))
unfolding gen new_in depth
new_in-stuck l n t t' k g' hl hn h room deep deep' = (
  refl,
  in_needs_unknown t t' [] (0 + size l + size (comp_end n)) _ g' h (
      then_do-Ends (Leaves t [] (0 + size l)) _ (gen l (fresh k)) (gen (comp_end n))
        (gen-Ends hl [] 0 (omega arith) (omega arith) (fresh k) (empty-Ready k))
        (λ g x. gen-Ends hn (t ∷ []) (0 + size l) (omega arith) (omega arith) g x.0)),
)
