-- ===== src/Constraint/Safety.antt =====
-- Proofs about the generators Gen* on trees that the parser builds (lib/RDIConstraint.cc).
use omni_notify_omni_orb.Common.{
  ℕ, suc, ◌+◌, ◌≤◌, true, false, some, List, [], ◌∷◌, ◌≡◌, refl, ap, ◌∙◌, subst, length, arith,
}
use omni_notify_omni_orb.OpSeq.Codes.{StaticT, OpCode}
use omni_notify_omni_orb.OpSeq.Stack.{Stack, check_pre, model_effect, is_b, is_s, is_n, stack_size}
use omni_notify_omni_orb.OpSeq.Fits.{push_type-some}
use omni_notify_omni_orb.OpSeq.Seq.{
  Op, plain_op, n_required, s_required, b_required, opseq_size, is_push_bool,
}
use omni_notify_omni_orb.Constraint.{
  Constraint, CompareOp, ArithOp, GenState, emit, emit_each, demand, gen, counted, compare_code,
  arith_code, newlblnm, or_prefix, and_prefix, lhs_of_or, rhs_of_or, lhs_of_and, rhs_of_and,
  not_operand, rhs_of_substr, lhs_of_arith, rhs_of_arith,
}
use omni_notify_omni_orb.Constraint.Typing.{
  IsBuilt, or_built, and_built, not_built, compare_built, in_built, substr_built, arith_built,
  comp_end_built, exist_built, default_built, cached_built, error_built, chain_built, Parts, ended,
  part, size, depth,
}
use omni_notify_omni_orb.Constraint.Rules.{Ends, Ends-mono, Ready, Emitted, then_do-Ends, emit-Ends}
use omni_notify_omni_orb.Constraint.Demands.{Demanded, n_demand, s_demand, b_demand}
use omni_notify_omni_orb.Constraint.Ops.{
  const-Pushes, const_char, start-Pushes, start_no_const, part_takes, part_no_const,
}
use omni_notify_omni_orb.Constraint.Shapes.{
  Leaves, Ready-mono, tables, bool-Ready, finish, Subtree, short_circuit, two_operands,
}

-- Each arithmetic op takes two numbers and gives one.
arith_takes :
    (op : ArithOp) (x y : StaticT) (st : Stack)
    → is_n x ≡ true
    → is_n y ≡ true
    → check_pre (arith_code op) (y ∷ x ∷ st) ≡ some tt
unfolding tables arith_code
arith_takes ArithOp.add x y st h k = rw (h, k)
arith_takes ArithOp.sub x y st h k = rw (h, k)
arith_takes ArithOp.mul x y st h k = rw (h, k)
arith_takes ArithOp.div x y st h k = rw (h, k)
arith_takes ArithOp.rem x y st h k = rw (h, k)
arith_takes ArithOp.cmp x y st h k = refl

arith_gives :
    (op : ArithOp) (x y : StaticT) (st : Stack)
    → model_effect (arith_code op) (y ∷ x ∷ st) ≡ some (StaticT.n ∷ st)
unfolding tables arith_code
arith_gives ArithOp.add x y st = refl
arith_gives _ x y st = refl

arith_no_bool : (op : ArithOp) → is_push_bool (arith_code op) ≡ false
unfolding arith_code
arith_no_bool ArithOp.add = refl
arith_no_bool _ = refl

compare_takes :
    (op : CompareOp) (st : Stack) → check_pre (compare_code op) (StaticT.n ∷ st) ≡ some tt
unfolding tables compare_code
compare_takes CompareOp.eq st = refl
compare_takes _ st = refl

compare_gives :
    (op : CompareOp) (st : Stack)
    → model_effect (compare_code op) (StaticT.n ∷ st) ≡ some (StaticT.b ∷ st)
unfolding tables compare_code
compare_gives CompareOp.eq st = refl
compare_gives _ st = refl

compare_no_bool : (op : CompareOp) → is_push_bool (compare_code op) ≡ false
unfolding compare_code
compare_no_bool CompareOp.eq = refl
compare_no_bool _ = refl

string_takes :
    (x y : StaticT) (st : Stack)
    → is_s x ≡ true
    → is_s y ≡ true
    → check_pre OpCode.substr_ss2b (y ∷ x ∷ st) ≡ some tt
unfolding tables
string_takes x y st h k = rw (h, k)

Leaves-mono :
    (t : StaticT) (st : Stack) (m n : ℕ) (g : GenState) → m ≤ n → Leaves t st m g → Leaves t st n g
Leaves-mono t st m n g h l = (Ready-mono (t ∷ st) m n g.seq h l.0, l.1)

-- GenCachedChain down the parts of a component.
emit_each-Ends :
    (t₀ t : StaticT) (os : List Op)
    → Parts t₀ os t
    → (st : Stack) (n : ℕ) → n + length os ≤ opseq_size
    → (g : GenState) → Leaves t₀ st n g
    → Ends (emit_each os g) (Leaves t st (n + length os))
unfolding emit_each
emit_each-Ends t₀ t [] ended st n room g l = Leaves-mono t₀ st n (n + 0) g (omega arith) l
emit_each-Ends t₀ t (op ∷ os) (part {t' = t'} is_u type rest) st n room g l =
    let (takes, gives) = part_takes op.code t' st type in
    let (no_bool, no_char) = part_no_const op.code t' type in
    let ready : Ready (StaticT.u ∷ st) n g.seq = subst (λ z. Ready (z ∷ st) n g.seq) is_u l.0 in
    then_do-Ends (Leaves t' st (suc n)) _ _ (emit_each os)
      (finish op t' st (StaticT.u ∷ st) n (suc n) g ready (omega arith) (omega arith) no_bool
        no_char takes gives)
      (λ g' l'.
        Ends-mono (Leaves t st (suc n + length os)) _ (emit_each os g')
          (λ g'' l''. Leaves-mono t st _ _ g'' (omega arith) l'')
          (emit_each-Ends t' t os rest st (suc n) (omega arith) g' l'))

-- The code of a tree that the parser builds, where the sequence and the stack have room for it:
-- no assertion fails, and where there is no error message the sequence is typed, the stack has the
-- type of the tree on top of what was there, and at most the size of the tree was added.
pub gen-Ends :
    {c : Constraint} {t : StaticT}
    → IsBuilt c t
    → (st : Stack) (n : ℕ) → n + size c ≤ opseq_size
    → length st + depth c ≤ stack_size
    → Subtree (gen c) t st n (size c)
unfolding gen size depth tables
gen-Ends (or_built {l = l} {r = r} {t = t} {t' = t'} hl hr) st n room deep g ready =
    Ends-mono (Leaves StaticT.b st (n + size l + size r + 5)) _ _
      (λ g'. Leaves-mono StaticT.b st _ _ g' (omega arith))
      (short_circuit OpCode.if_t_b2b (newlblnm or_prefix g) lhs_of_or rhs_of_or
        (λ g'. gen l (counted g')) (gen r) t t' st n (size l) (size r) (λ st'. refl) (λ st'. refl)
        (omega arith) g ready
        (λ g' r'. gen-Ends hl st n (omega arith) (omega arith) (counted g') r')
        (gen-Ends hr st (n + size l + 3) (omega arith) (omega arith)))
gen-Ends (and_built {l = l} {r = r} {t = t} {t' = t'} hl hr) st n room deep g ready =
    Ends-mono (Leaves StaticT.b st (n + size l + size r + 5)) _ _
      (λ g'. Leaves-mono StaticT.b st _ _ g' (omega arith))
      (short_circuit OpCode.if_f_b2b (newlblnm and_prefix g) lhs_of_and rhs_of_and
        (λ g'. gen l (counted g')) (gen r) t t' st n (size l) (size r) (λ st'. refl) (λ st'. refl)
        (omega arith) g ready
        (λ g' r'. gen-Ends hl st n (omega arith) (omega arith) (counted g') r')
        (gen-Ends hr st (n + size l + 3) (omega arith) (omega arith)))
gen-Ends (not_built {c = c} {t = t} h) st n room deep g ready =
    then_do-Ends (Demanded is_b st (suc (n + size c))) _ _ (emit (plain_op OpCode.not_b2b))
      (then_do-Ends (Leaves t st (n + size c)) _ _ (demand b_required not_operand)
        (gen-Ends h st n (omega arith) (omega arith) g ready)
        (λ g' l. b_demand not_operand g' t st (n + size c) (omega arith) l.0))
      (λ g' d.
        finish (plain_op OpCode.not_b2b) StaticT.b st (StaticT.b ∷ st) (suc (n + size c)) _ g'
          (bool-Ready st _ g' d) (omega arith) (omega arith) refl (λ e. cc) refl refl)
gen-Ends (compare_built {l = l} {r = r} {t = t} {t' = t'} op hl hr) st n room deep g ready =
    then_do-Ends (Emitted (plain_op OpCode.cmp_uu2n) (StaticT.n ∷ st) (suc (n + size l + size r))) _
      _ (emit (plain_op (compare_code op)))
      (then_do-Ends (Leaves t' (t ∷ st) (n + size l + size r)) _ _ (emit (plain_op OpCode.cmp_uu2n))
        (then_do-Ends (Leaves t st (n + size l)) _ _ (gen r)
          (gen-Ends hl st n (omega arith) (omega arith) g ready)
          (λ g' l'. gen-Ends hr (t ∷ st) (n + size l) (omega arith) (omega arith) g' l'.0))
        (λ g' l'.
          emit-Ends (plain_op OpCode.cmp_uu2n) g' (t' ∷ t ∷ st) (StaticT.n ∷ st) _ l'.0
            (omega arith) refl refl))
      (λ g' e.
        finish (plain_op (compare_code op)) StaticT.b st (StaticT.n ∷ st) _ _ g' e.0 (omega arith)
          (omega arith) (compare_no_bool op) (λ q. cc) (compare_takes op st) (compare_gives op st))
gen-Ends (in_built {l = l} {r = r} {t = t} {t' = t'} hl hr u) st n room deep g ready =
    then_do-Ends (Leaves t' (t ∷ st) (n + size l + size r)) _ _ (emit (plain_op OpCode.in_uu2b))
      (then_do-Ends (Leaves t st (n + size l)) _ _ (gen r)
        (gen-Ends hl st n (omega arith) (omega arith) g ready)
        (λ g' l'. gen-Ends hr (t ∷ st) (n + size l) (omega arith) (omega arith) g' l'.0))
      (λ g' l'.
        finish (plain_op OpCode.in_uu2b) StaticT.b st (StaticT.u ∷ t ∷ st) (n + size l + size r) _
          g' (subst (λ z. Ready (z ∷ t ∷ st) (n + size l + size r) g'.seq) u l'.0) (omega arith)
          (omega arith) refl (λ e. cc) refl refl)
gen-Ends (substr_built {l = l} {r = r} {t = t} {t' = t'} hl hr) st n room deep g ready =
    Ends-mono (Leaves StaticT.b st (n + size l + size r + 3)) _ _
      (λ g'. Leaves-mono StaticT.b st _ _ g' (omega arith))
      (two_operands is_s s_required rhs_of_substr rhs_of_substr (gen l) (gen r) t t'
        OpCode.substr_ss2b StaticT.b st n (size l) (size r) (omega arith) s_demand
        (λ x y. string_takes x y st) (λ x y. refl) refl (λ e. cc) g ready
        (gen-Ends hl st n (omega arith) (omega arith))
        (λ x. gen-Ends hr (x ∷ st) (suc (n + size l)) (omega arith) (omega arith)))
gen-Ends (arith_built {l = l} {r = r} {t = t} {t' = t'} op hl hr) st n room deep g ready =
    Ends-mono (Leaves StaticT.n st (n + size l + size r + 3)) _ _
      (λ g'. Leaves-mono StaticT.n st _ _ g' (omega arith))
      (two_operands is_n n_required (lhs_of_arith op) (rhs_of_arith op) (gen l) (gen r) t t'
        (arith_code op) StaticT.n st n (size l) (size r) (omega arith) n_demand
        (λ x y. arith_takes op x y st) (λ x y. arith_gives op x y st) (arith_no_bool op) (λ e. cc) g
        ready (gen-Ends hl st n (omega arith) (omega arith))
        (λ x. gen-Ends hr (x ∷ st) (suc (n + size l)) (omega arith) (omega arith)))
gen-Ends (comp_end_built {c = c} {t = t} h nc) st n room deep g ready =
    then_do-Ends (Leaves t st (n + size c)) _ _ (emit (plain_op OpCode.compend))
      (gen-Ends h st n (omega arith) (omega arith) g ready)
      (λ g' l.
        finish (plain_op OpCode.compend) t st (t ∷ st) (n + size c) _ g' l.0 (omega arith)
          (omega arith) refl nc refl refl)
gen-Ends (exist_built {c = c} {t = t} h) st n room deep g ready =
    then_do-Ends (Leaves t st (n + size c)) _ _ (emit (plain_op OpCode.exist_x2b))
      (gen-Ends h st n (omega arith) (omega arith) g ready)
      (λ g' l.
        finish (plain_op OpCode.exist_x2b) StaticT.b st (t ∷ st) (n + size c) _ g' l.0 (omega arith)
          (omega arith) refl (λ e. cc) refl refl)
gen-Ends (default_built {c = c} {t = t} h) st n room deep g ready =
    then_do-Ends (Leaves t st (n + size c)) _ _ (emit (plain_op OpCode.default_x2b))
      (gen-Ends h st n (omega arith) (omega arith) g ready)
      (λ g' l.
        finish (plain_op OpCode.default_x2b) StaticT.b st (t ∷ st) (n + size c) _ g' l.0
          (omega arith) (omega arith) refl (λ e. cc) refl refl)
gen-Ends (cached_built {op = op} {t = t} k has) st n room deep g ready =
    let (takes, gives) = const-Pushes op.code t st k in
    Ends-mono (Emitted op (t ∷ st) (suc n)) _ (emit op g)
      (λ g' (r, (before, e)). (
        Ready-mono (t ∷ st) (suc n) (n + 1) g'.seq (omega arith) r,
        record {
          last = op;
          before = before;
          ops_eq = e;
          bool_ok = has.bool_const;
          char_ok = λ is_c. let hit = const_char op.code t k is_c in (hit, has.char_const hit);
        },
      ))
      (emit-Ends op g st (t ∷ st) n ready (omega arith) takes
        (gives ∙ push_type-some t st (omega arith)))
gen-Ends (error_built {op = op} code) st n room deep g ready =
    then_do-Ends (Emitted op (StaticT.n_ushort ∷ st) (suc n)) _ _ (emit (plain_op OpCode.signal_n))
      (emit-Ends op g st (StaticT.n_ushort ∷ st) n ready (omega arith)
        (ap (λ z. check_pre z st) code)
        (ap (λ z. model_effect z st) code ∙ push_type-some StaticT.n_ushort st (omega arith)))
      (λ g' e.
        finish (plain_op OpCode.signal_n) StaticT.n_ushort st (StaticT.n_ushort ∷ st) (suc n) _ g'
          e.0 (omega arith) (omega arith) refl (λ q. cc) refl refl)
gen-Ends (chain_built {op = op} {os = os} {t = t} {t' = t'} k ps) st n room deep g ready =
    let (takes, gives) = start-Pushes op.code t st k in
    let (no_bool, no_char) = start_no_const op.code t k in
    then_do-Ends (Leaves t st (suc n)) _ _ (emit_each os)
      (finish op t st st n (suc n) g ready (omega arith) (omega arith) no_bool no_char takes
        (gives ∙ push_type-some t st (omega arith)))
      (λ g' l.
        Ends-mono (Leaves t' st (suc n + length os)) _ (emit_each os g')
          (λ g'' l'. Leaves-mono t' st _ _ g'' (omega arith) l')
          (emit_each-Ends t t' os ps st (suc n) (omega arith) g' l))
