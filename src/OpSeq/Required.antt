-- ===== src/OpSeq/Required.antt =====
-- The requirement methods n_required, s_required and b_required (lib/RDIOpSeq.cc).
use omni_notify_omni_orb.Common.{
  Bool, true, some, List, [], ◌∷◌, ◌≡◌, refl, sym, inl, inr, length, check, arith, subst, bind_inv,
  check_inv, some_eq, ap, ◌∙◌, Bool-cases,
}
use omni_notify_omni_orb.OpSeq.Codes.{StaticT, OpCode}
use omni_notify_omni_orb.OpSeq.Stack.{
  Stack, model_effect, is_b, is_s, is_n, effect, retype_top, push_type,
}
use omni_notify_omni_orb.OpSeq.Tables.{op2_stack_effect}
use omni_notify_omni_orb.OpSeq.Seq.{
  Op, OpSeq, fine, append, plain_op, n_required, s_required, b_required, n_from_bool, n_from_char,
  s_from_char, is_push_bool, is_push_char, bool_arg, text_arg, n_required_on, s_required_on,
  b_required_on, push_ushort, bool_ushort, first_char, appended,
}
use mathlib.Core.Path.{subst₂}
use omni_notify_omni_orb.OpSeq.Fits.{Fits, Follows}
use omni_notify_omni_orb.OpSeq.Safety.{
  IsTyped, run_op, types, append-IsTyped, append_inv, replace_push, push_bool_run, push_char_run,
  push_ushort_run, push_string_run,
}

-- Only the type on top may have changed, and it passes the test.
abbrev pub Retyped : (StaticT → Bool) → OpSeq → OpSeq → Type 0
Retyped p s t =
    (x : StaticT) × (k : StaticT) × (st : Stack) × (s.stack_t ≡ x ∷ st)
    × (t.stack_t ≡ k ∷ st)
    × (p k ≡ true)

-- The sequence is typed and its top passes the test.
abbrev pub Meets : (StaticT → Bool) → OpSeq → OpSeq → Type 0
Meets p s t = IsTyped t × Retyped p s t

fine_eq : {s t : OpSeq} → some (fine s) ≡ some (fine t) → s ≡ t
fine_eq h = cc

kept :
    (p : StaticT → Bool) (s t : OpSeq) (x : StaticT) (st : Stack)
    → s.stack_t ≡ x ∷ st
    → p x ≡ true
    → IsTyped s
    → some (fine s) ≡ some (fine t)
    → Meets p s t
kept p s t x st e q v h = subst (Meets p s) (fine_eq h) (v, (x, x, st, e, e, q))

-- A conversion op that leaves `k` on top in place of `x`.
converted :
    (p : StaticT → Bool) (code : OpCode) (s t : OpSeq) (x k : StaticT) (st : Stack)
    → model_effect code (x ∷ st) ≡ some (k ∷ st)
    → s.stack_t ≡ x ∷ st
    → p k ≡ true
    → IsTyped s
    → appended s code ≡ some (fine t)
    → Meets p s t
converted p code s t x k st run e q v h =
    let (u, done, h₁) = bind_inv (append s (plain_op code)) _ h in
    let (r, pre, room, eff, shape) = append_inv s u (plain_op code) done in
    let r-eq : r ≡ k ∷ st = some_eq (sym eff ∙ (ap (model_effect code) e ∙ run)) in
    subst (Meets p s) (fine_eq h₁) (
      append-IsTyped s u (plain_op code) v done,
      (x, k, st, e, ap (λ (w : OpSeq). w.stack_t) shape ∙ r-eq, q),
    )

-- The last op is replaced by one that pushes another type.
replaced :
    (p : StaticT → Bool) (s t : OpSeq) (op op' : Op) (os : List Op) (x k : StaticT) (st : Stack)
    → s.rev_ops ≡ op ∷ os
    → s.stack_t ≡ x ∷ st
    → IsTyped (record { rev_ops = op' ∷ os; stack_t = k ∷ st })
    → p k ≡ true
    → some (fine (record { rev_ops = op' ∷ os; stack_t = k ∷ st })) ≡ some (fine t)
    → Meets p s t
replaced p s t op op' os x k st o e v q h =
    subst (Meets p s) (fine_eq h) (v, (x, k, st, e, refl, q))

retag :
    (s : OpSeq) (op op' : Op) (os : List Op) (j j' x k : StaticT) (st : Stack)
    → s.rev_ops ≡ op ∷ os
    → s.stack_t ≡ x ∷ st
    → ((st' : Stack) → run_op op.code st' ≡ push_type j st')
    → ((st' : Stack) → run_op op'.code st' ≡ push_type j' st')
    → Fits j' k
    → IsTyped s
    → IsTyped (record { rev_ops = op' ∷ os; stack_t = k ∷ st })
retag s op op' os j j' x k st o e old new f v = record {
  agrees =
      replace_push op op' os j j' x k st old new f
        (subst₂ (λ a b. Follows (types a) b) o e v.agrees);
  room = let l : length s.rev_ops ≡ length (op ∷ os) = ap length o in omega (arith, v.room);
}

n_from_bool-Meets :
    (s t : OpSeq) (os : List Op) (st : Stack)
    → s.rev_ops ≡ os
    → s.stack_t ≡ StaticT.b ∷ st
    → IsTyped s
    → n_from_bool os st ≡ some (fine t)
    → Meets is_n s t
unfolding n_from_bool model_effect effect op2_stack_effect retype_top
n_from_bool-Meets s t [] st o e v h = cc
n_from_bool-Meets s t (op ∷ os) st o e v h = elim (Bool-cases (is_push_bool op.code)) [
  | inl hit ↦
      let (x, _, h₁) = bind_inv (bool_arg op.arg) _ (rw hit at h) in
      replaced is_n s t op (push_ushort (bool_ushort x)) os StaticT.b StaticT.n st o e
        (retag s op (push_ushort (bool_ushort x)) os StaticT.b StaticT.n_ushort StaticT.b StaticT.n
          st o e (λ st'. push_bool_run op.code st' hit) push_ushort_run (inr (refl, refl)) v)
        refl h₁
  | inr miss ↦
      let same : s ≡ record { rev_ops = op ∷ os; stack_t = StaticT.b ∷ st } =
        λ i. record { rev_ops = o i; stack_t = e i } in
      converted is_n OpCode.cvt_u2n s t StaticT.b StaticT.n st refl e refl v
        (subst (λ z. appended z OpCode.cvt_u2n ≡ some (fine t)) (sym same) (rw miss at h))
]

n_from_char-Meets :
    (s t : OpSeq) (os : List Op) (st : Stack)
    → s.rev_ops ≡ os
    → s.stack_t ≡ StaticT.c ∷ st
    → IsTyped s
    → n_from_char os st ≡ some (fine t)
    → Meets is_n s t
unfolding n_from_char
n_from_char-Meets s t [] st o e v h = cc
n_from_char-Meets s t (op ∷ os) st o e v h =
    let (_, hit, h₁) = bind_inv (check (is_push_char op.code)) _ h in
    let (x, _, h₂) = bind_inv (text_arg op.arg) _ h₁ in
    replaced is_n s t op (push_ushort (first_char x)) os StaticT.c StaticT.n st o e
      (retag s op (push_ushort (first_char x)) os StaticT.c StaticT.n_ushort StaticT.c StaticT.n st
        o e (λ st'. push_char_run op.code st' (check_inv _ hit)) push_ushort_run (inr (refl, refl))
        v)
      refl h₂

s_from_char-Meets :
    (s t : OpSeq) (os : List Op) (st : Stack)
    → s.rev_ops ≡ os
    → s.stack_t ≡ StaticT.c ∷ st
    → IsTyped s
    → s_from_char os st ≡ some (fine t)
    → Meets is_s s t
unfolding s_from_char
s_from_char-Meets s t [] st o e v h = cc
s_from_char-Meets s t (op ∷ os) st o e v h =
    let (_, hit, h₁) = bind_inv (check (is_push_char op.code)) _ h in
    replaced is_s s t op (record op { code = OpCode.push_sc2s }) os StaticT.c StaticT.s st o e
      (retag s op (record op { code = OpCode.push_sc2s }) os StaticT.c StaticT.s StaticT.c StaticT.s
        st o e (λ st'. push_char_run op.code st' (check_inv _ hit)) push_string_run (inl refl) v)
      refl h₁

n_required_on-Meets :
    (s t : OpSeq) (st : Stack)
    → s.stack_t ≡ st
    → IsTyped s
    → n_required_on s st ≡ some (fine t)
    → Meets is_n s t
unfolding n_required_on model_effect effect op2_stack_effect retype_top
n_required_on-Meets s t [] e v h = cc
n_required_on-Meets s t (StaticT.n ∷ st) e v h = kept is_n s t StaticT.n st e refl v h
n_required_on-Meets s t (StaticT.n_ushort ∷ st) e v h = kept is_n s t StaticT.n_ushort st e refl v h
n_required_on-Meets s t (StaticT.u ∷ st) e v h =
    converted is_n OpCode.cvt_u2n s t StaticT.u StaticT.n st refl e refl v h
n_required_on-Meets s t (StaticT.b ∷ st) e v h = n_from_bool-Meets s t s.rev_ops st refl e v h
n_required_on-Meets s t (StaticT.c ∷ st) e v h = n_from_char-Meets s t s.rev_ops st refl e v h
n_required_on-Meets s t (StaticT.i ∷ st) e v h = cc
n_required_on-Meets s t (StaticT.s ∷ st) e v h = cc

-- Where n_required reports no mismatch, the sequence is typed, a number is on top, and the types
-- below the top are the ones that were there.
pub n_required-Meets : (s t : OpSeq) → IsTyped s → n_required s ≡ some (fine t) → Meets is_n s t
unfolding n_required
n_required-Meets s t v h = n_required_on-Meets s t s.stack_t refl v h

s_required_on-Meets :
    (s t : OpSeq) (st : Stack)
    → s.stack_t ≡ st
    → IsTyped s
    → s_required_on s st ≡ some (fine t)
    → Meets is_s s t
unfolding s_required_on model_effect effect op2_stack_effect retype_top
s_required_on-Meets s t [] e v h = cc
s_required_on-Meets s t (StaticT.s ∷ st) e v h = kept is_s s t StaticT.s st e refl v h
s_required_on-Meets s t (StaticT.u ∷ st) e v h =
    converted is_s OpCode.cvt_u2s s t StaticT.u StaticT.s st refl e refl v h
s_required_on-Meets s t (StaticT.c ∷ st) e v h = s_from_char-Meets s t s.rev_ops st refl e v h
s_required_on-Meets s t (StaticT.i ∷ st) e v h = cc
s_required_on-Meets s t (StaticT.b ∷ st) e v h = cc
s_required_on-Meets s t (StaticT.n ∷ st) e v h = cc
s_required_on-Meets s t (StaticT.n_ushort ∷ st) e v h = cc

-- Where s_required reports no mismatch, the sequence is typed, a string is on top, and the types
-- below the top are the ones that were there.
pub s_required-Meets : (s t : OpSeq) → IsTyped s → s_required s ≡ some (fine t) → Meets is_s s t
unfolding s_required
s_required-Meets s t v h = s_required_on-Meets s t s.stack_t refl v h

b_required_on-Meets :
    (s t : OpSeq) (st : Stack)
    → s.stack_t ≡ st
    → IsTyped s
    → b_required_on s st ≡ some (fine t)
    → Meets is_b s t
unfolding b_required_on model_effect effect op2_stack_effect retype_top
b_required_on-Meets s t [] e v h = cc
b_required_on-Meets s t (StaticT.b ∷ st) e v h = kept is_b s t StaticT.b st e refl v h
b_required_on-Meets s t (StaticT.u ∷ st) e v h =
    converted is_b OpCode.cvt_u2b s t StaticT.u StaticT.b st refl e refl v h
b_required_on-Meets s t (StaticT.i ∷ st) e v h = cc
b_required_on-Meets s t (StaticT.c ∷ st) e v h = cc
b_required_on-Meets s t (StaticT.s ∷ st) e v h = cc
b_required_on-Meets s t (StaticT.n ∷ st) e v h = cc
b_required_on-Meets s t (StaticT.n_ushort ∷ st) e v h = cc

-- Where b_required reports no mismatch, the sequence is typed, a bool is on top, and the types
-- below the top are the ones that were there.
pub b_required-Meets : (s t : OpSeq) → IsTyped s → b_required s ≡ some (fine t) → Meets is_b s t
unfolding b_required
b_required-Meets s t v h = b_required_on-Meets s t s.stack_t refl v h
