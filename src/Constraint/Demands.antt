-- ===== src/Constraint/Demands.antt =====
-- Proofs about the requirement methods behind a generator, on a typed sequence whose last op is as
-- its top type says (lib/RDIOpSeq.cc).
use omni_notify_omni_orb.Common.{
  ℕ, suc, ◌≤◌, ◌<◌, Bool, true, Option, some, List, ◌∷◌, ◌≡◌, refl, sym, ap, ◌∙◌, subst, inl, inr,
  length, arith, Bool-cases, Option-cases,
}
use omni_notify_omni_orb.OpSeq.Codes.{StaticT, OpCode}
use omni_notify_omni_orb.OpSeq.Stack.{
  Stack, check_pre, model_effect, is_b, is_s, is_n, require, effect, require_one, retype_top,
}
use omni_notify_omni_orb.OpSeq.Tables.{op2_stack_pre, op2_stack_effect}
use omni_notify_omni_orb.OpSeq.Seq.{
  Op, OpSeq, Required, fine, mismatch, plain_op, appended, n_required, s_required, b_required,
  opseq_size, is_push_bool, bool_arg, text_arg, n_required_on, s_required_on, b_required_on,
  n_from_bool, n_from_char, s_from_char, push_ushort, bool_ushort, first_char,
}
use omni_notify_omni_orb.OpSeq.Required.{
  Meets, n_required-Meets, s_required-Meets, b_required-Meets,
}
use omni_notify_omni_orb.Constraint.{GenState, Context, demand}
use omni_notify_omni_orb.Constraint.Rules.{Ends, Ready, LastOk, append-Ready}

-- One op more at most, where there is no mismatch.
abbrev CountOk : ℕ → Required → Type 0
CountOk n (fine s) = length s.rev_ops ≤ suc n
CountOk n (mismatch e) = Unit {0}

abbrev Runs : ℕ → Option Required → Type 0
Runs n r = (o : Required) × (r ≡ some o) × CountOk n o

appended-Runs :
    (s : OpSeq) (code : OpCode) (st st' : Stack) (n : ℕ)
    → Ready st n s
    → n < opseq_size
    → check_pre code st ≡ some tt
    → model_effect code st ≡ some st'
    → Runs n (appended s code)
appended-Runs s code st st' n r room pre eff =
    let (t, run, ready, _) = append-Ready s (plain_op code) st st' n r room pre eff in
    (fine t, rw run refl, ready.count)

kept-Runs : (s : OpSeq) (st : Stack) (n : ℕ) → Ready st n s → Runs n (some (fine s))
kept-Runs s st n r = (fine s, refl, omega (arith, r.count))

-- The remaining ops of a sequence whose last op is known.
one_shorter :
    (s : OpSeq) (st : Stack) (n : ℕ) (op : Op) (os : List Op)
    → Ready st n s
    → s.rev_ops ≡ op ∷ os
    → suc (length os) ≤ suc n
one_shorter s st n op os r e =
    let l : length s.rev_ops ≡ suc (length os) = ap length e in omega (arith, r.count)

-- The constant on top has become a number, or a string.
abbrev number_now : ℕ → List Op → Stack → Required
number_now us os st = fine (record { rev_ops = push_ushort us ∷ os; stack_t = StaticT.n ∷ st })

abbrev string_now : Op → List Op → Stack → Required
string_now op os st =
    fine (record { rev_ops = record op { code = OpCode.push_sc2s } ∷ os; stack_t = StaticT.s ∷ st })

n_from_bool-Runs :
    (s : OpSeq) (st : Stack) (n : ℕ)
    → Ready (StaticT.b ∷ st) n s
    → LastOk StaticT.b s
    → n < opseq_size
    → Runs n (n_from_bool s.rev_ops st)
unfolding n_from_bool check_pre require require_one model_effect effect retype_top op2_stack_pre
    op2_stack_effect
n_from_bool-Runs s st n r l room =
    subst (λ z. Runs n (n_from_bool z st)) (sym l.ops_eq)
      (elim (Bool-cases (is_push_bool l.last.code)) [
        | inl hit ↦ elim (Option-cases (bool_arg l.last.arg)) [
          | inl bad ↦ absurd (l.bool_ok hit bad)
          | inr (x, e) ↦ (
            number_now (bool_ushort x) l.before st,
            rw (hit, e) refl,
            one_shorter s _ n l.last l.before r l.ops_eq,
          )
        ]
        | inr miss ↦
            let same : s ≡ record { rev_ops = l.last ∷ l.before; stack_t = StaticT.b ∷ st } =
              λ i. record { rev_ops = l.ops_eq i; stack_t = r.stack_eq i } in
            rw miss (
              appended-Runs (record { rev_ops = l.last ∷ l.before; stack_t = StaticT.b ∷ st })
                OpCode.cvt_u2n (StaticT.b ∷ st) (StaticT.n ∷ st) n
                (subst (Ready (StaticT.b ∷ st) n) same r) room refl refl)
      ])

n_from_char-Runs :
    (s : OpSeq) (st : Stack) (n : ℕ)
    → Ready (StaticT.c ∷ st) n s
    → LastOk StaticT.c s
    → Runs n (n_from_char s.rev_ops st)
unfolding n_from_char
n_from_char-Runs s st n r l =
    let (hit, has) = l.char_ok refl in
    subst (λ z. Runs n (n_from_char z st)) (sym l.ops_eq)
      (elim (Option-cases (text_arg l.last.arg)) [
        | inl bad ↦ absurd (has bad)
        | inr (x, e) ↦ (
          number_now (first_char x) l.before st,
          rw (hit, e) refl,
          one_shorter s _ n l.last l.before r l.ops_eq,
        )
      ])

s_from_char-Runs :
    (s : OpSeq) (st : Stack) (n : ℕ)
    → Ready (StaticT.c ∷ st) n s
    → LastOk StaticT.c s
    → Runs n (s_from_char s.rev_ops st)
unfolding s_from_char
s_from_char-Runs s st n r l =
    let (hit, _) = l.char_ok refl in
    subst (λ z. Runs n (s_from_char z st)) (sym l.ops_eq)
      (string_now l.last l.before st, rw hit refl, one_shorter s _ n l.last l.before r l.ops_eq)

module _ (s : OpSeq) (st : Stack) (n : ℕ) (room : n < opseq_size) where
  n_required-Runs :
      (t : StaticT) → Ready (t ∷ st) n s → LastOk t s → Runs n (n_required_on s (t ∷ st))
  unfolding n_required_on check_pre require require_one model_effect effect retype_top op2_stack_pre
      op2_stack_effect
  n_required-Runs StaticT.n r l = kept-Runs s _ n r
  n_required-Runs StaticT.n_ushort r l = kept-Runs s _ n r
  n_required-Runs StaticT.u r l =
      appended-Runs s OpCode.cvt_u2n _ (StaticT.n ∷ st) n r room refl refl
  n_required-Runs StaticT.b r l = n_from_bool-Runs s st n r l room
  n_required-Runs StaticT.c r l = n_from_char-Runs s st n r l
  n_required-Runs StaticT.i r l = (_, refl, tt)
  n_required-Runs StaticT.s r l = (_, refl, tt)

  s_required-Runs :
      (t : StaticT) → Ready (t ∷ st) n s → LastOk t s → Runs n (s_required_on s (t ∷ st))
  unfolding s_required_on check_pre require require_one model_effect effect retype_top op2_stack_pre
      op2_stack_effect
  s_required-Runs StaticT.s r l = kept-Runs s _ n r
  s_required-Runs StaticT.u r l =
      appended-Runs s OpCode.cvt_u2s _ (StaticT.s ∷ st) n r room refl refl
  s_required-Runs StaticT.c r l = s_from_char-Runs s st n r l
  s_required-Runs StaticT.i r l = (_, refl, tt)
  s_required-Runs StaticT.b r l = (_, refl, tt)
  s_required-Runs StaticT.n r l = (_, refl, tt)
  s_required-Runs StaticT.n_ushort r l = (_, refl, tt)

  b_required-Runs : (t : StaticT) → Ready (t ∷ st) n s → Runs n (b_required_on s (t ∷ st))
  unfolding b_required_on check_pre require require_one model_effect effect retype_top op2_stack_pre
      op2_stack_effect
  b_required-Runs StaticT.b r = kept-Runs s _ n r
  b_required-Runs StaticT.u r = appended-Runs s OpCode.cvt_u2b _ (StaticT.b ∷ st) n r room refl refl
  b_required-Runs StaticT.i r = (_, refl, tt)
  b_required-Runs StaticT.c r = (_, refl, tt)
  b_required-Runs StaticT.s r = (_, refl, tt)
  b_required-Runs StaticT.n r = (_, refl, tt)
  b_required-Runs StaticT.n_ushort r = (_, refl, tt)

-- The top type passes the test, the rest of the stack is st.
abbrev pub Demanded : (StaticT → Bool) → Stack → ℕ → GenState → Type 0
Demanded p st n g = (k : StaticT) × (p k ≡ true) × Ready (k ∷ st) n g.seq

tail_eq : {t t' : StaticT} {st st' : Stack} → t ∷ st ≡ t' ∷ st' → st ≡ st'
tail_eq h = cc

-- A requirement that runs and, without mismatch, meets its test.
demand-Ends :
    (p : StaticT → Bool) (required : OpSeq → Option Required) (c : Context) (g : GenState)
    (t : StaticT) (st : Stack) (n : ℕ)
    → ((u : OpSeq) → required g.seq ≡ some (fine u) → Meets p g.seq u)
    → g.seq.stack_t ≡ t ∷ st
    → Runs n (required g.seq)
    → Ends (demand required c g) (Demanded p st (suc n))
unfolding demand
demand-Ends p required c g t st n meets e (mismatch m, run, count) = rw run tt
demand-Ends p required c g t st n meets e (fine u, run, count) =
    let (typed, (x, k, rest, was, now, test)) = meets u run in
    rw run (
      k,
      test,
      record { typed = typed; stack_eq = now ∙ ap (◌∷◌ k) (tail_eq (sym was ∙ e)); count = count },
    )

module _ (c : Context) (g : GenState) (t : StaticT) (st : Stack) (n : ℕ)
    (room : n < opseq_size) where
  pub n_demand :
      Ready (t ∷ st) n g.seq
      → LastOk t g.seq
      → Ends (demand n_required c g) (Demanded is_n st (suc n))
  unfolding n_required
  n_demand r l =
      demand-Ends is_n n_required c g t st n (λ u. n_required-Meets g.seq u r.typed) r.stack_eq
        (subst (λ z. Runs n (n_required_on g.seq z)) (sym r.stack_eq)
          (n_required-Runs g.seq st n room t r l))

  pub s_demand :
      Ready (t ∷ st) n g.seq
      → LastOk t g.seq
      → Ends (demand s_required c g) (Demanded is_s st (suc n))
  unfolding s_required
  s_demand r l =
      demand-Ends is_s s_required c g t st n (λ u. s_required-Meets g.seq u r.typed) r.stack_eq
        (subst (λ z. Runs n (s_required_on g.seq z)) (sym r.stack_eq)
          (s_required-Runs g.seq st n room t r l))

  pub b_demand : Ready (t ∷ st) n g.seq → Ends (demand b_required c g) (Demanded is_b st (suc n))
  unfolding b_required
  b_demand r =
      demand-Ends is_b b_required c g t st n (λ u. b_required-Meets g.seq u r.typed) r.stack_eq
        (subst (λ z. Runs n (b_required_on g.seq z)) (sym r.stack_eq)
          (b_required-Runs g.seq st n room t r))
