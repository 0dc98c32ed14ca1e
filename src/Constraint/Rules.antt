-- ===== src/Constraint/Rules.antt =====
-- Rules about the outcome of a step of the code generators, and what emit does on a typed sequence
-- with room left (lib/RDIConstraint.cc, lib/RDIOpSeq.cc).
use omni_notify_omni_orb.Common.{
  ℕ, suc, ◌≤◌, ◌<◌, true, Option, none, some, List, ◌∷◌, ◌≡◌, ◌≢◌, refl, ap, ◌∙◌, lt→ltb, length,
  arith,
}
use omni_notify_omni_orb.OpSeq.Codes.{StaticT}
use omni_notify_omni_orb.OpSeq.Stack.{Stack, check_pre, model_effect}
use omni_notify_omni_orb.OpSeq.Seq.{
  Op, OpSeq, append, opseq_size, is_push_bool, is_push_char, bool_arg, text_arg,
}
use omni_notify_omni_orb.OpSeq.Safety.{IsTyped, append-IsTyped}
use omni_notify_omni_orb.Constraint.{GenState, Outcome, done, failed, ◌then_do◌, emit}

-- A run that fails no assertion, and satisfies P where it reports no error.
abbrev pub Ends : Option Outcome → (GenState → Type 0) → Type 0
Ends none P = ⊥
Ends (some (failed c e)) P = Unit {0}
Ends (some (done g)) P = P g

pub then_do-Ends :
    (P Q : GenState → Type 0) (m : Option Outcome) (k : GenState → Option Outcome)
    → Ends m P
    → ((g : GenState) → P g → Ends (k g) Q)
    → Ends (m then_do k) Q
then_do-Ends P Q none k h next = elim h [ ]
then_do-Ends P Q (some (failed c e)) k h next = tt
then_do-Ends P Q (some (done g)) k h next = next g h

pub Ends-mono :
    (P Q : GenState → Type 0) (m : Option Outcome)
    → ((g : GenState) → P g → Q g)
    → Ends m P
    → Ends m Q
Ends-mono P Q none k h = elim h [ ]
Ends-mono P Q (some (failed c e)) k h = tt
Ends-mono P Q (some (done g)) k h = k g h

-- A typed sequence of at most n ops that leaves the stack st.
pub record Ready (st : Stack) (n : ℕ) (s : OpSeq) : Type 0 where
  pub typed : IsTyped s
  pub stack_eq : s.stack_t ≡ st
  pub count : length s.rev_ops ≤ n

-- Where the top type says that a constant was just pushed, the last op is that push.
pub record LastOk (t : StaticT) (s : OpSeq) : Type 0 where
  pub last : Op
  pub before : List Op
  pub ops_eq : s.rev_ops ≡ last ∷ before
  pub bool_ok : is_push_bool last.code ≡ true → bool_arg last.arg ≢ none
  pub char_ok : t ≡ StaticT.c → (is_push_char last.code ≡ true) × (text_arg last.arg ≢ none)

append_runs :
    (s : OpSeq) (op : Op) (st st' : Stack)
    → s.stack_t ≡ st
    → check_pre op.code st ≡ some tt
    → length s.rev_ops < opseq_size
    → model_effect op.code st ≡ some st'
    → append s op ≡ some (record { rev_ops = op ∷ s.rev_ops; stack_t = st' })
unfolding append
append_runs s op st st' e pre room eff =
    rw (ap (check_pre op.code) e ∙ pre, lt→ltb _ _ room, ap (model_effect op.code) e ∙ eff)

-- What is known after an op was emitted.
abbrev pub Emitted : Op → Stack → ℕ → GenState → Type 0
Emitted op st n g = Ready st n g.seq × ((before : List Op) × (g.seq.rev_ops ≡ op ∷ before))

pub append-Ready :
    (s : OpSeq) (op : Op) (st st' : Stack) (n : ℕ)
    → Ready st n s
    → n < opseq_size
    → check_pre op.code st ≡ some tt
    → model_effect op.code st ≡ some st'
    → (t : OpSeq) × (append s op ≡ some t) × Ready st' (suc n) t × (t.rev_ops ≡ op ∷ s.rev_ops)
append-Ready s op st st' n r room pre eff =
    let run = append_runs s op st st' r.stack_eq pre (omega (arith, r.count)) eff in
    (
      record { rev_ops = op ∷ s.rev_ops; stack_t = st' },
      run,
      record {
        typed =
            append-IsTyped s (record { rev_ops = op ∷ s.rev_ops; stack_t = st' }) op r.typed run;
        stack_eq = refl;
        count = omega (arith, r.count);
      },
      refl,
    )

pub emit-Ends :
    (op : Op) (g : GenState) (st st' : Stack) (n : ℕ)
    → Ready st n g.seq
    → n < opseq_size
    → check_pre op.code st ≡ some tt
    → model_effect op.code st ≡ some st'
    → Ends (emit op g) (Emitted op st' (suc n))
unfolding emit
emit-Ends op g st st' n r room pre eff =
    let (t, run, ready, shape) = append-Ready g.seq op st st' n r room pre eff in
    rw run (ready, (g.seq.rev_ops, shape))
