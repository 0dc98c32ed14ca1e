-- ===== src/Constraint/Shapes.antt =====
-- What the code of a subtree has to do, and the shapes that the generators share.
use omni_notify_omni_orb.Common.{
  ℕ, suc, ◌+◌, ◌≤◌, ◌<◌, Bool, true, false, Option, some, ◌∷◌, ◌≡◌, ◌≢◌, refl, subst, arith,
}
use omni_notify_omni_orb.OpSeq.Codes.{StaticT, OpCode}
use omni_notify_omni_orb.OpSeq.Stack.{
  Stack, check_pre, model_effect, is_b, require, effect, require_one, require_two, retype_top,
  retype_two, drop_one,
}
use omni_notify_omni_orb.OpSeq.Tables.{op2_stack_pre, op2_stack_effect}
use omni_notify_omni_orb.OpSeq.Seq.{
  Op, OpSeq, Text, plain_op, Required, b_required, opseq_size, is_push_bool,
}
use omni_notify_omni_orb.Constraint.{
  GenState, Outcome, Context, ◌then_do◌, emit, demand, jump_op, label_op,
}
use omni_notify_omni_orb.Constraint.Rules.{
  Ends, Ends-mono, Ready, LastOk, Emitted, then_do-Ends, emit-Ends,
}
use omni_notify_omni_orb.Constraint.Demands.{Demanded, b_demand}

-- The type t on top of st, in at most n ops, the last of which is as t says.
abbrev pub Leaves : StaticT → Stack → ℕ → GenState → Type 0
Leaves t st n g = Ready (t ∷ st) n g.seq × LastOk t g.seq

pub Ready-mono : (st : Stack) (m n : ℕ) (s : OpSeq) → m ≤ n → Ready st m s → Ready st n s
Ready-mono st m n s h r = record {
  typed = r.typed;
  stack_eq = r.stack_eq;
  count = omega (arith, r.count);
}

-- An op that pushes no bool and no character constant.
pub Emitted-Leaves :
    (op : Op) (t : StaticT) (st : Stack) (m n : ℕ) (g : GenState)
    → is_push_bool op.code ≡ false
    → t ≢ StaticT.c
    → m ≤ n
    → Emitted op (t ∷ st) m g
    → Leaves t st n g
Emitted-Leaves op t st m n g nb nc h (r, (before, e)) = (
  Ready-mono (t ∷ st) m n g.seq h r,
  record {
    last = op;
    before = before;
    ops_eq = e;
    bool_ok = λ hit. cc;
    char_ok = λ hit. absurd (nc hit);
  },
)

is_b_eq : (k : StaticT) → is_b k ≡ true → k ≡ StaticT.b
is_b_eq StaticT.b h = refl
is_b_eq _ h = cc

-- A demand for a bool leaves a bool.
pub bool-Ready :
    (st : Stack) (n : ℕ) (g : GenState) → Demanded is_b st n g → Ready (StaticT.b ∷ st) n g.seq
bool-Ready st n g (k, test, r) = subst (λ z. Ready (z ∷ st) n g.seq) (is_b_eq k test) r

unfoldable pub tables : Unit {0}
unfolding check_pre require require_one require_two model_effect effect retype_top retype_two
    drop_one op2_stack_pre op2_stack_effect
tables = tt

-- The op at the end of a generator.
pub finish :
    (op : Op) (t : StaticT) (st st' : Stack) (m n : ℕ) (g : GenState)
    → Ready st' m g.seq
    → m < n
    → n ≤ opseq_size
    → is_push_bool op.code ≡ false
    → t ≢ StaticT.c
    → check_pre op.code st' ≡ some tt
    → model_effect op.code st' ≡ some (t ∷ st)
    → Ends (emit op g) (Leaves t st n)
finish op t st st' m n g r h room nb nc pre eff =
    Ends-mono (Emitted op (t ∷ st) (suc m)) (Leaves t st n) (emit op g)
      (λ g'. Emitted-Leaves op t st (suc m) n g' nb nc h)
      (emit-Ends op g st' (t ∷ st) m r (omega arith) pre eff)

-- What the run of a subtree has to do, from any state that has the stack and room enough.
abbrev pub Subtree : (GenState → Option Outcome) → StaticT → Stack → ℕ → ℕ → Type 0
Subtree run t st n k = (g : GenState) → Ready st n g.seq → Ends (run g) (Leaves t st (n + k))

-- The common shape of GenOr and GenAnd.
module _ (jump : OpCode) (name : Text) (c c' : Context) (left right : GenState → Option Outcome)
    (t t' : StaticT) (st : Stack) (n k k' : ℕ)
    (jumps : (st' : Stack) → check_pre jump (StaticT.b ∷ st') ≡ some tt)
    (stays : (st' : Stack) → model_effect jump (StaticT.b ∷ st') ≡ some (StaticT.b ∷ st'))
    (room : n + k + k' + 5 ≤ opseq_size) where
  pub short_circuit :
      (g : GenState)
      → Ready st n g.seq
      → Subtree left t st n k
      → Subtree right t' st (n + k + 3) k'
      → Ends
          (left g
            then_do demand b_required c
            then_do emit (jump_op jump name)
            then_do emit (plain_op OpCode.pop_u)
            then_do right
            then_do demand b_required c'
            then_do emit (label_op name))
          (Leaves StaticT.b st (n + k + k' + 5))
  unfolding tables
  short_circuit g r hl hr =
      then_do-Ends (Demanded is_b st (suc (n + k + 3 + k'))) _ _ (emit (label_op name))
        (then_do-Ends (Leaves t' st (n + k + 3 + k')) _ _ (demand b_required c')
          (then_do-Ends (Emitted (plain_op OpCode.pop_u) st (suc (suc (suc (n + k))))) _ _ right
            (then_do-Ends (Emitted (jump_op jump name) (StaticT.b ∷ st) (suc (suc (n + k)))) _ _
              (emit (plain_op OpCode.pop_u))
              (then_do-Ends (Demanded is_b st (suc (n + k))) _ _ (emit (jump_op jump name))
                (then_do-Ends (Leaves t st (n + k)) _ _ (demand b_required c) (hl g r)
                  (λ g' p. b_demand c g' t st (n + k) (omega arith) p.0))
                (λ g' p.
                  emit-Ends (jump_op jump name) g' (StaticT.b ∷ st) (StaticT.b ∷ st) (suc (n + k))
                    (bool-Ready st (suc (n + k)) g' p) (omega arith) (jumps st) (stays st)))
              (λ g' p.
                emit-Ends (plain_op OpCode.pop_u) g' (StaticT.b ∷ st) st (suc (suc (n + k))) p.0
                  (omega arith) refl refl))
            (λ g' p. hr g' (Ready-mono st _ (n + k + 3) g'.seq (omega arith) p.0)))
          (λ g' p. b_demand c' g' t' st (n + k + 3 + k') (omega arith) p.0))
        (λ g' p.
          finish (label_op name) StaticT.b st (StaticT.b ∷ st) (suc (n + k + 3 + k'))
            (n + k + k' + 5) g' (bool-Ready st _ g' p) (omega arith) room refl (λ e. cc) refl refl)

-- GenSubStr and GenArith: both operands are demanded, then one op takes them.
module _ (p : StaticT → Bool) (required : OpSeq → Option Required) (c c' : Context)
    (left right : GenState → Option Outcome) (t t' : StaticT) (op : OpCode) (r : StaticT)
    (st : Stack) (n k k' : ℕ) (room : n + k + k' + 3 ≤ opseq_size)
    (demands : (c : Context) (g : GenState) (t : StaticT) (st : Stack) (n : ℕ)
      → n < opseq_size
      → Ready (t ∷ st) n g.seq
      → LastOk t g.seq
      → Ends (demand required c g) (Demanded p st (suc n)))
    (takes : (x y : StaticT) → p x ≡ true → p y ≡ true → check_pre op (y ∷ x ∷ st) ≡ some tt)
    (gives : (x y : StaticT) → model_effect op (y ∷ x ∷ st) ≡ some (r ∷ st))
    (no_bool : is_push_bool op ≡ false) (no_char : r ≢ StaticT.c) where
  -- The left operand is on the stack.
  abbrev Both : GenState → Type 0
  Both g =
      (x : StaticT) × (y : StaticT) × (p x ≡ true)
      × (p y ≡ true)
      × Ready (y ∷ x ∷ st) (suc (suc (n + k) + k')) g.seq

  pub two_operands :
      (g : GenState)
      → Ready st n g.seq
      → Subtree left t st n k
      → ((x : StaticT) → Subtree right t' (x ∷ st) (suc (n + k)) k')
      → Ends
          (left g
            then_do demand required c
            then_do right
            then_do demand required c'
            then_do emit (plain_op op))
          (Leaves r st (n + k + k' + 3))
  two_operands g ready hl hr =
      then_do-Ends Both _ _ (emit (plain_op op))
        (then_do-Ends
          (λ g'. (x : StaticT) × (p x ≡ true) × Leaves t' (x ∷ st) (suc (n + k) + k') g') _ _
          (demand required c')
          (then_do-Ends (Demanded p st (suc (n + k))) _ _ right
            (then_do-Ends (Leaves t st (n + k)) _ _ (demand required c) (hl g ready)
              (λ g' l. demands c g' t st (n + k) (omega arith) l.0 l.1))
            (λ g' (x, px, rx).
              Ends-mono (Leaves t' (x ∷ st) (suc (n + k) + k')) _ (right g') (λ g'' l. (x, px, l))
                (hr x g' rx)))
          (λ g' (x, px, l).
            Ends-mono (Demanded p (x ∷ st) (suc (suc (n + k) + k'))) _ (demand required c' g')
              (λ g'' (y, py, ry). (x, y, px, py, ry))
              (demands c' g' t' (x ∷ st) (suc (n + k) + k') (omega arith) l.0 l.1)))
        (λ g' (x, y, px, py, ry).
          finish (plain_op op) r st (y ∷ x ∷ st) (suc (suc (n + k) + k')) (n + k + k' + 3) g' ry
            (omega arith) room no_bool no_char (takes x y px py) (gives x y))
