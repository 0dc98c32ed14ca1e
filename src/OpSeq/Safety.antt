-- ===== src/OpSeq/Safety.antt =====
-- The replay of a sequence's ops from the empty stack, and proofs about append (lib/RDIOpSeq.cc).
use mathlib.Core.List.{reverse-cons, append_assoc, append-nil}
use omni_notify_omni_orb.Common.{
  ◌≤◌, ◌<◌, true, Option, none, some, List, [], ◌∷◌, ◌++◌, reverse, ap, ◌≡◌, refl, sym, ltb, length,
  check, ◌>>=◌, ◌>>◌, arith, subst, bind_inv, check_inv, some_eq, ◌∙◌, ltb→lt,
}
use omni_notify_omni_orb.OpSeq.Codes.{StaticT, OpCode}
use omni_notify_omni_orb.OpSeq.Stack.{Stack, check_pre, model_effect, require, effect, push_type}
use omni_notify_omni_orb.OpSeq.Tables.{op2_stack_pre, op2_stack_effect}
use omni_notify_omni_orb.OpSeq.Seq.{
  Op, OpSeq, append, append_each, append_seq, ops, opseq_size, is_push_bool, is_push_char,
}
use omni_notify_omni_orb.OpSeq.Fits.{
  Fits, FitAll, check_pre_mono, model_effect-Follows, Follows, push_type-some, push_type_inv,
}

-- One op on the stack of types: its precondition, then its effect.
abbrev pub run_op : OpCode → Stack → Option Stack
run_op code st = check_pre code st >> model_effect code st

-- The types on the stack after the ops, last op first, have run from the empty stack.
unfoldable pub types : List Op → Option Stack
types [] = some []
types (op ∷ os) = types os >>= run_op op.code

-- The ops run within their types, the recorded stack is what they leave, and the arrays hold.
pub record IsTyped (s : OpSeq) : Type 0 where
  pub agrees : Follows (types s.rev_ops) s.stack_t
  pub room : length s.rev_ops ≤ opseq_size

pub Follows-inv :
    (r : Option Stack) (st' : Stack) → Follows r st' → (st : Stack) × (r ≡ some st) × FitAll st st'
Follows-inv none st' h = elim h [ ]
Follows-inv (some st) st' h = (st, refl, h)

run_op-Follows :
    (code : OpCode) (st st' r' : Stack)
    → FitAll st st'
    → check_pre code st' ≡ some tt
    → model_effect code st' ≡ some r'
    → Follows (run_op code st) r'
run_op-Follows code st st' r' f p e =
    rw (check_pre_mono code st st' f p) (model_effect-Follows code st st' r' f e)

types_step :
    (op : Op) (os : List Op) (st' r' : Stack)
    → Follows (types os) st'
    → check_pre op.code st' ≡ some tt
    → model_effect op.code st' ≡ some r'
    → Follows (types (op ∷ os)) r'
unfolding types
types_step op os st' r' h p e =
    let (st, run, f) = Follows-inv (types os) st' h in
    rw run (run_op-Follows op.code st st' r' f p e)

-- What append did, when it did not fail an assertion.
pub append_inv :
    (s t : OpSeq) (op : Op)
    → append s op ≡ some t
    → (r : Stack) × (check_pre op.code s.stack_t ≡ some tt)
      × (length s.rev_ops < opseq_size)
      × (model_effect op.code s.stack_t ≡ some r)
      × (t ≡ record { rev_ops = op ∷ s.rev_ops; stack_t = r })
unfolding append
append_inv s t op h =
    let (u, pre, h₁) = bind_inv (check_pre op.code s.stack_t) _ h in
    let (v, room, h₂) = bind_inv (check (ltb (length s.rev_ops) opseq_size)) _ h₁ in
    let (r, run, h₃) = bind_inv (model_effect op.code s.stack_t) _ h₂ in
    (r, pre, ltb→lt _ _ (check_inv _ room), run, sym (some_eq h₃))

-- append keeps the sequence typed.
pub append-IsTyped : (s t : OpSeq) (op : Op) → IsTyped s → append s op ≡ some t → IsTyped t
append-IsTyped s t op v h =
    let (r, pre, room, run, e) = append_inv s t op h in
    subst IsTyped (sym e)
      (record { agrees = types_step op s.rev_ops s.stack_t r v.agrees pre run; room = omega arith })

append_each-IsTyped :
    (os : List Op) (s t : OpSeq) → IsTyped s → append_each s os ≡ some t → IsTyped t
unfolding append_each
append_each-IsTyped [] s t v h = subst IsTyped (some_eq h) v
append_each-IsTyped (op ∷ os) s t v h =
    let (u, run, rest) = bind_inv (append s op) _ h in
    append_each-IsTyped os u t (append-IsTyped s u op v run) rest

append_each-ops : (os : List Op) (s t : OpSeq) → append_each s os ≡ some t → ops t ≡ ops s ++ os
unfolding append_each
append_each-ops [] s t h = ap ops (sym (some_eq h)) ∙ sym (append-nil (ops s))
append_each-ops (op ∷ os) s t h =
    let (u, run, rest) = bind_inv (append s op) _ h in
    let (r, pre, room, left, e) = append_inv s u op run in
    append_each-ops os u t rest
    ∙ ap (λ x. reverse x.rev_ops ++ os) e
    ∙ ap (λ x. x ++ os) (reverse-cons op s.rev_ops)
    ∙ append_assoc (ops s) (op ∷ []) os

-- Appending a whole sequence to a typed one, where no assertion fails, gives a typed one: its ops are
-- those of the first sequence and then those of the second, both in their order.
pub append_seq-IsTyped :
    (s s' t : OpSeq) → IsTyped s → append_seq s s' ≡ some t → IsTyped t × (ops t ≡ ops s ++ ops s')
unfolding append_seq
append_seq-IsTyped s s' t v h =
    (append_each-IsTyped (ops s') s t v h, append_each-ops (ops s') s t h)

-- Where the last op only pushes `k`, another op that pushes `k'` may take its place.
pub replace_push :
    (op op' : Op) (os : List Op) (k k' t' t : StaticT) (st : Stack)
    → ((st' : Stack) → run_op op.code st' ≡ push_type k st')
    → ((st' : Stack) → run_op op'.code st' ≡ push_type k' st')
    → Fits k' t
    → Follows (types (op ∷ os)) (t' ∷ st)
    → Follows (types (op' ∷ os)) (t ∷ st)
unfolding types
replace_push op op' os k k' t' t st old new f h =
    let (r, run, g) = Follows-inv (types (op ∷ os)) (t' ∷ st) h in
    let (st₀, before, last) = bind_inv (types os) (run_op op.code) run in
    let (e, room) = push_type_inv k st₀ r (sym (old st₀) ∙ last) in
    let g' : FitAll (k ∷ st₀) (t' ∷ st) = subst (λ x. FitAll x (t' ∷ st)) e g in
    rw (before, new st₀, push_type-some k' st₀ room) (f, g'.1)

pub push_bool_run :
    (code : OpCode) (st : Stack)
    → is_push_bool code ≡ true
    → run_op code st ≡ push_type StaticT.b st
unfolding check_pre require model_effect effect op2_stack_pre op2_stack_effect
push_bool_run OpCode.push_bc2b st h = refl
push_bool_run _ st h = cc

pub push_char_run :
    (code : OpCode) (st : Stack)
    → is_push_char code ≡ true
    → run_op code st ≡ push_type StaticT.c st
unfolding check_pre require model_effect effect op2_stack_pre op2_stack_effect
push_char_run OpCode.push_cc2c st h = refl
push_char_run _ st h = cc

pub push_ushort_run : (st : Stack) → run_op OpCode.push_nc_ushort st ≡ push_type StaticT.n_ushort st
unfolding check_pre require model_effect effect op2_stack_pre op2_stack_effect
push_ushort_run st = refl

pub push_string_run : (st : Stack) → run_op OpCode.push_sc2s st ≡ push_type StaticT.s st
unfolding check_pre require model_effect effect op2_stack_pre op2_stack_effect
push_string_run st = refl
