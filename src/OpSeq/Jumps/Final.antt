-- ===== src/OpSeq/Jumps/Final.antt =====
-- Proofs about the types of a finalized sequence (lib/RDIOpSeq.cc).
use mathlib.Core.List.{reverse-reverse, reverse-cons, map-append}
use mathlib.Core.Path.{subst₂}
use omni_notify_omni_orb.Common.{
  ℕ, ◌+◌, ◌≤◌, true, Option, some, List, [], ◌∷◌, ◌++◌, ◌≡◌, refl, sym, ap, ◌∙◌, subst, inl, inr,
  reverse, length, length-map, ◌>>=◌, Bool-cases, some_eq, bind_inv, map,
}
use omni_notify_omni_orb.OpSeq.Codes.{StaticT, OpCode}
use omni_notify_omni_orb.OpSeq.Stack.{Stack, check_pre, model_effect, require, effect, require_one}
use omni_notify_omni_orb.OpSeq.Tables.{op2_stack_pre, op2_stack_effect}
use omni_notify_omni_orb.OpSeq.Seq.{Op, OpSeq, ops, append, plain_op, opseq_size}
use omni_notify_omni_orb.OpSeq.Fits.{FitAll, Follows}
use omni_notify_omni_orb.OpSeq.Safety.{
  IsTyped, Follows-inv, types, run_op, append-IsTyped, append_inv,
}
use omni_notify_omni_orb.OpSeq.Jumps.Landing.{finalize_inv, resolve_all_cons}
use omni_notify_omni_orb.OpSeq.Jumps.{is_return, resolve_all, add_return, finalize}

-- The same codes in the same order.
abbrev SameCodes : List Op → List Op → Type 0
SameCodes xs ys = map (λ (op : Op). op.code) xs ≡ map (λ (op : Op). op.code) ys

resolve_all-SameCodes :
    (xs : List Op) (i : ℕ) (os ys : List Op) → resolve_all xs i os ≡ some ys → SameCodes os ys
unfolding resolve_all
resolve_all-SameCodes xs i [] ys h = ap (map (λ (op : Op). op.code)) (some_eq h)
resolve_all-SameCodes xs i (op ∷ os) ys h =
    let (op', rest, e, r, more) = resolve_all_cons xs i op os ys h in
    let ih = resolve_all-SameCodes xs (i + 1) os rest more in
    subst (SameCodes (op ∷ os)) (sym e) (λ j. sym r.same_code j ∷ ih j)

-- The types after running a list of codes, last one first.
types_of : List OpCode → Option Stack
types_of [] = some []
types_of (c ∷ cs) = types_of cs >>= run_op c

types-codes : (os : List Op) → types os ≡ types_of (map (λ (op : Op). op.code) os)
unfolding types types_of
types-codes [] = refl
types-codes (op ∷ os) = rw (types-codes os)

map-reverse {ℓ κ} :
    {A : Type ℓ} {B : Type κ} (f : A → B) (xs : List A) → map f (reverse xs) ≡ reverse (map f xs)
map-reverse f [] = refl
map-reverse f (x ∷ xs) =
    ap (map f) (reverse-cons x xs)
    ∙ map-append f (reverse xs) (x ∷ [])
    ∙ ap (λ z. z ++ f x ∷ []) (map-reverse f xs)
    ∙ sym (reverse-cons (f x) (map f xs))

rev_ops-SameCodes : (s t : OpSeq) → SameCodes (ops s) (ops t) → SameCodes s.rev_ops t.rev_ops
rev_ops-SameCodes s t h = back s ∙ ap reverse h ∙ sym (back t)
  where
    back :
        (r : OpSeq)
        → map (λ (op : Op). op.code) r.rev_ops ≡ reverse (map (λ (op : Op). op.code) (ops r))
    back r =
        ap (map (λ (op : Op). op.code)) (sym (reverse-reverse r.rev_ops))
        ∙ map-reverse (λ (op : Op). op.code) (ops r)

types-SameCodes : (xs ys : List Op) → SameCodes xs ys → types xs ≡ types ys
types-SameCodes xs ys h = types-codes xs ∙ ap types_of h ∙ sym (types-codes ys)

return_run :
    (c : OpCode) (st r : Stack)
    → is_return c ≡ true
    → run_op c st ≡ some r
    → (rest : Stack) × (r ≡ StaticT.b ∷ rest)
unfolding check_pre require require_one model_effect effect op2_stack_pre op2_stack_effect
return_run OpCode.return_b [] r h run = cc
return_run OpCode.return_b (StaticT.b ∷ st) r h run = (st, sym (some_eq run))
return_run OpCode.return_b (_ ∷ st) r h run = cc
return_run _ st r h run = cc

fits_bool :
    (rest st : Stack) → FitAll (StaticT.b ∷ rest) st → (st' : Stack) × (st ≡ StaticT.b ∷ st')
fits_bool rest [] f = elim f [ ]
fits_bool rest (t ∷ st) (inl e, f) = (st, ap (λ k. k ∷ st) (sym e))
fits_bool rest (t ∷ st) (inr e, f) = cc e.0

-- A typed sequence whose last op is a return has a bool on top.
return-top :
    (s : OpSeq) (op : Op) (os : List Op)
    → IsTyped s
    → s.rev_ops ≡ op ∷ os
    → is_return op.code ≡ true
    → (st : Stack) × (s.stack_t ≡ StaticT.b ∷ st)
unfolding types
return-top s op os v e h =
    let (r, run, f) = Follows-inv (types s.rev_ops) s.stack_t v.agrees in
    let (st, _, last) = bind_inv (types os) (run_op op.code) (ap types (sym e) ∙ run) in
    let (rest, shape) = return_run op.code st r h last in
    fits_bool rest s.stack_t (subst (λ z. FitAll z s.stack_t) shape f)

-- The last op is a return, and it finds a bool on top of the stack.
pub record ReturnsBool (s : OpSeq) : Type 0 where
  pub last : Op
  pub before : List Op
  pub rev_ops_eq : s.rev_ops ≡ last ∷ before
  pub last_returns : is_return last.code ≡ true
  pub below : Stack
  pub stack_eq : s.stack_t ≡ StaticT.b ∷ below

add_return-IsTyped :
    (s u : OpSeq) (xs : List Op)
    → s.rev_ops ≡ xs
    → IsTyped s
    → add_return s xs ≡ some u
    → IsTyped u × ((op : Op) × (os : List Op) × (u.rev_ops ≡ op ∷ os) × (is_return op.code ≡ true))
unfolding add_return
add_return-IsTyped s u [] e v h = cc
add_return-IsTyped s u (op ∷ os) e v h = elim (Bool-cases (is_return op.code)) [
  | inl ret ↦
      let same : s ≡ u = some_eq (rw ret at h) in
      (subst IsTyped same v, (op, os, ap (λ (z : OpSeq). z.rev_ops) (sym same) ∙ e, ret))
  | inr other ↦
      let made : append s (plain_op OpCode.return_b) ≡ some u = rw other at h in
      let (r, _, _, _, shape) = append_inv s u (plain_op OpCode.return_b) made in
      (
        append-IsTyped s u (plain_op OpCode.return_b) v made,
        (plain_op OpCode.return_b, s.rev_ops, ap (λ (z : OpSeq). z.rev_ops) shape, refl),
      )
]

codes-head :
    (op : Op) (os ys : List Op)
    → SameCodes (op ∷ os) ys
    → is_return op.code ≡ true
    → (op' : Op) × (rest : List Op) × (ys ≡ op' ∷ rest) × (is_return op'.code ≡ true)
codes-head op os [] h r = cc h
codes-head op os (op' ∷ rest) h r =
    let same : op.code ≡ op'.code = cc h in
    (op', rest, refl, subst (λ c. is_return c ≡ true) same r)

-- finalize keeps a sequence typed, and what it returns ends in a return op that finds a bool on top.
pub finalize-IsTyped : (s t : OpSeq) → IsTyped s → finalize s ≡ some t → IsTyped t × ReturnsBool t
finalize-IsTyped s t v h =
    let (u, ret, run, _, kept) = finalize_inv s t h in
    let (w, (op, os, shape, is_ret)) = add_return-IsTyped s u s.rev_ops refl v ret in
    let same = rev_ops-SameCodes u t (resolve_all-SameCodes (ops u) 0 (ops u) (ops t) run) in
    let typed : IsTyped t = record {
      agrees = subst₂ Follows (types-SameCodes u.rev_ops t.rev_ops same) (sym kept) w.agrees;
      room = subst (λ n. n ≤ opseq_size) (lengths u.rev_ops t.rev_ops same) w.room;
    } in
    let (op', rest, shape', is_ret') =
      codes-head op os t.rev_ops (subst (λ z. SameCodes z t.rev_ops) shape same) is_ret in
    let (st, top) = return-top t op' rest typed shape' is_ret' in
    (
      typed,
      record {
        last = op';
        before = rest;
        rev_ops_eq = shape';
        last_returns = is_ret';
        below = st;
        stack_eq = top;
      },
    )
  where
    lengths : (xs ys : List Op) → SameCodes xs ys → length xs ≡ length ys
    lengths xs ys e =
        sym (length-map xs (λ (op : Op). op.code))
        ∙ ap length e
        ∙ length-map ys (λ (op : Op). op.code)
