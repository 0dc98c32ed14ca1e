-- ===== src/OpSeq/Jumps/Total.antt =====
-- Proofs about when finalize returns (lib/RDIOpSeq.cc).
use mathlib.Core.List.{reverse-cons}
use omni_notify_omni_orb.Common.{
  ℕ, zero, suc, ◌+◌, ◌-◌, ◌<◌, Bool, true, false, ◌&&◌, none, some, List, [], ◌∷◌, ◌++◌, ◌≡◌, ◌≢◌,
  refl, sym, ap, ◌∙◌, subst, ◌⊎◌, inl, inr, reverse, length, length-append, arith, Bool-cases,
  Option-cases,
}
use omni_notify_omni_orb.Common.Int.{sub_ℕ}
use omni_notify_omni_orb.OpSeq.Codes.{OpCode, OpArgT}
use omni_notify_omni_orb.OpSeq.Tables.{op2_arg_t}
use omni_notify_omni_orb.OpSeq.Seq.{Op, OpArg, OpSeq, Text, ops, append, plain_op}
use omni_notify_omni_orb.OpSeq.Safety.{append_inv}
use omni_notify_omni_orb.OpSeq.Jumps.Search.{
  search_from_finds, search_from_total, skip_labels_total,
}
use omni_notify_omni_orb.OpSeq.Jumps.{
  label_at, target_at, is_label, is_return, is_empty, position, search_from, skip_labels,
  resolve_arg, resolve_all, args_fit, has_arg_t, add_return, finalize,
}

-- A jump has a name, and a label of that name stands in the sequence.
pub record Defined (xs : List Op) (l : Text) : Type 0 where
  pub named : is_empty l ≡ false
  pub label : ℕ
  pub inside : label < length xs
  pub is_target : target_at l xs label ≡ true

abbrev pub DefinedArg : List Op → OpArg → Type 0
DefinedArg xs (OpArg.lbl o l) = Defined xs l
DefinedArg xs _ = Unit {0}

abbrev pub AllDefined : List Op → List Op → Type 0
AllDefined xs [] = Unit {0}
AllDefined xs (op ∷ os) = DefinedArg xs op.arg × AllDefined xs os

-- The last op is no label.
pub record Ends (xs : List Op) : Type 0 where
  pub last : ℕ
  pub is_last : suc last ≡ length xs
  pub no_label : label_at xs last ≡ false

below_last :
    (xs : List Op) (m : ℕ) → Ends xs → m < length xs → skip_labels xs (length xs - m) m ≢ none
below_last xs m e h =
    skip_labels_total xs (length xs - m) m e.last e.no_label (omega (arith, e.is_last))
      (omega (arith, e.is_last))

target-lt : (l : Text) (xs : List Op) (m : ℕ) → target_at l xs m ≡ true → m < length xs
unfolding target_at
target-lt l [] m h = cc
target-lt l (op ∷ os) zero h = omega arith
target-lt l (op ∷ os) (suc m) h = omega (arith, target-lt l os m h)

resolve_arg_total :
    (xs : List Op) (i : ℕ) (a : OpArg)
    → Ends xs
    → DefinedArg xs a
    → (t : OpArgT) → has_arg_t t a ≡ true
    → (b : OpArg) × (resolve_arg xs i a ≡ some b) × (has_arg_t t b ≡ true)
unfolding resolve_arg has_arg_t
resolve_arg_total xs i (OpArg.lbl o l) ends d OpArgT.lbl fit =
    elim (Option-cases (search_from l xs i (position (length xs) i o))) [
      | inl e ↦ absurd (search_from_total l xs i d.label _ d.is_target d.inside e)
      | inr (m, e) ↦
          let inside = target-lt l xs m (search_from_finds l xs i _ e) in
          elim (Option-cases (skip_labels xs (length xs - m) m)) [
            | inl f ↦ absurd (below_last xs m ends inside f)
            | inr (q, f) ↦ (OpArg.lbl (sub_ℕ q i) l, rw (d.named, e, f), refl)
          ]
    ]
resolve_arg_total xs i (OpArg.lbl o l) ends d _ fit = cc
resolve_arg_total xs i a ends d t fit = (a, refl, fit)

and_true : (a b : Bool) → a && b ≡ true → (a ≡ true) × (b ≡ true)
and_true a b h = ground arith

resolve_all_total :
    (xs : List Op) (i : ℕ) (os : List Op)
    → Ends xs
    → AllDefined xs os
    → args_fit os ≡ true
    → (ys : List Op) × (resolve_all xs i os ≡ some ys) × (args_fit ys ≡ true)
unfolding resolve_all args_fit
resolve_all_total xs i [] ends d fit = ([], refl, refl)
resolve_all_total xs i (op ∷ os) ends d fit =
    let (here, there) = and_true (has_arg_t (op2_arg_t op.code) op.arg) (args_fit os) fit in
    let (b, run, ok) = resolve_arg_total xs i op.arg ends d.0 (op2_arg_t op.code) here in
    let (ys, more, oks) = resolve_all_total xs (i + 1) os ends d.1 there in
    (record op { arg = b } ∷ ys, rw (run, more), rw (ok, oks))

target_at-append :
    (l : Text) (xs ys : List Op) (m : ℕ) → target_at l xs m ≡ true → target_at l (xs ++ ys) m ≡ true
unfolding target_at
target_at-append l [] ys m h = cc
target_at-append l (op ∷ os) ys zero h = h
target_at-append l (op ∷ os) ys (suc m) h = target_at-append l os ys m h

Defined-append : (xs ys : List Op) (l : Text) → Defined xs l → Defined (xs ++ ys) l
Defined-append xs ys l d = record {
  named = d.named;
  label = d.label;
  inside = omega (arith, d.inside, length-append xs ys);
  is_target = target_at-append l xs ys d.label d.is_target;
}

DefinedArg-append : (xs ys : List Op) (a : OpArg) → DefinedArg xs a → DefinedArg (xs ++ ys) a
DefinedArg-append xs ys (OpArg.lbl o l) d = Defined-append xs ys l d
DefinedArg-append xs ys _ d = tt

AllDefined-append :
    (xs ys os : List Op) (a : Op)
    → AllDefined xs os
    → DefinedArg (xs ++ ys) a.arg
    → AllDefined (xs ++ ys) (os ++ a ∷ [])
AllDefined-append xs ys [] a d e = (e, tt)
AllDefined-append xs ys (op ∷ os) a d e =
    (DefinedArg-append xs ys op.arg d.0, AllDefined-append xs ys os a d.1 e)

args_fit-append :
    (os : List Op) (a : Op)
    → args_fit os ≡ true
    → has_arg_t (op2_arg_t a.code) a.arg ≡ true
    → args_fit (os ++ a ∷ []) ≡ true
unfolding args_fit
args_fit-append [] a f h = rw h
args_fit-append (op ∷ os) a f h =
    let (here, there) = and_true (has_arg_t (op2_arg_t op.code) op.arg) (args_fit os) f in
    rw (here, args_fit-append os a there h)

label_at-last : (os : List Op) (a : Op) → label_at (os ++ a ∷ []) (length os) ≡ is_label a.code
unfolding label_at
label_at-last [] a = refl
label_at-last (op ∷ os) a = label_at-last os a

return-no_label : (c : OpCode) → is_return c ≡ true → is_label c ≡ false
return-no_label OpCode.return_b h = refl
return-no_label _ h = cc

Ends-last : (os : List Op) (a : Op) → is_return a.code ≡ true → Ends (os ++ a ∷ [])
Ends-last os a r = record {
  last = length os;
  is_last = omega (arith, length-append os (a ∷ []));
  no_label = label_at-last os a ∙ return-no_label a.code r;
}

finalize_returns :
    (s u : OpSeq)
    → add_return s s.rev_ops ≡ some u
    → Ends (ops u)
    → AllDefined (ops u) (ops u)
    → args_fit (ops u) ≡ true
    → (t : OpSeq) × (finalize s ≡ some t)
unfolding finalize
finalize_returns s u run ends d fit =
    let (ys, all, ok) = resolve_all_total (ops u) 0 (ops u) ends d fit in
    (record { rev_ops = reverse ys; stack_t = u.stack_t }, rw (run, all, ok))

pub add_return-kept :
    (s : OpSeq) (op : Op) (os : List Op)
    → is_return op.code ≡ true
    → add_return s (op ∷ os) ≡ some s
unfolding add_return
add_return-kept s op os h = rw h

pub add_return-append :
    (s : OpSeq) (op : Op) (os : List Op)
    → is_return op.code ≡ false
    → add_return s (op ∷ os) ≡ append s (plain_op OpCode.return_b)
unfolding add_return
add_return-append s op os h = rw h

-- A sequence that ends in a return, or on which append can put one, whose jumps all name labels
-- that it has, and whose ops carry the arguments that their codes ask for, is finalized.
pub finalize_total :
    (s : OpSeq) (op : Op) (os : List Op)
    → s.rev_ops ≡ op ∷ os
    → (is_return op.code ≡ true) ⊎ ((u : OpSeq) × (append s (plain_op OpCode.return_b) ≡ some u))
    → AllDefined (ops s) (ops s)
    → args_fit (ops s) ≡ true
    → (t : OpSeq) × (finalize s ≡ some t)
unfolding has_arg_t op2_arg_t
finalize_total s op os e (inl ret) d fit =
    let run = ap (add_return s) e ∙ add_return-kept s op os ret in
    let shape : ops s ≡ reverse os ++ op ∷ [] = ap reverse e ∙ reverse-cons op os in
    finalize_returns s s run (subst Ends (sym shape) (Ends-last (reverse os) op ret)) d fit
finalize_total s op os e (inr (u, ok)) d fit = elim (Bool-cases (is_return op.code)) [
  | inl ret ↦
      let run = ap (add_return s) e ∙ add_return-kept s op os ret in
      let shape : ops s ≡ reverse os ++ op ∷ [] = ap reverse e ∙ reverse-cons op os in
      finalize_returns s s run (subst Ends (sym shape) (Ends-last (reverse os) op ret)) d fit
  | inr other ↦
      let ret : Op = plain_op OpCode.return_b in
      let run = ap (add_return s) e ∙ add_return-append s op os other ∙ ok in
      let (r, _, _, _, made) = append_inv s u ret ok in
      let shape : ops u ≡ ops s ++ ret ∷ [] = ap ops made ∙ reverse-cons ret s.rev_ops in
      finalize_returns s u run (subst Ends (sym shape) (Ends-last (ops s) ret refl))
        (subst (λ x. AllDefined x x) (sym shape)
          (AllDefined-append (ops s) (ret ∷ []) (ops s) ret d tt))
        (subst (λ x. args_fit x ≡ true) (sym shape) (args_fit-append (ops s) ret fit refl))
]
