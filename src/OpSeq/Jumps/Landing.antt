-- ===== src/OpSeq/Jumps/Landing.antt =====
-- Where the jumps of a finalized sequence land.
use mathlib.Core.List.{reverse-reverse}
use omni_notify_omni_orb.Common.{
  ℕ, zero, suc, ◌+◌, ◌-◌, ◌≤◌, ◌<◌, true, false, not, some, List, [], ◌∷◌, ◌≡◌, refl, sym, ap, ◌∙◌,
  subst, reverse, length, get_elem?, check, arith, some_eq, bind_inv, check_inv,
}
use omni_notify_omni_orb.Common.Int.{ℤ, sub_ℕ}
use omni_notify_omni_orb.OpSeq.Seq.{Op, OpArg, OpSeq, Text, ops}
use omni_notify_omni_orb.OpSeq.Jumps.Search.{search_from_finds, skip_labels_lem}
use omni_notify_omni_orb.OpSeq.Jumps.{
  label_at, target_at, names, is_label, is_empty, position, search_from, skip_labels, resolve_arg,
  resolve_all, args_fit, add_return, finalize,
}

-- The jump at position i with this offset and label name lands on the first op that is no label,
-- at or behind a label of that name.
pub record Lands (xs : List Op) (i : ℕ) (offset : ℤ) (l : Text) : Type 0 where
  pub label : ℕ
  pub landing : ℕ
  pub is_target : target_at l xs label ≡ true
  pub behind : label ≤ landing
  pub inside : landing < length xs
  pub no_label : label_at xs landing ≡ false
  pub passed : (j : ℕ) → label ≤ j → j < landing → label_at xs j ≡ true
  pub offset_eq : offset ≡ sub_ℕ landing i

-- Not an empty name, and not a jump whose offset stayed as it was.
resolve_arg-lbl :
    (xs : List Op) (i : ℕ) (o o' : ℤ) (l l' : Text)
    → resolve_arg xs i (OpArg.lbl o l) ≡ some (OpArg.lbl o' l')
    → (m : ℕ) × (q : ℕ) × (search_from l xs i (position (length xs) i o) ≡ some m)
      × (skip_labels xs (length xs - m) m ≡ some q)
      × (o' ≡ sub_ℕ q i)
      × (l' ≡ l)
unfolding resolve_arg
resolve_arg-lbl xs i o o' l l' h =
    let (_, _, h₁) = bind_inv (check (not (is_empty l))) _ h in
    let (m, found, h₂) = bind_inv (search_from l xs i (position (length xs) i o)) _ h₁ in
    let (q, skipped, h₃) = bind_inv (skip_labels xs (length xs - m) m) _ h₂ in
    (m, q, found, skipped, cc, cc)

resolve_arg-names :
    (xs : List Op) (i : ℕ) (l : Text) (a b : OpArg)
    → resolve_arg xs i a ≡ some b
    → names l b ≡ names l a
unfolding resolve_arg
resolve_arg-names xs i l (OpArg.lbl o k) b h =
    let (_, _, h₁) = bind_inv (check (not (is_empty k))) _ h in
    let (m, _, h₂) = bind_inv (search_from k xs i (position (length xs) i o)) _ h₁ in
    let (q, _, h₃) = bind_inv (skip_labels xs (length xs - m) m) _ h₂ in rw (← some_eq h₃)
resolve_arg-names xs i l _ b h = rw (← some_eq h)

-- An argument that ends as a jump was one.
resolve_arg-kind :
    (xs : List Op) (i : ℕ) (a : OpArg) (o' : ℤ) (l' : Text)
    → resolve_arg xs i a ≡ some (OpArg.lbl o' l')
    → (o : ℤ) × (l : Text) × (a ≡ OpArg.lbl o l)
unfolding resolve_arg
resolve_arg-kind xs i (OpArg.lbl o k) o' l' h = (o, k, refl)
resolve_arg-kind xs i _ o' l' h = cc

-- One op of the result, and the op it comes from.
pub record Resolved (xs : List Op) (i : ℕ) (op op' : Op) : Type 0 where
  pub same_code : op'.code ≡ op.code
  pub arg_of : resolve_arg xs i op.arg ≡ some op'.arg

pub resolve_all_cons :
    (xs : List Op) (i : ℕ) (op : Op) (os ys : List Op)
    → resolve_all xs i (op ∷ os) ≡ some ys
    → (op' : Op) × (rest : List Op) × (ys ≡ op' ∷ rest)
      × Resolved xs i op op'
      × (resolve_all xs (i + 1) os ≡ some rest)
unfolding resolve_all
resolve_all_cons xs i op os ys h =
    let (a, run, h₁) = bind_inv (resolve_arg xs i op.arg) _ h in
    let (rest, more, h₂) = bind_inv (resolve_all xs (i + 1) os) _ h₁ in
    (record op { arg = a }, rest, sym (some_eq h₂), record { same_code = refl; arg_of = run }, more)

-- Labels stay where they are.
pub record SameLabels (xs ys : List Op) : Type 0 where
  pub same_length : length ys ≡ length xs
  pub same_label : (p : ℕ) → label_at ys p ≡ label_at xs p
  pub same_target : (l : Text) (p : ℕ) → target_at l ys p ≡ target_at l xs p

cons-SameLabels :
    (xs : List Op) (i : ℕ) (op op' : Op) (os rest : List Op)
    → Resolved xs i op op'
    → SameLabels os rest
    → SameLabels (op ∷ os) (op' ∷ rest)
unfolding label_at target_at
cons-SameLabels xs i op op' os rest r s = record {
  same_length = ap suc s.same_length;
  same_label = here;
  same_target = there;
}
  where
    here : (p : ℕ) → label_at (op' ∷ rest) p ≡ label_at (op ∷ os) p
    here zero = ap is_label r.same_code
    here (suc p) = s.same_label p

    there : (l : Text) (p : ℕ) → target_at l (op' ∷ rest) p ≡ target_at l (op ∷ os) p
    there l zero = rw (r.same_code, resolve_arg-names xs i l op.arg op'.arg r.arg_of)
    there l (suc p) = s.same_target l p

pub resolve_all-SameLabels :
    (xs : List Op) (i : ℕ) (os ys : List Op) → resolve_all xs i os ≡ some ys → SameLabels os ys
unfolding resolve_all
resolve_all-SameLabels xs i [] ys h =
    subst (SameLabels []) (some_eq h)
      (record { same_length = refl; same_label = λ p. refl; same_target = λ l p. refl })
resolve_all-SameLabels xs i (op ∷ os) ys h =
    let (op', rest, e, r, more) = resolve_all_cons xs i op os ys h in
    subst (SameLabels (op ∷ os)) (sym e)
      (cons-SameLabels xs i op op' os rest r (resolve_all-SameLabels xs (i + 1) os rest more))

resolve_all-at :
    (xs : List Op) (i : ℕ) (os ys : List Op) (j : ℕ) (op' : Op)
    → resolve_all xs i os ≡ some ys
    → get_elem? ys j ≡ some op'
    → (op : Op) × Resolved xs (i + j) op op'
unfolding resolve_all
resolve_all-at xs i [] ys j op' h e =
    let nothing : get_elem? [] j ≡ some op' =
      subst (λ (z : List Op). get_elem? z j ≡ some op') (sym (some_eq h)) e in
    cc nothing
resolve_all-at xs i (op ∷ os) ys zero op' h e =
    let (first, rest, shape, r, more) = resolve_all_cons xs i op os ys h in
    let same : first ≡ op' = some_eq (rw shape at e) in
    let index : i ≡ i + 0 = omega arith in
    (op, subst (λ k. Resolved xs k op op') index (subst (Resolved xs i op) same r))
resolve_all-at xs i (op ∷ os) ys (suc j) op' h e =
    let (first, rest, shape, r, more) = resolve_all_cons xs i op os ys h in
    let (from, s) = resolve_all-at xs (i + 1) os rest j op' more (rw shape at e) in
    let index : i + 1 + j ≡ i + suc j = omega arith in
    (from, subst (λ k. Resolved xs k from op') index s)

Resolved-Lands :
    (xs ys : List Op) (i : ℕ) (op op' : Op) (o : ℤ) (l : Text)
    → SameLabels xs ys
    → Resolved xs i op op'
    → op'.arg ≡ OpArg.lbl o l
    → Lands ys i o l
Resolved-Lands xs ys i op op' o l same r e =
    let run : resolve_arg xs i op.arg ≡ some (OpArg.lbl o l) = r.arg_of ∙ ap some e in
    let (o₀, l₀, was) = resolve_arg-kind xs i op.arg o l run in
    let (m, q, found, skipped, offset, name) =
      resolve_arg-lbl xs i o₀ o l₀ l
        (subst (λ a. resolve_arg xs i a ≡ some (OpArg.lbl o l)) was run) in
    let target = search_from_finds l₀ xs i (position (length xs) i o₀) found in
    let (lo, hi, stop, labels) = skip_labels_lem xs (length xs - m) m skipped in
    record {
      label = m;
      landing = q;
      is_target = same.same_target l m ∙ subst (λ k. target_at k xs m ≡ true) (sym name) target;
      behind = lo;
      inside = omega (arith, same.same_length);
      no_label = same.same_label q ∙ stop;
      passed = λ j a b. same.same_label j ∙ labels j a b;
      offset_eq = offset;
    }

-- What finalize did, when it did not fail an assertion.
pub finalize_inv :
    (s t : OpSeq)
    → finalize s ≡ some t
    → (u : OpSeq) × (add_return s s.rev_ops ≡ some u)
      × (resolve_all (ops u) 0 (ops u) ≡ some (ops t))
      × (args_fit (ops t) ≡ true)
      × (t.stack_t ≡ u.stack_t)
unfolding finalize
finalize_inv s t h =
    let (u, ret, h₁) = bind_inv (add_return s s.rev_ops) _ h in
    let (os, run, h₂) = bind_inv (resolve_all (ops u) 0 (ops u)) _ h₁ in
    let (_, fit, h₃) = bind_inv (check (args_fit os)) _ h₂ in
    let done : record { rev_ops = reverse os; stack_t = u.stack_t } ≡ t = some_eq h₃ in
    let back : os ≡ ops t = sym (reverse-reverse os) ∙ ap ops done in
    (
      u,
      ret,
      subst (λ z. resolve_all (ops u) 0 (ops u) ≡ some z) back run,
      subst (λ z. args_fit z ≡ true) back (check_inv _ fit),
      ap (λ (z : OpSeq). z.stack_t) (sym done),
    )

-- In a sequence that finalize returns, every jump lands inside the sequence, on the first op that
-- is no label at or behind a label of the jump's name, and its offset is the way there.
pub finalize-Lands :
    (s t : OpSeq) (i : ℕ) (op : Op) (o : ℤ) (l : Text)
    → finalize s ≡ some t
    → get_elem? (ops t) i ≡ some op
    → op.arg ≡ OpArg.lbl o l
    → Lands (ops t) i o l
finalize-Lands s t i op o l h at_i e =
    let (u, _, run, _, _) = finalize_inv s t h in
    let (from, r) = resolve_all-at (ops u) 0 (ops u) (ops t) i op run at_i in
    let same = resolve_all-SameLabels (ops u) 0 (ops u) (ops t) run in
    let index : 0 + i ≡ i = omega arith in
    Resolved-Lands (ops u) (ops t) i from op o l same
      (subst (λ k. Resolved (ops u) k from op) index r) e
