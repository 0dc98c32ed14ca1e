-- ===== src/OpSeq/Jumps/Search.antt =====
-- The two searches of finalize and the loop that skips labels.
use native.Mathlib.Decide.{dec_le, ℕ_discrete}
use omni_notify_omni_orb.Common.{
  ℕ, zero, suc, ◌+◌, ◌-◌, ◌≤◌, ◌<◌, true, false, Option, none, some, List, ◌≡◌, ◌≢◌, refl, inl, inr,
  length, ◌==◌, arith, Bool-cases, some_eq,
}
use omni_notify_omni_orb.OpSeq.Seq.{Op, Text}
use omni_notify_omni_orb.OpSeq.Jumps.{
  label_at, target_at, look_up, look_down, or_else, search_from, skip_labels,
}

module _ (l : Text) (xs : List Op) where
  pub look_up_finds : (n p : ℕ) {m : ℕ} → look_up l xs n p ≡ some m → target_at l xs m ≡ true
  unfolding look_up
  look_up_finds zero p h = cc
  look_up_finds (suc n) p {m} h = elim (Bool-cases (target_at l xs p)) [
    | inl e ↦ rw (← some_eq (rw e at h)) e
    | inr e ↦ look_up_finds n (p + 1) (rw e at h)
  ]

  pub look_down_finds : (p : ℕ) {m : ℕ} → look_down l xs p ≡ some m → target_at l xs m ≡ true
  unfolding look_down
  look_down_finds zero h = cc
  look_down_finds (suc p) {m} h = elim (Bool-cases (target_at l xs p)) [
    | inl e ↦ rw (← some_eq (rw e at h)) e
    | inr e ↦ look_down_finds p (rw e at h)
  ]

  -- A search that passes a target stops.
  pub look_up_stops :
      (n p m : ℕ) → target_at l xs m ≡ true → p ≤ m → m < p + n → look_up l xs n p ≢ none
  unfolding look_up
  look_up_stops zero p m t lo hi h = absurd (omega arith)
  look_up_stops (suc n) p m t lo hi h = elim (Bool-cases (target_at l xs p)) [
    | inl e ↦ cc (rw e at h)
    | inr e ↦
        let ne : p ≢ m = λ q. cc (rw q at e) in
        look_up_stops n (p + 1) m t (omega arith) (omega arith) (rw e at h)
  ]

  pub look_down_stops : (p m : ℕ) → target_at l xs m ≡ true → m < p → look_down l xs p ≢ none
  unfolding look_down
  look_down_stops zero m t hi h = absurd (omega arith)
  look_down_stops (suc p) m t hi h = elim (Bool-cases (target_at l xs p)) [
    | inl e ↦ cc (rw e at h)
    | inr e ↦
        let ne : p ≢ m = λ q. cc (rw q at e) in look_down_stops p m t (omega arith) (rw e at h)
  ]

  or_else_finds :
      (a b : Option ℕ) {m : ℕ}
      → ((k : ℕ) → a ≡ some k → target_at l xs k ≡ true)
      → ((k : ℕ) → b ≡ some k → target_at l xs k ≡ true)
      → or_else a b ≡ some m
      → target_at l xs m ≡ true
  or_else_finds none b {m} ha hb h = hb m h
  or_else_finds (some k) b {m} ha hb h = rw (← some_eq h) (ha k refl)

  or_else_stops : (a b : Option ℕ) → or_else a b ≡ none → (a ≡ none) × (b ≡ none)
  or_else_stops none b h = (refl, h)
  or_else_stops (some k) b h = cc

  -- What the search returns is a label of that name.
  pub search_from_finds :
      (i : ℕ) (start : Option ℕ) {m : ℕ}
      → search_from l xs i start ≡ some m
      → target_at l xs m ≡ true
  unfolding search_from
  search_from_finds i none h = or_else_finds _ _ (λ k. look_up_finds _ i) (λ k. look_down_finds i) h
  search_from_finds i (some q) h = elim (Bool-cases (q == i)) [
    | inl e ↦ or_else_finds _ _ (λ k. look_up_finds _ i) (λ k. look_down_finds i) (rw e at h)
    | inr e ↦
        or_else_finds _ _ (λ k. look_down_finds (suc q)) (λ k. look_up_finds _ (suc q)) (rw e at h)
  ]

  both_ways :
      (i m : ℕ)
      → target_at l xs m ≡ true
      → m < length xs
      → look_up l xs (length xs - i) i ≡ none
      → look_down l xs i ≢ none
  both_ways i m t hi up down = elim (dec_le i m) [
    | yes h ↦ look_up_stops (length xs - i) i m t h (omega arith) up
    | no h ↦ look_down_stops i m t (omega arith) down
  ]

  -- Wherever the label stands and whatever the offset was, the search finds one.
  pub search_from_total :
      (i m : ℕ) (start : Option ℕ)
      → target_at l xs m ≡ true
      → m < length xs
      → search_from l xs i start ≢ none
  unfolding search_from
  search_from_total i m none t hi h =
      let (up, down) = or_else_stops _ _ h in both_ways i m t hi up down
  search_from_total i m (some q) t hi h = elim (Bool-cases (q == i)) [
    | inl e ↦ let (up, down) = or_else_stops _ _ (rw e at h) in both_ways i m t hi up down
    | inr e ↦ let (down, up) = or_else_stops _ _ (rw e at h) in both_ways (suc q) m t hi up down
  ]

-- The ops that were skipped are labels, and the op that is reached is none.
pub skip_labels_lem :
    (xs : List Op) (n p : ℕ) {q : ℕ}
    → skip_labels xs n p ≡ some q
    → (p ≤ q)
      × (q < p + n)
      × (label_at xs q ≡ false)
      × ((j : ℕ) → p ≤ j → j < q → label_at xs j ≡ true)
unfolding skip_labels
skip_labels_lem xs zero p h = cc
skip_labels_lem xs (suc n) p {q} h = elim (Bool-cases (label_at xs p)) [
  | inl e ↦
      let (lo, hi, stop, passed) = skip_labels_lem xs n (p + 1) (rw e at h) in
      (
        omega arith,
        omega arith,
        stop,
        λ j a b. elim (ℕ_discrete p j) [
          | yes same ↦ rw (← same) e
          | no other ↦ passed j (omega arith) b
        ],
      )
  | inr e ↦
      let same : p ≡ q = some_eq (rw e at h) in
      (omega arith, omega arith, rw (← same) e, λ j a b. absurd (omega arith))
]

pub skip_labels_total :
    (xs : List Op) (n p k : ℕ)
    → label_at xs k ≡ false
    → p ≤ k
    → k < p + n
    → skip_labels xs n p ≢ none
unfolding skip_labels
skip_labels_total xs zero p k t lo hi h = absurd (omega arith)
skip_labels_total xs (suc n) p k t lo hi h = elim (Bool-cases (label_at xs p)) [
  | inl e ↦
      let ne : p ≢ k = λ q. cc (rw q at e) in
      skip_labels_total xs n (p + 1) k t (omega arith) (omega arith) (rw e at h)
  | inr e ↦ cc (rw e at h)
]
