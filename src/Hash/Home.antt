-- ===== src/Hash/Home.antt =====
-- Proofs about the bucket of a key (include/RDIHash.h, pseudo_hash) before and after a split.
use native.Mathlib.Nat.{mod-mod_of_dvd, mod-lt, mod-eq_of_lt, dvd-mul_right}
use native.Mathlib.Decide.{dec_lt}
use omni_notify_omni_orb.Common.{
  ℕ, ◌+◌, ◌*◌, ◌%◌, ◌<◌, ◌≤◌, ◌≡◌, ◌≢◌, ◌⊎◌, inl, inr, refl, sym, ◌∙◌, ltb, arith, Bool-cases,
  ltb→lt, lt→ltb, ap,
}
use omni_notify_omni_orb.Hash.{home}

mod_double : (h c : ℕ) → h % (c * 2) % c ≡ h % c
mod_double h c = mod-mod_of_dvd c h (dvd-mul_right c 2)

-- The sizes that a table goes through: `s` buckets of `curr` have been split.
pub record IsSized (curr next s : ℕ) : Type 0 where
  pub some_bucket : 0 < curr
  pub split_few : s ≤ curr
  pub twice : ((next ≡ curr) × (s ≡ 0)) ⊎ (next ≡ curr * 2)

pub home_split : (curr next s h : ℕ) → h % curr < s → home curr next s h ≡ h % next
unfolding home
home_split curr next s h p = rw (lt→ltb (h % curr) s p) refl

pub home_whole : (curr next s h : ℕ) → s ≤ h % curr → home curr next s h ≡ h % curr
unfolding home
home_whole curr next s h p = elim (Bool-cases (ltb (h % curr) s)) [
  | inl e ↦ absurd (omega (arith, ltb→lt (h % curr) s e))
  | inr e ↦ rw e refl
]

pub next-pos : (curr next s : ℕ) → IsSized curr next s → 0 < next
next-pos curr next s sized = go sized.some_bucket sized.twice
  where
    go : 0 < curr → ((next ≡ curr) × (s ≡ 0)) ⊎ (next ≡ curr * 2) → 0 < next
    go p (inl (e, z)) = omega (arith, p, e)
    go p (inr e) = omega (arith, p, e)

-- Where there is a bucket, at most the `curr` buckets are split, and the array has `curr` buckets with
-- none split or twice as many: the bucket of a hash value is below the size of the array.
pub home-lt : (curr next s h : ℕ) → IsSized curr next s → home curr next s h < next
home-lt curr next s h sized =
    let below = mod-lt h sized.some_bucket in
    elim (dec_lt (h % curr) s) [
      | yes p ↦ rw (home_split curr next s h p) (mod-lt h (next-pos curr next s sized))
      | no p ↦ rw (home_whole curr next s h (omega (arith, p))) (next_above below sized.twice)
    ]
  where
    next_above : {x : ℕ} → x < curr → ((next ≡ curr) × (s ≡ 0)) ⊎ (next ≡ curr * 2) → x < next
    next_above b (inl (e, z)) = omega arith
    next_above b (inr e) = omega arith

-- All buckets have been split: the sizes change and no key moves.
pub home_round : (curr next h : ℕ) → 0 < curr → home next next 0 h ≡ home curr next curr h
home_round curr next h p =
    home_whole next next 0 h (omega arith) ∙ sym (home_split curr next curr h (mod-lt h p))

-- Before the first split, the size of the array may be doubled.
pub home_doubled : (curr h : ℕ) → home curr (curr * 2) 0 h ≡ home curr curr 0 h
home_doubled curr h =
    home_whole curr (curr * 2) 0 h (omega arith) ∙ sym (home_whole curr curr 0 h (omega arith))

-- A split moves the keys of its bucket to their place modulo the doubled size, and no others.
pub home_moved :
    (curr s h : ℕ)
    → s < curr
    → home curr (curr * 2) s h ≡ s
    → home curr (curr * 2) (s + 1) h ≡ h % (curr * 2)
home_moved curr s h p e = elim (dec_lt (h % curr) s) [
  | yes q ↦
      let at = sym (home_split curr (curr * 2) s h q) ∙ e in
      let small = sym (mod_double h curr) ∙ ap (λ x. x % curr) at ∙ mod-eq_of_lt p in
      absurd (omega (arith, small, q))
  | no q ↦
      let at = sym (home_whole curr (curr * 2) s h (omega (arith, q))) ∙ e in
      home_split curr (curr * 2) (s + 1) h (omega (arith, at))
]

pub home_kept :
    (curr s h : ℕ)
    → home curr (curr * 2) s h ≢ s
    → home curr (curr * 2) (s + 1) h ≡ home curr (curr * 2) s h
home_kept curr s h n = elim (dec_lt (h % curr) s) [
  | yes q ↦
      home_split curr (curr * 2) (s + 1) h (omega (arith, q))
      ∙ sym (home_split curr (curr * 2) s h q)
  | no q ↦
      let whole = home_whole curr (curr * 2) s h (omega (arith, q)) in
      let other : s + 1 ≤ h % curr = omega (arith, q, not_at whole) in
      home_whole curr (curr * 2) (s + 1) h other ∙ sym whole
]
  where
    not_at : home curr (curr * 2) s h ≡ h % curr → h % curr ≢ s
    not_at w e = n (w ∙ e)
