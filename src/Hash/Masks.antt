-- ===== src/Hash/Masks.antt =====
-- The two masks of a hash table (include/RDIHash.h, pseudo_hash and the constructor), with proofs
-- about the sizes that they belong to.
use Prim.Native.Nat.{bit_and}
use native.Mathlib.Nat.{pow-suc}
use native.Mathlib.Decide.{dec_lt}
use omni_notify_omni_orb.Common.{
  ℕ, zero, suc, ◌+◌, ◌-◌, ◌*◌, ◌%◌, ◌^◌, ◌<◌, ◌≤◌, ◌≡◌, ◌⊎◌, inl, inr, refl, sym, ◌∙◌, ap, subst,
  ltb, arith, false, Bool-cases, lt→ltb, ltb→lt, if◌then◌else◌,
}
use omni_notify_omni_orb.Common.Bits.{bit_and-ones}
use omni_notify_omni_orb.Hash.{home, round_up, new_table}

-- The expression of pseudo_hash, on the masks that the table stores.
unfoldable pub masked : ℕ → ℕ → ℕ → ℕ → ℕ
masked curr_mask next_mask split_idx indx =
    let bnum = bit_and indx curr_mask in if ltb bnum split_idx then bit_and indx next_mask else bnum

-- The loop of the constructor on an unsigned int, which wraps around.
unfoldable pub round_up32 : ℕ → ℕ → ℕ → ℕ
round_up32 zero size n = n
round_up32 (suc f) size n =
    let more = round_up32 f size (n * 2 % 2 ^ 32) in if ltb n size then more else n

pub home-masked : (i j s h : ℕ) → home (2 ^ i) (2 ^ j) s h ≡ masked (2 ^ i - 1) (2 ^ j - 1) s h
unfolding home masked
home-masked i j s h = rw (bit_and-ones h i, bit_and-ones h j) refl

-- What the loop gives for a size: the next power of 2, which no doubling on the way has passed.
pub record Rounded (size r : ℕ) : Type 0 where
  pub exponent : ℕ
  pub is_power : r ≡ 2 ^ exponent
  pub enough : size ≤ r
  pub least : (r < 2 * size) ⊎ (r ≡ 1)

pub round_up-Rounded :
    (f size n k : ℕ)
    → n ≡ 2 ^ k
    → 0 < n
    → size ≤ n + f
    → (n < 2 * size) ⊎ (n ≡ 1)
    → Rounded size (round_up f size n)
unfolding round_up
round_up-Rounded zero size n k e p h l = record {
  exponent = k;
  is_power = e;
  enough = omega (arith, h);
  least = l;
}
round_up-Rounded (suc f) size n k e p h l = elim (dec_lt n size) [
  | yes d ↦ rw (lt→ltb n size d) (
      round_up-Rounded f size (n * 2) (suc k) (ap (λ x. x * 2) e ∙ sym (pow-suc 2 k))
        (omega (arith, p)) (omega (arith, p, h)) (inl (omega (arith, d))))
  | no d ↦
      rw (not_lt d) (record { exponent = k; is_power = e; enough = omega (arith, d); least = l })
]
  where
    not_lt : ¬ (n < size) → ltb n size ≡ false
    not_lt d = elim (Bool-cases (ltb n size)) [ inl e ↦ absurd (d (ltb→lt n size e)) | inr e ↦ e ]

round_up-round_up32 : (f size n : ℕ) → size ≤ 2147483648 → round_up32 f size n ≡ round_up f size n
unfolding round_up round_up32
round_up-round_up32 zero size n h = refl
round_up-round_up32 (suc f) size n h = elim (Bool-cases (ltb n size)) [
  | inl e ↦
      let below = ltb→lt n size e in
      let same : n * 2 % 2 ^ 32 ≡ n * 2 = omega (arith, below, h) in
      rw (e, same) (round_up-round_up32 f size (n * 2) h)
  | inr e ↦ rw e refl
]

-- For a size of at most 2 ^ 31, the constructor ends its loop, on an unsigned int that wraps around,
-- with both sizes the least power of 2 that is at least the size, and below 2 ^ 32.
pub new_table-Rounded :
    (K V : Type 0) (size capa : ℕ)
    → size ≤ 2147483648
    → Rounded size (round_up32 size size 1)
      × (round_up32 size size 1 < 4294967296)
      × ((new_table {K = K} {V = V} size capa).curr_size ≡ round_up32 size size 1)
      × ((new_table {K = K} {V = V} size capa).next_size ≡ round_up32 size size 1)
unfolding new_table
new_table-Rounded K V size capa h =
    let same = round_up-round_up32 size size 1 h in
    let rounded = round_up-Rounded size size 1 0 refl (omega arith) (omega arith) (inr refl) in
    (subst (Rounded size) (sym same) rounded, rw same (in_range rounded.least), sym same, sym same)
  where
    in_range : {r : ℕ} → (r < 2 * size) ⊎ (r ≡ 1) → r < 4294967296
    in_range (inl l) = omega (arith, l, h)
    in_range (inr e) = omega (arith, e)
