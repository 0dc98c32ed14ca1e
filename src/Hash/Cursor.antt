-- ===== src/Hash/Cursor.antt =====
-- The cursor of a hash table (include/RDIHash.h, frst_node and next_node). The node of a cursor is the
-- rest of its list from there on, which is empty for a null pointer.
use omni_notify_omni_orb.Common.{
  ℕ, zero, suc, ◌+◌, ◌-◌, ◌<◌, ◌≤◌, ◌≡◌, inl, inr, refl, sym, ◌∙◌, ◌==◌, arith, Bool-cases, ==_iff,
  if◌then◌else◌, false, List, [], ◌∷◌, ap, length, ◌++◌,
}
use omni_notify_omni_orb.Hash.{Key, Bucket, Table, new_table}
use omni_notify_omni_orb.Hash.Runs.{Op, apply_all}
use omni_notify_omni_orb.Hash.Counts.{IsCounted, apply_all-IsCounted}

pub record Cursor (K V : Type 0) : Type 0 where
  pub node : List (K × V)
  pub bnum : ℕ

module _ {K V : Type 0} where
  -- The first bucket from `i` on that counts a node, among `n` buckets.
  unfoldable pub next_bucket : ℕ → (ℕ → Bucket K V) → ℕ → Cursor K V
  next_bucket zero h i = record { node = []; bnum = i }
  next_bucket (suc n) h i =
      let later = next_bucket n h (i + 1) in
      if (h i).count == 0 then later else record { node = (h i).nodes; bnum = i }

  unfoldable pub frst_node : Table K V → Cursor K V
  unfolding next_bucket
  frst_node t = next_bucket t.next_size t.htable 0

  unfoldable pub next_node : Table K V → Cursor K V → Cursor K V
  unfolding next_bucket
  next_node t c = elim c.node [
    | [] ↦ record { node = []; bnum = t.next_size }
    | e ∷ es ↦ elim es [
      | [] ↦ next_bucket (t.next_size - (c.bnum + 1)) t.htable (c.bnum + 1)
      | f ∷ fs ↦ record { node = f ∷ fs; bnum = c.bnum }
    ]
  ]

  -- The pairs that a cursor comes to, in at most so many steps.
  unfoldable pub walk : ℕ → Table K V → Cursor K V → List (K × V)
  unfolding next_node
  walk zero t c = []
  walk (suc n) t c =
      let rest = walk n t (next_node t c) in elim c.node [ [] ↦ [] | e ∷ es ↦ e ∷ rest ]

  -- The pairs of `n` buckets from `i` on.
  unfoldable pub pairs_from : ℕ → (ℕ → Bucket K V) → ℕ → List (K × V)
  pairs_from zero h i = []
  pairs_from (suc n) h i = (h i).nodes ++ pairs_from n h (i + 1)

  -- Where a cursor may stand in an array of `next` buckets.
  unfoldable IsAt : ℕ → List (K × V) → ℕ → Type 0
  IsAt next [] b = b ≡ next
  IsAt next (e ∷ es) b = b < next

  empty_nodes : (es : List (K × V)) → length es ≡ 0 → es ≡ []
  empty_nodes [] h = refl
  empty_nodes (e ∷ es) h = absurd (omega (arith, h))

  next_bucket-IsAt :
      (next n : ℕ) (h : ℕ → Bucket K V) (i : ℕ)
      → IsCounted h
      → i + n ≡ next
      → IsAt next (next_bucket n h i).node (next_bucket n h i).bnum
  unfolding next_bucket IsAt
  next_bucket-IsAt next zero h i c e = omega (arith, e)
  next_bucket-IsAt next (suc n) h i c e = elim (Bool-cases ((h i).count == 0)) [
    | inl q ↦ rw q (next_bucket-IsAt next n h (i + 1) c (omega (arith, e)))
    | inr q ↦ rw q (here (h i).nodes (omega (arith, e)) (c i) q)
  ]
    where
      here :
          (es : List (K × V))
          → i < next
          → (h i).count ≡ length es
          → ((h i).count == 0) ≡ false
          → IsAt next es i
      here [] p l q = cc ((==_iff (h i).count 0).1 l, q)
      here (e ∷ es) p l q = p

  -- What is left for a cursor.
  unfoldable rest_of : ℕ → (ℕ → Bucket K V) → Cursor K V → List (K × V)
  unfolding pairs_from
  rest_of next h c = c.node ++ pairs_from (next - (c.bnum + 1)) h (c.bnum + 1)

  rest-next_bucket :
      (next n : ℕ) (h : ℕ → Bucket K V) (i : ℕ)
      → IsCounted h
      → i + n ≡ next
      → rest_of next h (next_bucket n h i) ≡ pairs_from n h i
  unfolding rest_of next_bucket pairs_from
  rest-next_bucket next zero h i c e =
      let none_left : next - (i + 1) ≡ 0 = omega (arith, e) in
      ap (λ m. pairs_from m h (i + 1)) none_left
  rest-next_bucket next (suc n) h i c e = elim (Bool-cases ((h i).count == 0)) [
    | inl q ↦
        let nothing = empty_nodes (h i).nodes (sym (c i) ∙ (==_iff (h i).count 0).0 q) in
        rw (q, nothing) (rest-next_bucket next n h (i + 1) c (omega (arith, e)))
    | inr q ↦
        let left : next - (i + 1) ≡ n = omega (arith, e) in
        rw q (ap (λ m. (h i).nodes ++ pairs_from m h (i + 1)) left)
  ]

  -- A walk from a place of the cursor, in as many steps as pairs are left.
  walk_rest :
      (n : ℕ) (t : Table K V) (node : List (K × V)) (b : ℕ)
      → IsCounted t.htable
      → IsAt t.next_size node b
      → length (rest_of t.next_size t.htable (record { node = node; bnum = b })) ≤ n
      → walk n t (record { node = node; bnum = b })
        ≡ rest_of t.next_size t.htable (record { node = node; bnum = b })
  unfolding walk rest_of pairs_from IsAt next_node
  walk_rest zero t node b c p l =
      sym (
        empty_nodes (node ++ pairs_from (t.next_size - (b + 1)) t.htable (b + 1))
          (omega (arith, l)))
  walk_rest (suc n) t [] b c p l =
      let none_left : t.next_size - (b + 1) ≡ 0 = omega (arith, p) in
      sym (ap (λ m. pairs_from m t.htable (b + 1)) none_left)
  walk_rest (suc n) t (e ∷ f ∷ fs) b c p l =
      ap (λ x. e ∷ x) (walk_rest n t (f ∷ fs) b c p (omega (arith, l)))
  walk_rest (suc n) t (e ∷ []) b c p l =
      let m = t.next_size - (b + 1) in
      let all : b + 1 + m ≡ t.next_size = omega (arith, p) in
      let next = next_bucket m t.htable (b + 1) in
      let same = rest-next_bucket t.next_size m t.htable (b + 1) c all in
      ap (λ x. e ∷ x)
        (walk_rest n t next.node next.bnum c (next_bucket-IsAt t.next_size m t.htable (b + 1) c all)
            (rw same (omega (arith, l)))
          ∙ same)

  -- The pairs of a table, bucket by bucket.
  unfoldable pub pairs : Table K V → List (K × V)
  unfolding pairs_from
  pairs t = pairs_from t.next_size t.htable 0

  walk_counted :
      (n : ℕ) (t : Table K V)
      → IsCounted t.htable
      → length (pairs t) ≤ n
      → walk n t (frst_node t) ≡ pairs t
  unfolding frst_node pairs
  walk_counted n t c l =
      let first = next_bucket t.next_size t.htable 0 in
      let same = rest-next_bucket t.next_size t.next_size t.htable 0 c (omega arith) in
      walk_rest n t first.node first.bnum c
        (next_bucket-IsAt t.next_size t.next_size t.htable 0 c (omega arith)) (rw same l)
      ∙ same

-- After any sequence of insert, replace, remove and clear on a new table of any size and capacity: a
-- cursor from the first node on comes to every pair of every bucket once, in the order of the
-- buckets and of their lists, and then has ended, however many steps more than pairs it may take.
pub walk-frst_node :
    {K V : Type 0} (key : Key K) (size capa : ℕ) (os : List (Op K V)) (n : ℕ)
    → length (pairs (apply_all key os (new_table size capa))) ≤ n
    → walk n
        (apply_all key os (new_table size capa))
        (frst_node (apply_all key os (new_table size capa)))
      ≡ pairs (apply_all key os (new_table size capa))
walk-frst_node key size capa os n l =
    walk_counted n (apply_all key os (new_table size capa)) (apply_all-IsCounted key size capa os) l
