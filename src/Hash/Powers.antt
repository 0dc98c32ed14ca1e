-- ===== src/Hash/Powers.antt =====
-- Proofs about the sizes of a hash table, which are powers of 2 (include/RDIHash.h).
use native.Mathlib.Nat.{pow-suc}
use omni_notify_omni_orb.Common.{
  ℕ, zero, suc, ◌-◌, ◌*◌, ◌^◌, ◌<◌, ◌≡◌, inl, inr, refl, sym, ◌∙◌, ap, leb, ◌==◌, arith, Bool-cases,
  Option-cases, Option, none, List, [], ◌∷◌,
}
use omni_notify_omni_orb.Hash.{
  Key, IsKey, Table, pseudo_hash, lookup, insert, replace, remove, clear, new_table, split,
  split_bucket, doubled, add_pair, insert_loop,
}
use omni_notify_omni_orb.Hash.Masks.{masked, home-masked, round_up-Rounded}
use omni_notify_omni_orb.Hash.Home.{home-lt}
use omni_notify_omni_orb.Hash.Refine.{IsTableOf}
use omni_notify_omni_orb.Hash.Runs.{
  Op, put, set, del, wipe, apply, apply_all, meant_all, new_table-IsTableOf, apply_all-IsTableOf,
}

-- The sizes of a table are powers of 2.
pub record HasPowers {K V : Type 0} (t : Table K V) : Type 0 where
  pub curr_exp : ℕ
  pub next_exp : ℕ
  pub curr_is : t.curr_size ≡ 2 ^ curr_exp
  pub next_is : t.next_size ≡ 2 ^ next_exp

module _ {K V : Type 0} (key : Key K) where
  split_bucket-HasPowers : (t : Table K V) → HasPowers t → HasPowers (split_bucket key t)
  unfolding split_bucket
  split_bucket-HasPowers t h = record {
    curr_exp = h.curr_exp;
    next_exp = h.next_exp;
    curr_is = h.curr_is;
    next_is = h.next_is;
  }

  doubled-HasPowers : (t : Table K V) → HasPowers t → HasPowers (doubled key t)
  unfolding doubled
  doubled-HasPowers t h = record {
    curr_exp = h.curr_exp;
    next_exp = suc h.curr_exp;
    curr_is = h.curr_is;
    next_is = ap (λ x. x * 2) h.curr_is ∙ sym (pow-suc 2 h.curr_exp);
  }

  split-HasPowers : (t : Table K V) → HasPowers t → HasPowers (split key t)
  unfolding split
  split-HasPowers t h = elim (Bool-cases (t.split_idx == t.curr_size)) [
    | inl p ↦ rw p (record {
      curr_exp = h.next_exp;
      next_exp = h.next_exp;
      curr_is = h.next_is;
      next_is = h.next_is;
    })
    | inr p ↦ elim (Bool-cases (t.curr_size == t.next_size)) [
      | inl q ↦ rw (p, q) (split_bucket-HasPowers (doubled key t) (doubled-HasPowers t h))
      | inr q ↦ rw (p, q) (split_bucket-HasPowers t h)
    ]
  ]

  add_pair-HasPowers :
      (t : Table K V) (k : K) (v : V) → HasPowers t → HasPowers (add_pair key t k v)
  unfolding add_pair
  add_pair-HasPowers t k v h = record {
    curr_exp = h.curr_exp;
    next_exp = h.next_exp;
    curr_is = h.curr_is;
    next_is = h.next_is;
  }

  insert_loop-HasPowers :
      (n : ℕ) (t : Table K V) (k : K) (v : V) → HasPowers t → HasPowers (insert_loop key n t k v)
  unfolding insert_loop
  insert_loop-HasPowers zero t k v h = add_pair-HasPowers t k v h
  insert_loop-HasPowers (suc n) t k v h =
      elim (Bool-cases (leb t.bcapacity (t.htable (pseudo_hash key t k)).count)) [
        | inl p ↦ rw p (insert_loop-HasPowers n (split key t) k v (split-HasPowers t h))
        | inr p ↦ rw p (add_pair-HasPowers t k v h)
      ]

  insert-HasPowers : (t : Table K V) (k : K) (v : V) → HasPowers t → HasPowers (insert key t k v).1
  unfolding insert
  insert-HasPowers t k v h = elim (Option-cases (lookup key t k)) [
    | inl e ↦ rw (e, insert) (insert_loop-HasPowers 5 t k v h)
    | inr (x, e) ↦ rw (e, insert) h
  ]

  remove-HasPowers : (t : Table K V) (k : K) → HasPowers t → HasPowers (remove key t k)
  unfolding remove
  remove-HasPowers t k h = elim (Option-cases (lookup key t k)) [
    | inl e ↦ rw (e, remove) h
    | inr (x, e) ↦
        rw (e, remove)
          (record {
            curr_exp = h.curr_exp;
            next_exp = h.next_exp;
            curr_is = h.curr_is;
            next_is = h.next_is;
          })
  ]

  apply-HasPowers : (o : Op K V) (t : Table K V) → HasPowers t → HasPowers (apply key o t)
  unfolding apply replace clear
  apply-HasPowers (put k v) t h = insert-HasPowers t k v h
  apply-HasPowers (set k v) t h = record {
    curr_exp = h.curr_exp;
    next_exp = h.next_exp;
    curr_is = h.curr_is;
    next_is = h.next_is;
  }
  apply-HasPowers (del k) t h = remove-HasPowers t k h
  apply-HasPowers wipe t h = record {
    curr_exp = h.next_exp;
    next_exp = h.next_exp;
    curr_is = h.next_is;
    next_is = h.next_is;
  }

  apply_all-HasPowers :
      (os : List (Op K V)) (t : Table K V) → HasPowers t → HasPowers (apply_all key os t)
  unfolding apply_all
  apply_all-HasPowers [] t h = h
  apply_all-HasPowers (o ∷ os) t h = apply_all-HasPowers os (apply key o t) (apply-HasPowers o t h)

  masked_hash :
      (t : Table K V) (k : K)
      → HasPowers t
      → pseudo_hash key t k
        ≡ masked (t.curr_size - 1) (t.next_size - 1) t.split_idx (key.hash_func k)
  unfolding pseudo_hash
  masked_hash t k h =
      rw (h.curr_is, h.next_is) (home-masked h.curr_exp h.next_exp t.split_idx (key.hash_func k))

  pub inside :
      (t : Table K V) (m : K → Option V) (k : K)
      → IsTableOf key t m
      → pseudo_hash key t k < t.next_size
  unfolding pseudo_hash
  inside t m k h = home-lt t.curr_size t.next_size t.split_idx (key.hash_func k) h.sized

new_table-HasPowers :
    (K V : Type 0) (size capa : ℕ) → HasPowers (new_table {K = K} {V = V} size capa)
unfolding new_table
new_table-HasPowers K V size capa =
    let r = round_up-Rounded size size 1 0 refl (omega arith) (omega arith) (inr refl) in
    record {
      curr_exp = r.exponent;
      next_exp = r.exponent;
      curr_is = r.is_power;
      next_is = r.is_power;
    }

-- After any sequence of insert, replace, remove and clear on a new table, where only equal keys have
-- the rank 0: both sizes are powers of 2; the bucket of a key is what pseudo_hash computes, with the
-- binary `and`, from masks that are one less than the sizes; and it is inside the array.
pub pseudo_hash-masked :
    {K V : Type 0} (key : Key K) (law : IsKey key) (size capa : ℕ) (os : List (Op K V)) (k : K)
    → HasPowers (apply_all key os (new_table size capa))
      × (pseudo_hash key (apply_all key os (new_table size capa)) k
          ≡ masked
              ((apply_all key os (new_table size capa)).curr_size - 1)
              ((apply_all key os (new_table size capa)).next_size - 1)
              (apply_all key os (new_table size capa)).split_idx
              (key.hash_func k))
      × (pseudo_hash key (apply_all key os (new_table size capa)) k
          < (apply_all key os (new_table size capa)).next_size)
pseudo_hash-masked {K = K} {V = V} key law size capa os k =
    let t : Table K V = apply_all key os (new_table size capa) in
    let powers =
      apply_all-HasPowers key os (new_table size capa) (new_table-HasPowers K V size capa) in
    (
      powers,
      masked_hash key t k powers,
      inside key t (meant_all key os (λ l. none)) k (
          apply_all-IsTableOf key law os (λ l. none) (new_table size capa)
            (new_table-IsTableOf key law size capa)),
    )
