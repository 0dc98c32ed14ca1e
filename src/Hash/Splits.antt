-- ===== src/Hash/Splits.antt =====
-- Proofs about split and the loop of insert (include/RDIHash.h) as operations on a map.
use native.Mathlib.Decide.{ℕ_discrete}
use omni_notify_omni_orb.Common.{
  ◌-◌, ◌*◌, ◌<◌, ◌≤◌, ◌≡◌, ◌⊎◌, inl, inr, refl, sym, ◌∙◌, ltb, ◌==◌, arith, Bool-cases, false,
  Option, subst, ==_iff, lt→ltb,
}
use omni_notify_omni_orb.Hash.{
  Key, IsKey, Table, home, pseudo_hash, doubled, split_bucket, split, gone,
}
use omni_notify_omni_orb.Hash.Home.{next-pos, home-lt, home_round, home_doubled}
use omni_notify_omni_orb.Hash.Nodes.{vals}
use omni_notify_omni_orb.Hash.Refine.{IsTableOf, split_home, split_elsewhere}

module _ {K V : Type 0} (key : Key K) (law : IsKey key) (m : K → Option V) where
  split_bucket-IsTableOf :
      (t : Table K V)
      → t.next_size ≡ t.curr_size * 2
      → t.split_idx < t.curr_size
      → IsTableOf key t m
      → IsTableOf key (split_bucket key t) m
  unfolding split_bucket pseudo_hash
  split_bucket-IsTableOf t e below h = record {
    sized = record {
      some_bucket = h.sized.some_bucket;
      split_few = omega (arith, below);
      twice = inr e;
    };
    at_home = λ k. rw e (
        split_home key law m t.curr_size t.split_idx t.htable
          ((t.htable t.split_idx).count
            - gone key (t.curr_size * 2) t.split_idx (t.htable t.split_idx).nodes)
          below (λ l. rw e at (h.at_home l)) (λ l. rw e at (h.elsewhere l)) k);
    elsewhere = λ k. rw e (
        split_elsewhere key law m t.curr_size t.split_idx t.htable
          ((t.htable t.split_idx).count
            - gone key (t.curr_size * 2) t.split_idx (t.htable t.split_idx).nodes)
          below (λ l. rw e at (h.at_home l)) (λ l. rw e at (h.elsewhere l)) k);
  }

  doubled-IsTableOf :
      (t : Table K V)
      → t.curr_size ≡ t.next_size
      → t.split_idx ≡ 0
      → IsTableOf key t m
      → IsTableOf key (doubled key t) m
  unfolding doubled pseudo_hash vals
  doubled-IsTableOf t e z h = record {
    sized = record {
      some_bucket = h.sized.some_bucket;
      split_few = h.sized.split_few;
      twice = inr refl;
    };
    at_home = λ k.
        rw
          (
            same_home k,
            lt→ltb (home t.curr_size t.next_size t.split_idx (key.hash_func k)) t.curr_size
                (inside k),
          )
          (h.at_home k);
    elsewhere = λ k i n. elim (Bool-cases (ltb i t.curr_size)) [
      | inl p ↦ rw p (h.elsewhere k i (λ r. n (r ∙ sym (same_home k))))
      | inr p ↦ rw p refl
    ];
  }
    where
      same_home :
          (k : K)
          → home t.curr_size (t.curr_size * 2) t.split_idx (key.hash_func k)
            ≡ home t.curr_size t.next_size t.split_idx (key.hash_func k)
      same_home k = rw (z, sym e) (home_doubled t.curr_size (key.hash_func k))

      inside : (k : K) → home t.curr_size t.next_size t.split_idx (key.hash_func k) < t.curr_size
      inside k =
          subst (λ x. home t.curr_size t.next_size t.split_idx (key.hash_func k) < x) (sym e)
            (home-lt t.curr_size t.next_size t.split_idx (key.hash_func k) h.sized)

  round-IsTableOf :
      (t : Table K V)
      → t.split_idx ≡ t.curr_size
      → IsTableOf key t m
      → IsTableOf key (record t { curr_size = t.next_size; split_idx = 0 }) m
  unfolding pseudo_hash
  round-IsTableOf t e h = record {
    sized = record {
      some_bucket = next-pos t.curr_size t.next_size t.split_idx h.sized;
      split_few = omega arith;
      twice = inl (refl, refl);
    };
    at_home = λ k. rw (same_home k) (h.at_home k);
    elsewhere = λ k i n. h.elsewhere k i (λ r. n (r ∙ sym (same_home k)));
  }
    where
      same_home :
          (k : K)
          → home t.next_size t.next_size 0 (key.hash_func k)
            ≡ home t.curr_size t.next_size t.split_idx (key.hash_func k)
      same_home k = rw e (home_round t.curr_size t.next_size (key.hash_func k) h.sized.some_bucket)

  -- A split changes where keys are and not what they stand for.
  pub split-IsTableOf : (t : Table K V) → IsTableOf key t m → IsTableOf key (split key t) m
  unfolding split doubled
  split-IsTableOf t h = elim (Bool-cases (t.split_idx == t.curr_size)) [
    | inl p ↦ rw p (round-IsTableOf t ((==_iff t.split_idx t.curr_size).0 p) h)
    | inr p ↦
        let few = h.sized.split_few in
        let below : t.split_idx < t.curr_size = lt_of few p in
        elim (Bool-cases (t.curr_size == t.next_size)) [
          | inl q ↦
              let e = (==_iff t.curr_size t.next_size).0 q in
              rw (p, q)
                (split_bucket-IsTableOf (doubled key t) refl below
                  (doubled-IsTableOf t e (start e h.sized.twice) h))
          | inr q ↦ rw (p, q) (split_bucket-IsTableOf t (twice_of q h.sized.twice) below h)
        ]
  ]
    where
      lt_of :
          t.split_idx ≤ t.curr_size
          → (t.split_idx == t.curr_size) ≡ false
          → t.split_idx < t.curr_size
      lt_of few p = elim (ℕ_discrete t.split_idx t.curr_size) [
        | yes e ↦ cc ((==_iff t.split_idx t.curr_size).1 e, p)
        | no n ↦ omega (arith, n)
      ]

      start :
          t.curr_size ≡ t.next_size
          → ((t.next_size ≡ t.curr_size) × (t.split_idx ≡ 0)) ⊎ (t.next_size ≡ t.curr_size * 2)
          → t.split_idx ≡ 0
      start e (inl (n, z)) = z
      start e (inr n) = let some = h.sized.some_bucket in omega arith

      twice_of :
          (t.curr_size == t.next_size) ≡ false
          → ((t.next_size ≡ t.curr_size) × (t.split_idx ≡ 0)) ⊎ (t.next_size ≡ t.curr_size * 2)
          → t.next_size ≡ t.curr_size * 2
      twice_of q (inl (n, z)) = cc ((==_iff t.curr_size t.next_size).1 (sym n), q)
      twice_of q (inr n) = n
