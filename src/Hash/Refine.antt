-- ===== src/Hash/Refine.antt =====
-- Proofs about a table as a map (include/RDIHash.h): what a table stands for, and the splits.
use native.Mathlib.Decide.{ℕ_discrete}
use omni_notify_omni_orb.Common.{
  ℕ, ◌+◌, ◌*◌, ◌%◌, ◌<◌, ◌≡◌, ◌≢◌, refl, sym, ◌∙◌, Option, none, some, [], ◌∷◌, ap, subst,
}
use omni_notify_omni_orb.Hash.{
  Key, IsKey, Bucket, Table, home, pseudo_hash, lookup, stay, distribute, put_bucket,
}
use omni_notify_omni_orb.Hash.Home.{IsSized, home_moved, home_kept}
use omni_notify_omni_orb.Hash.Nodes.{
  to_list, eq_self, ne_false, vals, find-vals, vals-stay, vals-stay_none, vals-distribute_none,
  vals-distribute_off, vals-distribute_one,
}

-- The bucket of a key has the one node that the map gives, and no other bucket has one.
pub record IsTableOf {K V : Type 0} (key : Key K) (t : Table K V) (m : K → Option V) : Type 0 where
  pub sized : IsSized t.curr_size t.next_size t.split_idx
  pub at_home : (k : K) → vals key k (t.htable (pseudo_hash key t k)).nodes ≡ to_list (m k)
  pub elsewhere : (k : K) (i : ℕ) → i ≢ pseudo_hash key t k → vals key k (t.htable i).nodes ≡ []

module _ {K V : Type 0} (key : Key K) (law : IsKey key) (m : K → Option V) where
  pub lookup-IsTableOf : (t : Table K V) (k : K) → IsTableOf key t m → lookup key t k ≡ m k
  unfolding lookup
  lookup-IsTableOf t k h =
      find-vals key k (m k) (t.htable (pseudo_hash key t k)).nodes (h.at_home k)

  -- The array with the split bucket: where the nodes of a key are.
  module _ (curr s : ℕ) (h : ℕ → Bucket K V) (c : ℕ) (below : s < curr)
      (at_home : (k : K)
        → vals key k (h (home curr (curr * 2) s (key.hash_func k))).nodes ≡ to_list (m k))
      (elsewhere : (k : K) (i : ℕ)
        → i ≢ home curr (curr * 2) s (key.hash_func k)
        → vals key k (h i).nodes ≡ [])
      (k : K) where
    abbrev pub after : ℕ → Bucket K V
    after =
        put_bucket (distribute key (curr * 2) s (h s).nodes h) s
          (record { count = c; nodes = stay key (curr * 2) s (h s).nodes })

    after_at : vals key k (after s).nodes ≡ vals key k (stay key (curr * 2) s (h s).nodes)
    after_at = rw (eq_self s) refl

    after_off :
        (i : ℕ)
        → i ≢ s
        → vals key k (after i).nodes
          ≡ vals key k (distribute key (curr * 2) s (h s).nodes h i).nodes
    after_off i n = rw (ne_false i s n) refl

    abbrev goes : ℕ
    goes = key.hash_func k % (curr * 2)

    -- A key of the bucket that is split.
    moved_home :
        home curr (curr * 2) s (key.hash_func k) ≡ s → vals key k (after goes).nodes ≡ to_list (m k)
    moved_home e = elim (ℕ_discrete goes s) [
      | yes q ↦
          subst (λ i. vals key k (after i).nodes ≡ to_list (m k)) (sym q)
            (after_at ∙ vals-stay key law (curr * 2) s k (h s).nodes q ∙ values)
      | no q ↦ after_off goes q ∙ come q (m k) values
    ]
      where
        values : vals key k (h s).nodes ≡ to_list (m k)
        values = subst (λ i. vals key k (h i).nodes ≡ to_list (m k)) e (at_home k)

        empty : goes ≢ s → vals key k (h goes).nodes ≡ []
        empty q = elsewhere k goes (λ r. q (r ∙ e))

        come :
            goes ≢ s
            → (o : Option V) → vals key k (h s).nodes ≡ to_list o
            → vals key k (distribute key (curr * 2) s (h s).nodes h goes).nodes ≡ to_list o
        come q none v = vals-distribute_none key law (curr * 2) s k (h s).nodes h goes v ∙ empty q
        come q (some x) v =
            vals-distribute_one key law (curr * 2) s k x (h s).nodes h q v
            ∙ ap (λ y. x ∷ y) (empty q)

    moved_elsewhere :
        home curr (curr * 2) s (key.hash_func k) ≡ s
        → (i : ℕ) → i ≢ goes
        → vals key k (after i).nodes ≡ []
    moved_elsewhere e i n = elim (ℕ_discrete i s) [
      | yes q ↦
          subst (λ j. vals key k (after j).nodes ≡ []) (sym q)
            (after_at ∙ vals-stay_none key law (curr * 2) s k (h s).nodes (λ r. n (q ∙ sym r)))
      | no q ↦
          after_off i q
          ∙ vals-distribute_off key law (curr * 2) s k (h s).nodes h i (λ r. absurd (n r))
          ∙ elsewhere k i (λ r. q (r ∙ e))
    ]

    -- A key of another bucket.
    kept :
        (i : ℕ)
        → home curr (curr * 2) s (key.hash_func k) ≢ s
        → vals key k (after i).nodes ≡ vals key k (h i).nodes
    kept i n = elim (ℕ_discrete i s) [
      | yes q ↦
          subst (λ j. vals key k (after j).nodes ≡ vals key k (h j).nodes) (sym q)
            (after_at ∙ nothing ∙ sym none_here)
      | no q ↦ after_off i q ∙ vals-distribute_none key law (curr * 2) s k (h s).nodes h i none_here
    ]
      where
        none_here : vals key k (h s).nodes ≡ []
        none_here = elsewhere k s (λ r. n (sym r))

        nothing : vals key k (stay key (curr * 2) s (h s).nodes) ≡ []
        nothing = elim (ℕ_discrete goes s) [
          | yes q ↦ vals-stay key law (curr * 2) s k (h s).nodes q ∙ none_here
          | no q ↦ vals-stay_none key law (curr * 2) s k (h s).nodes q
        ]

    pub split_home :
        vals key k (after (home curr (curr * 2) (s + 1) (key.hash_func k))).nodes ≡ to_list (m k)
    split_home = elim (ℕ_discrete (home curr (curr * 2) s (key.hash_func k)) s) [
      | yes e ↦
          subst (λ i. vals key k (after i).nodes ≡ to_list (m k))
            (sym (home_moved curr s (key.hash_func k) below e)) (moved_home e)
      | no n ↦
          subst (λ i. vals key k (after i).nodes ≡ to_list (m k))
            (sym (home_kept curr s (key.hash_func k) n))
            (kept (home curr (curr * 2) s (key.hash_func k)) n ∙ at_home k)
    ]

    pub split_elsewhere :
        (i : ℕ)
        → i ≢ home curr (curr * 2) (s + 1) (key.hash_func k)
        → vals key k (after i).nodes ≡ []
    split_elsewhere i d = elim (ℕ_discrete (home curr (curr * 2) s (key.hash_func k)) s) [
      | yes e ↦ moved_elsewhere e i (λ r. d (r ∙ sym (home_moved curr s (key.hash_func k) below e)))
      | no n ↦ kept i n ∙ elsewhere k i (λ r. d (r ∙ sym (home_kept curr s (key.hash_func k) n)))
    ]
