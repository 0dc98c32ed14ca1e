-- ===== src/Hash/Updates.antt =====
-- Proofs about insert, replace, remove and clear (include/RDIHash.h) as operations on a map.
use omni_notify_omni_orb.Common.{
  ℕ, zero, suc, ◌+◌, ◌-◌, ◌≡◌, inl, inr, refl, sym, ◌∙◌, leb, ◌==◌, Bool-cases, if◌then◌else◌, true,
  false, Option, none, some, List, [], ◌∷◌, ap, subst, ==_iff,
}
use omni_notify_omni_orb.Hash.{
  Key, IsKey, Bucket, Table, home, pseudo_hash, put_bucket, add_node, split, add_pair, insert_loop,
  insert, replace_in, remove_from, replace, remove,
}
use omni_notify_omni_orb.Hash.Nodes.{to_list, vals, eq_self, ne_false}
use omni_notify_omni_orb.Hash.Refine.{IsTableOf, lookup-IsTableOf}
use omni_notify_omni_orb.Hash.Splits.{split-IsTableOf}

-- A map in which one key has another value, or none.
abbrev pub changed : {K V : Type 0} → Key K → (K → Option V) → K → Option V → K → Option V
changed key m k o l = if key.same k l then o else m l

module _ {K V : Type 0} (key : Key K) (law : IsKey key) (m : K → Option V) (t : Table K V)
    (k : K) where
  -- Another bucket in the place of a key's.
  put-IsTableOf :
      (x : Bucket K V) (o : Option V) (pairs : ℕ)
      → IsTableOf key t m
      → vals key k x.nodes ≡ to_list o
      → ((l : K)
          → key.same k l ≡ false
          → vals key l x.nodes ≡ vals key l (t.htable (pseudo_hash key t k)).nodes)
      → IsTableOf key
          (record t { htable = put_bucket t.htable (pseudo_hash key t k) x; num_pairs = pairs })
          (changed key m k o)
  unfolding pseudo_hash
  put-IsTableOf x o pairs h new others = record {
    sized = h.sized;
    at_home = λ l. elim (Bool-cases (key.same k l)) [
      | inl p ↦ rw p (
          subst (λ l. vals key l (put_bucket t.htable (at k) x (at l)).nodes ≡ to_list o)
            (law.same_only k l p) (rw (eq_self (at k)) new))
      | inr p ↦ rw p (other_bucket l (at l) p ∙ h.at_home l)
    ];
    elsewhere = λ l i n. elim (Bool-cases (key.same k l)) [
      | inl p ↦
          let e = law.same_only k l p in
          rw (ne_false i (at k) (λ r. n (r ∙ ap at e))) (h.elsewhere l i n)
      | inr p ↦ other_bucket l i p ∙ h.elsewhere l i n
    ];
  }
    where
      at : K → ℕ
      at l = home t.curr_size t.next_size t.split_idx (key.hash_func l)

      other_bucket :
          (l : K) (i : ℕ)
          → key.same k l ≡ false
          → vals key l (put_bucket t.htable (at k) x i).nodes ≡ vals key l (t.htable i).nodes
      other_bucket l i p = elim (Bool-cases (i == at k)) [
        | inl q ↦
            rw q
              (others l p ∙ ap (λ j. vals key l (t.htable j).nodes) (sym ((==_iff i (at k)).0 q)))
        | inr q ↦ rw q refl
      ]

not_same :
    {K : Type 0} (key : Key K) (law : IsKey key) (k l r : K)
    → key.same k l ≡ false
    → key.same l r ≡ true
    → key.same k r ≡ false
not_same key law k l r p q = elim (Bool-cases (key.same k r)) [
  | inl e ↦
      let other = law.same_only k r e ∙ sym (law.same_only l r q) in
      cc (subst (λ x. key.same k x ≡ true) other (law.same_self k), p)
  | inr e ↦ e
]

module _ {K V : Type 0} (key : Key K) (law : IsKey key) (k : K) where
  vals-replace_in :
      (v w : V) (es : List (K × V))
      → vals key k es ≡ v ∷ []
      → vals key k (replace_in key k w es) ≡ w ∷ []
  unfolding vals replace_in
  vals-replace_in v w [] h = cc h
  vals-replace_in v w (e ∷ es) h = elim (Bool-cases (key.same k e.0)) [
    | inl p ↦ let rest : vals key k es ≡ [] = cc (rw p at h) in rw (p, p, rest) refl
    | inr p ↦ rw (p, p) (vals-replace_in v w es (rw p at h))
  ]

  vals-replace_none :
      (w : V) (es : List (K × V)) → vals key k es ≡ [] → vals key k (replace_in key k w es) ≡ []
  unfolding vals replace_in
  vals-replace_none w [] h = refl
  vals-replace_none w (e ∷ es) h = elim (Bool-cases (key.same k e.0)) [
    | inl p ↦ cc (rw p at h)
    | inr p ↦ rw (p, p) (vals-replace_none w es (rw p at h))
  ]

  vals-replace_other :
      (l : K) (w : V) (es : List (K × V))
      → key.same k l ≡ false
      → vals key l (replace_in key k w es) ≡ vals key l es
  unfolding vals replace_in
  vals-replace_other l w [] n = refl
  vals-replace_other l w (e ∷ es) n = elim (Bool-cases (key.same k e.0)) [
    | inl p ↦ elim (Bool-cases (key.same l e.0)) [
      | inl q ↦ absurd (cc (p, not_same key law k l e.0 n q))
      | inr q ↦ rw (p, q) refl
    ]
    | inr p ↦ elim (Bool-cases (key.same l e.0)) [
      | inl q ↦ rw (p, q) (ap (λ x. e.1 ∷ x) (vals-replace_other l w es n))
      | inr q ↦ rw (p, q) (vals-replace_other l w es n)
    ]
  ]

  vals-remove_from :
      (v : V) (es : List (K × V)) → vals key k es ≡ v ∷ [] → vals key k (remove_from key k es) ≡ []
  unfolding vals remove_from
  vals-remove_from v [] h = refl
  vals-remove_from v (e ∷ es) h = elim (Bool-cases (key.same k e.0)) [
    | inl p ↦ rw p (cc (rw p at h))
    | inr p ↦ rw (p, p) (vals-remove_from v es (rw p at h))
  ]

  vals-remove_other :
      (l : K) (es : List (K × V))
      → key.same k l ≡ false
      → vals key l (remove_from key k es) ≡ vals key l es
  unfolding vals remove_from
  vals-remove_other l [] n = refl
  vals-remove_other l (e ∷ es) n = elim (Bool-cases (key.same k e.0)) [
    | inl p ↦ elim (Bool-cases (key.same l e.0)) [
      | inl q ↦ absurd (cc (p, not_same key law k l e.0 n q))
      | inr q ↦ rw (p, q) refl
    ]
    | inr p ↦ elim (Bool-cases (key.same l e.0)) [
      | inl q ↦ rw (p, q) (ap (λ x. e.1 ∷ x) (vals-remove_other l es n))
      | inr q ↦ rw (p, q) (vals-remove_other l es n)
    ]
  ]

module _ {K V : Type 0} (key : Key K) (law : IsKey key) (m : K → Option V) where
  add_pair-IsTableOf :
      (t : Table K V) (k : K) (v : V)
      → IsTableOf key t m
      → m k ≡ none
      → IsTableOf key (add_pair key t k v) (changed key m k (some v))
  unfolding add_pair vals
  add_pair-IsTableOf t k v h n =
      let b = t.htable (pseudo_hash key t k) in
      put-IsTableOf key law m t k (add_node (k, v) b) (some v) (t.num_pairs + 1) h
        (rw (law.same_self k) (ap (λ x. v ∷ x) (h.at_home k ∙ ap to_list n)))
        (λ l p. rw (not_back l p) refl)
    where
      not_back : (l : K) → key.same k l ≡ false → key.same l k ≡ false
      not_back l p = elim (Bool-cases (key.same l k)) [
        | inl e ↦
            cc (subst (λ x. key.same k x ≡ true) (sym (law.same_only l k e)) (law.same_self k), p)
        | inr e ↦ e
      ]

  insert_loop-IsTableOf :
      (n : ℕ) (t : Table K V) (k : K) (v : V)
      → IsTableOf key t m
      → m k ≡ none
      → IsTableOf key (insert_loop key n t k v) (changed key m k (some v))
  unfolding insert_loop
  insert_loop-IsTableOf zero t k v h e = add_pair-IsTableOf t k v h e
  insert_loop-IsTableOf (suc n) t k v h e =
      elim (Bool-cases (leb t.bcapacity (t.htable (pseudo_hash key t k)).count)) [
        | inl p ↦ rw p (insert_loop-IsTableOf n (split key t) k v (split-IsTableOf key law m t h) e)
        | inr p ↦ rw p (add_pair-IsTableOf t k v h e)
      ]

  pub insert-IsTableOf :
      (t : Table K V) (k : K) (v : V)
      → IsTableOf key t m
      → m k ≡ none
      → ((insert key t k v).0 ≡ true)
        × IsTableOf key (insert key t k v).1 (changed key m k (some v))
  unfolding insert
  insert-IsTableOf t k v h e =
      rw (lookup-IsTableOf key law m t k h ∙ e, insert) (refl, insert_loop-IsTableOf 5 t k v h e)

  pub insert_again :
      (t : Table K V) (k : K) (v x : V)
      → IsTableOf key t m
      → m k ≡ some x
      → insert key t k v ≡ (false, t)
  unfolding insert
  insert_again t k v x h e = rw (lookup-IsTableOf key law m t k h ∙ e, insert) refl

  pub replace-IsTableOf :
      (t : Table K V) (k : K) (v x : V)
      → IsTableOf key t m
      → m k ≡ some x
      → IsTableOf key (replace key t k v) (changed key m k (some v))
  unfolding replace
  replace-IsTableOf t k v x h e =
      let b = t.htable (pseudo_hash key t k) in
      put-IsTableOf key law m t k (record b { nodes = replace_in key k v b.nodes }) (some v)
        t.num_pairs h (vals-replace_in key law k x v b.nodes (h.at_home k ∙ ap to_list e))
        (λ l p. vals-replace_other key law k l v b.nodes p)

  pub remove-IsTableOf :
      (t : Table K V) (k : K) (x : V)
      → IsTableOf key t m
      → m k ≡ some x
      → IsTableOf key (remove key t k) (changed key m k none)
  unfolding remove
  remove-IsTableOf t k x h e =
      let b = t.htable (pseudo_hash key t k) in
      rw (lookup-IsTableOf key law m t k h ∙ e, remove)
        (put-IsTableOf key law m t k
          (record { count = b.count - 1; nodes = remove_from key k b.nodes }) none (t.num_pairs - 1)
          h (vals-remove_from key law k x b.nodes (h.at_home k ∙ ap to_list e))
          (λ l p. vals-remove_other key law k l b.nodes p))

  pub replace_absent :
      (t : Table K V) (k : K) (v : V)
      → IsTableOf key t m
      → m k ≡ none
      → IsTableOf key (replace key t k v) (changed key m k none)
  unfolding replace
  replace_absent t k v h e =
      let b = t.htable (pseudo_hash key t k) in
      put-IsTableOf key law m t k (record b { nodes = replace_in key k v b.nodes }) none t.num_pairs
        h (vals-replace_none key law k v b.nodes (h.at_home k ∙ ap to_list e))
        (λ l p. vals-replace_other key law k l v b.nodes p)

  pub remove_absent : (t : Table K V) (k : K) → IsTableOf key t m → m k ≡ none → remove key t k ≡ t
  unfolding remove
  remove_absent t k h e = rw (lookup-IsTableOf key law m t k h ∙ e, remove) refl
