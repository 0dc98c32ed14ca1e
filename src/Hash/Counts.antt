-- ===== src/Hash/Counts.antt =====
-- Proofs about the counts of the buckets (include/RDIHash.h, _count), on which insert decides to split.
use omni_notify_omni_orb.Common.{
  ℕ, zero, suc, ◌+◌, ◌-◌, ◌%◌, ◌≡◌, inl, inr, refl, sym, ◌∙◌, ltb, leb, ◌==◌, arith, Bool-cases,
  if◌then◌else◌, Bool, true, false, Option, none, some, List, [], ◌∷◌, length,
}
use omni_notify_omni_orb.Hash.{
  Key, Bucket, Table, pseudo_hash, find, lookup, stay, gone, distribute, put_bucket, add_node,
  doubled, split_bucket, split, add_pair, insert_loop, insert, replace_in, remove_from, replace,
  remove, clear, new_table,
}
use omni_notify_omni_orb.Hash.Runs.{Op, put, set, del, wipe, apply, apply_all}

-- The count of a bucket is the number of its nodes.
abbrev pub IsExact : {K V : Type 0} → Bucket K V → Type 0
IsExact b = b.count ≡ length b.nodes

-- Every bucket of the array is counted.
abbrev pub IsCounted : {K V : Type 0} → (ℕ → Bucket K V) → Type 0
IsCounted h = (i : ℕ) → IsExact (h i)

put_bucket-IsCounted :
    {K V : Type 0} (h : ℕ → Bucket K V) (i : ℕ) (x : Bucket K V)
    → IsCounted h
    → IsExact x
    → IsCounted (put_bucket h i x)
put_bucket-IsCounted h i x c e j = elim (Bool-cases (j == i)) [
  | inl q ↦ rw q e
  | inr q ↦ rw q (c j)
]

add_node-IsExact : {K V : Type 0} (e : K × V) (x : Bucket K V) → IsExact x → IsExact (add_node e x)
add_node-IsExact e x h = omega (arith, h)

new_table-IsCounted :
    (K V : Type 0) (size capa : ℕ) → IsCounted (new_table {K = K} {V = V} size capa).htable
unfolding new_table
new_table-IsCounted K V size capa i = refl

module _ {K V : Type 0} (key : Key K) where
  length-stay :
      (next s : ℕ) (es : List (K × V))
      → length (stay key next s es) + gone key next s es ≡ length es
  unfolding stay gone
  length-stay next s [] = refl
  length-stay next s (e ∷ es) = elim (Bool-cases (key.hash_func e.0 % next == s)) [
    | inl q ↦ rw q (omega (arith, length-stay next s es))
    | inr q ↦ rw q (omega (arith, length-stay next s es))
  ]

  distribute-IsCounted :
      (next s : ℕ) (es : List (K × V)) (h : ℕ → Bucket K V)
      → IsCounted h
      → IsCounted (distribute key next s es h)
  unfolding distribute
  distribute-IsCounted next s [] h c = c
  distribute-IsCounted next s (e ∷ es) h c =
      let i = key.hash_func e.0 % next in
      distribute-IsCounted next s es (if i == s then h else put_bucket h i (add_node e (h i)))
        (go i (i == s))
    where
      go : (i : ℕ) (b : Bool) → IsCounted (if b then h else put_bucket h i (add_node e (h i)))
      go i true = c
      go i false = put_bucket-IsCounted h i (add_node e (h i)) c (add_node-IsExact e (h i) (c i))

  split_bucket-IsCounted :
      (t : Table K V) → IsCounted t.htable → IsCounted (split_bucket key t).htable
  unfolding split_bucket
  split_bucket-IsCounted t c =
      let s = t.split_idx in
      let old = t.htable s in
      put_bucket-IsCounted (distribute key t.next_size s old.nodes t.htable) s
        (record {
          count = old.count - gone key t.next_size s old.nodes;
          nodes = stay key t.next_size s old.nodes;
        })
        (distribute-IsCounted t.next_size s old.nodes t.htable c)
        (omega (arith, c s, length-stay t.next_size s old.nodes))

  split-IsCounted : (t : Table K V) → IsCounted t.htable → IsCounted (split key t).htable
  unfolding split doubled
  split-IsCounted t c = elim (Bool-cases (t.split_idx == t.curr_size)) [
    | inl p ↦ rw p c
    | inr p ↦ elim (Bool-cases (t.curr_size == t.next_size)) [
      | inl q ↦ rw (p, q) (split_bucket-IsCounted (doubled key t) more)
      | inr q ↦ rw (p, q) (split_bucket-IsCounted t c)
    ]
  ]
    where
      more : IsCounted (doubled key t).htable
      more i = elim (Bool-cases (ltb i t.curr_size)) [ inl r ↦ rw r (c i) | inr r ↦ rw r refl ]

  insert_loop-IsCounted :
      (n : ℕ) (t : Table K V) (k : K) (v : V)
      → IsCounted t.htable
      → IsCounted (insert_loop key n t k v).htable
  unfolding insert_loop add_pair
  insert_loop-IsCounted n t k v c = go n t c
    where
      added : (t : Table K V) → IsCounted t.htable → IsCounted (add_pair key t k v).htable
      added t c =
          let i = pseudo_hash key t k in
          put_bucket-IsCounted t.htable i (add_node (k, v) (t.htable i)) c
            (add_node-IsExact (k, v) (t.htable i) (c i))

      go : (n : ℕ) (t : Table K V) → IsCounted t.htable → IsCounted (insert_loop key n t k v).htable
      go zero t c = added t c
      go (suc n) t c = elim (Bool-cases (leb t.bcapacity (t.htable (pseudo_hash key t k)).count)) [
        | inl p ↦ rw p (go n (split key t) (split-IsCounted t c))
        | inr p ↦ rw p (added t c)
      ]

  length-replace_in :
      (k : K) (v : V) (es : List (K × V)) → length (replace_in key k v es) ≡ length es
  unfolding replace_in
  length-replace_in k v [] = refl
  length-replace_in k v (e ∷ es) = elim (Bool-cases (key.same k e.0)) [
    | inl p ↦ rw p refl
    | inr p ↦ rw p (omega (arith, length-replace_in k v es))
  ]

  length-remove_from :
      (k : K) (x : V) (es : List (K × V))
      → find key k es ≡ some x
      → length (remove_from key k es) + 1 ≡ length es
  unfolding remove_from find
  length-remove_from k x [] h = cc h
  length-remove_from k x (e ∷ es) h = elim (Bool-cases (key.same k e.0)) [
    | inl p ↦ rw p (omega arith)
    | inr p ↦ rw p (omega (arith, length-remove_from k x es (rw p at h)))
  ]

  find-found :
      (t : Table K V) (k : K) (x : V)
      → lookup key t k ≡ some x
      → find key k (t.htable (pseudo_hash key t k)).nodes ≡ some x
  unfolding lookup
  find-found t k x e = e

  insert-IsCounted :
      (t : Table K V) (k : K) (v : V) → IsCounted t.htable → IsCounted (insert key t k v).1.htable
  unfolding insert
  insert-IsCounted t k v c = go (lookup key t k) refl
    where
      go : (o : Option V) → lookup key t k ≡ o → IsCounted (insert key t k v).1.htable
      go none e = rw (e, insert) (insert_loop-IsCounted 5 t k v c)
      go (some x) e = rw (e, insert) c

  replace-IsCounted :
      (t : Table K V) (k : K) (v : V) → IsCounted t.htable → IsCounted (replace key t k v).htable
  unfolding replace
  replace-IsCounted t k v c =
      let i = pseudo_hash key t k in
      let b = t.htable i in
      put_bucket-IsCounted t.htable i (record b { nodes = replace_in key k v b.nodes }) c
        (c i ∙ sym (length-replace_in k v b.nodes))

  remove-IsCounted :
      (t : Table K V) (k : K) → IsCounted t.htable → IsCounted (remove key t k).htable
  unfolding remove
  remove-IsCounted t k c = go (lookup key t k) refl
    where
      go : (o : Option V) → lookup key t k ≡ o → IsCounted (remove key t k).htable
      go none e = rw (e, remove) c
      go (some x) e =
          let i = pseudo_hash key t k in
          let b = t.htable i in
          rw (e, remove)
            (put_bucket-IsCounted t.htable i
              (record { count = b.count - 1; nodes = remove_from key k b.nodes }) c
              (omega (arith, c i, length-remove_from k x b.nodes (find-found t k x e))))

  clear-IsCounted : (t : Table K V) → IsCounted t.htable → IsCounted (clear t).htable
  unfolding clear
  clear-IsCounted t c i = elim (Bool-cases (ltb i t.next_size)) [
    | inl r ↦ rw r refl
    | inr r ↦ rw r (c i)
  ]

  apply-IsCounted :
      (o : Op K V) (t : Table K V) → IsCounted t.htable → IsCounted (apply key o t).htable
  unfolding apply
  apply-IsCounted (put k v) t c = insert-IsCounted t k v c
  apply-IsCounted (set k v) t c = replace-IsCounted t k v c
  apply-IsCounted (del k) t c = remove-IsCounted t k c
  apply-IsCounted wipe t c = clear-IsCounted t c

  runs-IsCounted :
      (os : List (Op K V)) (t : Table K V)
      → IsCounted t.htable
      → IsCounted (apply_all key os t).htable
  unfolding apply_all
  runs-IsCounted [] t c = c
  runs-IsCounted (o ∷ os) t c = runs-IsCounted os (apply key o t) (apply-IsCounted o t c)

  -- After any sequence of insert, replace, remove and clear on a new table of any size and capacity,
  -- the count of every bucket is the number of its nodes, whatever the hash and the rank function.
  pub apply_all-IsCounted :
      (size capa : ℕ) (os : List (Op K V))
      → IsCounted (apply_all key os (new_table size capa)).htable
  apply_all-IsCounted size capa os =
      runs-IsCounted os (new_table size capa) (new_table-IsCounted K V size capa)
