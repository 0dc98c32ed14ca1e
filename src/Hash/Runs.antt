-- ===== src/Hash/Runs.antt =====
-- Proofs about a sequence of operations on a hash table (include/RDIHash.h), from the constructor on.
use omni_notify_omni_orb.Common.{
  ℕ, zero, suc, ◌*◌, ◌<◌, ◌≡◌, ◌≢◌, inl, inr, refl, sym, ◌∙◌, ltb, arith, Bool-cases, false, Option,
  none, some, List, [], ◌∷◌, ap, subst, lt→ltb,
}
use omni_notify_omni_orb.Hash.{
  Key, IsKey, Table, home, pseudo_hash, lookup, insert, replace, remove, clear, round_up, new_table,
}
use omni_notify_omni_orb.Hash.Home.{next-pos, home-lt}
use omni_notify_omni_orb.Hash.Nodes.{to_list, vals}
use omni_notify_omni_orb.Hash.Refine.{IsTableOf, lookup-IsTableOf}
use omni_notify_omni_orb.Hash.Updates.{
  changed, insert-IsTableOf, insert_again, replace-IsTableOf, replace_absent, remove-IsTableOf,
  remove_absent,
}

round_up-pos : (f size n : ℕ) → 0 < n → 0 < round_up f size n
unfolding round_up
round_up-pos zero size n p = p
round_up-pos (suc f) size n p = elim (Bool-cases (ltb n size)) [
  | inl e ↦ rw e (round_up-pos f size (n * 2) (omega (arith, p)))
  | inr e ↦ rw e p
]

pub data Op (K V : Type 0) : Type 0 where
  put : K → V → Op K V
  set : K → V → Op K V
  del : K → Op K V
  wipe : Op K V

module _ {K V : Type 0} (key : Key K) where
  unfoldable pub apply : Op K V → Table K V → Table K V
  apply (put k v) t = (insert key t k v).1
  apply (set k v) t = replace key t k v
  apply (del k) t = remove key t k
  apply wipe t = clear t

  -- What the same operation does to a map.
  unfoldable pub meant : Op K V → (K → Option V) → K → Option V
  meant (put k v) m = elim (m k) [ none ↦ changed key m k (some v) | some x ↦ m ]
  meant (set k v) m = elim (m k) [ none ↦ m | some x ↦ changed key m k (some v) ]
  meant (del k) m = changed key m k none
  meant wipe m = λ l. none

  unfoldable pub apply_all : List (Op K V) → Table K V → Table K V
  unfolding apply
  apply_all [] t = t
  apply_all (o ∷ os) t = apply_all os (apply o t)

  unfoldable pub meant_all : List (Op K V) → (K → Option V) → K → Option V
  unfolding meant
  meant_all [] m = m
  meant_all (o ∷ os) m = meant_all os (meant o m)

module _ {K V : Type 0} (key : Key K) (law : IsKey key) where
  same_map :
      (m n : K → Option V) (t : Table K V)
      → ((l : K) → m l ≡ n l)
      → IsTableOf key t m
      → IsTableOf key t n
  same_map m n t e h = record {
    sized = h.sized;
    at_home = λ k. h.at_home k ∙ ap to_list (e k);
    elsewhere = h.elsewhere;
  }

  unchanged : (m : K → Option V) (k : K) → m k ≡ none → (l : K) → changed key m k none l ≡ m l
  unchanged m k e l = elim (Bool-cases (key.same k l)) [
    | inl p ↦ rw p (sym e ∙ ap m (law.same_only k l p))
    | inr p ↦ rw p refl
  ]

  clear-IsTableOf :
      (m : K → Option V) (t : Table K V) → IsTableOf key t m → IsTableOf key (clear t) (λ l. none)
  unfolding clear vals pseudo_hash
  clear-IsTableOf m t h =
      let some = next-pos t.curr_size t.next_size t.split_idx h.sized in
      record {
        sized = record { some_bucket = some; split_few = omega arith; twice = inl (refl, refl) };
        at_home = λ k.
            let inside =
              home-lt t.next_size t.next_size 0 (key.hash_func k) (record {
                some_bucket = some;
                split_few = omega arith;
                twice = inl (refl, refl);
              }) in
            rw (lt→ltb (home t.next_size t.next_size 0 (key.hash_func k)) t.next_size inside) refl;
        elsewhere = λ k i n. elim (Bool-cases (ltb i t.next_size)) [
          | inl p ↦ rw p refl
          | inr p ↦ rw p (h.elsewhere k i (outside k i p))
        ];
      }
    where
      outside :
          (k : K) (i : ℕ)
          → ltb i t.next_size ≡ false
          → i ≢ home t.curr_size t.next_size t.split_idx (key.hash_func k)
      outside k i p e =
          let inside = home-lt t.curr_size t.next_size t.split_idx (key.hash_func k) h.sized in
          cc (p, lt→ltb i t.next_size (subst (λ x. x < t.next_size) (sym e) inside))

  pub new_table-IsTableOf :
      (size capa : ℕ) → IsTableOf key (new_table {V = V} size capa) (λ l. none)
  unfolding new_table vals
  new_table-IsTableOf size capa = record {
    sized = record {
      some_bucket = round_up-pos size size 1 (omega arith);
      split_few = omega arith;
      twice = inl (refl, refl);
    };
    at_home = λ k. refl;
    elsewhere = λ k i n. refl;
  }

  apply-IsTableOf :
      (o : Op K V) (m : K → Option V) (t : Table K V)
      → IsTableOf key t m
      → IsTableOf key (apply key o t) (meant key o m)
  unfolding apply meant
  apply-IsTableOf (put k v) m t h = go (m k) refl
    where
      go :
          (o : Option V)
          → m k ≡ o
          → IsTableOf key
              (insert key t k v).1
              (elim (m k) [ none ↦ changed key m k (some v) | some x ↦ m ])
      go none e = rw e ((insert-IsTableOf key law m t k v h e).1)
      go (some x) e = rw (e, insert_again key law m t k v x h e) h
  apply-IsTableOf (set k v) m t h = go (m k) refl
    where
      go :
          (o : Option V)
          → m k ≡ o
          → IsTableOf key
              (replace key t k v)
              (elim (m k) [ none ↦ m | some x ↦ changed key m k (some v) ])
      go none e = rw e (
          same_map (changed key m k none) m (replace key t k v) (unchanged m k e)
            (replace_absent key law m t k v h e))
      go (some x) e = rw e (replace-IsTableOf key law m t k v x h e)
  apply-IsTableOf (del k) m t h = go (m k) refl
    where
      go : (o : Option V) → m k ≡ o → IsTableOf key (remove key t k) (changed key m k none)
      go none e =
          rw (remove_absent key law m t k h e)
            (same_map m (changed key m k none) t (λ l. sym (unchanged m k e l)) h)
      go (some x) e = remove-IsTableOf key law m t k x h e
  apply-IsTableOf wipe m t h = clear-IsTableOf m t h

  pub apply_all-IsTableOf :
      (os : List (Op K V)) (m : K → Option V) (t : Table K V)
      → IsTableOf key t m
      → IsTableOf key (apply_all key os t) (meant_all key os m)
  unfolding apply_all meant_all
  apply_all-IsTableOf [] m t h = h
  apply_all-IsTableOf (o ∷ os) m t h =
      apply_all-IsTableOf os (meant key o m) (apply key o t) (apply-IsTableOf o m t h)

  -- With a hash function and a rank function for which only equal keys have the rank 0: after any
  -- sequence of insert, replace, remove and clear on a new table of any size and capacity, with all
  -- the splits that the inserts make, lookup finds for each key what the same operations on a map
  -- give, where an insert of a key that is there and a replace of one that is not change nothing.
  pub lookup-apply_all :
      (size capa : ℕ) (os : List (Op K V)) (k : K)
      → lookup key (apply_all key os (new_table size capa)) k ≡ meant_all key os (λ l. none) k
  lookup-apply_all size capa os k =
      lookup-IsTableOf key law (meant_all key os (λ l. none))
        (apply_all key os (new_table size capa)) k
        (apply_all-IsTableOf os (λ l. none) (new_table size capa) (new_table-IsTableOf size capa))
