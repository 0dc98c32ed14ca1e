-- ===== src/Hash/Nodes.antt =====
-- Proofs about the lists of nodes (include/RDIHash.h): the values of a key in a list, and in the lists
-- that a split makes of it.
use omni_notify_omni_orb.Common.{
  ℕ, ◌%◌, ◌≡◌, ◌≢◌, inl, inr, refl, sym, ◌∙◌, ◌==◌, Bool-cases, if◌then◌else◌, true, false, Option,
  none, some, List, [], ◌∷◌, ap, subst, ==_iff,
}
use omni_notify_omni_orb.Hash.{Key, IsKey, Bucket, find, stay, distribute, put_bucket, add_node}

abbrev pub to_list : {V : Type 0} → Option V → List V
to_list o = elim o [ none ↦ [] | some v ↦ v ∷ [] ]

pub eq_self : (n : ℕ) → (n == n) ≡ true
eq_self n = (==_iff n n).1 refl

pub ne_false : (n m : ℕ) → n ≢ m → (n == m) ≡ false
ne_false n m h = elim (Bool-cases (n == m)) [ inl e ↦ absurd (h ((==_iff n m).0 e)) | inr e ↦ e ]

module _ {K V : Type 0} (key : Key K) where
  -- The values of a key, in the order of the list.
  unfoldable pub vals : K → List (K × V) → List V
  vals k [] = []
  vals k (e ∷ es) = let rest = vals k es in if key.same k e.0 then e.1 ∷ rest else rest

  pub find-vals :
      (k : K) (o : Option V) (es : List (K × V)) → vals k es ≡ to_list o → find key k es ≡ o
  unfolding find vals
  find-vals k none [] h = refl
  find-vals k (some v) [] h = cc h
  find-vals k none (e ∷ es) h = elim (Bool-cases (key.same k e.0)) [
    | inl p ↦ cc (rw p at h)
    | inr p ↦ rw p (find-vals k none es (rw p at h))
  ]
  find-vals k (some v) (e ∷ es) h = elim (Bool-cases (key.same k e.0)) [
    | inl p ↦ rw p (cc (rw p at h))
    | inr p ↦ rw p (find-vals k (some v) es (rw p at h))
  ]

-- A node of a key goes where the key goes.
same_place :
    {K : Type 0} (key : Key K) (law : IsKey key) (next : ℕ) (k l : K)
    → key.same k l ≡ true
    → key.hash_func l % next ≡ key.hash_func k % next
same_place key law next k l e = ap (λ x. key.hash_func x % next) (sym (law.same_only k l e))

-- A node of another key in front of a bucket.
pub vals-unseen :
    {K V : Type 0} (key : Key K) (k : K) (e : K × V) (h : ℕ → Bucket K V) (i j : ℕ)
    → key.same k e.0 ≡ false
    → vals key k (put_bucket h j (add_node e (h j)) i).nodes ≡ vals key k (h i).nodes
unfolding vals
vals-unseen key k e h i j p = elim (Bool-cases (i == j)) [
  | inl q ↦ rw (q, p) (ap (λ x. vals key k (h x).nodes) (sym ((==_iff i j).0 q)))
  | inr q ↦ rw q refl
]

-- A node of the key in front of a bucket.
pub vals-front :
    {K V : Type 0} (key : Key K) (k : K) (e : K × V) (h : ℕ → Bucket K V) (j : ℕ)
    → key.same k e.0 ≡ true
    → vals key k (put_bucket h j (add_node e (h j)) j).nodes ≡ e.1 ∷ vals key k (h j).nodes
unfolding vals
vals-front key k e h j p = rw (eq_self j, p) refl

distribute_empty :
    {K V : Type 0} (key : Key K) (next s : ℕ) (h : ℕ → Bucket K V) (i : ℕ)
    → distribute key next s [] h i ≡ h i
unfolding distribute
distribute_empty key next s h i = refl

module _ {K V : Type 0} (key : Key K) (next s : ℕ) (e : K × V) (es : List (K × V))
    (h : ℕ → Bucket K V) (i : ℕ) where
  distribute_stays :
      (key.hash_func e.0 % next == s) ≡ true
      → distribute key next s (e ∷ es) h i ≡ distribute key next s es h i
  unfolding distribute
  distribute_stays q =
      ap
        (λ b.
          distribute key next s es
            (if b
              then h
              else put_bucket h (key.hash_func e.0 % next)
                  (add_node e (h (key.hash_func e.0 % next))))
            i)
        q

  distribute_goes :
      (key.hash_func e.0 % next == s) ≡ false
      → distribute key next s (e ∷ es) h i
        ≡ distribute key next s es
            (put_bucket h (key.hash_func e.0 % next) (add_node e (h (key.hash_func e.0 % next))))
            i
  unfolding distribute
  distribute_goes q =
      ap
        (λ b.
          distribute key next s es
            (if b
              then h
              else put_bucket h (key.hash_func e.0 % next)
                  (add_node e (h (key.hash_func e.0 % next))))
            i)
        q

module _ {K V : Type 0} (key : Key K) (law : IsKey key) (next s : ℕ) (k : K) where
  pub vals-stay :
      (es : List (K × V))
      → key.hash_func k % next ≡ s
      → vals key k (stay key next s es) ≡ vals key k es
  unfolding vals stay
  vals-stay [] h = refl
  vals-stay (e ∷ es) h = elim (Bool-cases (key.same k e.0)) [
    | inl p ↦
        rw (same_place key law next k e.0 p, h, eq_self s, p) (ap (λ x. e.1 ∷ x) (vals-stay es h))
    | inr p ↦ elim (Bool-cases (key.hash_func e.0 % next == s)) [
      | inl q ↦ rw (p, q, p) (vals-stay es h)
      | inr q ↦ rw (p, q) (vals-stay es h)
    ]
  ]

  pub vals-stay_none :
      (es : List (K × V)) → key.hash_func k % next ≢ s → vals key k (stay key next s es) ≡ []
  unfolding vals stay
  vals-stay_none [] h = refl
  vals-stay_none (e ∷ es) h = elim (Bool-cases (key.same k e.0)) [
    | inl p ↦
        rw (same_place key law next k e.0 p, ne_false (key.hash_func k % next) s h)
          (vals-stay_none es h)
    | inr p ↦ elim (Bool-cases (key.hash_func e.0 % next == s)) [
      | inl q ↦ rw (q, p) (vals-stay_none es h)
      | inr q ↦ rw q (vals-stay_none es h)
    ]
  ]

  -- Nothing of a key that is not in the list is moved.
  pub vals-distribute_none :
      (es : List (K × V)) (h : ℕ → Bucket K V) (i : ℕ)
      → vals key k es ≡ []
      → vals key k (distribute key next s es h i).nodes ≡ vals key k (h i).nodes
  unfolding vals
  vals-distribute_none [] h i o = rw (distribute_empty key next s h i) refl
  vals-distribute_none (e ∷ es) h i o = elim (Bool-cases (key.same k e.0)) [
    | inl p ↦ cc (rw p at o)
    | inr p ↦
        let j = key.hash_func e.0 % next in
        let later = λ (g : ℕ → Bucket K V). vals-distribute_none es g i (rw p at o) in
        elim (Bool-cases (j == s)) [
          | inl q ↦ rw (distribute_stays key next s e es h i q) (later h)
          | inr q ↦
              rw (distribute_goes key next s e es h i q)
                (later (put_bucket h j (add_node e (h j))) ∙ vals-unseen key k e h i j p)
        ]
  ]

  -- Nothing of a key comes to a bucket that is not the key's, nor to the one that is split.
  pub vals-distribute_off :
      (es : List (K × V)) (h : ℕ → Bucket K V) (i : ℕ)
      → (i ≡ key.hash_func k % next → i ≡ s)
      → vals key k (distribute key next s es h i).nodes ≡ vals key k (h i).nodes
  unfolding vals
  vals-distribute_off [] h i o = vals-distribute_none [] h i refl
  vals-distribute_off (e ∷ es) h i o =
      let j = key.hash_func e.0 % next in
      let later = λ (g : ℕ → Bucket K V). vals-distribute_off es g i o in
      elim (Bool-cases (j == s)) [
        | inl q ↦ rw (distribute_stays key next s e es h i q) (later h)
        | inr q ↦
            rw (distribute_goes key next s e es h i q)
              (later (put_bucket h j (add_node e (h j))) ∙ elsewhere q)
      ]
    where
      elsewhere :
          (key.hash_func e.0 % next == s) ≡ false
          → vals key k
              (put_bucket h
                (key.hash_func e.0 % next)
                (add_node e (h (key.hash_func e.0 % next)))
                i).nodes
            ≡ vals key k (h i).nodes
      elsewhere q = elim (Bool-cases (key.same k e.0)) [
        | inl p ↦ elim (Bool-cases (i == key.hash_func e.0 % next)) [
          | inl r ↦
              let at = (==_iff i (key.hash_func e.0 % next)).0 r in
              let same = sym at ∙ o (at ∙ same_place key law next k e.0 p) in
              absurd (cc (q, (==_iff (key.hash_func e.0 % next) s).1 same))
          | inr r ↦ rw r refl
        ]
        | inr p ↦ vals-unseen key k e h i (key.hash_func e.0 % next) p
      ]

  -- The one node of a key that does not stay comes to its bucket.
  pub vals-distribute_one :
      (v : V) (es : List (K × V)) (h : ℕ → Bucket K V)
      → key.hash_func k % next ≢ s
      → vals key k es ≡ v ∷ []
      → vals key k (distribute key next s es h (key.hash_func k % next)).nodes
        ≡ v ∷ vals key k (h (key.hash_func k % next)).nodes
  unfolding vals
  vals-distribute_one v [] h n o = cc o
  vals-distribute_one v (e ∷ es) h n o =
      let i = key.hash_func k % next in
      let j = key.hash_func e.0 % next in
      elim (Bool-cases (key.same k e.0)) [
        | inl p ↦
            let placed : j ≡ i = same_place key law next k e.0 p in
            let g = put_bucket h j (add_node e (h j)) in
            let other = ne_false j s (λ r. n (sym placed ∙ r)) in
            rw (distribute_goes key next s e es h i other) (
              vals-distribute_none es g i (cc (rw p at o))
              ∙ subst (λ x. vals key k (g x).nodes ≡ e.1 ∷ vals key k (h x).nodes) placed
                  (vals-front key k e h j p)
              ∙ ap (λ w. w ∷ vals key k (h i).nodes) (cc (rw p at o)))
        | inr p ↦
            let later = λ (g : ℕ → Bucket K V). vals-distribute_one v es g n (rw p at o) in
            elim (Bool-cases (j == s)) [
              | inl q ↦ rw (distribute_stays key next s e es h i q) (later h)
              | inr q ↦ rw (distribute_goes key next s e es h i q) (
                  later (put_bucket h j (add_node e (h j)))
                  ∙ ap (λ x. v ∷ x) (vals-unseen key k e h i j p))
            ]
      ]
