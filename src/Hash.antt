-- ===== src/Hash.antt =====
-- RDI_Hash, a hash table that grows by splitting one bucket at a time (include/RDIHash.h). Nodes are
-- in the order of their list; the array `_htable` is a function of the index, and a new array is
-- always allocated. The masks are not stored: they are one less than the sizes, and `h & mask` is
-- written as the rest of the division by the size (Masks has the expression on the masks). Sizes are
-- not bounded, where those of the source wrap around past 2 ^ 31 buckets.
pub mod Home
pub mod Nodes
pub mod Refine
pub mod Splits
pub mod Updates
pub mod Runs
pub mod Counts
pub mod Masks
pub mod Powers
pub mod Cursor
pub mod Tests
use omni_notify_omni_orb.Common.{
  ℕ, zero, suc, ◌+◌, ◌-◌, ◌*◌, ◌%◌, ◌≡◌, Bool, true, false, not, Option, none, some, List, [], ◌∷◌,
  ltb, leb, ◌==◌, if◌then◌else◌,
}

-- The hash function and the rank function of a table; `same` is a rank of 0.
pub record Key (K : Type 0) : Type 0 where
  pub hash_func : K → ℕ
  pub same : K → K → Bool

-- What the two functions have to satisfy: only equal keys have the rank 0.
pub record IsKey {K : Type 0} (key : Key K) : Type 0 where
  pub same_self : (k : K) → key.same k k ≡ true
  pub same_only : (k l : K) → key.same k l ≡ true → k ≡ l

-- BucketNode_t
pub record Bucket (K V : Type 0) : Type 0 where
  pub count : ℕ
  pub nodes : List (K × V)

pub record Table (K V : Type 0) : Type 0 where
  pub curr_size : ℕ
  pub next_size : ℕ
  pub split_idx : ℕ
  pub num_pairs : ℕ
  pub bcapacity : ℕ
  pub num_split : ℕ
  pub htable : ℕ → Bucket K V

abbrev pub empty_bucket : {K V : Type 0} → Bucket K V
empty_bucket = record { count = 0; nodes = [] }

-- `_curr_size <<= 1` while it is below `size`, in enough rounds. It does not wrap around: for a size
-- over 2 ^ 31 the loop of the source does not end.
unfoldable pub round_up : ℕ → ℕ → ℕ → ℕ
round_up zero size n = n
round_up (suc f) size n = let more = round_up f size (n * 2) in if ltb n size then more else n

-- The constructor.
unfoldable pub new_table : {K V : Type 0} → ℕ → ℕ → Table K V
unfolding round_up
new_table size capa = record {
  curr_size = round_up size size 1;
  next_size = round_up size size 1;
  split_idx = 0;
  num_pairs = 0;
  bcapacity = if capa == 0 then 5 else capa;
  num_split = 0;
  htable = λ i. empty_bucket;
}

-- One bucket of the array is another one.
abbrev pub put_bucket : {K V : Type 0} → (ℕ → Bucket K V) → ℕ → Bucket K V → ℕ → Bucket K V
put_bucket h i x j = if j == i then x else h j

-- A node in front of a bucket, which counts one more.
abbrev pub add_node : {K V : Type 0} → K × V → Bucket K V → Bucket K V
add_node e x = record { count = x.count + 1; nodes = e ∷ x.nodes }

-- The bucket of a hash value.
unfoldable pub home : ℕ → ℕ → ℕ → ℕ → ℕ
home curr next split h = let bnum = h % curr in if ltb bnum split then h % next else bnum

module _ {K V : Type 0} (key : Key K) where
  unfoldable pub pseudo_hash : Table K V → K → ℕ
  unfolding home
  pseudo_hash t k = home t.curr_size t.next_size t.split_idx (key.hash_func k)

  -- The scan of a bucket for a key.
  unfoldable pub find : K → List (K × V) → Option V
  find k [] = none
  find k (e ∷ es) = let rest = find k es in if key.same k e.0 then some e.1 else rest

  unfoldable pub lookup : Table K V → K → Option V
  unfolding find pseudo_hash
  lookup t k = find k (t.htable (pseudo_hash t k)).nodes

  unfoldable pub exists : Table K V → K → Bool
  unfolding lookup
  exists t k = elim (lookup t k) [ none ↦ false | some v ↦ true ]

  -- The nodes that stay in the bucket that is split, and how many go.
  unfoldable pub stay : ℕ → ℕ → List (K × V) → List (K × V)
  stay next s [] = []
  stay next s (e ∷ es) =
      let rest = stay next s es in if key.hash_func e.0 % next == s then e ∷ rest else rest

  unfoldable pub gone : ℕ → ℕ → List (K × V) → ℕ
  gone next s [] = 0
  gone next s (e ∷ es) =
      let rest = gone next s es in if key.hash_func e.0 % next == s then rest else rest + 1

  -- The others, each in front of its new bucket.
  unfoldable pub distribute : ℕ → ℕ → List (K × V) → (ℕ → Bucket K V) → ℕ → Bucket K V
  distribute next s [] h = h
  distribute next s (e ∷ es) h =
      let i = key.hash_func e.0 % next in
      distribute next s es (if i == s then h else put_bucket h i (add_node e (h i)))

  -- The array of the doubled size.
  unfoldable pub doubled : Table K V → Table K V
  doubled t = record t {
    next_size = t.curr_size * 2;
    htable = λ i. if ltb i t.curr_size then t.htable i else empty_bucket;
  }

  unfoldable pub split_bucket : Table K V → Table K V
  unfolding stay gone distribute
  split_bucket t =
      let s = t.split_idx in
      let old = t.htable s in
      record t {
        split_idx = s + 1;
        num_split = t.num_split + 1;
        htable = put_bucket (distribute t.next_size s old.nodes t.htable) s (record {
          count = old.count - gone t.next_size s old.nodes;
          nodes = stay t.next_size s old.nodes;
        });
      }

  unfoldable pub split : Table K V → Table K V
  unfolding doubled split_bucket
  split t =
      if t.split_idx == t.curr_size
      then record t { curr_size = t.next_size; split_idx = 0 }
      else if t.curr_size == t.next_size
      then split_bucket (doubled t)
      else split_bucket t

  unfoldable pub add_pair : Table K V → K → V → Table K V
  unfolding pseudo_hash
  add_pair t k v =
      let i = pseudo_hash t k in
      record t {
        htable = put_bucket t.htable i (add_node (k, v) (t.htable i));
        num_pairs = t.num_pairs + 1;
      }

  -- The loop of insert, with the splits that are left.
  unfoldable pub insert_loop : ℕ → Table K V → K → V → Table K V
  unfolding split add_pair
  insert_loop zero t k v = add_pair t k v
  insert_loop (suc n) t k v =
      let later = insert_loop n (split t) k v in
      if leb t.bcapacity (t.htable (pseudo_hash t k)).count then later else add_pair t k v

  -- The result is 0, or -1 for a key that is there.
  unfoldable pub insert : Table K V → K → V → Bool × Table K V
  unfolding lookup insert_loop
  insert t k v = elim (lookup t k) [ some x ↦ (false, t) | none ↦ (true, insert_loop 5 t k v) ]

  -- The first node of that key with another value, and without it.
  unfoldable pub replace_in : K → V → List (K × V) → List (K × V)
  replace_in k v [] = []
  replace_in k v (e ∷ es) =
      let rest = replace_in k v es in if key.same k e.0 then (e.0, v) ∷ es else e ∷ rest

  unfoldable pub remove_from : K → List (K × V) → List (K × V)
  remove_from k [] = []
  remove_from k (e ∷ es) = let rest = remove_from k es in if key.same k e.0 then es else e ∷ rest

  unfoldable pub replace : Table K V → K → V → Table K V
  unfolding replace_in pseudo_hash
  replace t k v =
      let i = pseudo_hash t k in
      record t {
        htable =
            put_bucket t.htable i
              (record (t.htable i) { nodes = replace_in k v (t.htable i).nodes });
      }

  unfoldable pub remove : Table K V → K → Table K V
  unfolding lookup remove_from
  remove t k = elim (lookup t k) [
    | none ↦ t
    | some x ↦
        let i = pseudo_hash t k in
        record t {
          htable =
              put_bucket t.htable i (record {
                count = (t.htable i).count - 1;
                nodes = remove_from k (t.htable i).nodes;
              });
          num_pairs = t.num_pairs - 1;
        }
  ]

unfoldable pub clear : {K V : Type 0} → Table K V → Table K V
clear t = record t {
  htable = λ i. if ltb i t.next_size then empty_bucket else t.htable i;
  curr_size = t.next_size;
  split_idx = 0;
  num_pairs = 0;
}
