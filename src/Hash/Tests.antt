-- ===== src/Hash/Tests.antt =====
-- Runs of the hash table (include/RDIHash.h) on numbers, with buckets of one node.
use omni_notify_omni_orb.Common.{
  ℕ, ◌-◌, ◌≤◌, ◌<◌, ◌≡◌, refl, ◌==◌, ==_iff, none, List, length, [], ◌∷◌, arith,
}
use omni_notify_omni_orb.Hash.{
  Key, IsKey, Table, pseudo_hash, lookup, new_table, insert, replace, remove,
}
use omni_notify_omni_orb.Hash.Masks.{masked, round_up32, Rounded, new_table-Rounded}
use omni_notify_omni_orb.Hash.Powers.{HasPowers, pseudo_hash-masked}
use omni_notify_omni_orb.Hash.Counts.{IsCounted, apply_all-IsCounted}
use omni_notify_omni_orb.Hash.Cursor.{frst_node, walk, pairs, walk-frst_node}
use omni_notify_omni_orb.Hash.Runs.{Op, put, set, del, apply_all, meant_all, lookup-apply_all}

abbrev number_key : Key ℕ
number_key = record { hash_func = λ k. k; same = λ k l. k == l }

number_key-IsKey : IsKey number_key
number_key-IsKey = record {
  same_self = λ k. (==_iff k k).1 refl;
  same_only = λ k l e. (==_iff k l).0 e;
}

-- Four keys of one bucket, so that buckets are split, then a change and a removal.
abbrev some_ops : List (Op ℕ ℕ)
some_ops =
    put 1 10 ∷ put 3 30 ∷ put 5 50 ∷ put 3 33 ∷ put 9 90 ∷ set 5 55 ∷ set 7 77 ∷ del 1 ∷ del 8 ∷ []

abbrev some_table : Table ℕ ℕ
some_table = apply_all number_key some_ops (new_table 2 1)

test_sizes :
    ((apply_all number_key some_ops (new_table {V = ℕ} 2 1)).curr_size ≡ 8)
    × ((apply_all number_key some_ops (new_table {V = ℕ} 2 1)).num_pairs ≡ 3)
unfolding apply_all new_table insert replace remove
test_sizes = (refl, refl)

lookup-apply_all_example :
    lookup number_key some_table 5 ≡ meant_all number_key some_ops (λ l. none) 5
lookup-apply_all_example = lookup-apply_all number_key number_key-IsKey 2 1 some_ops 5

-- 20 buckets are asked for, 32 are made.
new_table-Rounded_example :
    Rounded 20 (round_up32 20 20 1)
    × (round_up32 20 20 1 < 4294967296)
    × ((new_table {K = ℕ} {V = ℕ} 20 0).curr_size ≡ round_up32 20 20 1)
    × ((new_table {K = ℕ} {V = ℕ} 20 0).next_size ≡ round_up32 20 20 1)
new_table-Rounded_example = new_table-Rounded ℕ ℕ 20 0 (omega arith)

test_rounded : round_up32 20 20 1 ≡ 32
unfolding round_up32
test_rounded = refl

pseudo_hash-masked_example :
    HasPowers some_table
    × (pseudo_hash number_key some_table 5
        ≡ masked (some_table.curr_size - 1) (some_table.next_size - 1) some_table.split_idx 5)
    × (pseudo_hash number_key some_table 5 < some_table.next_size)
pseudo_hash-masked_example = pseudo_hash-masked number_key number_key-IsKey 2 1 some_ops 5

apply_all-IsCounted_example : IsCounted some_table.htable
apply_all-IsCounted_example = apply_all-IsCounted number_key 2 1 some_ops

-- The table holds three pairs.
some_pairs : length (pairs some_table) ≤ 10
unfolding apply_all new_table insert replace remove pairs
some_pairs = omega arith

walk-frst_node_example : walk 10 some_table (frst_node some_table) ≡ pairs some_table
walk-frst_node_example = walk-frst_node number_key 2 1 some_ops 10 some_pairs
