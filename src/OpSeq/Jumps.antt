-- ===== src/OpSeq/Jumps.antt =====
-- finalize (lib/RDIOpSeq.cc): the final return, the offsets of the jumps, the argument types.
-- The loop reads codes and label names alone and writes offsets alone, so it reads the sequence as
-- it was before the loop. A read past `_opstail` or before the array is a fault.
mod Search
pub mod Landing
pub mod Total
pub mod Final
use omni_notify_omni_orb.Common.{
  ℕ, zero, suc, ◌+◌, ◌-◌, ◌≤◌, ◌<◌, Bool, true, false, not, ◌&&◌, ◌||◌, Option, none, some, List,
  [], ◌∷◌, reverse, ltb, ◌==◌, length, get_elem?, check, ◌>>=◌, ◌>>◌, if◌then◌else◌,
}
use omni_notify_omni_orb.Common.Int.{ℤ, pos, negsuc, sub_ℕ}
use omni_notify_omni_orb.OpSeq.Codes.{OpCode, OpArgT}
use omni_notify_omni_orb.OpSeq.Tables.{op2_arg_t}
use omni_notify_omni_orb.OpSeq.Seq.{Op, OpArg, OpSeq, Text, append, plain_op, ops}

-- RDI_STR_EQ
unfoldable pub str_eq : Text → Text → Bool
str_eq [] [] = true
str_eq [] (y ∷ ys) = false
str_eq (x ∷ xs) [] = false
str_eq (x ∷ xs) (y ∷ ys) = (x == y) && str_eq xs ys

abbrev pub is_label : OpCode → Bool
is_label OpCode.label = true
is_label _ = false

abbrev pub is_return : OpCode → Bool
is_return OpCode.return_b = true
is_return _ = false

abbrev pub names : Text → OpArg → Bool
unfolding str_eq
names l (OpArg.sc x) = str_eq l x
names l _ = false

-- The op at a position is a label.
unfoldable pub label_at : List Op → ℕ → Bool
label_at xs p = elim (get_elem? xs p) [ none ↦ false | some op ↦ is_label op.code ]

-- The op at a position is the label of that name.
unfoldable pub target_at : Text → List Op → ℕ → Bool
unfolding str_eq
target_at l xs p = elim (get_elem? xs p) [
  | none ↦ false
  | some op ↦ is_label op.code && names l op.arg
]

-- The search with `bump` 1, in n rounds from position p.
unfoldable pub look_up : Text → List Op → ℕ → ℕ → Option ℕ
unfolding target_at
look_up l xs zero p = none
look_up l xs (suc n) p =
    let rest = look_up l xs n (p + 1) in if target_at l xs p then some p else rest

-- The search with `bump` -1, from the position below p.
unfoldable pub look_down : Text → List Op → ℕ → Option ℕ
unfolding target_at
look_down l xs zero = none
look_down l xs (suc p) = let rest = look_down l xs p in if target_at l xs p then some p else rest

abbrev pub or_else : Option ℕ → Option ℕ → Option ℕ
or_else none r = r
or_else (some p) r = some p

-- The position i + offset, if that is in the sequence.
unfoldable pub position : ℕ → ℕ → ℤ → Option ℕ
position n i (pos k) = if ltb (i + k) n then some (i + k) else none
position n i (negsuc k) = if ltb k i then some (i - k - 1) else none

-- Forward first from the op itself where the offset is 0, and otherwise backward first from the
-- position that the offset gives; then the other way from the next position.
unfoldable pub search_from : Text → List Op → ℕ → Option ℕ → Option ℕ
unfolding look_up look_down
search_from l xs i none = or_else (look_up l xs (length xs - i) i) (look_down l xs i)
search_from l xs i (some q) =
    if q == i
    then or_else (look_up l xs (length xs - i) i) (look_down l xs i)
    else or_else (look_down l xs (suc q)) (look_up l xs (length xs - suc q) (suc q))

-- The first op that is no label, in n rounds from position p.
unfoldable pub skip_labels : List Op → ℕ → ℕ → Option ℕ
unfolding label_at
skip_labels xs zero p = none
skip_labels xs (suc n) p =
    let rest = skip_labels xs n (p + 1) in if label_at xs p then rest else some p

abbrev pub is_empty : Text → Bool
is_empty [] = true
is_empty (ch ∷ cs) = false

-- One round of the loop: a jump gets the offset of the op that it lands on.
unfoldable pub resolve_arg : List Op → ℕ → OpArg → Option OpArg
unfolding position search_from skip_labels
resolve_arg xs i (OpArg.lbl offset l) = do
  check (not (is_empty l))
  m ← search_from l xs i (position (length xs) i offset)
  q ← skip_labels xs (length xs - m) m
  some (OpArg.lbl (sub_ℕ q i) l)
resolve_arg xs i a = some a

-- The loop over the ops from position i on.
unfoldable pub resolve_all : List Op → ℕ → List Op → Option (List Op)
unfolding resolve_arg
resolve_all xs i [] = some []
resolve_all xs i (op ∷ os) = do
  a ← resolve_arg xs i op.arg
  rest ← resolve_all xs (i + 1) os
  some (record op { arg = a } ∷ rest)

-- `_argT` is the tag of the argument.
unfoldable pub has_arg_t : OpArgT → OpArg → Bool
has_arg_t OpArgT.none OpArg.no_arg = true
has_arg_t OpArgT.sc (OpArg.sc _) = true
has_arg_t OpArgT.bc (OpArg.bc _) = true
has_arg_t OpArgT.nc_us (OpArg.nc_us _) = true
has_arg_t OpArgT.nc_s (OpArg.nc_s _) = true
has_arg_t OpArgT.nc_ul (OpArg.nc_ul _) = true
has_arg_t OpArgT.nc_l (OpArg.nc_l _) = true
has_arg_t OpArgT.nc_ull (OpArg.nc_ull _) = true
has_arg_t OpArgT.nc_ll (OpArg.nc_ll _) = true
has_arg_t OpArgT.nc_f (OpArg.nc_f _) = true
has_arg_t OpArgT.nc_d (OpArg.nc_d _) = true
has_arg_t OpArgT.lbl (OpArg.lbl _ _) = true
has_arg_t _ _ = false

-- The sanity checks at the end.
unfoldable pub args_fit : List Op → Bool
unfolding has_arg_t op2_arg_t
args_fit [] = true
args_fit (op ∷ os) = has_arg_t (op2_arg_t op.code) op.arg && args_fit os

unfoldable pub add_return : OpSeq → List Op → Option OpSeq
unfolding append
add_return s [] = none
add_return s (op ∷ os) = if is_return op.code then some s else append s (plain_op OpCode.return_b)

unfoldable pub finalize : OpSeq → Option OpSeq
unfolding add_return resolve_all args_fit
finalize s = do
  t ← add_return s s.rev_ops
  os ← resolve_all (ops t) 0 (ops t)
  check (args_fit os)
  some (record { rev_ops = reverse os; stack_t = t.stack_t })
