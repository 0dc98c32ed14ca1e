-- ===== src/Constraint/Typing.antt =====
-- The trees that the parser builds: the type that each leaves on the stack, and how many ops and
-- stack slots its code takes.
use omni_notify_omni_orb.Common.{ℕ, ◌+◌, true, Option, none, some, List, [], ◌∷◌, ◌≡◌, ◌≢◌, length}
use Prim.Native.Nat.{max}
use omni_notify_omni_orb.OpSeq.Codes.{StaticT, OpCode}
use omni_notify_omni_orb.OpSeq.Seq.{Op, is_push_bool, is_push_char, bool_arg, text_arg}
use omni_notify_omni_orb.Constraint.{
  Constraint, or_node, and_node, in_node, substr_node, not_node, comp_end, exist, default_node,
  compare_node, arith_node, cached_op, runtime_error, chain, CompareOp, ArithOp,
}

-- The type of a constant, if the op pushes one.
abbrev pub const_type : OpCode → Option StaticT
const_type OpCode.push_cc2c = some StaticT.c
const_type OpCode.push_sc2s = some StaticT.s
const_type OpCode.push_ic2i = some StaticT.i
const_type OpCode.push_bc2b = some StaticT.b
const_type OpCode.push_nc2n_ul = some StaticT.n
const_type OpCode.push_nc2n_l = some StaticT.n
const_type OpCode.push_nc2n_ull = some StaticT.n
const_type OpCode.push_nc2n_ll = some StaticT.n
const_type OpCode.push_nc2n_d = some StaticT.n
const_type _ = none

-- The type that a component's first op pushes.
abbrev pub start_type : OpCode → Option StaticT
start_type OpCode.wkp_nc2u = some StaticT.u
start_type OpCode.special_sc2u = some StaticT.u
start_type OpCode.ctelt_nc2n = some StaticT.n
start_type _ = none

-- The type that a component part leaves, on a value of unknown type.
abbrev pub part_type : OpCode → Option StaticT
part_type OpCode.dot_len_u2n_l = some StaticT.n
part_type OpCode.dot_d_u2u = some StaticT.u
part_type OpCode.dot_tid_u2s = some StaticT.s
part_type OpCode.dot_rid_u2s = some StaticT.s
part_type OpCode.dot_id_usc2u = some StaticT.u
part_type OpCode.dot_num_ulc2u = some StaticT.u
part_type OpCode.assoc_usc2u = some StaticT.u
part_type OpCode.index_ulc2u = some StaticT.u
part_type OpCode.tagdef_u2u = some StaticT.u
part_type OpCode.tagid_usc2u = some StaticT.u
part_type OpCode.tagnum_ulc2u = some StaticT.u
part_type OpCode.tagchar_usc2u = some StaticT.u
part_type OpCode.tagbool_ubc2u = some StaticT.u
part_type _ = none

-- The parts fit one behind the other: each finds a value of unknown type.
pub data Parts : StaticT → List Op → StaticT → Type 0 where
  ended : {t : StaticT} → Parts t [] t
  part :
      {op : Op} {os : List Op} {t₀ t t' : StaticT}
      → t₀ ≡ StaticT.u
      → part_type op.code ≡ some t'
      → Parts t' os t
      → Parts t₀ (op ∷ os) t

-- The op carries the argument that its code pushes.
pub record HasConst (op : Op) : Type 0 where
  pub bool_const : is_push_bool op.code ≡ true → bool_arg op.arg ≢ none
  pub char_const : is_push_char op.code ≡ true → text_arg op.arg ≢ none

-- A tree of the kind that the parser's actions build, and the type that its code leaves. The right
-- side of `in` has to leave an unknown type.
pub data IsBuilt : Constraint → StaticT → Type 0 where
  or_built :
      {l r : Constraint} {t t' : StaticT}
      → IsBuilt l t
      → IsBuilt r t'
      → IsBuilt (or_node l r) StaticT.b
  and_built :
      {l r : Constraint} {t t' : StaticT}
      → IsBuilt l t
      → IsBuilt r t'
      → IsBuilt (and_node l r) StaticT.b
  not_built : {c : Constraint} {t : StaticT} → IsBuilt c t → IsBuilt (not_node c) StaticT.b
  compare_built :
      {l r : Constraint} {t t' : StaticT} (op : CompareOp)
      → IsBuilt l t
      → IsBuilt r t'
      → IsBuilt (compare_node op l r) StaticT.b
  in_built :
      {l r : Constraint} {t t' : StaticT}
      → IsBuilt l t
      → IsBuilt r t'
      → t' ≡ StaticT.u
      → IsBuilt (in_node l r) StaticT.b
  substr_built :
      {l r : Constraint} {t t' : StaticT}
      → IsBuilt l t
      → IsBuilt r t'
      → IsBuilt (substr_node l r) StaticT.b
  arith_built :
      {l r : Constraint} {t t' : StaticT} (op : ArithOp)
      → IsBuilt l t
      → IsBuilt r t'
      → IsBuilt (arith_node op l r) StaticT.n
  comp_end_built :
      {c : Constraint} {t : StaticT} → IsBuilt c t → t ≢ StaticT.c → IsBuilt (comp_end c) t
  exist_built : {c : Constraint} {t : StaticT} → IsBuilt c t → IsBuilt (exist c) StaticT.b
  default_built : {c : Constraint} {t : StaticT} → IsBuilt c t → IsBuilt (default_node c) StaticT.b
  cached_built :
      {op : Op} {t : StaticT} → const_type op.code ≡ some t → HasConst op → IsBuilt (cached_op op) t
  error_built :
      {op : Op} → op.code ≡ OpCode.push_nc_ushort → IsBuilt (runtime_error op) StaticT.n_ushort
  chain_built :
      {op : Op} {os : List Op} {t t' : StaticT}
      → start_type op.code ≡ some t
      → Parts t os t'
      → IsBuilt (chain op os) t'

-- The most ops that the code of a tree takes.
unfoldable pub size : Constraint → ℕ
size (or_node l r) = size l + size r + 5
size (and_node l r) = size l + size r + 5
size (not_node c) = size c + 2
size (compare_node op l r) = size l + size r + 2
size (in_node l r) = size l + size r + 1
size (substr_node l r) = size l + size r + 3
size (arith_node op l r) = size l + size r + 3
size (comp_end c) = size c + 1
size (exist c) = size c + 1
size (default_node c) = size c + 1
size (cached_op op) = 1
size (runtime_error op) = 2
size (chain op os) = 1 + length os

-- The most stack slots that the code of a tree takes. The left side of `or` and `and` is popped
-- before the right side runs.
unfoldable pub depth : Constraint → ℕ
depth (or_node l r) = max (depth l) (depth r)
depth (and_node l r) = max (depth l) (depth r)
depth (not_node c) = depth c
depth (compare_node op l r) = max (depth l) (depth r + 1)
depth (in_node l r) = max (depth l) (depth r + 1)
depth (substr_node l r) = max (depth l) (depth r + 1)
depth (arith_node op l r) = max (depth l) (depth r + 1)
depth (comp_end c) = depth c
depth (exist c) = depth c
depth (default_node c) = depth c
depth (cached_op op) = 1
depth (runtime_error op) = 1
depth (chain op os) = 1
