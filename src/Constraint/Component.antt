-- ===== src/Constraint/Component.antt =====
-- A component of a constraint, such as `$.header(foo)[3]`, while the parser builds it: its start, its
-- parts, and how a part is appended (lib/RDIConstraint.cc, lib/yacc.y). A start is the head node's
-- `_cachedop1`, a part that of a node down its `_rchild` pointers.
use omni_notify_omni_orb.Common.{
  ℕ, zero, suc, ◌-◌, ◌%◌, ◌^◌, Bool, true, false, List, [], ◌∷◌, ◌++◌, map, ltb, if◌then◌else◌,
}
use omni_notify_omni_orb.Common.Int.{ℤ, pos, negsuc}
use omni_notify_omni_orb.OpSeq.Codes.{OpCode}
use omni_notify_omni_orb.OpSeq.Seq.{Op, OpArg, Text, plain_op}
use omni_notify_omni_orb.Constraint.{Constraint, chain}

-- RDI_WellKnownPart
pub data WellKnownPart : Type 0 where
  dollar hdr fdata rob fhdr vhdr ename etype tname dname : WellKnownPart

abbrev pub wkp_number : WellKnownPart → ℕ
wkp_number WellKnownPart.dollar = 0
wkp_number WellKnownPart.hdr = 1
wkp_number WellKnownPart.fdata = 2
wkp_number WellKnownPart.rob = 3
wkp_number WellKnownPart.fhdr = 4
wkp_number WellKnownPart.vhdr = 5
wkp_number WellKnownPart.ename = 6
wkp_number WellKnownPart.etype = 7
wkp_number WellKnownPart.tname = 8
wkp_number WellKnownPart.dname = 9

-- RDI_CurTimeElt
pub data CurTimeElt : Type 0 where
  error itself time time_low time_high inacclo inacchi tdf : CurTimeElt

abbrev pub elt_number : CurTimeElt → ℕ
elt_number CurTimeElt.error = 0
elt_number CurTimeElt.itself = 1
elt_number CurTimeElt.time = 2
elt_number CurTimeElt.time_low = 3
elt_number CurTimeElt.time_high = 4
elt_number CurTimeElt.inacclo = 5
elt_number CurTimeElt.inacchi = 6
elt_number CurTimeElt.tdf = 7

-- The op of the head node. `curtime_start` is `$curtime` before comp_done, without an argument.
pub data Start : Type 0 where
  wkp : WellKnownPart → Start
  special : Text → Start
  curtime_start : Start
  curtime : CurTimeElt → Start

-- The op of a component part.
pub data Part : Type 0 where
  dot_len dot_d dot_tid dot_rid tagdef : Part
  dot_id assoc tagid tagchar : Text → Part
  dot_num index tagnum : ℤ → Part
  tagbool : Bool → Part

abbrev pub start_op : Start → Op
start_op (wkp w) = record { code = OpCode.wkp_nc2u; arg = OpArg.nc_us (wkp_number w) }
start_op (special t) = record { code = OpCode.special_sc2u; arg = OpArg.sc t }
start_op curtime_start = plain_op OpCode.ctelt_nc2n
start_op (curtime e) = record { code = OpCode.ctelt_nc2n; arg = OpArg.nc_us (elt_number e) }

abbrev pub part_op : Part → Op
part_op Part.dot_len = plain_op OpCode.dot_len_u2n_l
part_op Part.dot_d = plain_op OpCode.dot_d_u2u
part_op Part.dot_tid = plain_op OpCode.dot_tid_u2s
part_op Part.dot_rid = plain_op OpCode.dot_rid_u2s
part_op Part.tagdef = plain_op OpCode.tagdef_u2u
part_op (Part.dot_id t) = record { code = OpCode.dot_id_usc2u; arg = OpArg.sc t }
part_op (Part.assoc t) = record { code = OpCode.assoc_usc2u; arg = OpArg.sc t }
part_op (Part.tagid t) = record { code = OpCode.tagid_usc2u; arg = OpArg.sc t }
part_op (Part.tagchar t) = record { code = OpCode.tagchar_usc2u; arg = OpArg.sc t }
part_op (Part.dot_num n) = record { code = OpCode.dot_num_ulc2u; arg = OpArg.nc_l n }
part_op (Part.index n) = record { code = OpCode.index_ulc2u; arg = OpArg.nc_l n }
part_op (Part.tagnum n) = record { code = OpCode.tagnum_ulc2u; arg = OpArg.nc_l n }
part_op (Part.tagbool x) = record { code = OpCode.tagbool_ubc2u; arg = OpArg.bc x }

pub record Component : Type 0 where
  pub start : Start
  pub parts : List Part

abbrev pub component_node : Component → Constraint
component_node c = chain (start_op c.start) (map part_op c.parts)

-- The error messages of the constructors.
pub data BuildError : Type 0 where
  after_end_part number_overflow curtime_in end_part_in curtime_default default_without_d :
      BuildError

pub data Built (A : Type 0) : Type 0 where
  built : A → Built A
  rejected : BuildError → Built A

-- _assert_not_endpart, on the last node.
abbrev pub is_end_part : Part → Bool
is_end_part Part.dot_len = true
is_end_part Part.dot_d = true
is_end_part Part.dot_tid = true
is_end_part Part.dot_rid = true
is_end_part _ = false

unfoldable pub ends_in_part : List Part → Bool
ends_in_part [] = false
ends_in_part (p ∷ []) = is_end_part p
ends_in_part (p ∷ q ∷ ps) = ends_in_part (q ∷ ps)

-- _append_rightmost behind _assert_not_endpart.
unfoldable pub add_last : Part → Component → Built Component
unfolding ends_in_part
add_last p c =
    if ends_in_part c.parts
    then rejected BuildError.after_end_part
    else built (record c { parts = c.parts ++ (p ∷ []) })

-- The cast of `long` to a CORBA::Long.
unfoldable pub to_long : ℤ → ℤ
to_long (pos n) =
    if ltb (n % 2 ^ 32) (2 ^ 31) then pos (n % 2 ^ 32) else negsuc (2 ^ 32 - n % 2 ^ 32 - 1)
to_long (negsuc n) =
    if ltb (n % 2 ^ 32) (2 ^ 31) then negsuc (n % 2 ^ 32) else pos (2 ^ 32 - n % 2 ^ 32 - 1)

abbrev pub neg : ℤ → ℤ
neg (pos zero) = pos zero
neg (pos (suc n)) = negsuc n
neg (negsuc n) = pos (suc n)

-- What the grammar has after a component: .ident, .digits, [digits], (ident), .(), .(bool),
-- .(string), .(ident), .(+digits) and .(-digits).
pub data PartToken : Type 0 where
  dot_ident dot_digits in_brackets in_parens tag_string tag_ident : Text → PartToken
  tag_empty : PartToken
  tag_bool : Bool → PartToken
  tag_digits : Text → Bool → PartToken
