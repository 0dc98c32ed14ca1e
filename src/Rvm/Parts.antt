-- ===== src/Rvm/Parts.antt =====
-- The ops that look up a component of an event (lib/RDIRVM.cc). A component is not there when
-- `r_code` is set; the ops up to an end op are then skipped.
use omni_notify_omni_orb.Common.{
  ℕ, ◌+◌, Bool, false, not, ◌||◌, Option, none, some, List, [], ◌∷◌, length, get_elem?, ltb, leb,
  ◌==◌, check, ◌>>=◌, ◌>>◌, if◌then◌else◌,
}
use omni_notify_omni_orb.Common.Int.{ℤ, pos, negsuc}
use omni_notify_omni_orb.OpSeq.Seq.{Op, OpArg, Text}
use omni_notify_omni_orb.OpSeq.Jumps.{str_eq}
use omni_notify_omni_orb.Rvm.Value.{RtVal, RtKind, kind_of, leading_char}
use omni_notify_omni_orb.Rvm.Env.{Env, simplify, cvt2dbl}
use omni_notify_omni_orb.Rvm.Arith.{undefined_code, type_mismatch, none_such}
use omni_notify_omni_orb.Rvm.Machine.{Rvm, StepOutcome, escapes, next_op, push, cleanup}

-- What a part op makes of the top: another value, a missing component with its code, or an
-- exception that leaves `eval`.
pub data PartResult (D : Type 0) : Type 0 where
  found : RtVal D → PartResult D
  missing : ℕ → PartResult D
  uncaught : PartResult D

-- The position of the first member of that name; the search ends at a name that cannot be read.
unfoldable pub find_member : Text → List (Option Text) → ℕ → Option ℕ
unfolding str_eq
find_member t [] i = none
find_member t (n ∷ ns) i =
    let later = find_member t ns (i + 1) in
    elim n [ none ↦ none | some s ↦ if str_eq t s then some i else later ]

-- `seek(i)` and `current_component()`, `none` for nil or an exception.
abbrev pub component_at : {D : Type 0} → List (Option D) → ℕ → Option D
component_at cs i = elim (get_elem? cs i) [ none ↦ none | some c ↦ c ]

-- The same at a signed position; a negative one is not there.
abbrev pub component_at_ℤ : {D : Type 0} → List (Option D) → ℤ → Option D
component_at_ℤ cs (pos i) = component_at cs i
component_at_ℤ cs (negsuc i) = none

module _ {D A : Type 0} (env : Env D A) where
  -- A DynAny on the stack, simplified, or a missing component; `none` is a fault of `simplify`.
  unfoldable pub element : Option D → Option (PartResult D)
  unfolding simplify
  element none = some (missing none_such)
  element (some d) = simplify env (RtVal.dynany d) >>= λ v. some (found v)

  -- A part of a DynAny; another value has no such part, for which the code is `c`.
  abbrev pub of_dynany : ℕ → (D → Option (PartResult D)) → RtVal D → Option (PartResult D)
  of_dynany c f (RtVal.dynany d) = f d
  of_dynany c f _ = some (missing c)

  unfoldable pub dot_len : D → Option (PartResult D)
  dot_len d =
      if env.api.is_seq d || env.api.is_array d
      then some (found (RtVal.ulong (length (env.api.components d))))
      else some (missing none_such)

  unfoldable pub dot_d : D → Option (PartResult D)
  unfolding element
  dot_d d =
      if env.api.is_union d then element (env.api.discriminator d) else some (missing type_mismatch)

  -- The name and the id of the value's TypeCode. A null pointer becomes the empty string in the
  -- accessors of the DynAny.
  abbrev pub type_text :
      (D → Option Text) → (RtKind → Option Text) → RtVal D → Option (PartResult D)
  type_text of_dyn of_kind (RtVal.dynany d) =
      some (elim (of_dyn d) [ none ↦ uncaught | some t ↦ found (RtVal.string t) ])
  type_text of_dyn of_kind (RtVal.enum_val d) =
      some (elim (of_dyn d) [ none ↦ uncaught | some t ↦ found (RtVal.string t) ])
  type_text of_dyn of_kind (RtVal.enum_ident s) = none
  type_text of_dyn of_kind (RtVal.char_or_string s) = none
  type_text of_dyn of_kind v =
      some (elim (of_kind (kind_of v)) [ none ↦ uncaught | some t ↦ found (RtVal.string t) ])

  -- The member of a union, where the test of its name has been passed.
  unfoldable pub dot_id : Text → D → Option (PartResult D)
  unfolding find_member element str_eq
  dot_id t d =
      if env.api.is_struct d
      then elim (find_member t (env.api.member_names d) 0) [
        | none ↦ some (missing none_such)
        | some i ↦ element (component_at (env.api.components d) i)
      ]
      else if env.api.is_union d
      then elim (env.api.union_name d) [
        | none ↦ some (missing none_such)
        | some n ↦ if str_eq t n then element (env.api.union_member d) else some (missing none_such)
      ]
      else some (missing type_mismatch)

  -- `num >= members` for signed numbers
  abbrev pub past_end : ℤ → ℕ → Bool
  past_end (pos n) k = leb k n
  past_end (negsuc n) k = false

  -- The member of a union by its position; a position before the first one is an exception.
  unfoldable pub union_num : ℤ → Text → List Text → D → Option (PartResult D)
  unfolding element str_eq
  union_num (negsuc i) n names d = some (missing type_mismatch)
  union_num (pos i) n names d = elim (get_elem? names i) [
    | none ↦ some (missing none_such)
    | some s ↦ if str_eq n s then element (env.api.union_member d) else some (missing none_such)
  ]

  unfoldable pub dot_num : ℤ → D → Option (PartResult D)
  unfolding element union_num
  dot_num i d =
      if env.api.is_struct d
      then element (component_at_ℤ (env.api.components d) i)
      else if env.api.is_union d
      then elim (env.api.union_name d) [
        | none ↦ some (missing none_such)
        | some n ↦ elim (env.api.union_type_names d) [
          | none ↦ some (missing type_mismatch)
          | some names ↦ union_num i n names d
        ]
      ]
      else some (missing type_mismatch)

  -- The scan of a sequence of name and value pairs; it ends at the first exception.
  unfoldable pub find_pair : Text → List (Option D) → Option D
  unfolding str_eq
  find_pair t [] = none
  find_pair t (e ∷ es) =
      let later = find_pair t es in
      elim e [
        | none ↦ none
        | some d ↦ elim (component_at (env.api.components d) 0) [
          | none ↦ none
          | some k ↦ elim (env.api.dyn.get_string k) [
            | none ↦ none
            | some s ↦ if str_eq t s then component_at (env.api.components d) 1 else later
          ]
        ]
      ]

  unfoldable pub assoc : Text → D → Option (PartResult D)
  unfolding find_pair element
  assoc t d =
      if env.api.is_seq d
      then element (find_pair t (env.api.components d))
      else some (missing none_such)

  unfoldable pub index : ℤ → D → Option (PartResult D)
  unfolding element
  index i d =
      if env.api.is_seq d || env.api.is_array d
      then element (component_at_ℤ (env.api.components d) i)
      else some (missing none_such)

  -- The parts of a union that its discriminator selects.
  unfoldable pub union_part : (D → Option (PartResult D)) → D → Option (PartResult D)
  union_part f d = if env.api.is_union d then f d else some (missing type_mismatch)

  unfoldable pub default_part : D → Option (PartResult D)
  unfolding element
  default_part u = elim (env.api.at_default u) [
    | none ↦ some (missing none_such)
    | some b ↦ if b then element (env.api.union_member u) else some (missing none_such)
  ]

  unfoldable pub tagdef : D → Option (PartResult D)
  unfolding union_part default_part
  tagdef d = union_part default_part d

  unfoldable pub enum_part : Text → D → Option (PartResult D)
  unfolding element str_eq
  enum_part t u = elim (env.api.discriminator u) [
    | none ↦ some (missing none_such)
    | some e ↦
        if env.api.is_dyn_enum e
        then elim (env.api.enum_string e) [
          | none ↦ some (missing none_such)
          | some s ↦
              if str_eq t s then element (env.api.union_member u) else some (missing none_such)
        ]
        else some (missing none_such)
  ]

  unfoldable pub tagid : Text → D → Option (PartResult D)
  unfolding union_part enum_part
  tagid t d = union_part (enum_part t) d

  unfoldable pub number_part : ℕ → D → Option (PartResult D)
  unfolding element simplify cvt2dbl
  number_part num u = elim (env.api.discriminator u) [
    | none ↦ some (missing none_such)
    | some e ↦ simplify env (RtVal.dynany e) >>= λ v. elim (cvt2dbl env v) [
      | none ↦ some (missing none_such)
      | some x ↦
          if env.floats.feq num x
          then element (env.api.union_member u)
          else some (missing none_such)
    ]
  ]

  -- The tag is the number `num`, as doubles.
  unfoldable pub tag_double : ℕ → D → Option (PartResult D)
  unfolding union_part number_part
  tag_double num d = union_part (number_part num) d

  unfoldable pub tagnum : ℤ → D → Option (PartResult D)
  unfolding tag_double
  tagnum i d = tag_double (env.floats.of_int i) d

  unfoldable pub tagchar : Text → D → Option (PartResult D)
  unfolding tag_double
  tagchar t d = tag_double (env.floats.of_int (leading_char t)) d

  unfoldable pub tagbool : Bool → D → Option (PartResult D)
  unfolding tag_double
  tagbool b d = tag_double (env.floats.of_int (pos (if b then 1 else 0))) d

  -- The answer of the default test, `none` for another value than a union.
  unfoldable pub default_of : RtVal D → Option Bool
  default_of (RtVal.dynany d) =
      if env.api.is_union d
      then some (elim (env.api.at_default d) [ none ↦ false | some b ↦ b ])
      else none
  default_of _ = none

module _ {D A : Type 0} (env : Env D A) (ops : List Op) where
  unfoldable pub place : List (RtVal D) → Rvm D → PartResult D → Option (StepOutcome D)
  place vs m (found v) = next_op env ops (record m { stack = v ∷ vs })
  place vs m (missing c) = next_op env ops (record m { r_code = c })
  place vs m uncaught = some escapes

  -- A part op: skipped when a component before it is missing.
  unfoldable pub walk_part : (RtVal D → Option (PartResult D)) → Rvm D → Option (StepOutcome D)
  unfolding next_op place
  walk_part f m =
      if not (m.r_code == undefined_code)
      then next_op env ops m
      else elim m.stack [ [] ↦ none | v ∷ vs ↦ f v >>= place vs m ]

  -- The start ops: a null value, in whose place the component comes when it is there.
  unfoldable pub start_part : Option (RtVal D) → Rvm D → Option (StepOutcome D)
  unfolding push
  start_part r m = check (m.r_code == undefined_code) >> elim r [
    | none ↦ push env ops RtVal.null (record m { r_code = none_such })
    | some v ↦ push env ops v m
  ]

  -- A number that is no RDI_WellKnownPart leaves the null value.
  unfoldable pub eval_wkp : OpArg → Rvm D → Option (StepOutcome D)
  unfolding start_part
  eval_wkp (OpArg.nc_us n) m =
      if ltb 9 n then start_part (some RtVal.null) m else start_part (env.event.well_known n) m
  eval_wkp _ m = none

  unfoldable pub eval_special : OpArg → Rvm D → Option (StepOutcome D)
  unfolding start_part
  eval_special (OpArg.sc t) m = start_part (env.event.lookup_rtval t) m
  eval_special _ m = none

  -- The end ops.
  unfoldable pub eval_compend : Rvm D → Option (StepOutcome D)
  unfolding next_op
  eval_compend m = if not (m.r_code == undefined_code) then cleanup env ops m else next_op env ops m

  unfoldable pub eval_default : Rvm D → Option (StepOutcome D)
  unfolding next_op default_of
  eval_default m = if not (m.r_code == undefined_code) then cleanup env ops m else elim m.stack [
    | [] ↦ none
    | v ∷ vs ↦ elim (default_of env v) [
      | none ↦ cleanup env ops (record m { r_code = type_mismatch })
      | some b ↦ next_op env ops (record m { stack = RtVal.boolean b ∷ vs })
    ]
  ]

  unfoldable pub eval_exist : Rvm D → Option (StepOutcome D)
  unfolding next_op
  eval_exist m = elim m.stack [
    | [] ↦ none
    | v ∷ vs ↦ next_op env ops (record m {
      stack = RtVal.boolean (m.r_code == undefined_code) ∷ vs;
      r_code = undefined_code;
    })
  ]
