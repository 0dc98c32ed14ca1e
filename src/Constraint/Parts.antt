-- ===== src/Constraint/Parts.antt =====
-- NewComp, the methods add_*, comp_done, and the grammar's production of a component
-- (lib/RDIConstraint.cc, lib/yacc.y). strcasecmp and strtol are parameters; strtol gives a value and
-- the number of characters read.
use omni_notify_omni_orb.Common.{ℕ, Bool, Option, none, some, List, [], ◌∷◌, ◌>>=◌, if◌then◌else◌}
use omni_notify_omni_orb.Common.Int.{ℤ}
use omni_notify_omni_orb.OpSeq.Seq.{Text}
use omni_notify_omni_orb.Constraint.Component.{
  Component, Start, wkp, special, curtime_start, curtime, Part, PartToken, WellKnownPart,
  CurTimeElt, Built, built, rejected, BuildError, add_last, to_long, neg, ends_in_part, dot_ident,
  dot_digits, in_brackets, in_parens, tag_string, tag_ident, tag_empty, tag_bool, tag_digits,
}
use omni_notify_omni_orb.Constraint.Names.{
  end_parts, special_parts, dollar_parts, curtime_parts, time_parts, time_name, curtime_name,
}
use omni_notify_omni_orb.Constraint.Build.{bad_delim, fix_string}

infixl 6 ◌then_built◌
-- The parser stops at the first error message.
abbrev pub ◌then_built◌ :
    Option (Built Component) → (Component → Option (Built Component)) → Option (Built Component)
none then_built k = none
some (rejected e) then_built k = some (rejected e)
some (built c) then_built k = k c

-- The methods that convert digits: add_dot_num, add_index and add_tag_num.
unfoldable pub add_number : (Text → ℤ × ℕ) → (ℤ → Part) → Text → Component → Built Component
unfolding add_last to_long
add_number strtol part digits c =
    let (value, read) = strtol digits in
    if ends_in_part c.parts
    then rejected BuildError.after_end_part
    else if bad_delim digits read
    then rejected BuildError.number_overflow
    else add_last (part (to_long value)) c

-- add_tag_char; none where _fix_string leaves the string.
unfoldable pub add_tag_char : Text → Component → Option (Built Component)
unfolding add_last
add_tag_char t c =
    if ends_in_part c.parts
    then some (rejected BuildError.after_end_part)
    else (fix_string t >>= λ s'. some (add_last (Part.tagchar s') c))

abbrev pub top_component : Text → Option Part → Component
top_component t (some p) = record { start = wkp WellKnownPart.dollar; parts = p ∷ [] }
top_component t none = record { start = special t; parts = [] }

abbrev pub ident_part : Text → Option Part → Part
ident_part t (some p) = p
ident_part t none = Part.dot_id t

-- The component part of a well-known name, or the same component.
abbrev pub well_known : Component → List Part → Option WellKnownPart → Component
well_known c ps (some w) = record { start = wkp w; parts = ps }
well_known c ps none = c

abbrev pub known_elt : Option CurTimeElt → CurTimeElt
known_elt (some e) = e
known_elt none = CurTimeElt.error

module _ (str_eq_i : Text → Text → Bool) where
  -- A chain of comparisons with `RDI_STR_EQ_I`, else nothing.
  unfoldable pub find_name : {A : Type 0} → Text → List (Text × A) → Option A
  find_name t [] = none
  find_name t ((name, a) ∷ rows) =
      let rest = find_name t rows in if str_eq_i t name then some a else rest

  -- NewComp
  unfoldable pub new_comp : Option Text → Component
  unfolding find_name
  new_comp none = record { start = wkp WellKnownPart.dollar; parts = [] }
  new_comp (some t) =
      if str_eq_i t curtime_name
      then record { start = curtime_start; parts = [] }
      else top_component t (find_name t end_parts)

  unfoldable pub curtime_elt : List Part → CurTimeElt
  unfolding find_name
  curtime_elt [] = CurTimeElt.itself
  curtime_elt (Part.dot_id t ∷ []) = known_elt (find_name t curtime_parts)
  curtime_elt (Part.dot_id t ∷ Part.dot_id t' ∷ []) =
      if str_eq_i t time_name then known_elt (find_name t' time_parts) else CurTimeElt.error
  curtime_elt _ = CurTimeElt.error

  unfoldable pub comp_done_on : Start → List Part → Component
  unfolding curtime_elt find_name
  comp_done_on (special t) ps =
      well_known (record { start = special t; parts = ps }) ps (find_name t special_parts)
  comp_done_on (wkp w) (Part.dot_id t ∷ ps) =
      well_known (record { start = wkp w; parts = Part.dot_id t ∷ ps }) ps
        (find_name t dollar_parts)
  comp_done_on (wkp w) ps = record { start = wkp w; parts = ps }
  comp_done_on curtime_start ps = record { start = curtime (curtime_elt ps); parts = [] }
  comp_done_on (curtime e) ps = record { start = curtime (curtime_elt ps); parts = [] }

  -- comp_done
  unfoldable pub comp_done : Component → Component
  unfolding comp_done_on
  comp_done c = comp_done_on c.start c.parts

  module _ (strtol : Text → ℤ × ℕ) where
    -- The grammar's action for what comes after a component.
    unfoldable pub add_part : PartToken → Component → Option (Built Component)
    unfolding add_last add_number add_tag_char find_name
    add_part (dot_ident t) c = some (add_last (ident_part t (find_name t end_parts)) c)
    add_part (dot_digits t) c = some (add_number strtol Part.dot_num t c)
    add_part (in_brackets t) c = some (add_number strtol Part.index t c)
    add_part (in_parens t) c = some (add_last (Part.assoc t) c)
    add_part tag_empty c = some (add_last Part.tagdef c)
    add_part (tag_bool x) c = some (add_last (Part.tagbool x) c)
    add_part (tag_string t) c = add_tag_char t c
    add_part (tag_ident t) c = some (add_last (Part.tagid t) c)
    add_part (tag_digits t minus) c =
        some (add_number strtol (λ n. Part.tagnum (if minus then to_long (neg n) else n)) t c)

    -- The production of a component: what was built so far, and the tokens that follow.
    unfoldable pub add_parts : List PartToken → Component → Option (Built Component)
    unfolding add_part
    add_parts [] c = some (built c)
    add_parts (p ∷ ps) c = add_part p c then_built add_parts ps

    -- `compdone` of the grammar.
    unfoldable pub parse_component : Option Text → List PartToken → Option (Built Component)
    unfolding add_parts new_comp comp_done
    parse_component top ps = add_parts ps (new_comp top) then_built λ c. some (built (comp_done c))
