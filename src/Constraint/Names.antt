-- ===== src/Constraint/Names.antt =====
-- The names that the construction of components compares with (lib/RDIConstraint.cc).
use omni_notify_omni_orb.Common.{List, [], ◌∷◌}
use omni_notify_omni_orb.OpSeq.Seq.{Text}
use omni_notify_omni_orb.Constraint.Component.{Part, WellKnownPart, CurTimeElt}

-- The identifiers that are no field names, in the order that they are compared.
abbrev pub end_parts : List (Text × Part)
end_parts =
    ((b'_' ∷ b'd' ∷ []), Part.dot_d)
    ∷ ((b'_' ∷ b'l' ∷ b'e' ∷ b'n' ∷ b'g' ∷ b't' ∷ b'h' ∷ []), Part.dot_len)
    ∷ ((b'_' ∷ b't' ∷ b'y' ∷ b'p' ∷ b'e' ∷ b'_' ∷ b'i' ∷ b'd' ∷ []), Part.dot_tid)
    ∷ ((b'_' ∷ b'r' ∷ b'e' ∷ b'p' ∷ b'o' ∷ b's' ∷ b'_' ∷ b'i' ∷ b'd' ∷ []), Part.dot_rid)
    ∷ []

-- `$name`
abbrev pub special_parts : List (Text × WellKnownPart)
special_parts =
    ((b'h' ∷ b'e' ∷ b'a' ∷ b'd' ∷ b'e' ∷ b'r' ∷ []), WellKnownPart.hdr)
    ∷ (
      (b'f' ∷ b'i' ∷ b'l' ∷ b't' ∷ b'e' ∷ b'r' ∷ b'a' ∷ b'b' ∷ b'l' ∷ b'e' ∷ b'_' ∷ b'd' ∷ b'a'
          ∷ b't' ∷ b'a' ∷ []),
      WellKnownPart.fdata,
    )
    ∷ (
      (b'r' ∷ b'e' ∷ b'm' ∷ b'a' ∷ b'i' ∷ b'n' ∷ b'd' ∷ b'e' ∷ b'r' ∷ b'_' ∷ b'o' ∷ b'f' ∷ b'_'
          ∷ b'b' ∷ b'o' ∷ b'd' ∷ b'y' ∷ []),
      WellKnownPart.rob,
    )
    ∷ (
      (b'e' ∷ b'v' ∷ b'e' ∷ b'n' ∷ b't' ∷ b'_' ∷ b'n' ∷ b'a' ∷ b'm' ∷ b'e' ∷ []),
      WellKnownPart.ename,
    )
    ∷ ((b't' ∷ b'y' ∷ b'p' ∷ b'e' ∷ b'_' ∷ b'n' ∷ b'a' ∷ b'm' ∷ b'e' ∷ []), WellKnownPart.tname)
    ∷ (
      (b'd' ∷ b'o' ∷ b'm' ∷ b'a' ∷ b'i' ∷ b'n' ∷ b'_' ∷ b'n' ∷ b'a' ∷ b'm' ∷ b'e' ∷ []),
      WellKnownPart.dname,
    )
    ∷ (
      (b'e' ∷ b'v' ∷ b'e' ∷ b'n' ∷ b't' ∷ b'_' ∷ b't' ∷ b'y' ∷ b'p' ∷ b'e' ∷ []),
      WellKnownPart.etype,
    )
    ∷ (
      (b'f' ∷ b'i' ∷ b'x' ∷ b'e' ∷ b'd' ∷ b'_' ∷ b'h' ∷ b'e' ∷ b'a' ∷ b'd' ∷ b'e' ∷ b'r' ∷ []),
      WellKnownPart.fhdr,
    )
    ∷ (
      (b'v' ∷ b'a' ∷ b'r' ∷ b'i' ∷ b'a' ∷ b'b' ∷ b'l' ∷ b'e' ∷ b'_' ∷ b'h' ∷ b'e' ∷ b'a' ∷ b'd'
          ∷ b'e' ∷ b'r' ∷ []),
      WellKnownPart.vhdr,
    )
    ∷ []

-- `$.name`
abbrev pub dollar_parts : List (Text × WellKnownPart)
dollar_parts =
    (
      (b'r' ∷ b'e' ∷ b'm' ∷ b'a' ∷ b'i' ∷ b'n' ∷ b'd' ∷ b'e' ∷ b'r' ∷ b'_' ∷ b'o' ∷ b'f' ∷ b'_'
          ∷ b'b' ∷ b'o' ∷ b'd' ∷ b'y' ∷ []),
      WellKnownPart.rob,
    )
    ∷ (
      (b'f' ∷ b'i' ∷ b'l' ∷ b't' ∷ b'e' ∷ b'r' ∷ b'a' ∷ b'b' ∷ b'l' ∷ b'e' ∷ b'_' ∷ b'd' ∷ b'a'
          ∷ b't' ∷ b'a' ∷ []),
      WellKnownPart.fdata,
    )
    ∷ ((b'h' ∷ b'e' ∷ b'a' ∷ b'd' ∷ b'e' ∷ b'r' ∷ []), WellKnownPart.hdr)
    ∷ []

-- `$curtime.name`
abbrev pub curtime_parts : List (Text × CurTimeElt)
curtime_parts =
    ((b't' ∷ b'i' ∷ b'm' ∷ b'e' ∷ []), CurTimeElt.time)
    ∷ ((b'i' ∷ b'n' ∷ b'a' ∷ b'c' ∷ b'c' ∷ b'l' ∷ b'o' ∷ []), CurTimeElt.inacclo)
    ∷ ((b'i' ∷ b'n' ∷ b'a' ∷ b'c' ∷ b'c' ∷ b'h' ∷ b'i' ∷ []), CurTimeElt.inacchi)
    ∷ ((b't' ∷ b'd' ∷ b'f' ∷ []), CurTimeElt.tdf)
    ∷ []

-- `$curtime.time.name`
abbrev pub time_parts : List (Text × CurTimeElt)
time_parts =
    ((b'l' ∷ b'o' ∷ b'w' ∷ []), CurTimeElt.time_low)
    ∷ ((b'h' ∷ b'i' ∷ []), CurTimeElt.time_high)
    ∷ []

abbrev pub time_name : Text
time_name = b't' ∷ b'i' ∷ b'm' ∷ b'e' ∷ []

abbrev pub curtime_name : Text
curtime_name = b'c' ∷ b'u' ∷ b'r' ∷ b't' ∷ b'i' ∷ b'm' ∷ b'e' ∷ []
