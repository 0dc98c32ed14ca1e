-- ===== src/Rvm/Value.antt =====
-- RDI_RTVal and RDI_RTValKind (include/RDIDynamicEvalDefs.h), and the tests over kinds at the head
-- of lib/RDIRVM.cc. Who frees a string or a DynAny, the flag `_free`, is left out: values are copied.
use omni_notify_omni_orb.Common.{
  ℕ, Bool, true, false, ◌||◌, Option, none, some, [], ◌∷◌, ltb, ◌-◌, if◌then◌else◌,
}
use omni_notify_omni_orb.Common.Int.{ℤ, pos, negsuc}
use omni_notify_omni_orb.OpSeq.Seq.{Text}

pub data RtKind : Type 0 where
  null void ushort short ulong long ulonglong longlong float double : RtKind
  boolean char octet enum_ident enum_val string char_or_string abstime reltime dynany : RtKind

-- A float or a double is its bit pattern; an absolute time is its time, its inaccuracy in two parts
-- and its displacement. `D` is the type of the DynAny objects.
pub data RtVal (D : Type 0) : Type 0 where
  null void : RtVal D
  ushort ulong ulonglong float double char octet reltime : ℕ → RtVal D
  short long longlong : ℤ → RtVal D
  boolean : Bool → RtVal D
  enum_ident string char_or_string : Text → RtVal D
  enum_val dynany : D → RtVal D
  abstime : ℕ → ℕ → ℕ → ℤ → RtVal D

-- `_tckind`
abbrev pub kind_of : {D : Type 0} → RtVal D → RtKind
kind_of RtVal.null = RtKind.null
kind_of RtVal.void = RtKind.void
kind_of (RtVal.ushort x) = RtKind.ushort
kind_of (RtVal.ulong x) = RtKind.ulong
kind_of (RtVal.ulonglong x) = RtKind.ulonglong
kind_of (RtVal.float x) = RtKind.float
kind_of (RtVal.double x) = RtKind.double
kind_of (RtVal.char x) = RtKind.char
kind_of (RtVal.octet x) = RtKind.octet
kind_of (RtVal.reltime x) = RtKind.reltime
kind_of (RtVal.short x) = RtKind.short
kind_of (RtVal.long x) = RtKind.long
kind_of (RtVal.longlong x) = RtKind.longlong
kind_of (RtVal.boolean x) = RtKind.boolean
kind_of (RtVal.enum_ident x) = RtKind.enum_ident
kind_of (RtVal.string x) = RtKind.string
kind_of (RtVal.char_or_string x) = RtKind.char_or_string
kind_of (RtVal.enum_val x) = RtKind.enum_val
kind_of (RtVal.dynany x) = RtKind.dynany
kind_of (RtVal.abstime x y z t) = RtKind.abstime

-- RDI_TCKIND_STRING
abbrev pub is_string : RtKind → Bool
is_string RtKind.string = true
is_string RtKind.char_or_string = true
is_string _ = false

-- RDI_TCKIND_ENUM
abbrev pub is_enum : RtKind → Bool
is_enum RtKind.enum_val = true
is_enum RtKind.enum_ident = true
is_enum _ = false

-- RDI_TCKIND_NUMBER
abbrev pub is_number : RtKind → Bool
is_number RtKind.ushort = true
is_number RtKind.short = true
is_number RtKind.ulong = true
is_number RtKind.long = true
is_number RtKind.ulonglong = true
is_number RtKind.longlong = true
is_number RtKind.float = true
is_number RtKind.double = true
is_number _ = false

-- RDI_TCKIND_CANBE_NUMBER
abbrev pub canbe_number : RtKind → Bool
canbe_number RtKind.boolean = true
canbe_number RtKind.char = true
canbe_number RtKind.octet = true
canbe_number RtKind.char_or_string = true
canbe_number _ = false

-- RDI_TCKIND_NUMERIC
abbrev pub is_numeric : RtKind → Bool
is_numeric k = is_number k || canbe_number k

-- RDI_TCKIND_IS_SIGNED
abbrev pub is_signed : RtKind → Bool
is_signed RtKind.ulonglong = false
is_signed RtKind.ulong = false
is_signed RtKind.ushort = false
is_signed _ = true

-- The first character of a string, which ends in a null character. A `char` is signed.
abbrev pub leading_char : Text → ℤ
leading_char [] = pos 0
leading_char (x ∷ t) = if ltb x 128 then pos x else negsuc (255 - x)

-- `(CORBA::UShort)` of a signed character
abbrev pub ushort_of_char : ℤ → ℕ
ushort_of_char (pos n) = n
ushort_of_char (negsuc n) = 65535 - n

-- RDI_RVM::_force2num
unfoldable pub force2num : {D : Type 0} → RtVal D → Option (RtVal D)
force2num (RtVal.char c) = some (RtVal.ushort c)
force2num (RtVal.boolean b) = some (RtVal.ushort (if b then 1 else 0))
force2num (RtVal.octet o) = some (RtVal.ushort o)
force2num (RtVal.char_or_string t) = some (RtVal.ushort (ushort_of_char (leading_char t)))
force2num _ = none
