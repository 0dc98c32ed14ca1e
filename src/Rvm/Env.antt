-- ===== src/Rvm/Env.antt =====
-- What the machine relies on and this library does not define: the arithmetic of doubles, the DynAny
-- objects of the ORB, and the event that a constraint is evaluated on. A call that may throw returns
-- an Option, `none` for the exception.
use omni_notify_omni_orb.Common.{
  ℕ, zero, suc, Bool, true, false, Option, none, some, List, ◌>>=◌, if◌then◌else◌,
}
use omni_notify_omni_orb.Common.Int.{ℤ, pos}
use omni_notify_omni_orb.OpSeq.Seq.{Text}
use omni_notify_omni_orb.Rvm.Value.{RtVal, RtKind, leading_char}

-- Bit patterns of floats and doubles, and what the machine does with them.
pub record Floats : Type 0 where
  pub of_int : ℤ → ℕ
  pub to_double : ℕ → ℕ
  pub to_float : ℕ → ℕ
  pub fadd : ℕ → ℕ → ℕ
  pub fsub : ℕ → ℕ → ℕ
  pub fmul : ℕ → ℕ → ℕ
  pub fdiv : ℕ → ℕ → ℕ
  pub flt : ℕ → ℕ → Bool
  pub feq : ℕ → ℕ → Bool

-- The TypeCode of a value, as far as CORBA's `equivalent` is asked about it.
pub data TcKind : Type 0 where
  null void ushort short ulong long ulonglong longlong float double : TcKind
  boolean char octet string any other : TcKind

-- The type of a value, and the values it can be asked for.
pub record Getters (X : Type 0) : Type 0 where
  pub type_of : X → TcKind
  pub get_ushort : X → Option ℕ
  pub get_short : X → Option ℤ
  pub get_ulong : X → Option ℕ
  pub get_long : X → Option ℤ
  pub get_ulonglong : X → Option ℕ
  pub get_longlong : X → Option ℤ
  pub get_float : X → Option ℕ
  pub get_double : X → Option ℕ
  pub get_boolean : X → Option Bool
  pub get_char : X → Option ℕ
  pub get_octet : X → Option ℕ
  pub get_string : X → Option Text

-- A DynAny: which interfaces it narrows to; the components of a struct, a sequence or an array in
-- the order that `seek` counts them; the parts of a union; the value of an enum; how deep Anys are
-- nested in it.
pub record DynApi (D A : Type 0) : Type 0 where
  pub dyn : Getters D
  pub any : Getters A
  pub get_any : D → Option A
  pub create : A → Option D
  pub is_struct : D → Bool
  pub is_union : D → Bool
  pub is_seq : D → Bool
  pub is_array : D → Bool
  pub is_dyn_enum : D → Bool
  pub components : D → List (Option D)
  pub member_names : D → List (Option Text)
  pub union_name : D → Option Text
  pub union_member : D → Option D
  pub union_type_names : D → Option (List Text)
  pub at_default : D → Option Bool
  pub discriminator : D → Option D
  pub enum_string : D → Option Text
  pub enum_ulong : D → Option ℕ
  pub same_type : D → D → Bool
  pub name : D → Option Text
  pub id : D → Option Text
  pub depth : D → ℕ

-- The TypeCode of a kind that is not a DynAny: its name and id, `none` where CORBA throws BadKind.
pub record BasicTypes : Type 0 where
  pub basic_name : RtKind → Option Text
  pub basic_id : RtKind → Option Text

-- RDI_StructuredEvent as the machine sees it, with the server's clock inaccuracy. The well-known
-- parts are numbered as RDI_WellKnownPart.
pub record EventView (D : Type 0) : Type 0 where
  pub timestamp : ℕ
  pub tdf : ℤ
  pub clock_inacc : Option (ℕ × ℕ)
  pub well_known : ℕ → Option (RtVal D)
  pub lookup_rtval : Text → Option (RtVal D)

pub record Env (D A : Type 0) : Type 0 where
  pub floats : Floats
  pub api : DynApi D A
  pub basics : BasicTypes
  pub event : EventView D

abbrev pub is_any : TcKind → Bool
is_any TcKind.any = true
is_any _ = false

-- The types that are tested before enums and Anys.
abbrev pub is_simple : TcKind → Bool
is_simple TcKind.any = false
is_simple TcKind.other = false
is_simple _ = true

abbrev pub some_or {ℓ} : {B : Type ℓ} → B → Option B → B
some_or d none = d
some_or d (some b) = b

module _ {D A : Type 0} (env : Env D A) where
  -- The value of a simple type, read through the getters; `d` where a getter throws.
  abbrev pub simple : {X : Type 0} → Getters X → RtVal D → RtVal D → X → TcKind → RtVal D
  simple g d rest x TcKind.null = RtVal.null
  simple g d rest x TcKind.void = RtVal.void
  simple g d rest x TcKind.ushort = some_or d (g.get_ushort x >>= λ v. some (RtVal.ushort v))
  simple g d rest x TcKind.short = some_or d (g.get_short x >>= λ v. some (RtVal.short v))
  simple g d rest x TcKind.ulong = some_or d (g.get_ulong x >>= λ v. some (RtVal.ulong v))
  simple g d rest x TcKind.long = some_or d (g.get_long x >>= λ v. some (RtVal.long v))
  simple g d rest x TcKind.ulonglong =
      some_or d (g.get_ulonglong x >>= λ v. some (RtVal.ulonglong v))
  simple g d rest x TcKind.longlong = some_or d (g.get_longlong x >>= λ v. some (RtVal.longlong v))
  simple g d rest x TcKind.float = some_or d (g.get_float x >>= λ v. some (RtVal.float v))
  simple g d rest x TcKind.double = some_or d (g.get_double x >>= λ v. some (RtVal.double v))
  simple g d rest x TcKind.boolean = some_or d (g.get_boolean x >>= λ v. some (RtVal.boolean v))
  simple g d rest x TcKind.char = some_or d (g.get_char x >>= λ v. some (RtVal.char v))
  simple g d rest x TcKind.octet = some_or d (g.get_octet x >>= λ v. some (RtVal.octet v))
  simple g d rest x TcKind.string = some_or d (g.get_string x >>= λ v. some (RtVal.string v))
  simple g d rest x _ = rest

  -- RDI_RTVal::init_from_any; what follows on an exception, a null value, is `some_or`'s.
  abbrev pub init_from_any : (D → Option (RtVal D)) → A → Option (RtVal D)
  init_from_any simplified a =
      if is_simple (env.api.any.type_of a)
      then some (simple env.api.any RtVal.null RtVal.null a (env.api.any.type_of a))
      else elim (env.api.create a) [ none ↦ some RtVal.null | some d ↦ simplified d ]

  -- The body of RDI_RTVal::simplify for a DynAny, in as many rounds as Anys are nested.
  unfoldable pub simplify_dyn : ℕ → D → Option (RtVal D)
  simplify_dyn zero d = none
  simplify_dyn (suc f) d =
      let inner : D → Option (RtVal D) = simplify_dyn f in
      if is_simple (env.api.dyn.type_of d)
      then some (simple env.api.dyn (RtVal.dynany d) (RtVal.dynany d) d (env.api.dyn.type_of d))
      else if env.api.is_dyn_enum d
      then some (RtVal.enum_val d)
      else if is_any (env.api.dyn.type_of d)
      then env.api.get_any d >>= init_from_any inner
      else some (RtVal.dynany d)

  -- RDI_RTVal::simplify
  unfoldable pub simplify : RtVal D → Option (RtVal D)
  unfolding simplify_dyn
  simplify (RtVal.dynany d) = simplify_dyn (suc (env.api.depth d)) d
  simplify v = some v

  -- RDI_RTVal::cvt2dbl, `none` for its error; a boolean is 1 or 0.
  unfoldable pub cvt2dbl : RtVal D → Option ℕ
  cvt2dbl (RtVal.ushort v) = some (env.floats.of_int (pos v))
  cvt2dbl (RtVal.short v) = some (env.floats.of_int v)
  cvt2dbl (RtVal.ulong v) = some (env.floats.of_int (pos v))
  cvt2dbl (RtVal.long v) = some (env.floats.of_int v)
  cvt2dbl (RtVal.ulonglong v) = some (env.floats.of_int (pos v))
  cvt2dbl (RtVal.longlong v) = some (env.floats.of_int v)
  cvt2dbl (RtVal.float v) = some (env.floats.to_double v)
  cvt2dbl (RtVal.double v) = some v
  cvt2dbl (RtVal.boolean b) = some (env.floats.of_int (pos (if b then 1 else 0)))
  cvt2dbl (RtVal.char v) = some (env.floats.of_int (pos v))
  cvt2dbl (RtVal.octet v) = some (env.floats.of_int (pos v))
  cvt2dbl (RtVal.char_or_string t) = some (env.floats.of_int (leading_char t))
  cvt2dbl (RtVal.enum_val e) = env.api.enum_ulong e >>= λ n. some (env.floats.of_int (pos n))
  cvt2dbl _ = none
