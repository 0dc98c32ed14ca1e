-- ===== src/Rvm/Tests/Sample.antt =====
-- An event of one struct with the member `a`, which is 7, for the machine of lib/RDIRVM.cc.
use omni_notify_omni_orb.Common.{
  ℕ, ◌+◌, Bool, true, false, Option, none, some, List, [], ◌∷◌, ◌≡◌, refl, subst, some_eq, ◌==◌,
  ◌<◌, ◌∙◌, arith, ltb,
}
use omni_notify_omni_orb.Common.Int.{ℤ, pos, negsuc}
use omni_notify_omni_orb.OpSeq.Seq.{Text}
use omni_notify_omni_orb.Rvm.Value.{RtVal, kind_of}
use omni_notify_omni_orb.Rvm.Env.{Env, Floats, TcKind, Getters, DynApi, is_any}
use omni_notify_omni_orb.Rvm.Typing.{IsSound, is_component}

-- A ulong, a struct with one member `a`, and an Any that holds such a struct.
pub data Thing : Type 0 where
  leaf box any_of : ℕ → Thing

abbrev pub name_a : Text
name_a = b'a' ∷ []

abbrev pub thing_type : Thing → TcKind
thing_type (leaf n) = TcKind.ulong
thing_type (box n) = TcKind.other
thing_type (any_of n) = TcKind.any

abbrev pub thing_ulong : Thing → Option ℕ
thing_ulong (leaf n) = some n
thing_ulong _ = none

abbrev pub thing_getters : Getters Thing
thing_getters = record {
  type_of = thing_type;
  get_ushort = λ x. none;
  get_short = λ x. none;
  get_ulong = thing_ulong;
  get_long = λ x. none;
  get_ulonglong = λ x. none;
  get_longlong = λ x. none;
  get_float = λ x. none;
  get_double = λ x. none;
  get_boolean = λ x. none;
  get_char = λ x. none;
  get_octet = λ x. none;
  get_string = λ x. none;
}

abbrev pub is_box : Thing → Bool
is_box (box n) = true
is_box _ = false

abbrev pub thing_components : Thing → List (Option Thing)
thing_components (box n) = some (leaf n) ∷ []
thing_components _ = []

abbrev pub thing_names : Thing → List (Option Text)
thing_names (box n) = some name_a ∷ []
thing_names _ = []

abbrev pub thing_inside : Thing → Option Thing
thing_inside (any_of n) = some (box n)
thing_inside _ = none

abbrev pub thing_depth : Thing → ℕ
thing_depth (any_of n) = 1
thing_depth _ = 0

abbrev pub thing_api : DynApi Thing Thing
thing_api = record {
  dyn = thing_getters;
  any = thing_getters;
  get_any = thing_inside;
  create = λ x. some x;
  is_struct = is_box;
  is_union = λ x. false;
  is_seq = λ x. false;
  is_array = λ x. false;
  is_dyn_enum = λ x. false;
  components = thing_components;
  member_names = thing_names;
  union_name = λ x. none;
  union_member = λ x. none;
  union_type_names = λ x. none;
  at_default = λ x. none;
  discriminator = λ x. none;
  enum_string = λ x. none;
  enum_ulong = λ x. none;
  same_type = λ x y. false;
  name = λ x. some [];
  id = λ x. some [];
  depth = thing_depth;
}

-- Whole numbers in place of doubles; the negative ones are not used.
abbrev pub whole : ℤ → ℕ
whole (pos n) = n
whole (negsuc n) = 0

abbrev pub wholes : Floats
wholes = record {
  of_int = whole;
  to_double = λ x. x;
  to_float = λ x. x;
  fadd = λ x y. x + y;
  fsub = λ x y. x;
  fmul = λ x y. x;
  fdiv = λ x y. x;
  flt = ltb;
  feq = λ x y. x == y;
}

abbrev pub sample_env : Env Thing Thing
sample_env = record {
  floats = wholes;
  api = thing_api;
  basics = record { basic_name = λ k. none; basic_id = λ k. none };
  event = record {
    timestamp = 0;
    tdf = pos 0;
    clock_inacc = none;
    well_known = λ k. some (RtVal.dynany (box 7));
    lookup_rtval = λ t. none;
  };
}

pub sample-IsSound : IsSound sample_env
sample-IsSound = record {
  opens = λ d e. no_any d e;
  nested = less_deep;
  parts = λ k v e. subst (λ w. is_component (kind_of w) ≡ true) (some_eq e) refl;
  fields = λ t v e. cc;
}
  where
    no_any :
        (d : Thing) → is_any (thing_type d) ≡ true → (x : Thing) × (thing_api.get_any d ≡ some x)
    no_any (leaf n) e = cc
    no_any (box n) e = cc
    no_any (any_of n) e = (box n, refl)

    less_deep :
        (d x y : Thing) → thing_inside d ≡ some x → some x ≡ some y → thing_depth y < thing_depth d
    less_deep (leaf n) x y e k = cc
    less_deep (box n) x y e k = cc
    less_deep (any_of n) x y e k =
        subst (λ z. thing_depth z < 1) (some_eq e ∙ some_eq k) (omega arith)
