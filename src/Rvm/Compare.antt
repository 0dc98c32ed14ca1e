-- ===== src/Rvm/Compare.antt =====
-- Comparisons (lib/RDIRVM.cc): _eval_cmp_uu2n and the six tests of its result against zero. Only the
-- sign of strcmp is specified; -1, 0 and 1 stand for it.
use omni_notify_omni_orb.Common.{
  ℕ, ◌+◌, Bool, true, false, not, ◌&&◌, ◌||◌, Option, none, some, List, [], ◌∷◌, get_elem?, ltb,
  ◌==◌, check, ◌>>=◌, ◌>>◌, if◌then◌else◌,
}
use omni_notify_omni_orb.Common.Int.{ℤ, pos, negsuc, ltb_ℤ}
use omni_notify_omni_orb.OpSeq.Codes.{OpCode}
use omni_notify_omni_orb.OpSeq.Seq.{Op, Text}
use omni_notify_omni_orb.Rvm.Value.{
  RtVal, RtKind, kind_of, is_string, is_enum, is_numeric, canbe_number, force2num,
}
use omni_notify_omni_orb.Rvm.Env.{Env, Floats}
use omni_notify_omni_orb.Rvm.Arith.{MachineOp, eval_arithop, type_mismatch, none_such}
use omni_notify_omni_orb.Rvm.Machine.{Rvm, StepOutcome, next_op, signals}
use omni_notify_omni_orb.Rvm.Ops.{settles}

-- RDI_STR_RANK
unfoldable pub str_rank : Text → Text → ℤ
str_rank [] [] = pos 0
str_rank [] (y ∷ t) = negsuc 0
str_rank (x ∷ s) [] = pos 1
str_rank (x ∷ s) (y ∷ t) =
    let below = str_rank s t in if x == y then below else if ltb x y then negsuc 0 else pos 1

-- The six tests of a number against zero.
pub data ZeroTest : Type 0 where
  eqz nez lez ltz gez gtz : ZeroTest

unfoldable pub test_ℤ : ZeroTest → ℤ → Bool
test_ℤ ZeroTest.eqz z = not (ltb_ℤ z (pos 0)) && not (ltb_ℤ (pos 0) z)
test_ℤ ZeroTest.nez z = ltb_ℤ z (pos 0) || ltb_ℤ (pos 0) z
test_ℤ ZeroTest.lez z = not (ltb_ℤ (pos 0) z)
test_ℤ ZeroTest.ltz z = ltb_ℤ z (pos 0)
test_ℤ ZeroTest.gez z = not (ltb_ℤ z (pos 0))
test_ℤ ZeroTest.gtz z = ltb_ℤ (pos 0) z

unfoldable pub test_double : Floats → ZeroTest → ℕ → Bool
test_double fl ZeroTest.eqz x = fl.feq x (fl.of_int (pos 0))
test_double fl ZeroTest.nez x = not (fl.feq x (fl.of_int (pos 0)))
test_double fl ZeroTest.lez x = fl.flt x (fl.of_int (pos 0)) || fl.feq x (fl.of_int (pos 0))
test_double fl ZeroTest.ltz x = fl.flt x (fl.of_int (pos 0))
test_double fl ZeroTest.gez x = fl.flt (fl.of_int (pos 0)) x || fl.feq x (fl.of_int (pos 0))
test_double fl ZeroTest.gtz x = fl.flt (fl.of_int (pos 0)) x

abbrev pub zero_test_number : {D : Type 0} → Floats → ZeroTest → RtVal D → Option Bool
zero_test_number fl t (RtVal.ushort n) = some (test_ℤ t (pos n))
zero_test_number fl t (RtVal.short z) = some (test_ℤ t z)
zero_test_number fl t (RtVal.ulong n) = some (test_ℤ t (pos n))
zero_test_number fl t (RtVal.long z) = some (test_ℤ t z)
zero_test_number fl t (RtVal.ulonglong n) = some (test_ℤ t (pos n))
zero_test_number fl t (RtVal.longlong z) = some (test_ℤ t z)
zero_test_number fl t (RtVal.float x) = some (test_double fl t (fl.to_double x))
zero_test_number fl t (RtVal.double x) = some (test_double fl t x)
zero_test_number fl t _ = none

-- A value that can be a number, as one.
abbrev pub forced : {D : Type 0} → RtVal D → Option (RtVal D)
forced v = if canbe_number (kind_of v) then force2num v else some v

-- The code of the op is `eqz` or `nez`.
abbrev pub tests_equality : OpCode → Bool
tests_equality OpCode.eqz_n2b = true
tests_equality OpCode.nez_n2b = true
tests_equality _ = false

module _ {D A : Type 0} (env : Env D A) where
  -- The name of an enum value or literal.
  abbrev pub enum_ident_of : RtVal D → Option Text
  enum_ident_of (RtVal.enum_ident t) = some t
  enum_ident_of (RtVal.enum_val e) = env.api.enum_string e
  enum_ident_of _ = none

  abbrev pub both_idents : RtKind → RtKind → Bool
  both_idents RtKind.enum_ident RtKind.enum_ident = true
  both_idents _ _ = false

  abbrev pub string_of : RtVal D → Text
  string_of (RtVal.string t) = t
  string_of (RtVal.char_or_string t) = t
  string_of _ = []

module _ {D A : Type 0} (env : Env D A) (ops : List Op) where
  unfoldable pub eval_zero_test : ZeroTest → Rvm D → Option (StepOutcome D)
  unfolding force2num test_ℤ test_double
  eval_zero_test t m = elim m.stack [
    | [] ↦ none
    | v ∷ vs ↦
        check (is_numeric (kind_of v))
        >> (forced v >>= λ w. zero_test_number env.floats t w >>= λ b.
            next_op env ops (record m { stack = RtVal.boolean b ∷ vs }))
  ]

  -- The enum comparison, which only the equality tests may follow.
  unfoldable pub compare_enums : Rvm D → List (RtVal D) → RtVal D → RtVal D → Option (StepOutcome D)
  unfolding str_rank
  compare_enums m rest l r =
      if both_idents env (kind_of l) (kind_of r)
      then signals env ops type_mismatch m
      else (get_elem? ops (m.pc + 1) >>= λ op.
          if not (tests_equality op.code)
          then signals env ops type_mismatch m
          else elim (enum_ident_of env l) [
            | none ↦ signals env ops none_such m
            | some s ↦ elim (enum_ident_of env r) [
              | none ↦ signals env ops none_such m
              | some t ↦ next_op env ops (record m { stack = RtVal.long (str_rank s t) ∷ rest })
            ]
          ])

  unfoldable pub compare_values :
      Rvm D → List (RtVal D) → RtVal D → RtVal D → Option (StepOutcome D)
  unfolding str_rank force2num eval_arithop settles compare_enums
  compare_values m rest l r =
      if is_string (kind_of l) && is_string (kind_of r)
      then next_op env ops
          (record m { stack = RtVal.long (str_rank (string_of env l) (string_of env r)) ∷ rest })
      else if is_numeric (kind_of l) && is_numeric (kind_of r)
      then (forced l >>= λ l'.
          forced r >>= λ r'. eval_arithop env.floats MachineOp.cmp l' r' >>= settles env ops m rest)
      else if is_enum (kind_of l) && is_enum (kind_of r)
      then compare_enums m rest l r
      else signals env ops type_mismatch m

  unfoldable pub eval_cmp_uu2n : Rvm D → Option (StepOutcome D)
  unfolding compare_values
  eval_cmp_uu2n m = elim m.stack [
    | [] ↦ none
    | r ∷ vs ↦ elim vs [ [] ↦ none | l ∷ rest ↦ compare_values m rest l r ]
  ]
