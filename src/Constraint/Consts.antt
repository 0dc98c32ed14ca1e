-- ===== src/Constraint/Consts.antt =====
-- The constants of a constraint: quoted strings, negated numbers (lib/RDIConstraint.cc).
use native.Mathlib.Decide.{dec_le}
use omni_notify_omni_orb.Common.{
  ◌%◌, ◌^◌, ◌<◌, ◌≤◌, lt→ltb, le→leb, gt→leb, ℕ, Bool, true, false, Option, none, some, [], ◌∷◌,
  ◌++◌, ◌≡◌, ◌≢◌, refl, sym, ap, ◌∙◌, inl, inr, ◌||◌, ◌==◌, Bool-cases, arith, some_ne_none,
  if◌then◌else◌, length, subst,
}
use omni_notify_omni_orb.Common.Int.{ℤ, pos}
use omni_notify_omni_orb.OpSeq.Codes.{StaticT, OpCode}
use omni_notify_omni_orb.OpSeq.Seq.{Op, OpArg, Text, text_arg, is_push_bool, is_push_char}
use omni_notify_omni_orb.Constraint.{cached_op}
use omni_notify_omni_orb.Constraint.Typing.{IsBuilt, cached_built, const_type}
use omni_notify_omni_orb.Constraint.Component.{BuildError, Built, rejected, built, neg, to_long}
use omni_notify_omni_orb.Constraint.Build.{
  drop_last, unescape, fix_string, backslash, quote, string_const, new_s_const, negate,
  to_long_long, integer_op,
}

-- A string literal: a backslash before each backslash and quote, and quotes around.
unfoldable escape : Text → Text
escape [] = []
escape (x ∷ t) =
    let rest = escape t in
    if (x == backslash) || (x == quote) then backslash ∷ x ∷ rest else x ∷ rest

unfoldable pub quoted : Text → Text
unfolding escape
quoted t = quote ∷ escape t ++ (quote ∷ [])

drop_last-snoc : (t : Text) (x : ℕ) → drop_last (t ++ (x ∷ [])) ≡ some t
unfolding drop_last
drop_last-snoc [] x = refl
drop_last-snoc (y ∷ []) x = refl
drop_last-snoc (y ∷ z ∷ t) x = rw (drop_last-snoc (z ∷ t) x) refl

or_false : (a b : Bool) → (a || b) ≡ false → a ≡ false
or_false true b h = h
or_false false b h = refl

unescape-escape : (t : Text) → unescape false (escape t ++ (quote ∷ [])) ≡ t ++ (quote ∷ [])
unfolding unescape escape
unescape-escape [] = refl
unescape-escape (x ∷ t) = elim (Bool-cases ((x == backslash) || (x == quote))) [
  | inl h ↦ rw (h, h) (ap (◌∷◌ x) (unescape-escape t))
  | inr h ↦ rw (h, or_false (x == backslash) (x == quote) h) (ap (◌∷◌ x) (unescape-escape t))
]

-- _fix_string takes a string literal of any text back to the text.
pub fix_string-quoted : (t : Text) → fix_string (quoted t) ≡ some t
unfolding fix_string quoted escape
fix_string-quoted t = ap drop_last (unescape-escape t) ∙ drop_last-snoc t quote

-- The type of a string constant: one character counts as a character.
unfoldable pub text_type : Text → StaticT
text_type (x ∷ []) = StaticT.c
text_type _ = StaticT.s

false_ne_true : false ≢ true
false_ne_true e = cc

long_string :
    (x y : ℕ) (t : Text)
    → string_const (x ∷ y ∷ t)
      ≡ cached_op (record { code = OpCode.push_sc2s; arg = OpArg.sc (x ∷ y ∷ t) })
unfolding string_const
long_string x y t =
    let not_one : (length (x ∷ y ∷ t) == 1) ≡ false = ground arith in rw not_one refl

some_const :
    (c : OpCode) (a : OpArg) (t : StaticT)
    → const_type c ≡ some t
    → is_push_bool c ≡ false
    → (is_push_char c ≡ true → text_arg a ≢ none)
    → IsBuilt (cached_op (record { code = c; arg = a })) t
some_const c a t k nb has =
    cached_built k
      (record { bool_const = λ hit. absurd (false_ne_true (sym nb ∙ hit)); char_const = has })

string_const-IsBuilt : (t : Text) → IsBuilt (string_const t) (text_type t)
unfolding string_const text_type text_arg
string_const-IsBuilt [] = some_const OpCode.push_sc2s _ StaticT.s refl refl (λ h. some_ne_none [])
string_const-IsBuilt (x ∷ []) =
    some_const OpCode.push_cc2c _ StaticT.c refl refl (λ h. some_ne_none (x ∷ []))
string_const-IsBuilt (x ∷ y ∷ t) =
    subst (λ z. IsBuilt z StaticT.s) (sym (long_string x y t))
      (some_const OpCode.push_sc2s _ StaticT.s refl refl (λ h. some_ne_none (x ∷ y ∷ t)))

-- NewSConst on a string literal of any text gives a constant with that text: a character where it
-- has one character, else a string.
pub new_s_const-quoted :
    (t : Text)
    → new_s_const (quoted t) ≡ some (string_const t) × IsBuilt (string_const t) (text_type t)
unfolding new_s_const
new_s_const-quoted t = (rw (fix_string-quoted t) refl, string_const-IsBuilt t)

-- The integer that a constant pushes.
abbrev pub int_value : OpArg → Option ℤ
int_value (OpArg.nc_ul n) = some (pos n)
int_value (OpArg.nc_l z) = some z
int_value (OpArg.nc_ull n) = some (pos n)
int_value (OpArg.nc_ll z) = some z
int_value _ = none

-- A number that fits is not changed by a cast to the signed type.
to_long-small : (n : ℕ) → n < 2147483648 → to_long (pos n) ≡ pos n
unfolding to_long
to_long-small n h =
    let same : n % 2 ^ 32 ≡ n = omega (arith, h) in rw (same, lt→ltb n (2 ^ 31) h) refl

to_long_long-small : (n : ℕ) → n < 9223372036854775808 → to_long_long n ≡ pos n
unfolding to_long_long
to_long_long-small n h =
    let same : n % 2 ^ 64 ≡ n = omega (arith, h) in rw (same, lt→ltb n (2 ^ 63) h) refl

-- What negate may give for the constant n: the message where n is at least 2 ^ 63 - 1, else an op
-- that pushes -n, whose node is a tree of a number.
abbrev pub Negates : ℕ → Option (Built Op) → Type 0
Negates n none = ⊥
Negates n (some (rejected e)) = (e ≡ BuildError.number_overflow) × (9223372036854775807 ≤ n)
Negates n (some (built op)) =
    (n < 9223372036854775807)
    × (int_value op.arg ≡ some (neg (pos n)))
    × IsBuilt (cached_op op) StaticT.n

pushes_negative :
    (n : ℕ) (c : OpCode) (b : OpArg) (z : ℤ)
    → n < 9223372036854775807
    → const_type c ≡ some StaticT.n
    → is_push_bool c ≡ false
    → is_push_char c ≡ false
    → int_value b ≡ some (neg z)
    → z ≡ pos n
    → Negates n (some (built (record { code = c; arg = b })))
pushes_negative n c b z few k nb nc v e = (
  few,
  v ∙ ap (λ x. some (neg x)) e,
  some_const c b StaticT.n k nb (λ hit. absurd (false_ne_true (sym nc ∙ hit))),
)

-- negate on the constant that NewLConst makes of a number below 2 ^ 64, of either of the two unsigned
-- types: no assertion fails, and where the number is below 2 ^ 63 - 1 it gives a constant, the tree
-- of a number, that pushes the negative of the number; else the message of an overflow.
pub negate-integer_op : (n : ℕ) → n < 18446744073709551616 → Negates n (negate (integer_op n).arg)
unfolding negate integer_op
negate-integer_op n h = elim (dec_le n 4294967295) [
  | yes p ↦ rw (le→leb n 4294967295 p) (elim (dec_le 2147483647 n) [
    | yes big ↦ rw (le→leb 2147483647 n big) (
        pushes_negative n OpCode.push_nc2n_ll _ (to_long_long n) (omega (arith, p)) refl refl refl
          refl (to_long_long-small n (omega (arith, p))))
    | no small ↦ rw (gt→leb 2147483647 n (omega (arith, small))) (
        pushes_negative n OpCode.push_nc2n_l _ (to_long (pos n)) (omega (arith, p)) refl refl refl
          refl (to_long-small n (omega (arith, small))))
  ])
  | no p ↦ rw (gt→leb n 4294967295 (omega (arith, p))) (elim (dec_le 9223372036854775807 n) [
    | yes big ↦ rw (le→leb 9223372036854775807 n big) (refl, big)
    | no small ↦ rw (gt→leb 9223372036854775807 n (omega (arith, small))) (
        pushes_negative n OpCode.push_nc2n_ll _ (to_long_long n) (omega (arith, small)) refl refl
          refl refl (to_long_long-small n (omega (arith, small))))
  ])
]
