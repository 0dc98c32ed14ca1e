-- ===== src/Constraint/Build.antt =====
-- The constructors of the nodes with a check or a constant (lib/RDIConstraint.cc). strtoull is a
-- parameter, as its value with the number of characters read.
use omni_notify_omni_orb.Common.{
  ℕ, ◌+◌, ◌-◌, ◌%◌, ◌^◌, ◌||◌, Bool, true, false, Option, none, some, List, [], ◌∷◌, ◌>>=◌, ltb,
  leb, ◌==◌, length, if◌then◌else◌,
}
use omni_notify_omni_orb.Common.Int.{ℤ, pos, negsuc}
use omni_notify_omni_orb.OpSeq.Codes.{OpCode}
use omni_notify_omni_orb.OpSeq.Seq.{Op, OpArg, Text}
use omni_notify_omni_orb.Constraint.{
  Constraint, chain, cached_op, runtime_error, comp_end, exist, default_node, in_node, or_node,
  and_node, substr_node, compare_node, arith_node,
}
use omni_notify_omni_orb.Constraint.Component.{
  Component, component_node, Start, curtime_start, curtime, Part, CurTimeElt, Built, built,
  rejected, BuildError, neg, to_long,
}

-- The string without its last character, where there is one.
unfoldable pub drop_last : Text → Option Text
drop_last [] = none
drop_last (x ∷ []) = some []
drop_last (x ∷ y ∷ t) = drop_last (y ∷ t) >>= λ r. some (x ∷ r)

abbrev pub backslash : ℕ
backslash = 92

abbrev pub quote : ℕ
quote = 39

-- The loop of _fix_string, with `prev_slash`.
unfoldable pub unescape : Bool → Text → Text
unescape slash [] = []
unescape false (x ∷ t) =
    let skipped = unescape true t in
    let copied = unescape false t in if x == backslash then skipped else x ∷ copied
unescape true (x ∷ t) =
    let rest = unescape false t in
    if (x == backslash) || (x == quote) then x ∷ rest else backslash ∷ x ∷ rest

-- _fix_string; none where it reads or writes outside the string.
unfoldable pub fix_string : Text → Option Text
unfolding drop_last unescape
fix_string [] = none
fix_string (q ∷ t) = drop_last (unescape false t)

-- NewBoolConst, NewIdent and NewSConst
abbrev pub new_bool_const : Bool → Constraint
new_bool_const x = cached_op (record { code = OpCode.push_bc2b; arg = OpArg.bc x })

abbrev pub new_ident : Text → Constraint
new_ident t = cached_op (record { code = OpCode.push_ic2i; arg = OpArg.sc t })

unfoldable pub string_const : Text → Constraint
string_const t =
    if length t == 1
    then cached_op (record { code = OpCode.push_cc2c; arg = OpArg.sc t })
    else cached_op (record { code = OpCode.push_sc2s; arg = OpArg.sc t })

unfoldable pub new_s_const : Text → Option Constraint
unfolding fix_string string_const
new_s_const t = fix_string t >>= λ s'. some (string_const s')

-- NewRuntimeError
abbrev pub new_runtime_error : ℕ → Constraint
new_runtime_error errcode =
    runtime_error (record { code = OpCode.push_nc_ushort; arg = OpArg.nc_us errcode })

-- `(delim == numstr) || (*delim != '\0')`. RDI_STRTOL and the others set their own copy of the
-- pointer to zero on a range error, so `delim == 0` does not happen.
abbrev pub bad_delim : Text → ℕ → Bool
bad_delim numstr read = (read == 0) || ltb read (length numstr)

-- The op of an integer constant: a CORBA::ULong if the value fits.
unfoldable pub integer_op : ℕ → Op
integer_op ull =
    if leb ull 4294967295
    then record { code = OpCode.push_nc2n_ul; arg = OpArg.nc_ul ull }
    else record { code = OpCode.push_nc2n_ull; arg = OpArg.nc_ull ull }

-- NewLConst
unfoldable pub new_l_const : (Text → ℕ × ℕ) → Text → Built Constraint
unfolding integer_op
new_l_const strtoull numstr =
    let (ull, read) = strtoull numstr in
    if bad_delim numstr read
    then rejected BuildError.number_overflow
    else built (cached_op (integer_op ull))

-- The sign bit of a double is its highest.
abbrev pub neg_double : ℕ → ℕ
neg_double d = if ltb d (2 ^ 63) then d + 2 ^ 63 else d - 2 ^ 63

-- `(CORBA::LongLong)` of an unsigned number.
unfoldable pub to_long_long : ℕ → ℤ
to_long_long n =
    if ltb (n % 2 ^ 64) (2 ^ 63) then pos (n % 2 ^ 64) else negsuc (2 ^ 64 - n % 2 ^ 64 - 1)

-- negate, on the op of a constant; none is the failed assertion.
unfoldable pub negate : OpArg → Option (Built Op)
unfolding to_long to_long_long
negate (OpArg.nc_ul n) =
    if leb 2147483647 n
    then some
        (built (record { code = OpCode.push_nc2n_ll; arg = OpArg.nc_ll (neg (to_long_long n)) }))
    else some
        (built (record { code = OpCode.push_nc2n_l; arg = OpArg.nc_l (neg (to_long (pos n))) }))
negate (OpArg.nc_ull n) =
    if leb 9223372036854775807 n
    then some (rejected BuildError.number_overflow)
    else some
        (built (record { code = OpCode.push_nc2n_ll; arg = OpArg.nc_ll (neg (to_long_long n)) }))
negate (OpArg.nc_d d) =
    some (built (record { code = OpCode.push_nc2n_d; arg = OpArg.nc_d (neg_double d) }))
negate _ = none

abbrev pub comp_end_on : Start → Constraint → Constraint
comp_end_on curtime_start n = n
comp_end_on (curtime e) n = n
comp_end_on _ n = comp_end n

-- NewCompEnd
abbrev pub new_comp_end : Component → Constraint
new_comp_end c = comp_end_on c.start (component_node c)

-- NewExist. Without an argument the union holds 0, which is RDI_CurTime_error.
abbrev pub is_elt : CurTimeElt → Bool
is_elt CurTimeElt.error = false
is_elt _ = true

abbrev pub exist_on : Start → Constraint → Constraint
exist_on curtime_start n = new_bool_const false
exist_on (curtime e) n = new_bool_const (is_elt e)
exist_on _ n = exist n

abbrev pub new_exist : Component → Constraint
new_exist c = exist_on c.start (component_node c)

-- _del_rightmost behind the test of NewDefault.
unfoldable pub without_dot_d : List Part → Option (List Part)
without_dot_d [] = none
without_dot_d (Part.dot_d ∷ []) = some []
without_dot_d (p ∷ []) = none
without_dot_d (p ∷ q ∷ ps) = without_dot_d (q ∷ ps) >>= λ rest. some (p ∷ rest)

abbrev pub default_on : Start → Option (List Part) → Built Constraint
default_on curtime_start rest = rejected BuildError.curtime_default
default_on (curtime e) rest = rejected BuildError.curtime_default
default_on st none = rejected BuildError.default_without_d
default_on st (some ps) = built (default_node (component_node (record { start = st; parts = ps })))

-- NewDefault
unfoldable pub new_default : Component → Built Constraint
unfolding without_dot_d
new_default c = default_on c.start (without_dot_d c.parts)

-- `_cachedop1` of a node, which is a nop where the node caches none.
abbrev pub cached_code : Constraint → OpCode
cached_code (cached_op op) = op.code
cached_code (chain op ps) = op.code
cached_code _ = OpCode.nop

-- _rightmost
abbrev pub last_code : OpCode → List Op → OpCode
last_code c [] = c
last_code c (op ∷ ops) = last_code op.code ops

unfoldable pub rightmost_code : Constraint → OpCode
rightmost_code (or_node l r) = rightmost_code r
rightmost_code (and_node l r) = rightmost_code r
rightmost_code (compare_node o l r) = rightmost_code r
rightmost_code (in_node l r) = rightmost_code r
rightmost_code (substr_node l r) = rightmost_code r
rightmost_code (arith_node o l r) = rightmost_code r
rightmost_code (chain op ps) = last_code op.code ps
rightmost_code (cached_op op) = op.code
rightmost_code _ = OpCode.nop

abbrev pub is_end_code : OpCode → Bool
is_end_code OpCode.dot_len_u2n_l = true
is_end_code OpCode.dot_d_u2u = true
is_end_code OpCode.dot_tid_u2s = true
is_end_code OpCode.dot_rid_u2s = true
is_end_code _ = false

abbrev pub is_ctelt : OpCode → Bool
is_ctelt OpCode.ctelt_nc2n = true
is_ctelt _ = false

-- NewIn
unfoldable pub new_in : Constraint → Constraint → Built Constraint
unfolding rightmost_code
new_in l r =
    if is_ctelt (cached_code r)
    then rejected BuildError.curtime_in
    else if is_end_code (rightmost_code r)
    then rejected BuildError.end_part_in
    else built (in_node l r)
