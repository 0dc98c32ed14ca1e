-- ===== src/Rvm/Arith.antt =====
-- The arithmetic of the machine: _widenAndResultKinds and _eval_arithop (lib/RDIRVM.cc). Signed sums
-- and products wrap around; the quotient and the rest of the least number by -1 trap.
use omni_notify_omni_orb.Common.{
  ℕ, zero, suc, ◌+◌, ◌-◌, ◌*◌, ◌/◌, ◌%◌, ◌^◌, Bool, true, false, not, ◌&&◌, ◌||◌, Option, none,
  some, ltb, ◌==◌, check, ◌>>=◌, ◌>>◌, if◌then◌else◌,
}
use omni_notify_omni_orb.Common.Int.{ℤ, pos, negsuc, ◌+ℤ◌, ◌-ℤ◌, ◌*ℤ◌, ltb_ℤ, pos_part, neg_part}
use omni_notify_omni_orb.Rvm.Value.{RtVal, RtKind, kind_of, is_number, is_signed}
use omni_notify_omni_orb.Rvm.Env.{Floats}

-- RDI_ArithOp
pub data MachineOp : Type 0 where
  add sub mul div rem cmp : MachineOp

-- RDI_RTRetCode, as its numbers.
abbrev pub ok_code : ℕ
ok_code = 0

abbrev pub undefined_code : ℕ
undefined_code = 1

abbrev pub divide_by_zero : ℕ
divide_by_zero = 2

abbrev pub type_mismatch : ℕ
type_mismatch = 5

abbrev pub none_such : ℕ
none_such = 6

-- The number modulo `m`, and the number that those bits are when the upper half is negative.
unfoldable pub to_unsigned : ℕ → ℤ → ℕ
to_unsigned m (pos n) = n % m
to_unsigned m (negsuc n) = m - 1 - n % m

unfoldable pub to_signed : ℕ → ℕ → ℤ
to_signed m n = let r = n % m in if ltb (2 * r) m then pos r else negsuc (m - 1 - r)

unfoldable pub wrap : ℕ → ℤ → ℤ
unfolding to_unsigned to_signed
wrap m z = to_signed m (to_unsigned m z)

-- The place of a kind in the enumeration, for the numbers.
abbrev pub rank : RtKind → ℕ
rank RtKind.ushort = 2
rank RtKind.short = 3
rank RtKind.ulong = 4
rank RtKind.long = 5
rank RtKind.ulonglong = 6
rank RtKind.longlong = 7
rank RtKind.float = 8
rank RtKind.double = 9
rank _ = 0

-- The signed kind of the same width.
abbrev pub signed_kind : RtKind → RtKind
signed_kind RtKind.ushort = RtKind.short
signed_kind RtKind.ulong = RtKind.long
signed_kind RtKind.ulonglong = RtKind.longlong
signed_kind k = k

abbrev pub widen_kind : RtKind → RtKind
widen_kind RtKind.ushort = RtKind.ulong
widen_kind RtKind.short = RtKind.long
widen_kind RtKind.float = RtKind.double
widen_kind k = k

unfoldable pub result_kind : RtKind → RtKind → RtKind
result_kind l r =
    let k = if ltb (rank l) (rank r) then r else l in
    if is_signed l || is_signed r then signed_kind k else k

-- RDI_RVM::_widenAndResultKinds: the kind to compute in, and the kind of the result.
unfoldable pub widen_and_result_kinds : RtKind → RtKind → Option (RtKind × RtKind)
unfolding result_kind
widen_and_result_kinds l r = do
  check (is_number l)
  check (is_number r)
  some (widen_kind (result_kind l r), result_kind l r)

-- A value, a signal with its code, or a trap of the processor.
pub data ArithResult (D : Type 0) : Type 0 where
  value : RtVal D → ArithResult D
  signal : ℕ → ArithResult D
  trap : ArithResult D

abbrev pub divides : MachineOp → Bool
divides MachineOp.div = true
divides MachineOp.rem = true
divides _ = false

abbrev pub is_rem : MachineOp → Bool
is_rem MachineOp.rem = true
is_rem _ = false

-- One of the shorts -1, 0 and 1.
abbrev pub three_way : {D : Type 0} → Bool → Bool → RtVal D
three_way less equal =
    if less
    then RtVal.short (negsuc 0)
    else if equal
    then RtVal.short (pos 0)
    else RtVal.short (pos 1)

-- The operators on unsigned words modulo `m`.
unfoldable pub unsigned_op : ℕ → MachineOp → ℕ → ℕ → ℕ
unsigned_op m MachineOp.add a b = (a + b) % m
unsigned_op m MachineOp.sub a b = (a + m - b) % m
unsigned_op m MachineOp.mul a b = (a * b) % m
unsigned_op m MachineOp.div a b = a / b
unsigned_op m MachineOp.rem a b = a % b
unsigned_op m MachineOp.cmp a b = 0

abbrev pub magnitude : ℤ → ℕ
magnitude a = pos_part a + neg_part a

abbrev pub negate_ℕ : ℕ → ℤ
negate_ℕ zero = pos 0
negate_ℕ (suc n) = negsuc n

abbrev pub is_neg : ℤ → Bool
is_neg (pos n) = false
is_neg (negsuc n) = true

abbrev pub with_sign : Bool → ℕ → ℤ
with_sign true n = negate_ℕ n
with_sign false n = pos n

abbrev pub differ : Bool → Bool → Bool
differ a b = if a then not b else b

-- Division that rounds to zero, and its rest, which has the sign of the dividend.
unfoldable pub quot : ℤ → ℤ → ℤ
quot a b = with_sign (differ (is_neg a) (is_neg b)) (magnitude a / magnitude b)

unfoldable pub rest : ℤ → ℤ → ℤ
rest a b = with_sign (is_neg a) (magnitude a % magnitude b)

abbrev pub is_minus_one : ℤ → Bool
is_minus_one (negsuc n) = n == 0
is_minus_one (pos n) = false

-- The operators on signed words modulo `m`, `none` for the trap.
unfoldable pub signed_op : ℕ → MachineOp → ℤ → ℤ → Option ℤ
unfolding wrap quot rest
signed_op m MachineOp.add a b = some (wrap m (a +ℤ b))
signed_op m MachineOp.sub a b = some (wrap m (a -ℤ b))
signed_op m MachineOp.mul a b = some (wrap m (a *ℤ b))
signed_op m MachineOp.div a b =
    if is_minus_one b && (2 * neg_part a == m) then none else some (quot a b)
signed_op m MachineOp.rem a b =
    if is_minus_one b && (2 * neg_part a == m) then none else some (rest a b)
signed_op m MachineOp.cmp a b = some (pos 0)

module _ {D : Type 0} where
  -- The casts of an operand to the kind to compute in; `none` is RDI_Fatal.
  abbrev pub as_ulong : RtVal D → Option ℕ
  as_ulong (RtVal.ushort n) = some n
  as_ulong (RtVal.ulong n) = some n
  as_ulong _ = none

  abbrev pub as_long : RtVal D → Option ℤ
  as_long (RtVal.ushort n) = some (pos n)
  as_long (RtVal.short z) = some z
  as_long (RtVal.ulong n) = some (to_signed (2 ^ 32) n)
  as_long (RtVal.long z) = some z
  as_long _ = none

  abbrev pub as_ulonglong : RtVal D → Option ℕ
  as_ulonglong (RtVal.ushort n) = some n
  as_ulonglong (RtVal.ulong n) = some n
  as_ulonglong (RtVal.ulonglong n) = some n
  as_ulonglong _ = none

  abbrev pub as_longlong : RtVal D → Option ℤ
  as_longlong (RtVal.ushort n) = some (pos n)
  as_longlong (RtVal.short z) = some z
  as_longlong (RtVal.ulong n) = some (pos n)
  as_longlong (RtVal.long z) = some z
  as_longlong (RtVal.ulonglong n) = some (to_signed (2 ^ 64) n)
  as_longlong (RtVal.longlong z) = some z
  as_longlong _ = none

  abbrev pub as_double : Floats → RtVal D → Option ℕ
  as_double fl (RtVal.ushort n) = some (fl.of_int (pos n))
  as_double fl (RtVal.short z) = some (fl.of_int z)
  as_double fl (RtVal.ulong n) = some (fl.of_int (pos n))
  as_double fl (RtVal.long z) = some (fl.of_int z)
  as_double fl (RtVal.ulonglong n) = some (fl.of_int (pos n))
  as_double fl (RtVal.longlong z) = some (fl.of_int z)
  as_double fl (RtVal.float x) = some (fl.to_double x)
  as_double fl (RtVal.double x) = some x
  as_double fl _ = none

  -- The casts of a result to its kind.
  abbrev pub store_unsigned : RtKind → ℕ → Option (RtVal D)
  store_unsigned RtKind.ushort n = some (RtVal.ushort (n % 2 ^ 16))
  store_unsigned RtKind.ulong n = some (RtVal.ulong n)
  store_unsigned RtKind.ulonglong n = some (RtVal.ulonglong n)
  store_unsigned _ n = none

  abbrev pub store_signed : RtKind → ℤ → Option (RtVal D)
  store_signed RtKind.short z = some (RtVal.short (wrap (2 ^ 16) z))
  store_signed RtKind.long z = some (RtVal.long z)
  store_signed RtKind.longlong z = some (RtVal.longlong z)
  store_signed _ z = none

  abbrev pub store_double : Floats → RtKind → ℕ → Option (RtVal D)
  store_double fl RtKind.float x = some (RtVal.float (fl.to_float x))
  store_double fl RtKind.double x = some (RtVal.double x)
  store_double fl _ x = none

  abbrev pub finish_unsigned : ℕ → RtKind → MachineOp → ℕ → ℕ → Option (ArithResult D)
  finish_unsigned m k MachineOp.cmp a b = some (value (three_way (ltb a b) (a == b)))
  finish_unsigned m k op a b = store_unsigned k (unsigned_op m op a b) >>= λ v. some (value v)

  -- The arms of _eval_arithop: unsigned, signed and double.
  unfoldable pub unsigned_arm :
      ℕ → (RtVal D → Option ℕ) → RtKind → MachineOp → RtVal D → RtVal D → Option (ArithResult D)
  unfolding unsigned_op
  unsigned_arm m cast k op l r = cast r >>= λ b.
      if divides op && (b == 0)
      then some (signal divide_by_zero)
      else (cast l >>= λ a. finish_unsigned m k op a b)

  abbrev pub store_or_trap : RtKind → Option ℤ → Option (ArithResult D)
  store_or_trap k none = some trap
  store_or_trap k (some z) = store_signed k z >>= λ v. some (value v)

  abbrev pub finish_signed : ℕ → RtKind → MachineOp → ℤ → ℤ → Option (ArithResult D)
  finish_signed m k MachineOp.cmp a b = some (value (three_way (ltb_ℤ a b) (not (ltb_ℤ b a))))
  finish_signed m k op a b = store_or_trap k (signed_op m op a b)

  unfoldable pub signed_arm :
      ℕ → (RtVal D → Option ℤ) → RtKind → MachineOp → RtVal D → RtVal D → Option (ArithResult D)
  unfolding signed_op
  signed_arm m cast k op l r = cast r >>= λ b.
      if divides op && (magnitude b == 0)
      then some (signal divide_by_zero)
      else (cast l >>= λ a. finish_signed m k op a b)

  abbrev pub finish_double : Floats → RtKind → MachineOp → ℕ → ℕ → Option (ArithResult D)
  finish_double fl k MachineOp.add a b = store_double fl k (fl.fadd a b) >>= λ v. some (value v)
  finish_double fl k MachineOp.sub a b = store_double fl k (fl.fsub a b) >>= λ v. some (value v)
  finish_double fl k MachineOp.mul a b = store_double fl k (fl.fmul a b) >>= λ v. some (value v)
  finish_double fl k MachineOp.div a b = store_double fl k (fl.fdiv a b) >>= λ v. some (value v)
  finish_double fl k MachineOp.rem a b = some (signal type_mismatch)
  finish_double fl k MachineOp.cmp a b = some (value (three_way (fl.flt a b) (fl.feq a b)))

  unfoldable pub double_arm :
      Floats → RtKind → MachineOp → RtVal D → RtVal D → Option (ArithResult D)
  double_arm fl k op l r =
      if is_rem op
      then some (signal type_mismatch)
      else (as_double fl r >>= λ b.
          if divides op && fl.feq b (fl.of_int (pos 0))
          then some (signal divide_by_zero)
          else (as_double fl l >>= λ a. finish_double fl k op a b))

  abbrev pub arm : Floats → RtKind → RtKind → MachineOp → RtVal D → RtVal D → Option (ArithResult D)
  arm fl RtKind.ulong k op l r = unsigned_arm (2 ^ 32) as_ulong k op l r
  arm fl RtKind.long k op l r = signed_arm (2 ^ 32) as_long k op l r
  arm fl RtKind.ulonglong k op l r = unsigned_arm (2 ^ 64) as_ulonglong k op l r
  arm fl RtKind.longlong k op l r = signed_arm (2 ^ 64) as_longlong k op l r
  arm fl RtKind.double k op l r = double_arm fl k op l r
  arm fl _ k op l r = none

  -- RDI_RVM::_eval_arithop on the two topmost values, the left one first.
  unfoldable pub eval_arithop : Floats → MachineOp → RtVal D → RtVal D → Option (ArithResult D)
  unfolding widen_and_result_kinds unsigned_arm signed_arm double_arm
  eval_arithop fl op l r =
      widen_and_result_kinds (kind_of l) (kind_of r) >>= λ ks. arm fl ks.0 ks.1 op l r
