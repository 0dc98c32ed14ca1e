-- ===== src/Rvm/Numbers.antt =====
-- Proofs about _eval_arithop (lib/RDIRVM.cc): what it returns on two numbers.
use omni_notify_omni_orb.Common.{
  ℕ, ◌^◌, ◌&&◌, ◌==◌, Bool, true, false, Option, none, some, ◌≡◌, ◌≢◌, ◌⊎◌, refl, inl, inr,
  Bool-cases, Option-cases, Returns, arith, ◌>>=◌,
}
use omni_notify_omni_orb.Common.Int.{ℤ, pos}
use omni_notify_omni_orb.Rvm.Value.{RtVal, RtKind, kind_of, is_number}
use omni_notify_omni_orb.Rvm.Env.{Floats}
use omni_notify_omni_orb.Rvm.Arith.{
  MachineOp, ArithResult, value, signal, trap, eval_arithop, divides, unsigned_arm, signed_arm,
  double_arm, widen_and_result_kinds, result_kind, as_ulong, as_long, finish_unsigned,
  store_unsigned, magnitude, signed_op, store_signed, store_double, finish_signed, finish_double,
  as_double, is_rem, store_or_trap, arm, as_longlong, as_ulonglong, three_way, widen_kind,
}

abbrev pub Computes : {D : Type 0} → MachineOp → ArithResult D → Type 0
Computes op (value v) = is_number (kind_of v) ≡ true
Computes op (signal c) = Unit {0}
Computes op trap = divides op ≡ true

abbrev Stores : {D : Type 0} {N : Type 0} → (N → Option (RtVal D)) → Type 0
Stores {N = N} store = (n : N) → Returns (store n) λ v. is_number (kind_of v) ≡ true

pub and_true : (x y : Bool) → (x && y) ≡ true → (x ≡ true) × (y ≡ true)
and_true true y h = (refl, h)
and_true false y h = cc

-- The kinds of operands and of results, for each kind to compute in.
abbrev castable : RtKind → RtKind → Bool
castable RtKind.ulong RtKind.ushort = true
castable RtKind.ulong RtKind.ulong = true
castable RtKind.long RtKind.ushort = true
castable RtKind.long RtKind.short = true
castable RtKind.long RtKind.ulong = true
castable RtKind.long RtKind.long = true
castable RtKind.ulonglong RtKind.ushort = true
castable RtKind.ulonglong RtKind.ulong = true
castable RtKind.ulonglong RtKind.ulonglong = true
castable RtKind.longlong RtKind.float = false
castable RtKind.longlong RtKind.double = false
castable RtKind.longlong k = is_number k
castable RtKind.double k = is_number k
castable _ _ = false

abbrev storable : RtKind → RtKind → Bool
storable RtKind.ulong RtKind.ushort = true
storable RtKind.ulong RtKind.ulong = true
storable RtKind.long RtKind.short = true
storable RtKind.long RtKind.long = true
storable RtKind.ulonglong RtKind.ulonglong = true
storable RtKind.longlong RtKind.longlong = true
storable RtKind.double RtKind.float = true
storable RtKind.double RtKind.double = true
storable _ _ = false

abbrev sorted : RtKind → RtKind → Bool
sorted k l =
    let rk = result_kind k l in
    castable (widen_kind rk) k && castable (widen_kind rk) l && storable (widen_kind rk) rk

kinds-sorted : (k l : RtKind) → is_number k ≡ true → is_number l ≡ true → sorted k l ≡ true
unfolding result_kind
kinds-sorted k l h h' = ground arith

module _ (D : Type 0) where
  three_way-number : (x y : Bool) → is_number (kind_of {D = D} (three_way x y)) ≡ true
  three_way-number true y = refl
  three_way-number false true = refl
  three_way-number false false = refl

  unsigned-Stores :
      (wk rk : RtKind)
      → ((wk ≡ RtKind.ulong) ⊎ (wk ≡ RtKind.ulonglong))
      → storable wk rk ≡ true
      → Stores {D = D} (store_unsigned rk)
  unsigned-Stores wk RtKind.ushort h s n = refl
  unsigned-Stores wk RtKind.ulong h s n = refl
  unsigned-Stores wk RtKind.ulonglong h s n = refl
  unsigned-Stores wk _ h s n = ground arith

  signed-Stores :
      (wk rk : RtKind)
      → ((wk ≡ RtKind.long) ⊎ (wk ≡ RtKind.longlong))
      → storable wk rk ≡ true
      → Stores {D = D} (store_signed rk)
  signed-Stores wk RtKind.short h s n = refl
  signed-Stores wk RtKind.long h s n = refl
  signed-Stores wk RtKind.longlong h s n = refl
  signed-Stores wk _ h s n = ground arith

  double-Stores :
      (fl : Floats) (rk : RtKind)
      → storable RtKind.double rk ≡ true
      → Stores {D = D} (store_double fl rk)
  double-Stores fl RtKind.float s n = refl
  double-Stores fl RtKind.double s n = refl
  double-Stores fl _ s n = ground arith

module _ {D : Type 0} where
  stored :
      (op : MachineOp) (o : Option (RtVal D))
      → Returns o (λ v. is_number (kind_of v) ≡ true)
      → Returns (o >>= λ v. some (value v)) (Computes op)
  stored op none h = h
  stored op (some v) h = h

  unsigned_arm-Returns :
      (m : ℕ) (cast : RtVal D → Option ℕ) (k : RtKind) (op : MachineOp) (l r : RtVal D) (x y : ℕ)
      → cast l ≡ some x
      → cast r ≡ some y
      → Stores {D = D} (store_unsigned k)
      → Returns (unsigned_arm m cast k op l r) (Computes op)
  unfolding unsigned_arm
  unsigned_arm-Returns m cast k op l r x y p q h = elim (Bool-cases (divides op && (y == 0))) [
    | inl e ↦ rw (q, e) tt
    | inr e ↦ rw (q, e, p) (finished op)
  ]
    where
      finished : (op' : MachineOp) → Returns (finish_unsigned {D = D} m k op' x y) (Computes op')
      finished MachineOp.cmp = three_way-number D _ _
      finished MachineOp.add = stored MachineOp.add _ (h _)
      finished MachineOp.sub = stored MachineOp.sub _ (h _)
      finished MachineOp.mul = stored MachineOp.mul _ (h _)
      finished MachineOp.div = stored MachineOp.div _ (h _)
      finished MachineOp.rem = stored MachineOp.rem _ (h _)

  signed_arm-Returns :
      (m : ℕ) (cast : RtVal D → Option ℤ) (k : RtKind) (op : MachineOp) (l r : RtVal D) (x y : ℤ)
      → cast l ≡ some x
      → cast r ≡ some y
      → Stores {D = D} (store_signed k)
      → Returns (signed_arm m cast k op l r) (Computes op)
  unfolding signed_arm signed_op
  signed_arm-Returns m cast k op l r x y p q h =
      elim (Bool-cases (divides op && (magnitude y == 0))) [
        | inl e ↦ rw (q, e) tt
        | inr e ↦ rw (q, e, p) (finished op)
      ]
    where
      kept :
          (op' : MachineOp) (o : Option ℤ)
          → (o ≡ none → divides op' ≡ true)
          → Returns (store_or_trap {D = D} k o) (Computes op')
      kept op' none f = f refl
      kept op' (some z) f = stored op' _ (h z)

      finished : (op' : MachineOp) → Returns (finish_signed {D = D} m k op' x y) (Computes op')
      finished MachineOp.cmp = three_way-number D _ _
      finished MachineOp.add = stored MachineOp.add _ (h _)
      finished MachineOp.sub = stored MachineOp.sub _ (h _)
      finished MachineOp.mul = stored MachineOp.mul _ (h _)
      finished MachineOp.div = kept MachineOp.div _ (λ e. refl)
      finished MachineOp.rem = kept MachineOp.rem _ (λ e. refl)

  double_arm-Returns :
      (fl : Floats) (k : RtKind) (op : MachineOp) (l r : RtVal D) (x y : ℕ)
      → as_double fl l ≡ some x
      → as_double fl r ≡ some y
      → Stores {D = D} (store_double fl k)
      → Returns (double_arm fl k op l r) (Computes op)
  unfolding double_arm
  double_arm-Returns fl k op l r x y p q h = elim (Bool-cases (is_rem op)) [
    | inl e ↦ rw e tt
    | inr e ↦ elim (Bool-cases (divides op && fl.feq y (fl.of_int (pos 0)))) [
      | inl e' ↦ rw (e, q, e') tt
      | inr e' ↦ rw (e, q, e', p) (finished op)
    ]
  ]
    where
      finished : (op' : MachineOp) → Returns (finish_double {D = D} fl k op' x y) (Computes op')
      finished MachineOp.cmp = three_way-number D _ _
      finished MachineOp.add = stored MachineOp.add _ (h _)
      finished MachineOp.sub = stored MachineOp.sub _ (h _)
      finished MachineOp.mul = stored MachineOp.mul _ (h _)
      finished MachineOp.div = stored MachineOp.div _ (h _)
      finished MachineOp.rem = tt

  -- An operand that may be cast is cast.
  cast_some :
      {N : Type 0} (cast : RtVal D → Option N) (wk : RtKind)
      → ((v : RtVal D) → castable wk (kind_of v) ≡ true → cast v ≢ none)
      → (v : RtVal D) → castable wk (kind_of v) ≡ true
      → (n : N) × (cast v ≡ some n)
  cast_some cast wk h v c = elim (Option-cases (cast v)) [ inl e ↦ absurd (h v c e) | inr x ↦ x ]

  ulong_cast : (v : RtVal D) → castable RtKind.ulong (kind_of v) ≡ true → as_ulong v ≢ none
  ulong_cast v c e = ground arith

  long_cast : (v : RtVal D) → castable RtKind.long (kind_of v) ≡ true → as_long v ≢ none
  long_cast v c e = ground arith

  ulonglong_cast :
      (v : RtVal D) → castable RtKind.ulonglong (kind_of v) ≡ true → as_ulonglong v ≢ none
  ulonglong_cast v c e = ground arith

  longlong_cast : (v : RtVal D) → castable RtKind.longlong (kind_of v) ≡ true → as_longlong v ≢ none
  longlong_cast v c e = ground arith

  double_cast :
      (fl : Floats) (v : RtVal D)
      → castable RtKind.double (kind_of v) ≡ true
      → as_double fl v ≢ none
  double_cast fl v c e = ground arith

  arm-Returns :
      (fl : Floats) (wk rk : RtKind) (op : MachineOp) (l r : RtVal D)
      → castable wk (kind_of l) ≡ true
      → castable wk (kind_of r) ≡ true
      → storable wk rk ≡ true
      → Returns (arm fl wk rk op l r) (Computes op)
  arm-Returns fl RtKind.ulong rk op l r p q h =
      let (x, e) = cast_some as_ulong RtKind.ulong ulong_cast l p in
      let (y, e') = cast_some as_ulong RtKind.ulong ulong_cast r q in
      unsigned_arm-Returns (2 ^ 32) as_ulong rk op l r x y e e'
        (unsigned-Stores D RtKind.ulong rk (inl refl) h)
  arm-Returns fl RtKind.long rk op l r p q h =
      let (x, e) = cast_some as_long RtKind.long long_cast l p in
      let (y, e') = cast_some as_long RtKind.long long_cast r q in
      signed_arm-Returns (2 ^ 32) as_long rk op l r x y e e'
        (signed-Stores D RtKind.long rk (inl refl) h)
  arm-Returns fl RtKind.ulonglong rk op l r p q h =
      let (x, e) = cast_some as_ulonglong RtKind.ulonglong ulonglong_cast l p in
      let (y, e') = cast_some as_ulonglong RtKind.ulonglong ulonglong_cast r q in
      unsigned_arm-Returns (2 ^ 64) as_ulonglong rk op l r x y e e'
        (unsigned-Stores D RtKind.ulonglong rk (inr refl) h)
  arm-Returns fl RtKind.longlong rk op l r p q h =
      let (x, e) = cast_some as_longlong RtKind.longlong longlong_cast l p in
      let (y, e') = cast_some as_longlong RtKind.longlong longlong_cast r q in
      signed_arm-Returns (2 ^ 64) as_longlong rk op l r x y e e'
        (signed-Stores D RtKind.longlong rk (inr refl) h)
  arm-Returns fl RtKind.double rk op l r p q h =
      let (x, e) = cast_some (as_double fl) RtKind.double (double_cast fl) l p in
      let (y, e') = cast_some (as_double fl) RtKind.double (double_cast fl) r q in
      double_arm-Returns fl rk op l r x y e e' (double-Stores D fl rk h)
  arm-Returns fl _ rk op l r p q h = cc

  -- On two numbers of any kinds, _eval_arithop fails no assertion: it gives a number, a signal or,
  -- for a quotient or a rest only, a trap.
  pub eval_arithop-Returns :
      (fl : Floats) (op : MachineOp) (l r : RtVal D)
      → is_number (kind_of l) ≡ true
      → is_number (kind_of r) ≡ true
      → Returns (eval_arithop fl op l r) (Computes op)
  unfolding eval_arithop widen_and_result_kinds
  eval_arithop-Returns fl op l r h k =
      let fine = kinds-sorted (kind_of l) (kind_of r) h k in
      let (casts, last) = and_true _ _ fine in
      let (p, q) = and_true _ _ casts in rw (h, k) (arm-Returns fl _ _ op l r p q last)
