-- ===== src/Rvm/Safety/Values.antt =====
-- Proofs about the ops on booleans, numbers and strings, and the jumps (lib/RDIRVM.cc).
use omni_notify_omni_orb.Common.{
  ℕ, ◌+◌, ◌<◌, Bool, true, not, Option, none, some, List, [], ◌∷◌, length, ◌≡◌, ◌≢◌, inl, inr, refl,
  subst, ltb, check, ◌>>=◌, Returns, arith, some_eq, Bool-cases, Option-cases, ltb→lt, check_inv,
  ◌==◌, bind_inv,
}
use omni_notify_omni_orb.Common.Int.{ℤ, pos, negsuc, ◌+ℤ◌}
use omni_notify_omni_orb.OpSeq.Codes.{StaticT, OpCode}
use omni_notify_omni_orb.OpSeq.Seq.{Op, OpArg}
use omni_notify_omni_orb.OpSeq.Stack.{
  Stack, require_one, require_two, retype_top, retype_two, is_b, is_s, is_n, is_n_ushort,
}
use omni_notify_omni_orb.Rvm.Value.{RtVal, RtKind, kind_of, is_number, is_numeric, force2num}
use omni_notify_omni_orb.Rvm.Env.{Env, Floats}
use omni_notify_omni_orb.Rvm.Arith.{MachineOp, ArithResult, value, signal, trap, divides}
use omni_notify_omni_orb.Rvm.Machine.{
  eval_return_b, eval_signal_n, jump_target, in_array, is_zero_ℤ,
}
use omni_notify_omni_orb.Rvm.Ops.{eval_not_b2b, settles, eval_arith, eval_substr}
use omni_notify_omni_orb.Rvm.Compare.{ZeroTest, eval_zero_test, forced, zero_test_number}
use omni_notify_omni_orb.Rvm.Numbers.{Computes, eval_arithop-Returns}
use omni_notify_omni_orb.Rvm.Typing.{AllFit, Lands, may_escape, IsSane}
use omni_notify_omni_orb.Rvm.Safety.Plain.{
  boolean_value, string_value, ushort_value, number_kind, both_checks, Good, here, next-Good, moved,
}

-- A number is not forced.
forced_number : {D : Type 0} (v : RtVal D) → is_number (kind_of v) ≡ true → forced v ≡ some v
forced_number v h = ground arith

tested :
    {D : Type 0} (fl : Floats) (t : ZeroTest) (v : RtVal D)
    → is_number (kind_of v) ≡ true
    → zero_test_number fl t v ≢ none
tested fl t v h e = ground arith

numeric : (k : RtKind) → is_number k ≡ true → is_numeric k ≡ true
numeric k h = ground arith

pub forced_some :
    {D : Type 0} (v : RtVal D)
    → is_numeric (kind_of v) ≡ true
    → Returns (forced v) λ w. is_number (kind_of w) ≡ true
unfolding force2num
forced_some v h = ground arith

in_array-lt : (len : ℕ) (z : ℤ) (p : ℕ) → in_array len z ≡ some p → p < len
in_array-lt len (negsuc k) p h = cc
in_array-lt len (pos k) p h = elim (Bool-cases (ltb k len)) [
  | inl e ↦ subst (λ x. x < len) (some_eq (rw e at h)) (ltb→lt k len e)
  | inr e ↦ cc (rw e at h)
]

pub jump_target-lt : (len pc : ℕ) (off : ℤ) (p : ℕ) → jump_target len pc off ≡ some p → p < len
unfolding jump_target
jump_target-lt len pc off p h =
    let z = pos pc +ℤ off in
    let (x, first, last) = bind_inv (check (not (is_zero_ℤ off))) (λ y. in_array len z) h in
    in_array-lt len z p last

module _ {D A : Type 0} (env : Env D A) (ops : List Op) (code : OpCode) (a : OpArg) (pc : ℕ)
    (rb : Bool) where
  pub return-Good :
      (st st' : Stack) (stk : List (RtVal D))
      → require_one is_b st ≡ some tt
      → AllFit st stk
      → Good env ops code a pc rb st' (eval_return_b env ops (here env ops code a pc rb stk))
  unfolding eval_return_b require_one
  return-Good [] st' stk r h = cc
  return-Good (t ∷ ts) st' [] r h = elim h [ ]
  return-Good (t ∷ ts) st' (v ∷ vs) r h =
      let (x, p) = boolean_value t v (check_inv (is_b t) r) h.0 in rw p refl

  pub signal_n-Good :
      (st st' : Stack) (stk : List (RtVal D))
      → require_one is_n_ushort st ≡ some tt
      → AllFit st stk
      → IsSane OpCode.signal_n a stk
      → Good env ops code a pc rb st' (eval_signal_n env ops (here env ops code a pc rb stk))
  unfolding eval_signal_n require_one
  signal_n-Good [] st' stk r h sane = cc
  signal_n-Good (t ∷ ts) st' [] r h sane = elim h [ ]
  signal_n-Good (t ∷ ts) st' (v ∷ vs) r h sane =
      let (x, p) = ushort_value t v (check_inv (is_n_ushort t) r) h.0 in
      let differs : x ≢ 0 = subst (λ w. IsSane OpCode.signal_n a (w ∷ vs)) p sane in
      elim (Bool-cases (x == 0)) [
        | inl e ↦ absurd (differs (ground arith))
        | inr e ↦ rw (p, e) refl
      ]

  module _ (next : pc + 1 < length ops) (lands : Lands (length ops) code a pc (pc + 1)) where
    pub not-Good :
        (st st' : Stack) (stk : List (RtVal D))
        → require_one is_b st ≡ some tt
        → AllFit st stk
        → retype_top StaticT.b st ≡ some st'
        → Good env ops code a pc rb st' (eval_not_b2b env ops (here env ops code a pc rb stk))
    unfolding eval_not_b2b require_one retype_top
    not-Good [] st' stk r h e = cc
    not-Good (t ∷ ts) st' [] r h e = elim h [ ]
    not-Good (t ∷ ts) st' (v ∷ vs) r h e =
        let (x, p) = boolean_value t v (check_inv (is_b t) r) h.0 in
        rw p (
          moved env ops code a pc rb _ _ _ e (
            next-Good env ops code a pc rb next lands (StaticT.b ∷ ts) (RtVal.boolean (not x) ∷ vs)
              (refl, h.1)))

    pub zero_test-Good :
        (test : ZeroTest) (st st' : Stack) (stk : List (RtVal D))
        → require_one is_n st ≡ some tt
        → AllFit st stk
        → retype_top StaticT.b st ≡ some st'
        → Good env ops code a pc rb st'
            (eval_zero_test env ops test (here env ops code a pc rb stk))
    unfolding eval_zero_test require_one retype_top
    zero_test-Good test [] st' stk r h e = cc
    zero_test-Good test (t ∷ ts) st' [] r h e = elim h [ ]
    zero_test-Good test (t ∷ ts) st' (v ∷ vs) r h e =
        let k = number_kind t (kind_of v) (check_inv (is_n t) r) h.0 in
        elim (Option-cases (zero_test_number env.floats test v)) [
          | inl e' ↦ absurd (tested env.floats test v k e')
          | inr (x, e') ↦
              rw (numeric (kind_of v) k, forced_number v k, e')
                (moved env ops code a pc rb _ _ _ e (
                  next-Good env ops code a pc rb next lands (StaticT.b ∷ ts) (RtVal.boolean x ∷ vs)
                    (refl, h.1)))
        ]

    pub substr-Good :
        (st st' : Stack) (stk : List (RtVal D))
        → require_two is_s is_s st ≡ some tt
        → AllFit st stk
        → retype_two StaticT.b st ≡ some st'
        → Good env ops code a pc rb st' (eval_substr env ops (here env ops code a pc rb stk))
    unfolding eval_substr require_two retype_two
    substr-Good [] st' stk r h e = cc
    substr-Good (t ∷ []) st' stk r h e = cc
    substr-Good (t ∷ t' ∷ ts) st' [] r h e = elim h [ ]
    substr-Good (t ∷ t' ∷ ts) st' (v ∷ []) r h e = elim h.1 [ ]
    substr-Good (t ∷ t' ∷ ts) st' (v ∷ v' ∷ vs) r h e =
        let (below, top) = both_checks (is_s t') (is_s t) r in
        let (x, p) = string_value t v top h.0 in
        let (y, q) = string_value t' v' below h.1.0 in
        rw (p, q)
          (moved env ops code a pc rb _ _ _ e (
            next-Good env ops code a pc rb next lands (StaticT.b ∷ ts) (RtVal.boolean _ ∷ vs)
              (refl, h.1.1)))

    -- The result of the arithmetic in place of two values.
    settles-Good :
        (op : MachineOp) (ts : Stack) (stk vs : List (RtVal D)) (o : ArithResult D)
        → (divides op ≡ true → may_escape code ≡ true)
        → AllFit ts vs
        → Computes op o
        → Good env ops code a pc rb
            (StaticT.n ∷ ts)
            (settles env ops (here env ops code a pc rb stk) vs o)
    unfolding settles
    settles-Good op ts stk vs (value v) m h c =
        next-Good env ops code a pc rb next lands (StaticT.n ∷ ts) (v ∷ vs) (c, h)
    settles-Good op ts stk vs (signal k) m h c = refl
    settles-Good op ts stk vs trap m h c = m c

    pub computed-Good :
        (op : MachineOp) (ts : Stack) (stk vs : List (RtVal D)) (o : Option (ArithResult D))
        → (divides op ≡ true → may_escape code ≡ true)
        → AllFit ts vs
        → Returns o (Computes op)
        → Good env ops code a pc rb
            (StaticT.n ∷ ts)
            (o >>= settles env ops (here env ops code a pc rb stk) vs)
    computed-Good op ts stk vs none m h c = c
    computed-Good op ts stk vs (some o) m h c = settles-Good op ts stk vs o m h c

    pub arith-Good :
        (op : MachineOp) (st st' : Stack) (stk : List (RtVal D))
        → (divides op ≡ true → may_escape code ≡ true)
        → require_two is_n is_n st ≡ some tt
        → AllFit st stk
        → retype_two StaticT.n st ≡ some st'
        → Good env ops code a pc rb st' (eval_arith env ops op (here env ops code a pc rb stk))
    unfolding eval_arith require_two retype_two
    arith-Good op [] st' stk m r h e = cc
    arith-Good op (t ∷ []) st' stk m r h e = cc
    arith-Good op (t ∷ t' ∷ ts) st' [] m r h e = elim h [ ]
    arith-Good op (t ∷ t' ∷ ts) st' (v ∷ []) m r h e = elim h.1 [ ]
    arith-Good op (t ∷ t' ∷ ts) st' (v ∷ v' ∷ vs) m r h e =
        let (below, top) = both_checks (is_n t') (is_n t) r in
        moved env ops code a pc rb _ _ _ e (
          computed-Good op ts (v ∷ v' ∷ vs) vs _ m h.1.1 (
            eval_arithop-Returns env.floats op v' v (number_kind t' (kind_of v') below h.1.0)
              (number_kind t (kind_of v) top h.0)))
