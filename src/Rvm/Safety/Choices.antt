-- ===== src/Rvm/Safety/Choices.antt =====
-- Proofs about comparisons, jumps and the op `in` (lib/RDIRVM.cc).
use omni_notify_omni_orb.Common.{
  ℕ, ◌+◌, ◌<◌, Bool, true, false, not, ◌&&◌, ◌||◌, Option, none, some, List, [], ◌∷◌, length, ◌≡◌,
  ◌≢◌, inl, inr, refl, ◌>>=◌, Returns, Bool-cases, Option-cases, check_inv, if◌then◌else◌,
  Returns-some, get_elem?-some,
}
use omni_notify_omni_orb.Common.Int.{ℤ}
use omni_notify_omni_orb.OpSeq.Codes.{StaticT, OpCode}
use omni_notify_omni_orb.OpSeq.Seq.{Op, OpArg, Text}
use omni_notify_omni_orb.OpSeq.Stack.{Stack, require_one, retype_two, is_b}
use omni_notify_omni_orb.Rvm.Value.{RtVal, kind_of, is_number, is_numeric, is_string, is_enum}
use omni_notify_omni_orb.Rvm.Env.{Env, TcKind, simplify, cvt2dbl}
use omni_notify_omni_orb.Rvm.Arith.{undefined_code, MachineOp, eval_arithop}
use omni_notify_omni_orb.Rvm.Machine.{Rvm, StepOutcome, goes_on, jump_target}
use omni_notify_omni_orb.Rvm.Ops.{settles, jumps, branch}
use omni_notify_omni_orb.Rvm.Compare.{
  tests_equality, enum_ident_of, both_idents, forced, eval_cmp_uu2n, compare_values, compare_enums,
}
use omni_notify_omni_orb.Rvm.Contain.{
  Scan, loop_result, stopped, numeric_scan, scan, scan_numbers, in_elements, in_values,
  eval_in_uu2b, conclude, settle_char, enum_fits, tc_numeric,
}
use omni_notify_omni_orb.Rvm.Parts.{component_at}
use omni_notify_omni_orb.Rvm.Numbers.{eval_arithop-Returns, and_true}
use omni_notify_omni_orb.Rvm.Simple.{simplify-Returns}
use omni_notify_omni_orb.Rvm.Typing.{AllFit, Lands, machine, IsSound}
use omni_notify_omni_orb.Rvm.Safety.Plain.{boolean_value, Good, here, next-Good, moved}
use omni_notify_omni_orb.Rvm.Safety.Values.{jump_target-lt, forced_some, computed-Good}

module _ {D A : Type 0} (env : Env D A) (sound : IsSound env) where
  numeric_scan-some : (x : ℕ) (es : List (Option D)) → numeric_scan env x es ≢ none
  unfolding numeric_scan
  numeric_scan-some x [] e = cc
  numeric_scan-some x (none ∷ es) e = cc
  numeric_scan-some x (some d ∷ es) e =
      let later = numeric_scan-some x es in
      let (v, simplified, fine) =
        Returns-some _ (simplify env (RtVal.dynany d)) (simplify-Returns env sound d) in
      elim (Option-cases (cvt2dbl env v)) [
        | inl p ↦ cc (rw (simplified, ◌>>=◌, p) at e)
        | inr (y, p) ↦ elim (Bool-cases (env.floats.feq x y)) [
          | inl q ↦ cc (rw (simplified, ◌>>=◌, p, q) at e)
          | inr q ↦ later (rw (simplified, ◌>>=◌, p, q) at e)
        ]
      ]

  scan_numbers-some :
      (tc : TcKind) (l : RtVal D) (es : List (Option D)) → scan_numbers env tc l es ≢ none
  scan_numbers-some tc l es e = elim (Bool-cases (tc_numeric tc)) [
    | inr p ↦ cc (rw p at e)
    | inl p ↦ elim (Option-cases (cvt2dbl env l)) [
      | inl q ↦ cc (rw (p, q) at e)
      | inr (x, q) ↦ numeric_scan-some x es (rw (p, q) at e)
    ]
  ]

  -- A scan always ends, with a result or a signal.
  scan-some : (tc : TcKind) (l : RtVal D) (es : List (Option D)) → scan env tc l es ≢ none
  unfolding scan
  scan-some tc (RtVal.string t) es e = cc
  scan-some tc (RtVal.enum_ident t) es e = cc
  scan-some tc (RtVal.enum_val d) es e = cc
  scan-some tc l es e = scan_numbers-some tc l es e

module _ {D A : Type 0} (env : Env D A) (ops : List Op) (code : OpCode) (a : OpArg) (pc : ℕ)
    (rb : Bool) (next : pc + 1 < length ops) where
  abbrev at : List (RtVal D) → Rvm D
  at stk = here env ops code a pc rb stk

  abbrev Fine : Stack → Option (StepOutcome D) → Type 0
  Fine st o = Good env ops code a pc rb st o

  module _ (lands : Lands (length ops) code a pc (pc + 1)) where
    pub branch-Good :
        (wanted : Bool) (off : ℤ) (x : Text) (p : ℕ) (st st' : Stack) (stk : List (RtVal D))
        → jump_target (length ops) pc off ≡ some p
        → Lands (length ops) code a pc p
        → require_one is_b st ≡ some tt
        → AllFit st stk
        → some st ≡ some st'
        → Fine st' (branch env ops wanted (OpArg.lbl off x) (at stk))
    unfolding branch require_one jumps
    branch-Good wanted off x p [] st' stk j l r h e = cc
    branch-Good wanted off x p (t ∷ ts) st' [] j l r h e = elim h [ ]
    branch-Good wanted off x p (t ∷ ts) st' (v ∷ vs) j l r h e =
        let (y, q) = boolean_value t v (check_inv (is_b t) r) h.0 in
        elim (Bool-cases (if wanted then y else not y)) [
          | inl taken ↦
              rw (q, taken, j)
                (moved env ops code a pc rb (t ∷ ts) st'
                  (some (goes_on (machine p (v ∷ vs) undefined_code rb))) e
                  (jump_target-lt (length ops) pc off p j, l, inl (refl, h)))
          | inr not_taken ↦
              rw (q, not_taken)
                (moved env ops code a pc rb _ _ _ e
                  (next-Good env ops code a pc rb next lands (t ∷ ts) (v ∷ vs) h))
        ]

    compare_enums-Good :
        (ts : Stack) (stk vs : List (RtVal D)) (l r : RtVal D)
        → AllFit ts vs
        → Fine (StaticT.n ∷ ts) (compare_enums env ops (at stk) vs l r)
    unfolding compare_enums
    compare_enums-Good ts stk vs l r h =
        let (op, found) = get_elem?-some ops (pc + 1) next in
        elim (Bool-cases (both_idents env (kind_of l) (kind_of r))) [
          | inl e ↦ rw e refl
          | inr e ↦ elim (Bool-cases (tests_equality op.code)) [
            | inr e' ↦ rw (e, found, e') refl
            | inl e' ↦ elim (Option-cases (enum_ident_of env l)) [
              | inl p ↦ rw (e, found, e', p) refl
              | inr (x, p) ↦ elim (Option-cases (enum_ident_of env r)) [
                | inl q ↦ rw (e, found, e', p, q) refl
                | inr (y, q) ↦
                    rw (e, found, e', p, q)
                      (next-Good env ops code a pc rb next lands (StaticT.n ∷ ts)
                        (RtVal.long _ ∷ vs) (refl, h))
              ]
            ]
          ]
        ]

    forced-Good :
        (ts : Stack) (stk vs : List (RtVal D)) (l r : Option (RtVal D))
        → AllFit ts vs
        → Returns l (λ v. is_number (kind_of v) ≡ true)
        → Returns r (λ v. is_number (kind_of v) ≡ true)
        → Fine (StaticT.n ∷ ts) (
            l >>= λ l'.
            r >>= λ r'. eval_arithop env.floats MachineOp.cmp l' r' >>= settles env ops (at stk) vs)
    forced-Good ts stk vs none r h p q = p
    forced-Good ts stk vs (some l) none h p q = q
    forced-Good ts stk vs (some l) (some r) h p q =
        computed-Good env ops code a pc rb next lands MachineOp.cmp ts stk vs _ (λ e. cc) h
          (eval_arithop-Returns env.floats MachineOp.cmp l r p q)

    compare_values-Good :
        (ts : Stack) (stk vs : List (RtVal D)) (l r : RtVal D)
        → AllFit ts vs
        → Fine (StaticT.n ∷ ts) (compare_values env ops (at stk) vs l r)
    unfolding compare_values
    compare_values-Good ts stk vs l r h =
        elim (Bool-cases (is_string (kind_of l) && is_string (kind_of r))) [
          | inl e ↦ rw e (
              next-Good env ops code a pc rb next lands (StaticT.n ∷ ts) (RtVal.long _ ∷ vs)
                (refl, h))
          | inr e ↦ elim (Bool-cases (is_numeric (kind_of l) && is_numeric (kind_of r))) [
            | inl e' ↦
                let (p, q) = and_true (is_numeric (kind_of l)) (is_numeric (kind_of r)) e' in
                rw (e, e')
                  (forced-Good ts stk vs (forced l) (forced r) h (forced_some l p)
                    (forced_some r q))
            | inr e' ↦ elim (Bool-cases (is_enum (kind_of l) && is_enum (kind_of r))) [
              | inl e'' ↦ rw (e, e', e'') (compare_enums-Good ts stk vs l r h)
              | inr e'' ↦ rw (e, e', e'') refl
            ]
          ]
        ]

    pub cmp-Good :
        (st st' : Stack) (stk : List (RtVal D))
        → AllFit st stk
        → retype_two StaticT.n st ≡ some st'
        → Fine st' (eval_cmp_uu2n env ops (at stk))
    unfolding eval_cmp_uu2n retype_two
    cmp-Good [] st' stk h e = cc
    cmp-Good (t ∷ []) st' stk h e = cc
    cmp-Good (t ∷ t' ∷ ts) st' [] h e = elim h [ ]
    cmp-Good (t ∷ t' ∷ ts) st' (v ∷ []) h e = elim h.1 [ ]
    cmp-Good (t ∷ t' ∷ ts) st' (v ∷ v' ∷ vs) h e =
        moved env ops code a pc rb _ _ _ e (compare_values-Good ts (v ∷ v' ∷ vs) vs v' v h.1.1)

    conclude-Good :
        (ts : Stack) (stk vs : List (RtVal D)) (o : Scan)
        → AllFit ts vs
        → Fine (StaticT.b ∷ ts) (conclude env ops (at stk) vs o)
    conclude-Good ts stk vs (loop_result x) h =
        next-Good env ops code a pc rb next lands (StaticT.b ∷ ts) (RtVal.boolean x ∷ vs) (refl, h)
    conclude-Good ts stk vs (stopped k) h = refl

    concluded-Good :
        (ts : Stack) (stk vs : List (RtVal D)) (o : Option Scan)
        → AllFit ts vs
        → o ≢ none
        → Fine (StaticT.b ∷ ts) (o >>= conclude env ops (at stk) vs)
    concluded-Good ts stk vs none h p = absurd (p refl)
    concluded-Good ts stk vs (some o) h p = conclude-Good ts stk vs o h

    module _ (sound : IsSound env) where
      in_elements-Good :
          (ts : Stack) (stk vs : List (RtVal D)) (l : RtVal D) (es : List (Option D))
          → AllFit ts vs
          → Fine (StaticT.b ∷ ts) (in_elements env ops (at stk) vs l es)
      in_elements-Good ts stk vs l es h = elim (Option-cases (component_at es 0)) [
        | inl e ↦ rw (in_elements, e) (conclude-Good ts stk vs (loop_result false) h)
        | inr (d, e) ↦
            let tc = env.api.dyn.type_of d in
            elim (Bool-cases (enum_fits env d (settle_char env tc l))) [
              | inl e' ↦
                  rw (in_elements, e, e')
                    (concluded-Good ts stk vs _ h
                      (scan-some env sound tc (settle_char env tc l) es))
              | inr e' ↦ rw (in_elements, e, e') refl
            ]
      ]

      in_values-Good :
          (ts : Stack) (stk vs : List (RtVal D)) (l r : RtVal D)
          → AllFit ts vs
          → Fine (StaticT.b ∷ ts) (in_values env ops (at stk) vs l r)
      unfolding in_values
      in_values-Good ts stk vs l (RtVal.dynany d) h =
          elim (Bool-cases
            (is_numeric (kind_of l) || is_string (kind_of l) || is_enum (kind_of l))) [
              | inr e ↦ rw e refl
              | inl e ↦ elim (Bool-cases (env.api.is_seq d || env.api.is_array d)) [
                | inl e' ↦ rw (e, e') (in_elements-Good ts stk vs l (env.api.components d) h)
                | inr e' ↦ rw (e, e') refl
              ]
            ]
      in_values-Good ts stk vs l r h = refl

      pub in-Good :
          (st st' : Stack) (stk : List (RtVal D))
          → AllFit st stk
          → retype_two StaticT.b st ≡ some st'
          → Fine st' (eval_in_uu2b env ops (at stk))
      unfolding eval_in_uu2b retype_two
      in-Good [] st' stk h e = cc
      in-Good (t ∷ []) st' stk h e = cc
      in-Good (t ∷ t' ∷ ts) st' [] h e = elim h [ ]
      in-Good (t ∷ t' ∷ ts) st' (v ∷ []) h e = elim h.1 [ ]
      in-Good (t ∷ t' ∷ ts) st' (v ∷ v' ∷ vs) h e =
          moved env ops code a pc rb _ _ _ e (in_values-Good ts (v ∷ v' ∷ vs) vs v' v h.1.1)
