-- ===== src/Rvm/Program.antt =====
-- A sequence of ops that the machine (lib/RDIRVM.cc) can run: it has static types at every op, its
-- jumps go forward, and a component is followed to its end.
use omni_notify_omni_orb.Common.{
  ℕ, zero, suc, ◌+◌, ◌<◌, ◌≤◌, Bool, true, false, Option, none, some, List, [], ◌∷◌, length, ◌≡◌,
  ◌⊎◌, inl, inr, refl, sym, subst, get_elem?, get_elem?-some, Returns, arith, some_eq, lt→ltb, ltb,
  check, ◌>>=◌, Returns-some, bind_inv, Bool-cases,
}
use omni_notify_omni_orb.OpSeq.Codes.{OpCode}
use omni_notify_omni_orb.OpSeq.Seq.{Op, OpArg}
use omni_notify_omni_orb.OpSeq.Stack.{Stack, check_pre, model_effect, stack_size}
use omni_notify_omni_orb.OpSeq.Tables.{op2_arg_t}
use omni_notify_omni_orb.OpSeq.Jumps.{has_arg_t}
use omni_notify_omni_orb.Rvm.Value.{RtVal}
use omni_notify_omni_orb.Rvm.Env.{Env}
use omni_notify_omni_orb.Rvm.Machine.{
  Rvm, StepOutcome, goes_on, returns, escapes, push, next_op, eval_push_nc_ushort,
}
use omni_notify_omni_orb.Rvm.Step.{
  is_part, is_end, step, step_at, Verdict, ended, escaped, unfinished, run, eval, reset,
}
use omni_notify_omni_orb.Rvm.Typing.{
  AllFit, Lands, Follows, Evaluates, Skips, looks_up, may_escape, IsSound, IsSane, machine,
}
use omni_notify_omni_orb.Rvm.Safety.Conversions.{Stays}
use omni_notify_omni_orb.Rvm.Safety.Steps.{step-Follows, step-Skipped}

abbrev pub is_signal : OpCode → Bool
is_signal OpCode.signal_n = true
is_signal _ = false

-- The element number of $curtime is below 8.
abbrev pub CurTimeOk : OpCode → OpArg → Type 0
CurTimeOk OpCode.ctelt_nc2n (OpArg.nc_us e) = e < 8
CurTimeOk code a = Unit {0}

-- The op pushes a number other than 0, the code for success.
abbrev pub PushesError : Op → Type 0
PushesError op = (k : ℕ) × (op ≡ record { code = OpCode.push_nc_ushort; arg = OpArg.nc_us (suc k) })

-- What holds of the op at `pc` among `ops`, where `types` are the types before each op.
pub record OpFits (ops : List Op) (types : ℕ → Stack) (pc : ℕ) (op : Op) : Type 0 where
  pub left : Stack
  pub argument : has_arg_t (op2_arg_t op.code) op.arg ≡ true
  pub element : CurTimeOk op.code op.arg
  pub stays : Stays (length ops) op.code op.arg pc
  pub before : check_pre op.code (types pc) ≡ some tt
  pub after : model_effect op.code (types pc) ≡ some left
  pub lands_on : (p : ℕ) → Lands (length ops) op.code op.arg pc p → types p ≡ left
  pub forward : (p : ℕ) → Lands (length ops) op.code op.arg pc p → pc < p
  pub followed :
      (p : ℕ) (next : Op)
      → Lands (length ops) op.code op.arg pc p
      → get_elem? ops p ≡ some next
      → looks_up op.code ≡ true
      → (is_part next.code ≡ true) ⊎ (is_end next.code ≡ true)
  pub signalled :
      (p : ℕ) (next : Op)
      → Lands (length ops) op.code op.arg pc p
      → get_elem? ops p ≡ some next
      → is_signal next.code ≡ true
      → PushesError op

-- An op that only goes to the next one.
pub straight-OpFits :
    (ops : List Op) (types : ℕ → Stack) (pc : ℕ) (op : Op)
    → ((p : ℕ) → Lands (length ops) op.code op.arg pc p → p ≡ pc + 1)
    → has_arg_t (op2_arg_t op.code) op.arg ≡ true
    → CurTimeOk op.code op.arg
    → Stays (length ops) op.code op.arg pc
    → check_pre op.code (types pc) ≡ some tt
    → model_effect op.code (types pc) ≡ some (types (pc + 1))
    → ((next : Op)
        → get_elem? ops (pc + 1) ≡ some next
        → ((looks_up op.code ≡ true) → (is_part next.code ≡ true) ⊎ (is_end next.code ≡ true))
          × (is_signal next.code ≡ true → PushesError op))
    → OpFits ops types pc op
straight-OpFits ops types pc op only q k room pre eff then_next = record {
  left = types (pc + 1);
  argument = q;
  element = k;
  stays = room;
  before = pre;
  after = eff;
  lands_on = λ p l. subst (λ x. types x ≡ types (pc + 1)) (sym (only p l)) refl;
  forward = λ p l. let same = only p l in omega (arith, same);
  followed =
      λ p next l at. (then_next next (subst (λ x. get_elem? ops x ≡ some next) (only p l) at)).0;
  signalled =
      λ p next l at. (then_next next (subst (λ x. get_elem? ops x ≡ some next) (only p l) at)).1;
}

-- The ops from `pc` on fit.
abbrev pub EachFits : List Op → (ℕ → Stack) → ℕ → List Op → Type 0
EachFits ops types pc [] = Unit {0}
EachFits ops types pc (op ∷ os) = OpFits ops types pc op × EachFits ops types (suc pc) os

pub fits_at :
    (ops : List Op) (types : ℕ → Stack) (pc : ℕ) (os : List Op)
    → EachFits ops types pc os
    → (k : ℕ) (op : Op) → get_elem? os k ≡ some op
    → OpFits ops types (k + pc) op
fits_at ops types pc [] h k op e = cc
fits_at ops types pc (x ∷ os) h zero op e =
    let same : pc ≡ zero + pc = omega arith in
    subst (λ y. OpFits ops types y op) same (subst (OpFits ops types pc) (some_eq e) h.0)
fits_at ops types pc (x ∷ os) h (suc k) op e =
    let same : k + suc pc ≡ suc k + pc = omega arith in
    subst (λ y. OpFits ops types y op) same (fits_at ops types (suc pc) os h.1 k op e)

pub record IsProgram (ops : List Op) (types : ℕ → Stack) : Type 0 where
  pub entry : types 0 ≡ []
  pub nonempty : 0 < length ops
  pub fits : (pc : ℕ) (op : Op) → get_elem? ops pc ≡ some op → OpFits ops types pc op

-- The machine is at an op, with the types there, and a signal has its code on top.
abbrev pub Stands : {D : Type 0} → List Op → (ℕ → Stack) → Rvm D → Type 0
Stands ops types m =
    (op : Op) × (get_elem? ops m.pc ≡ some op)
    × (IsSane OpCode.signal_n OpArg.no_arg m.stack ⊎ (is_signal op.code ≡ false))
    × (Evaluates (types m.pc) m
        ⊎ (((is_part op.code ≡ true) ⊎ (is_end op.code ≡ true)) × Skips (types m.pc) m))

-- The evaluation has ended, with the stack cleared, or an op has thrown that may throw.
abbrev pub Finishes : {D : Type 0} → List Op → Option (Verdict D) → Type 0
Finishes ops none = ⊥
Finishes ops (some (ended m)) = m.stack ≡ []
Finishes ops (some escaped) =
    (pc : ℕ) × (op : Op) × (get_elem? ops pc ≡ some op) × (may_escape op.code ≡ true)
Finishes ops (some unfinished) = ⊥

IsSane-of :
    {D : Type 0} (code : OpCode) (a : OpArg) (stk : List (RtVal D))
    → CurTimeOk code a
    → IsSane OpCode.signal_n OpArg.no_arg stk ⊎ (is_signal code ≡ false)
    → IsSane code a stk
IsSane-of OpCode.signal_n a stk h (inl k) = k
IsSane-of OpCode.signal_n a stk h (inr k) = cc
IsSane-of OpCode.ctelt_nc2n (OpArg.nc_us e) stk h k = h
IsSane-of OpCode.ctelt_nc2n a stk h k = tt
IsSane-of code a stk h k = tt

-- A part op and an end op go to the next op.
next_room :
    (code : OpCode) (a : OpArg) (pc : ℕ) {len : ℕ}
    → (is_part code ≡ true) ⊎ (is_end code ≡ true)
    → Stays len code a pc
    → pc + 1 < len
next_room code a pc k h = ground arith

module _ {D A : Type 0} (env : Env D A) (ops : List Op) where
  -- The number that an op has pushed is on top after it.
  pushed_top :
      (k : ℕ) (m m' : Rvm D)
      → eval_push_nc_ushort env ops (OpArg.nc_us k) m ≡ some (goes_on m')
      → m'.stack ≡ RtVal.ushort k ∷ m.stack
  unfolding eval_push_nc_ushort push next_op
  pushed_top k m m' h =
      let (x, room, h₁) = bind_inv (check (ltb (length m.stack) stack_size)) _ h in
      let (y, space, h₂) = bind_inv (check (ltb (m.pc + 1) (length ops))) _ h₁ in cc

  pushed-IsSane :
      (op : Op) (m m' : Rvm D)
      → PushesError op
      → step env ops op.code op.arg m ≡ some (goes_on m')
      → IsSane OpCode.signal_n OpArg.no_arg m'.stack
  unfolding step
  pushed-IsSane op m m' (k, e) h =
      let pushes = subst (λ x. step env ops x.code x.arg m ≡ some (goes_on m')) e h in
      subst (IsSane OpCode.signal_n OpArg.no_arg) (sym (pushed_top (suc k) m m' pushes))
        (λ q. omega (arith, q))

  module _ (types : ℕ → Stack) (sound : IsSound env) (program : IsProgram ops types) where
    -- Every op leads on to an op where the machine stands again, or ends the evaluation.
    abbrev Leads : ℕ → StepOutcome D → Type 0
    Leads pc (goes_on m) = (pc < m.pc) × (m.pc < length ops) × Stands ops types m
    Leads pc (returns m) = m.stack ≡ []
    Leads pc escapes = (op : Op) × (get_elem? ops pc ≡ some op) × (may_escape op.code ≡ true)

    leads :
        (op : Op) (m : Rvm D) (o : StepOutcome D) (f : OpFits ops types m.pc op)
        → get_elem? ops m.pc ≡ some op
        → step env ops op.code op.arg m ≡ some o
        → Follows (length ops) op.code op.arg m.pc f.left o
        → Leads m.pc o
    leads op m (returns m') f at ran h = h
    leads op m escapes f at ran h = (op, at, h)
    leads op m (goes_on m') f at ran (room, lands, state) =
        let (next, there) = get_elem?-some ops m'.pc room in
        (f.forward m'.pc lands, room, (next, there, signal next there, stands next there state))
      where
        signal :
            (next : Op)
            → get_elem? ops m'.pc ≡ some next
            → IsSane OpCode.signal_n OpArg.no_arg m'.stack ⊎ (is_signal next.code ≡ false)
        signal next there = elim (Bool-cases (is_signal next.code)) [
          | inl e ↦ inl (pushed-IsSane op m m' (f.signalled m'.pc next lands there e) ran)
          | inr e ↦ inr e
        ]

        stands :
            (next : Op)
            → get_elem? ops m'.pc ≡ some next
            → Evaluates f.left m' ⊎ ((looks_up op.code ≡ true) × Skips f.left m')
            → Evaluates (types m'.pc) m'
              ⊎ (((is_part next.code ≡ true) ⊎ (is_end next.code ≡ true)) × Skips (types m'.pc) m')
        stands next there (inl e) =
            inl (subst (λ st. Evaluates st m') (sym (f.lands_on m'.pc lands)) e)
        stands next there (inr (l, k)) = inr (
          f.followed m'.pc next lands there l,
          subst (λ st. Skips st m') (sym (f.lands_on m'.pc lands)) k,
        )

    -- The op where the machine stands does what its types say.
    step_from :
        (op : Op) (m : Rvm D) (f : OpFits ops types m.pc op)
        → IsSane op.code op.arg m.stack
        → Evaluates (types m.pc) m
          ⊎ (((is_part op.code ≡ true) ⊎ (is_end op.code ≡ true)) × Skips (types m.pc) m)
        → Returns (step env ops op.code op.arg m) (Follows (length ops) op.code op.arg m.pc f.left)
    step_from op m f sane (inl (code, fit)) =
        subst
          (λ x.
            Returns (step env ops op.code op.arg (machine m.pc m.stack x m.r_bool))
              (Follows (length ops) op.code op.arg m.pc f.left))
          (sym code)
          (step-Follows env ops m.pc m.r_bool sound op.code op.arg (types m.pc) f.left m.stack
            f.argument sane f.stays f.before f.after fit)
    step_from op m f sane (inr (kind, (code, below))) =
        step-Skipped env ops m.pc m.r_bool op.code op.arg (types m.pc) f.left m.stack m.r_code kind
          (next_room op.code op.arg m.pc kind f.stays) f.after code below

    step_at-Leads :
        (m : Rvm D)
        → Stands ops types m
        → (o : StepOutcome D) × (step_at env ops m ≡ some o) × Leads m.pc o
    unfolding step_at
    step_at-Leads m (op, at, sane, state) =
        let f = program.fits m.pc op at in
        let (o, ran, follows) =
          Returns-some _ (step env ops op.code op.arg m)
            (step_from op m f (IsSane-of op.code op.arg m.stack f.element sane) state) in
        (o, rw (at, ◌>>=◌, ran), leads op m o f at ran follows)

    continued :
        (n : ℕ) (m : Rvm D)
        → m.pc < length ops
        → length ops ≤ suc n + m.pc
        → (o : StepOutcome D) → Leads m.pc o
        → ((m' : Rvm D)
            → m'.pc < length ops
            → length ops ≤ n + m'.pc
            → Stands ops types m'
            → Finishes ops (run env ops n m'))
        → Finishes ops (elim o [
          | goes_on m' ↦ run env ops n m'
          | returns m' ↦ some (ended m')
          | escapes ↦ some escaped
        ])
    continued n m room enough (goes_on m') (further, inside, there) later =
        later m' inside (omega arith) there
    continued n m room enough (returns m') h later = h
    continued n m room enough escapes (op, at, h) later = (m.pc, op, at, h)

    run-Finishes :
        (n : ℕ) (m : Rvm D)
        → m.pc < length ops
        → length ops ≤ n + m.pc
        → Stands ops types m
        → Finishes ops (run env ops n m)
    unfolding run
    run-Finishes zero m room enough stands = absurd (omega arith)
    run-Finishes (suc n) m room enough stands =
        let (o, ran, led) = step_at-Leads m stands in
        rw ran (
          continued n m room enough o led
            (λ m' inside near there. run-Finishes n m' inside near there))

    -- On a sequence of ops with static types at every op that its precondition and effect accept and
    -- an argument of its type (below 8 for an element of $curtime), whose jumps go forward and stay
    -- inside, whose components are followed to an end op and whose signals carry an error, eval comes
    -- to its end in at most as many rounds as there are ops, no assertion fails, and it ends with a cleared stack, or at a
    -- division or a type name op that has trapped or thrown, where an Any can be taken out of a
    -- DynAny of type Any, is nested less deeply than it, and the event holds no literals.
    pub eval-Finishes : Finishes ops (eval env ops (length ops))
    unfolding eval
    eval-Finishes =
        let (op, at) = get_elem?-some ops 0 program.nonempty in
        rw (lt→ltb 0 (length ops) program.nonempty) (
          run-Finishes (length ops) (reset env ops) program.nonempty (omega arith)
            (op, at, inl tt, inl (refl, subst (λ st. AllFit {D = D} st []) (sym program.entry) tt)))
