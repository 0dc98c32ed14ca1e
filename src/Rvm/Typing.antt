-- ===== src/Rvm/Typing.antt =====
-- What a value of a static type is when the machine runs (lib/RDIRVM.cc with the tables of
-- lib/RDIEval.cc), and what each op relies on besides the types: its argument, and what the event
-- and the DynAny objects hold.
use omni_notify_omni_orb.Common.{ℕ, ◌+◌, ◌<◌, Bool, true, false, some, List, [], ◌∷◌, ◌≡◌, ◌≢◌, ◌⊎◌}
use omni_notify_omni_orb.OpSeq.Codes.{StaticT, OpCode}
use omni_notify_omni_orb.OpSeq.Seq.{OpArg, Text}
use omni_notify_omni_orb.OpSeq.Stack.{Stack}
use omni_notify_omni_orb.Rvm.Value.{RtVal, RtKind, kind_of, is_number}
use omni_notify_omni_orb.Rvm.Env.{Env, is_any}
use omni_notify_omni_orb.Rvm.Arith.{undefined_code}
use omni_notify_omni_orb.Rvm.Machine.{Rvm, StepOutcome, goes_on, returns, escapes, jump_target}
use omni_notify_omni_orb.Rvm.Step.{is_part}

-- What is found in an event: everything but the two kinds of literals.
abbrev pub is_component : RtKind → Bool
is_component RtKind.enum_ident = false
is_component RtKind.char_or_string = false
is_component _ = true

-- A value of this kind may stand where the compiler has recorded this type.
abbrev pub kind_fits : StaticT → RtKind → Bool
kind_fits StaticT.b RtKind.boolean = true
kind_fits StaticT.b _ = false
kind_fits StaticT.c RtKind.char_or_string = true
kind_fits StaticT.c _ = false
kind_fits StaticT.i RtKind.enum_ident = true
kind_fits StaticT.i _ = false
kind_fits StaticT.n k = is_number k
kind_fits StaticT.n_ushort RtKind.ushort = true
kind_fits StaticT.n_ushort _ = false
kind_fits StaticT.s RtKind.string = true
kind_fits StaticT.s _ = false
kind_fits StaticT.u k = is_component k

-- The values on the stack are of the recorded types.
abbrev pub AllFit : {D : Type 0} → Stack → List (RtVal D) → Type 0
AllFit [] [] = Unit {0}
AllFit [] (v ∷ vs) = ⊥
AllFit (t ∷ ts) [] = ⊥
AllFit (t ∷ ts) (v ∷ vs) = (kind_fits t (kind_of v) ≡ true) × AllFit ts vs

-- They are, except for the top.
abbrev pub BelowFit : {D : Type 0} → Stack → List (RtVal D) → Type 0
BelowFit (t ∷ ts) (v ∷ vs) = AllFit ts vs
BelowFit _ _ = ⊥

abbrev pub machine : {D : Type 0} → ℕ → List (RtVal D) → ℕ → Bool → Rvm D
machine pc stk rc rb = record { pc = pc; stack = stk; r_code = rc; r_bool = rb }

-- The op looks up a component, so a component may be missing after it.
abbrev pub looks_up : OpCode → Bool
looks_up OpCode.wkp_nc2u = true
looks_up OpCode.special_sc2u = true
looks_up code = is_part code

-- The machine stands with these types, and evaluates or skips the rest of a component.
abbrev pub Evaluates : {D : Type 0} → Stack → Rvm D → Type 0
Evaluates st m = (m.r_code ≡ undefined_code) × AllFit st m.stack

abbrev pub Skips : {D : Type 0} → Stack → Rvm D → Type 0
Skips st m = (m.r_code ≢ undefined_code) × BelowFit st m.stack

-- The op may end the evaluation by an exception or a trap.
abbrev pub may_escape : OpCode → Bool
may_escape OpCode.div_nn2n = true
may_escape OpCode.rem_nn2n = true
may_escape OpCode.dot_tid_u2s = true
may_escape OpCode.dot_rid_u2s = true
may_escape _ = false

-- The op always ends the evaluation.
abbrev pub is_last : OpCode → Bool
is_last OpCode.return_b = true
is_last OpCode.signal_n = true
is_last _ = false

-- Where the op at `pc` may go, with the argument `a`, among `len` ops.
abbrev pub Lands : ℕ → OpCode → OpArg → ℕ → ℕ → Type 0
Lands len OpCode.if_t_b2b (OpArg.lbl off x) pc p = (p ≡ pc + 1) ⊎ (jump_target len pc off ≡ some p)
Lands len OpCode.if_f_b2b (OpArg.lbl off x) pc p = (p ≡ pc + 1) ⊎ (jump_target len pc off ≡ some p)
Lands len OpCode.goto (OpArg.lbl off x) pc p =
    (q : ℕ) × (jump_target len pc off ≡ some q) × (p ≡ q + 1)
Lands len code a pc p = p ≡ pc + 1

-- What an op does to a machine with types that leave the types `st`.
abbrev pub Follows : {D : Type 0} → ℕ → OpCode → OpArg → ℕ → Stack → StepOutcome D → Type 0
Follows len code a pc st (goes_on m) =
    (m.pc < len)
    × Lands len code a pc m.pc
    × (Evaluates st m ⊎ ((looks_up code ≡ true) × Skips st m))
Follows len code a pc st (returns m) = m.stack ≡ []
Follows len code a pc st escapes = may_escape code ≡ true

-- The documented behaviour of the DynAny objects and the event: an Any can be taken out of a DynAny
-- of type Any and is nested less deeply; what an event holds is no literal of a constraint.
pub record IsSound {D A : Type 0} (env : Env D A) : Type 0 where
  pub opens :
      (d : D) → is_any (env.api.dyn.type_of d) ≡ true → (x : A) × (env.api.get_any d ≡ some x)
  pub nested :
      (d : D) (x : A) (e : D)
      → env.api.get_any d ≡ some x
      → env.api.create x ≡ some e
      → env.api.depth e < env.api.depth d
  pub parts :
      (k : ℕ) (v : RtVal D) → env.event.well_known k ≡ some v → is_component (kind_of v) ≡ true
  pub fields :
      (t : Text) (v : RtVal D) → env.event.lookup_rtval t ≡ some v → is_component (kind_of v) ≡ true

-- The elements of $curtime are numbered below 8, and a signal is not the code for success.
abbrev pub IsSane : {D : Type 0} → OpCode → OpArg → List (RtVal D) → Type 0
IsSane OpCode.ctelt_nc2n (OpArg.nc_us e) vs = e < 8
IsSane OpCode.signal_n a (RtVal.ushort k ∷ vs) = k ≢ 0
IsSane code a vs = Unit {0}
