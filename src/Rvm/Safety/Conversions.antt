-- ===== src/Rvm/Safety/Conversions.antt =====
-- Proofs about the ops of $curtime, the conversions, the well-known parts and goto (lib/RDIRVM.cc).
use omni_notify_omni_orb.Common.{
  ℕ, ◌+◌, ◌<◌, Bool, true, Option, some, List, [], ◌∷◌, length, ◌≡◌, inl, inr, refl, subst, ltb,
  lt→ltb, ◌>>=◌, arith, some_eq, Bool-cases,
}
use omni_notify_omni_orb.OpSeq.Codes.{StaticT, OpCode}
use omni_notify_omni_orb.OpSeq.Seq.{Op, OpArg}
use omni_notify_omni_orb.OpSeq.Stack.{Stack, require_one, push_type, any_type}
use omni_notify_omni_orb.OpSeq.Tables.{op2_arg_t}
use omni_notify_omni_orb.OpSeq.Jumps.{has_arg_t}
use omni_notify_omni_orb.Rvm.Value.{RtVal, kind_of, is_number}
use omni_notify_omni_orb.Rvm.Env.{Env}
use omni_notify_omni_orb.Rvm.Arith.{undefined_code}
use omni_notify_omni_orb.Rvm.Machine.{
  Rvm, StepOutcome, next_op, jump_target, curtime_element, push_curtime, CurTime, pushed, signalled,
  nothing,
}
use omni_notify_omni_orb.Rvm.Ops.{eval_goto, cvt_u2b, cvt_u2s, cvt_u2n}
use omni_notify_omni_orb.Rvm.Parts.{eval_wkp}
use omni_notify_omni_orb.Rvm.Typing.{kind_fits, AllFit, BelowFit, machine, IsSound}
use omni_notify_omni_orb.Rvm.Safety.Plain.{Good, push-Good}
use omni_notify_omni_orb.Rvm.Safety.Components.{start_part-Good}

-- The op has somewhere to go: the next op, and the target of a jump.
abbrev pub Stays : ℕ → OpCode → OpArg → ℕ → Type 0
Stays len OpCode.return_b a pc = Unit {0}
Stays len OpCode.signal_n a pc = Unit {0}
Stays len OpCode.if_t_b2b (OpArg.lbl off x) pc =
    (pc + 1 < len) × (p : ℕ) × (jump_target len pc off ≡ some p)
Stays len OpCode.if_f_b2b (OpArg.lbl off x) pc =
    (pc + 1 < len) × (p : ℕ) × (jump_target len pc off ≡ some p)
Stays len OpCode.goto (OpArg.lbl off x) pc =
    (p : ℕ) × (jump_target len pc off ≡ some p) × (p + 1 < len)
Stays len code a pc = pc + 1 < len

module _ {D A : Type 0} (env : Env D A) where
  pub cvt_u2b-Fits :
      (v w : RtVal D) → cvt_u2b env v ≡ some w → kind_fits StaticT.b (kind_of w) ≡ true
  unfolding cvt_u2b
  cvt_u2b-Fits v w h = ground arith

  pub cvt_u2s-Fits :
      (v w : RtVal D) → cvt_u2s env v ≡ some w → kind_fits StaticT.s (kind_of w) ≡ true
  unfolding cvt_u2s
  cvt_u2s-Fits v w h = ground arith

  pub cvt_u2n-Fits :
      (v w : RtVal D) → cvt_u2n env v ≡ some w → kind_fits StaticT.n (kind_of w) ≡ true
  unfolding cvt_u2n
  cvt_u2n-Fits v w h = ground arith

pub below_all :
    {D : Type 0} (st : Stack) (stk : List (RtVal D))
    → require_one any_type st ≡ some tt
    → AllFit st stk
    → BelowFit st stk
unfolding require_one
below_all [] stk r h = cc
below_all (t ∷ ts) [] r h = elim h [ ]
below_all (t ∷ ts) (v ∷ vs) r h = h.1

module _ {D A : Type 0} (env : Env D A) (ops : List Op) (pc : ℕ) (rb : Bool) where
  abbrev GoodAt : OpCode → OpArg → Stack → Option (StepOutcome D) → Type 0
  GoodAt code a st o = Good env ops code a pc rb st o

  abbrev m₀ : List (RtVal D) → Rvm D
  m₀ stk = machine pc stk undefined_code rb

  pub goto-Good :
      (a : OpArg) (st st' : Stack) (stk : List (RtVal D))
      → has_arg_t (op2_arg_t OpCode.goto) a ≡ true
      → Stays (length ops) OpCode.goto a pc
      → AllFit st stk
      → some st ≡ some st'
      → GoodAt OpCode.goto a st' (eval_goto env ops a (m₀ stk))
  unfolding eval_goto has_arg_t op2_arg_t next_op
  goto-Good (OpArg.lbl off x) st st' stk q (p, jump, room) h e =
      rw (jump, ◌>>=◌, lt→ltb (p + 1) (length ops) room)
        (room, (p, jump, refl), inl (refl, subst (λ z. AllFit z stk) (some_eq e) h))
  goto-Good _ st st' stk q s h e = cc

  abbrev CurTimeFits : CurTime D → Type 0
  CurTimeFits (pushed v) = is_number (kind_of v) ≡ true
  CurTimeFits (signalled k) = Unit {0}
  CurTimeFits nothing = ⊥

  pub curtime_element-Fits : (k : ℕ) → k < 8 → CurTimeFits (curtime_element env ops k)
  unfolding curtime_element
  curtime_element-Fits k h = ground arith

  pub push_curtime-Good :
      (o : CurTime D) (a : OpArg) (st st' : Stack) (stk : List (RtVal D))
      → CurTimeFits o
      → pc + 1 < length ops
      → AllFit st stk
      → push_type StaticT.n st ≡ some st'
      → GoodAt OpCode.ctelt_nc2n a st' (push_curtime env ops (m₀ stk) o)
  unfolding push_curtime
  push_curtime-Good (pushed v) a st st' stk f next h e =
      push-Good env ops OpCode.ctelt_nc2n a pc rb next refl StaticT.n st st' v stk f h e
  push_curtime-Good (signalled k) a st st' stk f next h e = refl
  push_curtime-Good nothing a st st' stk f next h e = elim f [ ]

  -- A part with no number of RDI_WellKnownPart stays null.
  pub wkp-Good :
      (sound : IsSound env) (k : ℕ) (st st' : Stack) (stk : List (RtVal D))
      → pc + 1 < length ops
      → AllFit st stk
      → push_type StaticT.u st ≡ some st'
      → GoodAt OpCode.wkp_nc2u (OpArg.nc_us k) st' (eval_wkp env ops (OpArg.nc_us k) (m₀ stk))
  unfolding eval_wkp
  wkp-Good sound k st st' stk next h e =
      let starts = start_part-Good env ops OpCode.wkp_nc2u (OpArg.nc_us k) pc rb next refl in
      elim (Bool-cases (ltb 9 k)) [
        | inl p ↦ rw p (starts (some RtVal.null) st st' stk refl (λ v q. ground arith) h e)
        | inr p ↦ rw p (starts (env.event.well_known k) st st' stk refl (sound.parts k) h e)
      ]
