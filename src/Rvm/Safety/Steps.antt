-- ===== src/Rvm/Safety/Steps.antt =====
-- Proofs about one op of the machine (lib/RDIRVM.cc) and the static types of lib/RDIOpSeq.cc.
use omni_notify_omni_orb.Common.{
  ℕ, ◌+◌, ◌<◌, Bool, true, false, ◌&&◌, ◌||◌, Option, some, List, length, ◌≡◌, ◌≢◌, ◌⊎◌, inl, inr,
  refl, arith, ◌∙◌,
}
use omni_notify_omni_orb.OpSeq.Codes.{StaticT, OpCode}
use omni_notify_omni_orb.OpSeq.Seq.{Op, OpArg}
use omni_notify_omni_orb.OpSeq.Stack.{Stack, check_pre, model_effect, require, effect, retype_top}
use omni_notify_omni_orb.OpSeq.Tables.{op2_arg_t, op2_stack_pre, op2_stack_effect}
use omni_notify_omni_orb.OpSeq.Jumps.{has_arg_t}
use omni_notify_omni_orb.Rvm.Value.{RtVal}
use omni_notify_omni_orb.Rvm.Env.{Env}
use omni_notify_omni_orb.Rvm.Arith.{undefined_code, MachineOp}
use omni_notify_omni_orb.Rvm.Machine.{
  Rvm, StepOutcome, eval_push_cc2c, eval_push_sc2s, eval_push_ic2i, eval_push_bc2b,
  eval_push_nc_ushort, eval_push_nc2n_s, eval_push_nc2n_ul, eval_push_nc2n_l, eval_push_nc2n_ull,
  eval_push_nc2n_ll, eval_push_nc2n_f, eval_push_nc2n_d, eval_ctelt, curtime_element,
}
use omni_notify_omni_orb.Rvm.Ops.{
  eval_or_bb2b, eval_and_bb2b, eval_if_t, eval_if_f, cvt_u2b, cvt_u2s, cvt_u2n,
}
use omni_notify_omni_orb.Rvm.Compare.{ZeroTest}
use omni_notify_omni_orb.Rvm.Parts.{walk_part, eval_wkp, eval_special}
use omni_notify_omni_orb.Rvm.Step.{is_part, is_end, part_of, step}
use omni_notify_omni_orb.Rvm.Typing.{AllFit, BelowFit, Lands, machine, looks_up, IsSound, IsSane}
use omni_notify_omni_orb.Rvm.Safety.Plain.{
  Good, next-Good, moved, push-Good, converts-Good, logic-Good, swap-Good, pop-Good, pop_two-Good,
}
use omni_notify_omni_orb.Rvm.Safety.Values.{
  return-Good, signal_n-Good, not-Good, zero_test-Good, substr-Good, arith-Good,
}
use omni_notify_omni_orb.Rvm.Safety.Choices.{branch-Good, cmp-Good, in-Good}
use omni_notify_omni_orb.Rvm.Safety.Walks.{part_of-Fits, part_type}
use omni_notify_omni_orb.Rvm.Safety.Components.{
  walk_part-Good, walk_part-Skipped, start_part-Good, exist-Good, default-Good, default-Skipped,
  compend-Good, compend-Skipped,
}
use omni_notify_omni_orb.Rvm.Safety.Conversions.{
  Stays, cvt_u2b-Fits, cvt_u2s-Fits, cvt_u2n-Fits, below_all, goto-Good, curtime_element-Fits,
  push_curtime-Good, wkp-Good,
}

-- What holds of each of the thirteen part ops holds of a part op.
by_part :
    (P : OpCode → Type 0)
    → P OpCode.dot_len_u2n_l
    → P OpCode.dot_d_u2u
    → P OpCode.dot_tid_u2s
    → P OpCode.dot_rid_u2s
    → P OpCode.dot_id_usc2u
    → P OpCode.dot_num_ulc2u
    → P OpCode.assoc_usc2u
    → P OpCode.index_ulc2u
    → P OpCode.tagdef_u2u
    → P OpCode.tagid_usc2u
    → P OpCode.tagnum_ulc2u
    → P OpCode.tagchar_usc2u
    → P OpCode.tagbool_ubc2u
    → (code : OpCode) → is_part code ≡ true
    → P code
by_part P x1 x2 x3 x4 x5 x6 x7 x8 x9 x10 x11 x12 x13 OpCode.dot_len_u2n_l p = x1
by_part P x1 x2 x3 x4 x5 x6 x7 x8 x9 x10 x11 x12 x13 OpCode.dot_d_u2u p = x2
by_part P x1 x2 x3 x4 x5 x6 x7 x8 x9 x10 x11 x12 x13 OpCode.dot_tid_u2s p = x3
by_part P x1 x2 x3 x4 x5 x6 x7 x8 x9 x10 x11 x12 x13 OpCode.dot_rid_u2s p = x4
by_part P x1 x2 x3 x4 x5 x6 x7 x8 x9 x10 x11 x12 x13 OpCode.dot_id_usc2u p = x5
by_part P x1 x2 x3 x4 x5 x6 x7 x8 x9 x10 x11 x12 x13 OpCode.dot_num_ulc2u p = x6
by_part P x1 x2 x3 x4 x5 x6 x7 x8 x9 x10 x11 x12 x13 OpCode.assoc_usc2u p = x7
by_part P x1 x2 x3 x4 x5 x6 x7 x8 x9 x10 x11 x12 x13 OpCode.index_ulc2u p = x8
by_part P x1 x2 x3 x4 x5 x6 x7 x8 x9 x10 x11 x12 x13 OpCode.tagdef_u2u p = x9
by_part P x1 x2 x3 x4 x5 x6 x7 x8 x9 x10 x11 x12 x13 OpCode.tagid_usc2u p = x10
by_part P x1 x2 x3 x4 x5 x6 x7 x8 x9 x10 x11 x12 x13 OpCode.tagnum_ulc2u p = x11
by_part P x1 x2 x3 x4 x5 x6 x7 x8 x9 x10 x11 x12 x13 OpCode.tagchar_usc2u p = x12
by_part P x1 x2 x3 x4 x5 x6 x7 x8 x9 x10 x11 x12 x13 OpCode.tagbool_ubc2u p = x13
by_part P x1 x2 x3 x4 x5 x6 x7 x8 x9 x10 x11 x12 x13 code p = cc

looks_up_part : (code : OpCode) → is_part code ≡ true → looks_up code ≡ true
looks_up_part code p = ground arith

part_effect :
    (code : OpCode) (st : Stack)
    → is_part code ≡ true
    → retype_top (part_type code) st ≡ model_effect code st
unfolding model_effect effect op2_stack_effect
part_effect code st p =
    by_part (λ k. retype_top (part_type k) st ≡ model_effect k st) refl refl refl refl refl refl
      refl refl refl refl refl refl refl code p

module _ {D A : Type 0} (env : Env D A) (ops : List Op) (pc : ℕ) (rb : Bool) where
  abbrev GoodAt : OpCode → OpArg → Stack → Option (StepOutcome D) → Type 0
  GoodAt code a st o = Good env ops code a pc rb st o

  abbrev m₀ : List (RtVal D) → Rvm D
  m₀ stk = machine pc stk undefined_code rb

  -- Where no component is missing and the stack has the static types of an op that check_pre and
  -- model_effect accept, whose argument is of its type, below 8 for an element of $curtime and with
  -- a code on the stack that is not 0 for a signal, and which has somewhere to go, and where the
  -- DynAny objects and the event are as IsSound says, the op fails no assertion: it goes to one of its successors with the types that model_effect gives or, for an
  -- op that looks up a component, with a missing component and the types below the top; or it ends
  -- with a cleared stack, or escapes where it may.
  pub step-Follows :
      (sound : IsSound env) (code : OpCode) (a : OpArg) (st st' : Stack) (stk : List (RtVal D))
      → has_arg_t (op2_arg_t code) a ≡ true
      → IsSane code a stk
      → Stays (length ops) code a pc
      → check_pre code st ≡ some tt
      → model_effect code st ≡ some st'
      → AllFit st stk
      → GoodAt code a st' (step env ops code a (m₀ stk))
  unfolding step has_arg_t op2_arg_t check_pre require op2_stack_pre model_effect effect
      op2_stack_effect eval_push_cc2c eval_push_sc2s eval_push_ic2i eval_push_bc2b
      eval_push_nc_ushort eval_push_nc2n_s eval_push_nc2n_ul eval_push_nc2n_l eval_push_nc2n_ull
      eval_push_nc2n_ll eval_push_nc2n_f eval_push_nc2n_d eval_ctelt eval_or_bb2b eval_and_bb2b
      eval_if_t eval_if_f eval_wkp eval_special
  step-Follows sound OpCode.nop a st st' stk q sane nx r e h =
      moved env ops OpCode.nop a pc rb _ _ _ e
        (next-Good env ops OpCode.nop a pc rb nx refl st stk h)
  step-Follows sound OpCode.label a st st' stk q sane nx r e h =
      moved env ops OpCode.label a pc rb _ _ _ e
        (next-Good env ops OpCode.label a pc rb nx refl st stk h)
  step-Follows sound OpCode.debug1 a st st' stk q sane nx r e h =
      moved env ops OpCode.debug1 a pc rb _ _ _ e
        (next-Good env ops OpCode.debug1 a pc rb nx refl st stk h)
  step-Follows sound OpCode.debug2 a st st' stk q sane nx r e h =
      moved env ops OpCode.debug2 a pc rb _ _ _ e
        (next-Good env ops OpCode.debug2 a pc rb nx refl st stk h)
  step-Follows sound OpCode.return_b a st st' stk q sane nx r e h =
      return-Good env ops OpCode.return_b a pc rb st st' stk r h
  step-Follows sound OpCode.signal_n a st st' stk q sane nx r e h =
      signal_n-Good env ops OpCode.signal_n a pc rb st st' stk r h sane
  step-Follows sound OpCode.push_cc2c (OpArg.sc t) st st' stk q sane nx r e h =
      push-Good env ops OpCode.push_cc2c (OpArg.sc t) pc rb nx refl StaticT.c st st'
        (RtVal.char_or_string t) stk refl h e
  step-Follows sound OpCode.push_cc2c _ st st' stk q sane nx r e h = cc
  step-Follows sound OpCode.push_sc2s (OpArg.sc t) st st' stk q sane nx r e h =
      push-Good env ops OpCode.push_sc2s (OpArg.sc t) pc rb nx refl StaticT.s st st'
        (RtVal.string t) stk refl h e
  step-Follows sound OpCode.push_sc2s _ st st' stk q sane nx r e h = cc
  step-Follows sound OpCode.push_ic2i (OpArg.sc t) st st' stk q sane nx r e h =
      push-Good env ops OpCode.push_ic2i (OpArg.sc t) pc rb nx refl StaticT.i st st'
        (RtVal.enum_ident t) stk refl h e
  step-Follows sound OpCode.push_ic2i _ st st' stk q sane nx r e h = cc
  step-Follows sound OpCode.push_bc2b (OpArg.bc x) st st' stk q sane nx r e h =
      push-Good env ops OpCode.push_bc2b (OpArg.bc x) pc rb nx refl StaticT.b st st'
        (RtVal.boolean x) stk refl h e
  step-Follows sound OpCode.push_bc2b _ st st' stk q sane nx r e h = cc
  step-Follows sound OpCode.push_nc_ushort (OpArg.nc_us k) st st' stk q sane nx r e h =
      push-Good env ops OpCode.push_nc_ushort (OpArg.nc_us k) pc rb nx refl StaticT.n_ushort st st'
        (RtVal.ushort k) stk refl h e
  step-Follows sound OpCode.push_nc_ushort _ st st' stk q sane nx r e h = cc
  step-Follows sound OpCode.push_nc2n_s (OpArg.nc_s z) st st' stk q sane nx r e h =
      push-Good env ops OpCode.push_nc2n_s (OpArg.nc_s z) pc rb nx refl StaticT.n st st'
        (RtVal.short z) stk refl h e
  step-Follows sound OpCode.push_nc2n_s _ st st' stk q sane nx r e h = cc
  step-Follows sound OpCode.push_nc2n_ul (OpArg.nc_ul k) st st' stk q sane nx r e h =
      push-Good env ops OpCode.push_nc2n_ul (OpArg.nc_ul k) pc rb nx refl StaticT.n st st'
        (RtVal.ulong k) stk refl h e
  step-Follows sound OpCode.push_nc2n_ul _ st st' stk q sane nx r e h = cc
  step-Follows sound OpCode.push_nc2n_l (OpArg.nc_l z) st st' stk q sane nx r e h =
      push-Good env ops OpCode.push_nc2n_l (OpArg.nc_l z) pc rb nx refl StaticT.n st st'
        (RtVal.long z) stk refl h e
  step-Follows sound OpCode.push_nc2n_l _ st st' stk q sane nx r e h = cc
  step-Follows sound OpCode.push_nc2n_ull (OpArg.nc_ull k) st st' stk q sane nx r e h =
      push-Good env ops OpCode.push_nc2n_ull (OpArg.nc_ull k) pc rb nx refl StaticT.n st st'
        (RtVal.ulonglong k) stk refl h e
  step-Follows sound OpCode.push_nc2n_ull _ st st' stk q sane nx r e h = cc
  step-Follows sound OpCode.push_nc2n_ll (OpArg.nc_ll z) st st' stk q sane nx r e h =
      push-Good env ops OpCode.push_nc2n_ll (OpArg.nc_ll z) pc rb nx refl StaticT.n st st'
        (RtVal.longlong z) stk refl h e
  step-Follows sound OpCode.push_nc2n_ll _ st st' stk q sane nx r e h = cc
  step-Follows sound OpCode.push_nc2n_f (OpArg.nc_f k) st st' stk q sane nx r e h =
      push-Good env ops OpCode.push_nc2n_f (OpArg.nc_f k) pc rb nx refl StaticT.n st st'
        (RtVal.float k) stk refl h e
  step-Follows sound OpCode.push_nc2n_f _ st st' stk q sane nx r e h = cc
  step-Follows sound OpCode.push_nc2n_d (OpArg.nc_d k) st st' stk q sane nx r e h =
      push-Good env ops OpCode.push_nc2n_d (OpArg.nc_d k) pc rb nx refl StaticT.n st st'
        (RtVal.double k) stk refl h e
  step-Follows sound OpCode.push_nc2n_d _ st st' stk q sane nx r e h = cc
  step-Follows sound OpCode.ctelt_nc2n (OpArg.nc_us k) st st' stk q sane nx r e h =
      push_curtime-Good env ops pc rb (curtime_element env ops k) (OpArg.nc_us k) st st' stk
        (curtime_element-Fits env ops pc rb k sane) nx h e
  step-Follows sound OpCode.ctelt_nc2n _ st st' stk q sane nx r e h = cc
  step-Follows sound OpCode.swap_uu2uu a st st' stk q sane nx r e h =
      swap-Good env ops OpCode.swap_uu2uu a pc rb nx refl st st' stk h e
  step-Follows sound OpCode.pop_u a st st' stk q sane nx r e h =
      pop-Good env ops OpCode.pop_u a pc rb nx refl st st' stk h e
  step-Follows sound OpCode.pop_uu a st st' stk q sane nx r e h =
      pop_two-Good env ops OpCode.pop_uu a pc rb nx refl st st' stk h e
  step-Follows sound OpCode.cvt_u2b a st st' stk q sane nx r e h =
      converts-Good env ops OpCode.cvt_u2b a pc rb nx refl (cvt_u2b env) StaticT.b st st' stk
        (cvt_u2b-Fits env) h e
  step-Follows sound OpCode.cvt_u2s a st st' stk q sane nx r e h =
      converts-Good env ops OpCode.cvt_u2s a pc rb nx refl (cvt_u2s env) StaticT.s st st' stk
        (cvt_u2s-Fits env) h e
  step-Follows sound OpCode.cvt_u2n a st st' stk q sane nx r e h =
      converts-Good env ops OpCode.cvt_u2n a pc rb nx refl (cvt_u2n env) StaticT.n st st' stk
        (cvt_u2n-Fits env) h e
  step-Follows sound OpCode.or_bb2b a st st' stk q sane nx r e h =
      logic-Good env ops OpCode.or_bb2b a pc rb nx refl (λ x y. x || y) st st' stk r h e
  step-Follows sound OpCode.and_bb2b a st st' stk q sane nx r e h =
      logic-Good env ops OpCode.and_bb2b a pc rb nx refl (λ x y. x && y) st st' stk r h e
  step-Follows sound OpCode.not_b2b a st st' stk q sane nx r e h =
      not-Good env ops OpCode.not_b2b a pc rb nx refl st st' stk r h e
  step-Follows sound OpCode.in_uu2b a st st' stk q sane nx r e h =
      in-Good env ops OpCode.in_uu2b a pc rb nx refl sound st st' stk h e
  step-Follows sound OpCode.add_nn2n a st st' stk q sane nx r e h =
      arith-Good env ops OpCode.add_nn2n a pc rb nx refl MachineOp.add st st' stk (λ p. cc) r h e
  step-Follows sound OpCode.sub_nn2n a st st' stk q sane nx r e h =
      arith-Good env ops OpCode.sub_nn2n a pc rb nx refl MachineOp.sub st st' stk (λ p. cc) r h e
  step-Follows sound OpCode.mul_nn2n a st st' stk q sane nx r e h =
      arith-Good env ops OpCode.mul_nn2n a pc rb nx refl MachineOp.mul st st' stk (λ p. cc) r h e
  step-Follows sound OpCode.div_nn2n a st st' stk q sane nx r e h =
      arith-Good env ops OpCode.div_nn2n a pc rb nx refl MachineOp.div st st' stk (λ p. refl) r h e
  step-Follows sound OpCode.rem_nn2n a st st' stk q sane nx r e h =
      arith-Good env ops OpCode.rem_nn2n a pc rb nx refl MachineOp.rem st st' stk (λ p. refl) r h e
  step-Follows sound OpCode.substr_ss2b a st st' stk q sane nx r e h =
      substr-Good env ops OpCode.substr_ss2b a pc rb nx refl st st' stk r h e
  step-Follows sound OpCode.cmp_uu2n a st st' stk q sane nx r e h =
      cmp-Good env ops OpCode.cmp_uu2n a pc rb nx refl st st' stk h e
  step-Follows sound OpCode.eqz_n2b a st st' stk q sane nx r e h =
      zero_test-Good env ops OpCode.eqz_n2b a pc rb nx refl ZeroTest.eqz st st' stk r h e
  step-Follows sound OpCode.nez_n2b a st st' stk q sane nx r e h =
      zero_test-Good env ops OpCode.nez_n2b a pc rb nx refl ZeroTest.nez st st' stk r h e
  step-Follows sound OpCode.lez_n2b a st st' stk q sane nx r e h =
      zero_test-Good env ops OpCode.lez_n2b a pc rb nx refl ZeroTest.lez st st' stk r h e
  step-Follows sound OpCode.ltz_n2b a st st' stk q sane nx r e h =
      zero_test-Good env ops OpCode.ltz_n2b a pc rb nx refl ZeroTest.ltz st st' stk r h e
  step-Follows sound OpCode.gez_n2b a st st' stk q sane nx r e h =
      zero_test-Good env ops OpCode.gez_n2b a pc rb nx refl ZeroTest.gez st st' stk r h e
  step-Follows sound OpCode.gtz_n2b a st st' stk q sane nx r e h =
      zero_test-Good env ops OpCode.gtz_n2b a pc rb nx refl ZeroTest.gtz st st' stk r h e
  step-Follows sound OpCode.if_t_b2b (OpArg.lbl off x) st st' stk q sane nx r e h =
      branch-Good env ops OpCode.if_t_b2b (OpArg.lbl off x) pc rb nx.0 (inl refl) true off x nx.1 st
        st' stk nx.2 (inr nx.2) r h e
  step-Follows sound OpCode.if_t_b2b _ st st' stk q sane nx r e h = cc
  step-Follows sound OpCode.if_f_b2b (OpArg.lbl off x) st st' stk q sane nx r e h =
      branch-Good env ops OpCode.if_f_b2b (OpArg.lbl off x) pc rb nx.0 (inl refl) false off x nx.1
        st st' stk nx.2 (inr nx.2) r h e
  step-Follows sound OpCode.if_f_b2b _ st st' stk q sane nx r e h = cc
  step-Follows sound OpCode.goto a st st' stk q sane nx r e h =
      goto-Good env ops pc rb a st st' stk q nx h e
  step-Follows sound OpCode.wkp_nc2u (OpArg.nc_us k) st st' stk q sane nx r e h =
      wkp-Good env ops pc rb sound k st st' stk nx h e
  step-Follows sound OpCode.wkp_nc2u _ st st' stk q sane nx r e h = cc
  step-Follows sound OpCode.special_sc2u (OpArg.sc t) st st' stk q sane nx r e h =
      start_part-Good env ops OpCode.special_sc2u (OpArg.sc t) pc rb nx refl
        (env.event.lookup_rtval t) st st' stk refl (sound.fields t) h e
  step-Follows sound OpCode.special_sc2u _ st st' stk q sane nx r e h = cc
  step-Follows sound OpCode.compend a st st' stk q sane nx r e h =
      compend-Good env ops OpCode.compend a pc rb nx refl st st' stk h e
  step-Follows sound OpCode.default_x2b a st st' stk q sane nx r e h =
      default-Good env ops OpCode.default_x2b a pc rb nx refl st st' stk (below_all st stk r h) e
  step-Follows sound OpCode.exist_x2b a st st' stk q sane nx r e h =
      exist-Good env ops OpCode.exist_x2b a pc rb nx refl st st' stk undefined_code
        (below_all st stk r h) e
  step-Follows sound code a st st' stk q sane nx r e h =
      walk_part-Good env ops code a pc rb nx refl (part_of env code a) (part_type code) st st' stk
        refl (λ v fine. part_of-Fits env sound code a v refl q fine) r h e

  step-part :
      (code : OpCode) (a : OpArg) (m : Rvm D)
      → is_part code ≡ true
      → step env ops code a m ≡ walk_part env ops (part_of env code a) m
  unfolding step
  step-part code a m p =
      by_part (λ k. step env ops k a m ≡ walk_part env ops (part_of env k a) m) refl refl refl refl
        refl refl refl refl refl refl refl refl refl code p

  part-Lands :
      (code : OpCode) (a : OpArg) → is_part code ≡ true → Lands (length ops) code a pc (pc + 1)
  part-Lands code a p = ground arith

  pub step-Skipped :
      (code : OpCode) (a : OpArg) (st st' : Stack) (stk : List (RtVal D)) (rc : ℕ)
      → (is_part code ≡ true) ⊎ (is_end code ≡ true)
      → pc + 1 < length ops
      → model_effect code st ≡ some st'
      → rc ≢ undefined_code
      → BelowFit st stk
      → GoodAt code a st' (step env ops code a (machine pc stk rc rb))
  unfolding step model_effect effect op2_stack_effect
  step-Skipped code a st st' stk rc (inl p) nx e n h =
      rw (step-part code a (machine pc stk rc rb) p) (
        walk_part-Skipped env ops code a pc rb nx (part-Lands code a p) (part_of env code a)
          (part_type code) st st' stk rc (looks_up_part code p) n h (part_effect code st p ∙ e))
  step-Skipped OpCode.compend a st st' stk rc (inr q) nx e n h =
      compend-Skipped env ops OpCode.compend a pc rb nx refl st' stk rc n
  step-Skipped OpCode.default_x2b a st st' stk rc (inr q) nx e n h =
      default-Skipped env ops OpCode.default_x2b a pc rb nx refl st' stk rc n
  step-Skipped OpCode.exist_x2b a st st' stk rc (inr q) nx e n h =
      exist-Good env ops OpCode.exist_x2b a pc rb nx refl st st' stk rc h e
  step-Skipped code a st st' stk rc (inr q) nx e n h = cc
