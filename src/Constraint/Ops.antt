-- ===== src/Constraint/Ops.antt =====
-- The ops of constants and components: what they ask for, what they leave, and that they are no
-- pushes of a bool or a character unless their type says so.
use omni_notify_omni_orb.Common.{true, false, some, ◌∷◌, ◌≡◌, ◌≢◌, refl, ap, some_eq}
use omni_notify_omni_orb.OpSeq.Codes.{StaticT, OpCode}
use omni_notify_omni_orb.OpSeq.Stack.{Stack, check_pre, model_effect, push_type}
use omni_notify_omni_orb.OpSeq.Seq.{is_push_bool, is_push_char}
use omni_notify_omni_orb.Constraint.Typing.{const_type, start_type, part_type}
use omni_notify_omni_orb.Constraint.Shapes.{tables}

-- An op that asks for nothing and pushes a type.
abbrev pub Pushes : OpCode → StaticT → Stack → Type 0
Pushes c t st = (check_pre c st ≡ some tt) × (model_effect c st ≡ push_type t st)

pub const-Pushes : (c : OpCode) (t : StaticT) (st : Stack) → const_type c ≡ some t → Pushes c t st
unfolding tables
const-Pushes OpCode.push_cc2c t st h = (refl, ap (λ z. push_type z st) (some_eq h))
const-Pushes OpCode.push_sc2s t st h = (refl, ap (λ z. push_type z st) (some_eq h))
const-Pushes OpCode.push_ic2i t st h = (refl, ap (λ z. push_type z st) (some_eq h))
const-Pushes OpCode.push_bc2b t st h = (refl, ap (λ z. push_type z st) (some_eq h))
const-Pushes OpCode.push_nc2n_ul t st h = (refl, ap (λ z. push_type z st) (some_eq h))
const-Pushes OpCode.push_nc2n_l t st h = (refl, ap (λ z. push_type z st) (some_eq h))
const-Pushes OpCode.push_nc2n_ull t st h = (refl, ap (λ z. push_type z st) (some_eq h))
const-Pushes OpCode.push_nc2n_ll t st h = (refl, ap (λ z. push_type z st) (some_eq h))
const-Pushes OpCode.push_nc2n_d t st h = (refl, ap (λ z. push_type z st) (some_eq h))
const-Pushes _ t st h = cc

pub const_char :
    (c : OpCode) (t : StaticT) → const_type c ≡ some t → t ≡ StaticT.c → is_push_char c ≡ true
const_char OpCode.push_cc2c t h e = refl
const_char _ t h e = cc

pub start-Pushes : (c : OpCode) (t : StaticT) (st : Stack) → start_type c ≡ some t → Pushes c t st
unfolding tables
start-Pushes OpCode.wkp_nc2u t st h = (refl, ap (λ z. push_type z st) (some_eq h))
start-Pushes OpCode.special_sc2u t st h = (refl, ap (λ z. push_type z st) (some_eq h))
start-Pushes OpCode.ctelt_nc2n t st h = (refl, ap (λ z. push_type z st) (some_eq h))
start-Pushes _ t st h = cc

-- A component's ops push no constants, and leave no character.
pub start_no_const :
    (c : OpCode) (t : StaticT) → start_type c ≡ some t → (is_push_bool c ≡ false) × (t ≢ StaticT.c)
start_no_const OpCode.wkp_nc2u t h = (refl, λ e. cc)
start_no_const OpCode.special_sc2u t h = (refl, λ e. cc)
start_no_const OpCode.ctelt_nc2n t h = (refl, λ e. cc)
start_no_const _ t h = cc

pub part_takes :
    (c : OpCode) (t : StaticT) (st : Stack)
    → part_type c ≡ some t
    → (check_pre c (StaticT.u ∷ st) ≡ some tt) × (model_effect c (StaticT.u ∷ st) ≡ some (t ∷ st))
unfolding tables
part_takes OpCode.dot_len_u2n_l t st h = (refl, ap (λ z. some (z ∷ st)) (some_eq h))
part_takes OpCode.dot_d_u2u t st h = (refl, ap (λ z. some (z ∷ st)) (some_eq h))
part_takes OpCode.dot_tid_u2s t st h = (refl, ap (λ z. some (z ∷ st)) (some_eq h))
part_takes OpCode.dot_rid_u2s t st h = (refl, ap (λ z. some (z ∷ st)) (some_eq h))
part_takes OpCode.dot_id_usc2u t st h = (refl, ap (λ z. some (z ∷ st)) (some_eq h))
part_takes OpCode.dot_num_ulc2u t st h = (refl, ap (λ z. some (z ∷ st)) (some_eq h))
part_takes OpCode.assoc_usc2u t st h = (refl, ap (λ z. some (z ∷ st)) (some_eq h))
part_takes OpCode.index_ulc2u t st h = (refl, ap (λ z. some (z ∷ st)) (some_eq h))
part_takes OpCode.tagdef_u2u t st h = (refl, ap (λ z. some (z ∷ st)) (some_eq h))
part_takes OpCode.tagid_usc2u t st h = (refl, ap (λ z. some (z ∷ st)) (some_eq h))
part_takes OpCode.tagnum_ulc2u t st h = (refl, ap (λ z. some (z ∷ st)) (some_eq h))
part_takes OpCode.tagchar_usc2u t st h = (refl, ap (λ z. some (z ∷ st)) (some_eq h))
part_takes OpCode.tagbool_ubc2u t st h = (refl, ap (λ z. some (z ∷ st)) (some_eq h))
part_takes _ t st h = cc

pub part_no_const :
    (c : OpCode) (t : StaticT) → part_type c ≡ some t → (is_push_bool c ≡ false) × (t ≢ StaticT.c)
part_no_const OpCode.dot_len_u2n_l t h = (refl, λ e. cc)
part_no_const OpCode.dot_d_u2u t h = (refl, λ e. cc)
part_no_const OpCode.dot_tid_u2s t h = (refl, λ e. cc)
part_no_const OpCode.dot_rid_u2s t h = (refl, λ e. cc)
part_no_const OpCode.dot_id_usc2u t h = (refl, λ e. cc)
part_no_const OpCode.dot_num_ulc2u t h = (refl, λ e. cc)
part_no_const OpCode.assoc_usc2u t h = (refl, λ e. cc)
part_no_const OpCode.index_ulc2u t h = (refl, λ e. cc)
part_no_const OpCode.tagdef_u2u t h = (refl, λ e. cc)
part_no_const OpCode.tagid_usc2u t h = (refl, λ e. cc)
part_no_const OpCode.tagnum_ulc2u t h = (refl, λ e. cc)
part_no_const OpCode.tagchar_usc2u t h = (refl, λ e. cc)
part_no_const OpCode.tagbool_ubc2u t h = (refl, λ e. cc)
part_no_const _ t h = cc
