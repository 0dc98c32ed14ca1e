-- ===== src/Rvm/Safety/Walks.antt =====
-- Proofs about the parts of a component (lib/RDIRVM.cc): what each part op makes of a value.
use omni_notify_omni_orb.Common.{
  ℕ, Bool, true, false, ◌||◌, Option, none, some, List, ◌≡◌, ◌≢◌, inl, inr, refl, ◌>>=◌, Returns,
  Returns-some, arith, Bool-cases, Option-cases, get_elem?, if◌then◌else◌,
}
use omni_notify_omni_orb.Common.Int.{ℤ, pos, negsuc}
use omni_notify_omni_orb.OpSeq.Codes.{StaticT, OpCode}
use omni_notify_omni_orb.OpSeq.Seq.{OpArg, Text}
use omni_notify_omni_orb.OpSeq.Tables.{op2_arg_t}
use omni_notify_omni_orb.OpSeq.Jumps.{str_eq, has_arg_t}
use omni_notify_omni_orb.Rvm.Value.{RtVal, RtKind, kind_of}
use omni_notify_omni_orb.Rvm.Env.{Env, simplify, cvt2dbl}
use omni_notify_omni_orb.Rvm.Arith.{undefined_code, none_such, type_mismatch}
use omni_notify_omni_orb.Rvm.Parts.{
  PartResult, found, missing, uncaught, element, of_dynany, dot_len, dot_d, type_text, find_member,
  dot_id, union_num, dot_num, find_pair, assoc, index, union_part, tagdef, tagid, default_part,
  enum_part, number_part, tag_double, tagnum, tagchar, tagbool, component_at, component_at_ℤ,
}
use omni_notify_omni_orb.Rvm.Step.{is_part, part_of}
use omni_notify_omni_orb.Rvm.Simple.{simplify-Returns}
use omni_notify_omni_orb.Rvm.Typing.{kind_fits, is_component, may_escape, IsSound}

-- What a part op may make of a component, where it leaves the type `t`.
abbrev pub PartFits : {D : Type 0} → StaticT → Bool → PartResult D → Type 0
PartFits t escaping (found v) = kind_fits t (kind_of v) ≡ true
PartFits t escaping (missing k) = k ≢ undefined_code
PartFits t escaping uncaught = escaping ≡ true

-- The type that a part op leaves.
abbrev pub part_type : OpCode → StaticT
part_type OpCode.dot_len_u2n_l = StaticT.n
part_type OpCode.dot_tid_u2s = StaticT.s
part_type OpCode.dot_rid_u2s = StaticT.s
part_type _ = StaticT.u

module _ {D A : Type 0} (env : Env D A) (sound : IsSound env) where
  abbrev FitsU : Option (PartResult D) → Type 0
  FitsU o = Returns o (PartFits StaticT.u false)

  no_such : FitsU (some (missing none_such))
  no_such e = omega (arith, e)

  mismatched : FitsU (some (missing type_mismatch))
  mismatched e = omega (arith, e)

  element-Fits : (o : Option D) → FitsU (element env o)
  unfolding element
  element-Fits none = no_such
  element-Fits (some d) =
      let (v, simplified, fine) =
        Returns-some _ (simplify env (RtVal.dynany d)) (simplify-Returns env sound d) in
      rw simplified fine

  dot_d-Fits : (d : D) → FitsU (dot_d env d)
  unfolding dot_d
  dot_d-Fits d = elim (Bool-cases (env.api.is_union d)) [
    | inl e ↦ rw e (element-Fits (env.api.discriminator d))
    | inr e ↦ rw e mismatched
  ]

  -- The member of a union, once its name or its tag has been tested.
  tested-Fits :
      (o : Option D) (x : Bool) → FitsU (if x then element env o else some (missing none_such))
  tested-Fits o true = element-Fits o
  tested-Fits o false = no_such

  dot_id-Fits : (t : Text) (d : D) → FitsU (dot_id env t d)
  unfolding dot_id
  dot_id-Fits t d = elim (Bool-cases (env.api.is_struct d)) [
    | inl e ↦ elim (Option-cases (find_member t (env.api.member_names d) 0)) [
      | inl p ↦ rw (e, p) no_such
      | inr (i, p) ↦ rw (e, p) (element-Fits (component_at (env.api.components d) i))
    ]
    | inr e ↦ elim (Bool-cases (env.api.is_union d)) [
      | inr e' ↦ rw (e, e') mismatched
      | inl e' ↦ elim (Option-cases (env.api.union_name d)) [
        | inl p ↦ rw (e, e', p) no_such
        | inr (n, p) ↦ rw (e, e', p) (tested-Fits (env.api.union_member d) (str_eq t n))
      ]
    ]
  ]

  union_num-Fits :
      (z : ℤ) (t : Text) (names : List Text) (d : D) → FitsU (union_num env z t names d)
  unfolding union_num
  union_num-Fits (negsuc k) t names d = mismatched
  union_num-Fits (pos k) t names d = elim (Option-cases (get_elem? names k)) [
    | inl p ↦ rw (union_num, p) no_such
    | inr (n, p) ↦ rw (union_num, p) (tested-Fits (env.api.union_member d) (str_eq t n))
  ]

  dot_num-Fits : (z : ℤ) (d : D) → FitsU (dot_num env z d)
  unfolding dot_num
  dot_num-Fits z d = elim (Bool-cases (env.api.is_struct d)) [
    | inl e ↦ rw e (element-Fits (component_at_ℤ (env.api.components d) z))
    | inr e ↦ elim (Bool-cases (env.api.is_union d)) [
      | inr e' ↦ rw (e, e') mismatched
      | inl e' ↦ elim (Option-cases (env.api.union_name d)) [
        | inl p ↦ rw (e, e', p) no_such
        | inr (n, p) ↦ elim (Option-cases (env.api.union_type_names d)) [
          | inl q ↦ rw (e, e', p, q) mismatched
          | inr (names, q) ↦ rw (e, e', p, q) (union_num-Fits z n names d)
        ]
      ]
    ]
  ]

  assoc-Fits : (t : Text) (d : D) → FitsU (assoc env t d)
  unfolding assoc
  assoc-Fits t d = tested-Fits (find_pair env t (env.api.components d)) (env.api.is_seq d)

  index-Fits : (z : ℤ) (d : D) → FitsU (index env z d)
  unfolding index
  index-Fits z d =
      tested-Fits (component_at_ℤ (env.api.components d) z) (env.api.is_seq d || env.api.is_array d)

  union_part-Fits :
      (f : D → Option (PartResult D)) (d : D) → FitsU (f d) → FitsU (union_part env f d)
  unfolding union_part
  union_part-Fits f d h = elim (Bool-cases (env.api.is_union d)) [
    | inl e ↦ rw e h
    | inr e ↦ rw e mismatched
  ]

  default_part-Fits : (d : D) → FitsU (default_part env d)
  unfolding default_part
  default_part-Fits d = elim (Option-cases (env.api.at_default d)) [
    | inl p ↦ rw (default_part, p) no_such
    | inr (x, p) ↦ rw (default_part, p) (tested-Fits (env.api.union_member d) x)
  ]

  enum_part-Fits : (t : Text) (d : D) → FitsU (enum_part env t d)
  unfolding enum_part
  enum_part-Fits t d = elim (Option-cases (env.api.discriminator d)) [
    | inl p ↦ rw (enum_part, p) no_such
    | inr (x, p) ↦ elim (Bool-cases (env.api.is_dyn_enum x)) [
      | inr e ↦ rw (enum_part, p, e) no_such
      | inl e ↦ elim (Option-cases (env.api.enum_string x)) [
        | inl q ↦ rw (enum_part, p, e, q) no_such
        | inr (y, q) ↦ rw (enum_part, p, e, q) (tested-Fits (env.api.union_member d) (str_eq t y))
      ]
    ]
  ]

  number_part-Fits : (x : ℕ) (d : D) → FitsU (number_part env x d)
  unfolding number_part
  number_part-Fits x d = elim (Option-cases (env.api.discriminator d)) [
    | inl p ↦ rw (number_part, p) no_such
    | inr (y, p) ↦
        let (v, simplified, fine) =
          Returns-some _ (simplify env (RtVal.dynany y)) (simplify-Returns env sound y) in
        elim (Option-cases (cvt2dbl env v)) [
          | inl q ↦ rw (number_part, p, simplified, ◌>>=◌, q) no_such
          | inr (z, q) ↦
              rw (number_part, p, simplified, ◌>>=◌, q)
                (tested-Fits (env.api.union_member d) (env.floats.feq x z))
        ]
  ]

  tag_double-Fits : (x : ℕ) (d : D) → FitsU (tag_double env x d)
  unfolding tag_double
  tag_double-Fits x d = union_part-Fits (number_part env x) d (number_part-Fits x d)

  tagdef-Fits : (d : D) → FitsU (tagdef env d)
  unfolding tagdef
  tagdef-Fits d = union_part-Fits (default_part env) d (default_part-Fits d)

  tagid-Fits : (t : Text) (d : D) → FitsU (tagid env t d)
  unfolding tagid
  tagid-Fits t d = union_part-Fits (enum_part env t) d (enum_part-Fits t d)

  of_dynany-Fits :
      (k : ℕ) (f : D → Option (PartResult D)) (v : RtVal D)
      → k ≢ undefined_code
      → ((d : D) → FitsU (f d))
      → FitsU (of_dynany env k f v)
  of_dynany-Fits k f (RtVal.dynany d) p h = h d
  of_dynany-Fits k f v p h = p

  dot_len-Fits :
      (v : RtVal D) → Returns (of_dynany env none_such (dot_len env) v) (PartFits StaticT.n false)
  unfolding dot_len
  dot_len-Fits (RtVal.dynany d) = elim (Bool-cases (env.api.is_seq d || env.api.is_array d)) [
    | inl e ↦ rw e refl
    | inr e ↦ rw e no_such
  ]
  dot_len-Fits v = no_such

  named-Fits :
      (o : Option Text)
      → PartFits {D = D} StaticT.s true
          (elim o [ none ↦ uncaught | some t ↦ found (RtVal.string t) ])
  named-Fits none = refl
  named-Fits (some t) = refl

  type_text-Fits :
      (f : D → Option Text) (g : RtKind → Option Text) (v : RtVal D)
      → is_component (kind_of v) ≡ true
      → Returns (type_text env f g v) (PartFits StaticT.s true)
  type_text-Fits f g (RtVal.dynany d) h = named-Fits (f d)
  type_text-Fits f g (RtVal.enum_val d) h = named-Fits (f d)
  type_text-Fits f g (RtVal.enum_ident t) h = cc
  type_text-Fits f g (RtVal.char_or_string t) h = cc
  type_text-Fits f g v h = named-Fits (g (kind_of v))

  -- A part op makes of a component a value of its type, or a missing component; only the two ops
  -- that ask for a type's name may throw.
  pub part_of-Fits :
      (code : OpCode) (a : OpArg) (v : RtVal D)
      → is_part code ≡ true
      → has_arg_t (op2_arg_t code) a ≡ true
      → is_component (kind_of v) ≡ true
      → Returns (part_of env code a v) (PartFits (part_type code) (may_escape code))
  unfolding part_of has_arg_t op2_arg_t tagnum tagchar tagbool
  part_of-Fits OpCode.dot_len_u2n_l a v p q h = dot_len-Fits v
  part_of-Fits OpCode.dot_d_u2u a v p q h = of_dynany-Fits type_mismatch _ v mismatched dot_d-Fits
  part_of-Fits OpCode.dot_tid_u2s a v p q h = type_text-Fits env.api.name env.basics.basic_name v h
  part_of-Fits OpCode.dot_rid_u2s a v p q h = type_text-Fits env.api.id env.basics.basic_id v h
  part_of-Fits OpCode.dot_id_usc2u (OpArg.sc t) v p q h =
      of_dynany-Fits type_mismatch _ v mismatched (dot_id-Fits t)
  part_of-Fits OpCode.dot_num_ulc2u (OpArg.nc_l z) v p q h =
      of_dynany-Fits type_mismatch _ v mismatched (dot_num-Fits z)
  part_of-Fits OpCode.assoc_usc2u (OpArg.sc t) v p q h =
      of_dynany-Fits type_mismatch _ v mismatched (assoc-Fits t)
  part_of-Fits OpCode.index_ulc2u (OpArg.nc_l z) v p q h =
      of_dynany-Fits type_mismatch _ v mismatched (index-Fits z)
  part_of-Fits OpCode.tagdef_u2u a v p q h = of_dynany-Fits type_mismatch _ v mismatched tagdef-Fits
  part_of-Fits OpCode.tagid_usc2u (OpArg.sc t) v p q h =
      of_dynany-Fits type_mismatch _ v mismatched (tagid-Fits t)
  part_of-Fits OpCode.tagnum_ulc2u (OpArg.nc_l z) v p q h =
      of_dynany-Fits type_mismatch _ v mismatched (tag_double-Fits _)
  part_of-Fits OpCode.tagchar_usc2u (OpArg.sc t) v p q h =
      of_dynany-Fits type_mismatch _ v mismatched (tag_double-Fits _)
  part_of-Fits OpCode.tagbool_ubc2u (OpArg.bc x) v p q h =
      of_dynany-Fits type_mismatch _ v mismatched (tag_double-Fits _)
  part_of-Fits code a v p q h = ground arith
