-- ===== src/Rvm/Contain.antt =====
-- _eval_in_uu2b (lib/RDIRVM.cc): whether a value is an element of a sequence or an array.
use omni_notify_omni_orb.Common.{
  ℕ, Bool, true, false, ◌||◌, Option, none, some, List, [], ◌∷◌, ◌>>=◌, if◌then◌else◌,
}
use omni_notify_omni_orb.OpSeq.Seq.{Op, Text}
use omni_notify_omni_orb.OpSeq.Jumps.{str_eq}
use omni_notify_omni_orb.Rvm.Value.{RtVal, kind_of, is_string, is_enum, is_numeric, leading_char}
use omni_notify_omni_orb.Rvm.Env.{Env, TcKind, simplify, cvt2dbl}
use omni_notify_omni_orb.Rvm.Arith.{type_mismatch, none_such}
use omni_notify_omni_orb.Rvm.Machine.{Rvm, StepOutcome, next_op, signals}
use omni_notify_omni_orb.Rvm.Parts.{component_at}

-- RDI_CORBATC_STRING
abbrev pub tc_string : TcKind → Bool
tc_string TcKind.string = true
tc_string _ = false

-- RDI_CORBATC_NUMERIC
abbrev pub tc_numeric : TcKind → Bool
tc_numeric TcKind.ushort = true
tc_numeric TcKind.short = true
tc_numeric TcKind.ulong = true
tc_numeric TcKind.long = true
tc_numeric TcKind.ulonglong = true
tc_numeric TcKind.longlong = true
tc_numeric TcKind.float = true
tc_numeric TcKind.double = true
tc_numeric TcKind.boolean = true
tc_numeric TcKind.char = true
tc_numeric TcKind.octet = true
tc_numeric _ = false

-- What a scan ends with: `loop_result`, or a signal.
pub data Scan : Type 0 where
  loop_result : Bool → Scan
  stopped : ℕ → Scan

module _ {D A : Type 0} (env : Env D A) where
  unfoldable pub string_scan : Text → List (Option D) → Scan
  unfolding str_eq
  string_scan t [] = loop_result false
  string_scan t (e ∷ es) =
      let later = string_scan t es in
      elim (e >>= env.api.dyn.get_string) [
        | none ↦ loop_result false
        | some s ↦ if str_eq t s then loop_result true else later
      ]

  unfoldable pub numeric_scan : ℕ → List (Option D) → Option Scan
  unfolding simplify cvt2dbl
  numeric_scan x [] = some (loop_result false)
  numeric_scan x (e ∷ es) =
      let later = numeric_scan x es in
      elim e [
        | none ↦ some (loop_result false)
        | some d ↦ simplify env (RtVal.dynany d) >>= λ v. elim (cvt2dbl env v) [
          | none ↦ some (stopped none_such)
          | some y ↦ if env.floats.feq x y then some (loop_result true) else later
        ]
      ]

  unfoldable pub enum_scan : Text → List (Option D) → Scan
  unfolding str_eq
  enum_scan t [] = loop_result false
  enum_scan t (e ∷ es) =
      let later = enum_scan t es in
      elim e [
        | none ↦ loop_result false
        | some d ↦
            if env.api.is_dyn_enum d
            then elim (env.api.enum_string d) [
              | none ↦ stopped none_such
              | some s ↦ if str_eq t s then loop_result true else later
            ]
            else stopped type_mismatch
      ]

  -- A string of one character, as the type of the elements asks.
  abbrev pub settle_char : TcKind → RtVal D → RtVal D
  settle_char tc (RtVal.char_or_string t) =
      if tc_numeric tc then RtVal.long (leading_char t) else RtVal.string t
  settle_char tc v = v

  -- An enum value is of the type of the elements.
  abbrev pub enum_fits : D → RtVal D → Bool
  enum_fits e (RtVal.enum_val x) = env.api.same_type e x
  enum_fits e _ = true

  abbrev pub scan_numbers : TcKind → RtVal D → List (Option D) → Option Scan
  scan_numbers tc l es =
      if tc_numeric tc
      then elim (cvt2dbl env l) [ none ↦ some (stopped none_such) | some x ↦ numeric_scan x es ]
      else some (stopped type_mismatch)

  -- The scan for `l` among the elements, whose first has the type `tc`.
  unfoldable pub scan : TcKind → RtVal D → List (Option D) → Option Scan
  unfolding string_scan numeric_scan enum_scan cvt2dbl
  scan tc (RtVal.string t) es =
      some (if tc_string tc then string_scan t es else stopped type_mismatch)
  scan tc (RtVal.enum_ident t) es = some (enum_scan t es)
  scan tc (RtVal.enum_val e) es =
      some (elim (env.api.enum_string e) [ none ↦ stopped none_such | some t ↦ enum_scan t es ])
  scan tc l es = scan_numbers tc l es

module _ {D A : Type 0} (env : Env D A) (ops : List Op) where
  abbrev pub conclude : Rvm D → List (RtVal D) → Scan → Option (StepOutcome D)
  conclude m rest (loop_result b) = next_op env ops (record m { stack = RtVal.boolean b ∷ rest })
  conclude m rest (stopped c) = signals env ops c m

  abbrev pub in_elements :
      Rvm D → List (RtVal D) → RtVal D → List (Option D) → Option (StepOutcome D)
  in_elements m rest l es = elim (component_at es 0) [
    | none ↦ conclude m rest (loop_result false)
    | some e ↦
        let tc = env.api.dyn.type_of e in
        let l' = settle_char env tc l in
        if enum_fits env e l'
        then scan env tc l' es >>= conclude m rest
        else signals env ops type_mismatch m
  ]

  unfoldable pub in_values : Rvm D → List (RtVal D) → RtVal D → RtVal D → Option (StepOutcome D)
  unfolding scan next_op
  in_values m rest l (RtVal.dynany d) =
      let k = kind_of l in
      if is_numeric k || is_string k || is_enum k
      then if env.api.is_seq d || env.api.is_array d
        then in_elements m rest l (env.api.components d)
        else signals env ops type_mismatch m
      else signals env ops type_mismatch m
  in_values m rest l _ = signals env ops type_mismatch m

  unfoldable pub eval_in_uu2b : Rvm D → Option (StepOutcome D)
  unfolding in_values
  eval_in_uu2b m = elim m.stack [
    | [] ↦ none
    | r ∷ vs ↦ elim vs [ [] ↦ none | l ∷ rest ↦ in_values m rest l r ]
  ]
