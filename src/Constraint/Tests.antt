-- ===== src/Constraint/Tests.antt =====
-- Runs of the constraint builder and of code generation, and their theorems at concrete trees.
use omni_notify_omni_orb.Common.{ℕ, true, none, some, List, [], ◌∷◌, ◌≡◌, ◌≢◌, refl, arith}
use omni_notify_omni_orb.Common.Int.{ℤ, pos}
use omni_notify_omni_orb.OpSeq.Codes.{StaticT}
use omni_notify_omni_orb.OpSeq.Seq.{Text, bool_arg}
use omni_notify_omni_orb.OpSeq.Jumps.{str_eq}
use omni_notify_omni_orb.Constraint.{
  Constraint, done, gen, do_codegen, not_node, and_node, comp_end, default_node, in_node,
}
use omni_notify_omni_orb.Constraint.Typing.{
  IsBuilt, and_built, not_built, cached_built, comp_end_built, chain_built, ended, part, size,
  depth,
}
use omni_notify_omni_orb.Constraint.Rules.{Ends}
use omni_notify_omni_orb.Constraint.Component.{
  Component, component_node, Part, PartToken, WellKnownPart, wkp, special, built, dot_ident,
  in_brackets, BuildError, rejected,
}
use omni_notify_omni_orb.Constraint.Build.{
  new_in, new_bool_const, new_comp_end, new_exist, new_default, negate, integer_op, string_const,
  new_s_const,
}
use omni_notify_omni_orb.Constraint.Parts.{
  parse_component, comp_done, add_parts, new_comp, find_name,
}
use omni_notify_omni_orb.Constraint.Parsed.{parse_component-LeavesBool, new_default-LeavesBool}
use omni_notify_omni_orb.Constraint.Consts.{
  quoted, text_type, new_s_const-quoted, negate-integer_op, Negates,
}
use omni_notify_omni_orb.Constraint.Compile.{fresh, LeavesBool, do_codegen-LeavesBool, new_in-stuck}

abbrev header : Text
header = b'h' ∷ b'e' ∷ b'a' ∷ b'd' ∷ b'e' ∷ b'r' ∷ []

abbrev foo : Text
foo = b'f' ∷ b'o' ∷ b'o' ∷ []

abbrev discriminator : Text
discriminator = b'_' ∷ b'd' ∷ []

-- A conversion that finds 3 in every text of one digit.
abbrev three : Text → ℤ × ℕ
three t = (pos 3, 1)

setup : Unit {0}
unfolding parse_component comp_done add_parts new_comp find_name str_eq new_default
setup = tt

-- `$.header.foo._d` starts at the well-known header.
abbrev header_foo_d : Component
header_foo_d = record { start = wkp WellKnownPart.hdr; parts = Part.dot_id foo ∷ Part.dot_d ∷ [] }

abbrev tokens : List PartToken
tokens = dot_ident header ∷ dot_ident foo ∷ dot_ident discriminator ∷ []

parse_header : parse_component str_eq three none tokens ≡ some (built header_foo_d)
unfolding setup
parse_header = refl

-- A part behind `_d` is refused.
parse_behind_d :
    parse_component str_eq three (some foo) (dot_ident discriminator ∷ in_brackets (b'3' ∷ []) ∷ [])
    ≡ some (rejected BuildError.after_end_part)
unfolding setup
parse_behind_d = refl

parse_component-LeavesBool_example :
    Ends (do_codegen (new_comp_end header_foo_d) (fresh 0)) LeavesBool
    × Ends (do_codegen (new_exist header_foo_d) (fresh 0)) LeavesBool
parse_component-LeavesBool_example =
    parse_component-LeavesBool str_eq three none tokens header_foo_d 0 parse_header (omega arith)

-- The tree for `default $.header.foo._d`.
abbrev header_foo_default : Constraint
header_foo_default =
    default_node
      (component_node (record { start = wkp WellKnownPart.hdr; parts = Part.dot_id foo ∷ [] }))

default_header : new_default header_foo_d ≡ built header_foo_default
unfolding setup
default_header = refl

new_default-LeavesBool_example : Ends (do_codegen header_foo_default (fresh 0)) LeavesBool
new_default-LeavesBool_example =
    new_default-LeavesBool str_eq three none tokens header_foo_d header_foo_default 0 parse_header
      default_header (omega arith)

new_s_const-quoted_example :
    new_s_const (quoted (b'a' ∷ b'\'' ∷ [])) ≡ some (string_const (b'a' ∷ b'\'' ∷ []))
    × IsBuilt (string_const (b'a' ∷ b'\'' ∷ [])) (text_type (b'a' ∷ b'\'' ∷ []))
new_s_const-quoted_example = new_s_const-quoted (b'a' ∷ b'\'' ∷ [])

-- The least number for which a long long is taken.
negate-integer_op_example : Negates 2147483647 (negate (integer_op 2147483647).arg)
negate-integer_op_example = negate-integer_op 2147483647 (omega arith)

-- `true and not $foo`
abbrev foo_node : Constraint
foo_node = comp_end (component_node (record { start = special foo; parts = [] }))

true_const-IsBuilt : IsBuilt (new_bool_const true) StaticT.b
unfolding bool_arg
true_const-IsBuilt = cached_built refl (record { bool_const = λ h e. cc; char_const = λ e. cc })

foo_node-IsBuilt : IsBuilt foo_node StaticT.u
foo_node-IsBuilt = comp_end_built (chain_built refl ended) (λ e. cc)

do_codegen-LeavesBool_example :
    Ends (do_codegen (and_node (new_bool_const true) (not_node foo_node)) (fresh 0)) LeavesBool
unfolding size depth
do_codegen-LeavesBool_example =
    do_codegen-LeavesBool (and_node (new_bool_const true) (not_node foo_node)) StaticT.b 0
      (and_built true_const-IsBuilt (not_built foo_node-IsBuilt)) (omega arith) (omega arith)

-- `true in $foo._length`
abbrev foo_length : Constraint
foo_length = component_node (record { start = special foo; parts = Part.dot_len ∷ [] })

new_in-stuck_example :
    (new_in (new_bool_const true) (comp_end foo_length)
      ≡ built (in_node (new_bool_const true) (comp_end foo_length)))
    × (gen (in_node (new_bool_const true) (comp_end foo_length)) (fresh 0) ≢ some (done (fresh 0)))
unfolding size depth
new_in-stuck_example =
    new_in-stuck (new_bool_const true) foo_length StaticT.b StaticT.n 0 (fresh 0) true_const-IsBuilt
      (comp_end_built (chain_built refl (part refl refl ended)) (λ e. cc)) (λ e. cc) (omega arith)
      (omega arith) (omega arith)
