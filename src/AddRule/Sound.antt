-- ===== src/AddRule/Sound.antt =====
-- internal/app/addrulegate.go (parseAddRule): what every accepted text stands for.
use aegis_go.Prelude.{◌≡◌, refl, Bool, true, false, not, ◌||◌, subst, if◌then◌else◌}
use aegis_go.Prelude.Result.{Result, ok, err, ◌>>=◌, ok-injective}
use aegis_go.Rules.{Text, codes, trim_space}
use aegis_go.Texts.{has_prefix, empty, split, trim_prefix}
use aegis_go.AddRule.{
  Spec, Checks, ParseError, valid_name, anchored_text, validate, parse_body, parse_add_rule,
  assign_all, segments, trim_all, blank, usage, required, bad_name, not_a_command, bad_pattern,
  bad_args,
}

-- A command of the name's alphabet whose pattern compiles and whose arguments are an object.
pub record IsAdmissible (c : Checks) (s : Spec) : Type 0 where
  pub named : valid_name s.name ≡ true
  pub has_tool : empty s.tool ≡ false
  pub is_command : has_prefix (codes "/") (trim_space s.pattern) ≡ true
  pub compiles : c.compiles (anchored_text s.pattern) ≡ true
  pub args : (empty s.args || c.is_object s.args) ≡ true

not-true : (b : Bool) → not b ≡ false → b ≡ true
not-true true h = refl
not-true false h = cc

or_false : (a b : Bool) → (a || b) ≡ false → (a ≡ false) × (b ≡ false)
or_false true b h = cc
or_false false b h = (refl, h)

guarded :
    {A E : Type 0} (b : Bool) (e : E) (m : Result E A) {a : A}
    → (if b then err e else m) ≡ ok a
    → (b ≡ false) × (m ≡ ok a)
guarded true e m h = cc
guarded false e m h = (refl, h)

validate-IsAdmissible :
    (c : Checks) (s : Spec) {s' : Spec} → validate c s ≡ ok s' → (s ≡ s') × IsAdmissible c s
unfolding validate
validate-IsAdmissible c s h =
    let object = empty s.args || c.is_object s.args in
    let checked = if not object then err bad_args else ok s in
    let compiled =
      if not (c.compiles (anchored_text s.pattern)) then err bad_pattern else checked in
    let command =
      if not (has_prefix (codes "/") (trim_space s.pattern)) then err not_a_command else compiled in
    let named = if not (valid_name s.name) then err (bad_name s.name) else command in
    let (present, h₁) =
      guarded (empty s.name || (empty s.pattern || empty s.tool)) required named h in
    let (is_named, h₂) = guarded (not (valid_name s.name)) (bad_name s.name) command h₁ in
    let (slash, h₃) =
      guarded (not (has_prefix (codes "/") (trim_space s.pattern))) not_a_command compiled h₂ in
    let (compiles, h₄) =
      guarded (not (c.compiles (anchored_text s.pattern))) bad_pattern checked h₃ in
    let (args, h₅) = guarded (not object) bad_args (ok s) h₄ in
    (
      ok-injective h₅,
      record {
        named = not-true (valid_name s.name) is_named;
        has_tool =
            (or_false (empty s.pattern) (empty s.tool)
              (or_false (empty s.name) (empty s.pattern || empty s.tool) present).1).1;
        is_command = not-true (has_prefix (codes "/") (trim_space s.pattern)) slash;
        compiles = not-true (c.compiles (anchored_text s.pattern)) compiles;
        args = not-true object args;
      },
    )

bound_validate :
    (c : Checks) (m : Result ParseError Spec) {s : Spec}
    → (m >>= validate c) ≡ ok s
    → IsAdmissible c s
bound_validate c (err e) h = cc
bound_validate c (ok s') h =
    let (same, admissible) = validate-IsAdmissible c s' h in subst (IsAdmissible c) same admissible

-- A text that /addrule accepts asks for a named command with a tool, whose pattern starts with a
-- slash and compiles and whose arguments, if any, are an object.
parse_add_rule-IsAdmissible :
    (c : Checks) (text : Text) {s : Spec} → parse_add_rule c text ≡ ok s → IsAdmissible c s
unfolding parse_add_rule parse_body
parse_add_rule-IsAdmissible c text h =
    let body = trim_space (trim_prefix (codes "/addrule") (trim_space text)) in
    bound_validate c (assign_all (segments (trim_all (split 124 body))) blank)
      (guarded (empty body) usage _ h).1
