-- ===== src/AddRule.antt =====
-- internal/app/addrulegate.go and registerrulesgate.go: rules that a chat adds, one or a pasted
-- batch, in the dialect that /rules export prints. This file is the parser; Run.antt is the gated
-- write. `Checks` is the regexp compiler and the JSON decoder.
pub mod Segments
pub mod RoundTrip
pub mod Export
pub mod Sound
pub mod Lines
pub mod Batch
pub mod Run
use aegis_go.Prelude.{
  ℕ, suc, ◌+◌, Bool, true, false, not, ◌&&◌, ◌||◌, List, [], ◌∷◌, ◌++◌, Option, none, some,
  if◌then◌else◌, leb, ◌==◌, length,
}
use aegis_go.Prelude.Result.{Result, ok, err, ◌>>=◌}
use aegis_go.Rules.{Text, codes, trim_space}
use aegis_go.Texts.{has_prefix, text_eq, empty, trim_prefix, split, cut, to_lower}

pub record Spec : Type 0 where
  pub name : Text
  pub pattern : Text
  pub tool : Text
  pub args : Text

abbrev pub blank : Spec
blank = record { name = []; pattern = []; tool = []; args = [] }

pub record Checks : Type 0 where
  pub compiles : Text → Bool
  pub is_object : Text → Bool

pub data ParseError : Type 0 where
  usage : ParseError
  bad_segment : Text → ParseError
  unknown_key : Text → ParseError
  required : ParseError
  bad_name : Text → ParseError
  not_a_command : ParseError
  bad_pattern : ParseError
  bad_args : ParseError
  too_many : ParseError

abbrev pub starts_with_known_key : Text → Bool
starts_with_known_key s =
    has_prefix (codes "name=") s
    || (has_prefix (codes "pattern=") s
        || (has_prefix (codes "tool=") s || has_prefix (codes "args=") s))

-- `segs[len(segs)-1]` is `seg`; the parts are trimmed.
unfoldable pub merge : Text → List Text → List Text
merge seg [] = seg ∷ []
merge seg (p ∷ ps) =
    let skipped = merge seg ps in
    let fresh = merge p ps in
    let joined = merge (seg ++ (124 ∷ p)) ps in
    if empty p then skipped else if starts_with_known_key p then seg ∷ fresh else joined

unfoldable pub segments : List Text → List Text
unfolding merge
segments [] = []
segments (p ∷ ps) =
    let rest = segments ps in let first = merge p ps in if empty p then rest else first

-- The switch on the key.
unfoldable pub assign : Text → Text → Spec → Result ParseError Spec
assign k v s =
    if text_eq k (codes "name")
    then ok (record s { name = v })
    else if text_eq k (codes "pattern")
    then ok (record s { pattern = v })
    else if text_eq k (codes "tool")
    then ok (record s { tool = v })
    else if text_eq k (codes "args")
    then ok (record s { args = v })
    else err (unknown_key k)

abbrev assign_cut : Text → Option (Text × Text) → Spec → Result ParseError Spec
assign_cut seg none s = err (bad_segment seg)
assign_cut seg (some (k, v)) s = assign (to_lower (trim_space k)) (trim_space v) s

unfoldable pub assign_all : List Text → Spec → Result ParseError Spec
unfolding assign
assign_all [] s = ok s
assign_all (seg ∷ segs) s = assign_cut seg (cut 61 seg) s >>= λ s'. assign_all segs s'

abbrev is_lower : ℕ → Bool
is_lower c = leb 97 c && leb c 122

abbrev pub is_word : ℕ → Bool
is_word c = is_lower c || ((leb 48 c && leb c 57) || c == 95)

abbrev pub all_word : Text → Bool
all_word [] = true
all_word (c ∷ s) = is_word c && all_word s

-- `^[a-z][a-z0-9_]{1,40}$`.
abbrev pub valid_name : Text → Bool
valid_name [] = false
valid_name (c ∷ s) = is_lower c && (all_word s && (leb 1 (length s) && leb (length s) 40))

abbrev pub anchored_text : Text → Text
anchored_text p = codes "^(?:" ++ (p ++ codes ")$")

-- The checks after the loop, in order.
unfoldable pub validate : Checks → Spec → Result ParseError Spec
validate c s =
    if empty s.name || (empty s.pattern || empty s.tool)
    then err required
    else if not (valid_name s.name)
    then err (bad_name s.name)
    else if not (has_prefix (codes "/") (trim_space s.pattern))
    then err not_a_command
    else if not (c.compiles (anchored_text s.pattern))
    then err bad_pattern
    else if not (empty s.args || c.is_object s.args)
    then err bad_args
    else ok s

abbrev pub trim_all : List Text → List Text
trim_all [] = []
trim_all (p ∷ ps) = trim_space p ∷ trim_all ps

unfoldable pub parse_body : Checks → Text → Result ParseError Spec
parse_body c body =
    if empty body
    then err usage
    else assign_all (segments (trim_all (split 124 body))) blank >>= validate c

unfoldable pub parse_add_rule : Checks → Text → Result ParseError Spec
parse_add_rule c text = parse_body c (trim_space (trim_prefix (codes "/addrule") (trim_space text)))

abbrev max_register_lines : ℕ
max_register_lines = 50

-- The loop over the lines; `n` is the number of the specs so far.
unfoldable pub parse_lines : Checks → ℕ → List Text → Result ParseError (List Spec)
parse_lines c n [] = ok []
parse_lines c n (raw ∷ raws) =
    let rest = parse_lines c n raws in
    let more =
      parse_add_rule c (trim_space raw) >>= λ s. parse_lines c (suc n) raws >>= λ ss. ok (s ∷ ss) in
    if not (has_prefix (codes "/addrule ") (trim_space raw))
    then rest
    else if leb max_register_lines n
    then err too_many
    else more

abbrev some_specs : List Spec → Result ParseError (List Spec)
some_specs [] = err usage
some_specs (s ∷ ss) = ok (s ∷ ss)

unfoldable pub parse_register_rules : Checks → Text → Result ParseError (List Spec)
parse_register_rules c text = parse_lines c 0 (split 10 text) >>= some_specs
