-- ===== src/Router/Splice.antt =====
-- internal/router/router.go, spliceArgs: captures go into the JSON template of a rule. A text is
-- its bytes. `json_string` is encoding/json's string encoder with its HTML escapes, on text that is
-- valid UTF-8 and holds neither U+2028 nor U+2029: bytes from 128 on are copied.
pub mod Laws
use aegis_go.Prelude.{
  ℕ, zero, suc, ◌+◌, ◌-◌, ◌*◌, ◌/◌, ◌%◌, Bool, true, false, ◌||◌, ◌&&◌, List, [], ◌∷◌, ◌++◌, length,
  if◌then◌else◌, ltb, ◌==◌,
}
use aegis_go.Prelude.Decimal.{itoa}
use aegis_go.Rules.{Text, codes}

unfoldable pub starts_with : Text → Text → Bool
starts_with [] s = true
starts_with (c ∷ p) [] = false
starts_with (c ∷ p) (d ∷ s) = let rest = starts_with p s in if c == d then rest else false

-- The scan of `strings.ReplaceAll` for a pattern that is not empty; `skip` bytes of a match are
-- still to be passed.
unfoldable pub replace_from : Text → Text → ℕ → Text → Text
unfolding starts_with
replace_from old new skip [] = []
replace_from old new (suc skip) (c ∷ s) = replace_from old new skip s
replace_from old new zero (c ∷ s) =
    let hit = starts_with old (c ∷ s) in
    (if hit then new else c ∷ []) ++ replace_from old new (if hit then length old - 1 else 0) s

unfoldable pub replace_all : Text → Text → Text → Text
unfolding replace_from
replace_all s old new = replace_from old new 0 s

abbrev pub hex_digit : ℕ → ℕ
hex_digit d = if ltb d 10 then 48 + d else 87 + d

abbrev unicode_escape : ℕ → Text
unicode_escape c = codes "\\u00" ++ hex_digit (c / 16) ∷ hex_digit (c % 16) ∷ []

abbrev must_escape : ℕ → Bool
must_escape c = ltb c 32 || (c == b'<' || (c == b'>' || c == b'&'))

unfoldable pub json_char : ℕ → Text
json_char c =
    if c == 34
    then 92 ∷ 34 ∷ []
    else if c == 92
    then 92 ∷ 92 ∷ []
    else if c == 8
    then codes "\\b"
    else if c == 12
    then codes "\\f"
    else if c == 10
    then codes "\\n"
    else if c == 13
    then codes "\\r"
    else if c == 9
    then codes "\\t"
    else if must_escape c
    then unicode_escape c
    else c ∷ []

unfoldable pub json_body : Text → Text
unfolding json_char
json_body [] = []
json_body (c ∷ s) = json_char c ++ json_body s

unfoldable pub json_string : Text → Text
unfolding json_body
json_string s = 34 ∷ (json_body s ++ 34 ∷ [])

abbrev pub dollar : ℕ
dollar = 36

abbrev pub ref_to : ℕ → Text
ref_to i = dollar ∷ itoa i

abbrev pub quoted_ref_to : ℕ → Text
quoted_ref_to i = 34 ∷ (ref_to i ++ 34 ∷ [])

-- One capture: the quoted form first, then the bare one.
unfoldable pub splice_one : ℕ → Text → Text → Text
unfolding replace_all json_string
splice_one i capture out =
    replace_all (replace_all out (quoted_ref_to i) (json_string capture)) (ref_to i) capture

unfoldable pub splice_from : ℕ → Text → List Text → Text
unfolding splice_one
splice_from i out [] = out
splice_from i out (capture ∷ rest) = splice_from (i + 1) (splice_one i capture out) rest

-- `match[0]` is the whole prompt and is not spliced.
unfoldable pub splice_args : Text → List Text → Text
unfolding splice_from
splice_args template [] = template
splice_args template (whole ∷ captures) = splice_from 1 template captures
