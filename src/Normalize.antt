-- ===== src/Normalize.antt =====
-- internal/store/normalize.go: the clustering key of a prompt. A prompt is its bytes and white
-- space is that of ASCII; every byte that the code compares with is ASCII.
use aegis_go.Prelude.{
  ℕ, Bool, true, false, ◌||◌, ◌&&◌, List, [], ◌∷◌, ◌++◌, map, any, if◌then◌else◌, leb, ◌==◌,
}
use aegis_go.Rules.{Text, codes, is_space, trim_space}

abbrev is_quote : ℕ → Bool
is_quote c = c == 34 || (c == 39 || c == 96)

-- The loop over the runes: a quote opens with `<q>`, and any quote closes.
unfoldable pub drop_quoted : Bool → Text → Text
drop_quoted in_quote [] = []
drop_quoted in_quote (c ∷ s) =
    (if is_quote c then (if in_quote then [] else codes "<q>") else if in_quote then [] else c ∷ [])
    ++ drop_quoted (if is_quote c then (if in_quote then false else true) else in_quote) s

-- `strings.Fields`, the field under way in front.
abbrev push_field : Text → List Text → List Text
push_field [] fs = fs
push_field (c ∷ f) fs = (c ∷ f) ∷ fs

unfoldable pub fields_from : Text → Text → List Text
fields_from field [] = push_field field []
fields_from field (c ∷ s) =
    let rest = fields_from (if is_space c then [] else field ++ c ∷ []) s in
    if is_space c then push_field field rest else rest

unfoldable pub fields : Text → List Text
unfolding fields_from
fields s = fields_from [] s

abbrev is_digit : ℕ → Bool
is_digit c = leb 48 c && leb c 57

abbrev is_separator : ℕ → Bool
is_separator c = c == 46 || c == 44

unfoldable pub numeric_from : Bool → Text → Bool
numeric_from has_digit [] = has_digit
numeric_from has_digit (c ∷ s) =
    let rest = numeric_from (if is_digit c then true else has_digit) s in
    if is_digit c then rest else if is_separator c then rest else false

unfoldable pub looks_numeric : Text → Bool
unfolding numeric_from
looks_numeric f = numeric_from false f

abbrev is_slash : ℕ → Bool
is_slash c = c == 47 || c == 92

unfoldable pub placeholder : Text → Text
unfolding looks_numeric
placeholder f =
    if any is_slash f then codes "<path>" else if looks_numeric f then codes "<n>" else f

-- `strings.Join` with one separator.
abbrev join_behind : Text → Text → List Text → Text
join_behind sep f [] = f
join_behind sep f (g ∷ fs) = f ++ (sep ++ join_behind sep g fs)

abbrev join : Text → List Text → Text
join sep [] = []
join sep (f ∷ fs) = join_behind sep f fs

abbrev pub space : Text
space = 32 ∷ []

abbrev key_of : Text → Text
key_of p = join space (map placeholder (fields (drop_quoted false p)))

abbrev empty_or_key : Text → Text
empty_or_key [] = []
empty_or_key (c ∷ p) = key_of (c ∷ p)

unfoldable pub normalize : Text → Text
unfolding drop_quoted fields placeholder
normalize p = empty_or_key (trim_space p)
