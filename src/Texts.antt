-- ===== src/Texts.antt =====
-- The calls of the `strings` package that the command parsers make, on the bytes of a text.
pub mod Laws
use aegis_go.Prelude.{
  ℕ, zero, suc, ◌-◌, length, Bool, true, false, ◌&&◌, List, [], ◌∷◌, ◌++◌, Option, none, some,
  if◌then◌else◌, leb, ◌==◌, ◌+◌,
}
use aegis_go.Rules.{Text, is_space}

-- `strings.HasPrefix`.
abbrev pub has_prefix : Text → Text → Bool
has_prefix [] s = true
has_prefix (c ∷ p) [] = false
has_prefix (c ∷ p) (d ∷ s) = c == d && has_prefix p s

-- `strings.Contains`.
abbrev pub contains_text : Text → Text → Bool
contains_text part [] = has_prefix part []
contains_text part (c ∷ s) =
    let later = contains_text part s in if has_prefix part (c ∷ s) then true else later

abbrev pub text_eq : Text → Text → Bool
text_eq [] [] = true
text_eq [] (d ∷ t) = false
text_eq (c ∷ s) [] = false
text_eq (c ∷ s) (d ∷ t) = c == d && text_eq s t

abbrev pub empty : Text → Bool
empty [] = true
empty (c ∷ s) = false

-- What follows a prefix, if the text has it.
abbrev cut_prefix : Text → Text → Option Text
cut_prefix [] s = some s
cut_prefix (c ∷ p) [] = none
cut_prefix (c ∷ p) (d ∷ s) = let rest = cut_prefix p s in if c == d then rest else none

abbrev or_whole : Text → Option Text → Text
or_whole s none = s
or_whole s (some rest) = rest

-- `strings.TrimPrefix`.
abbrev pub trim_prefix : Text → Text → Text
trim_prefix p s = or_whole s (cut_prefix p s)

abbrev pub push : ℕ → List Text → List Text
push c [] = (c ∷ []) ∷ []
push c (p ∷ ps) = (c ∷ p) ∷ ps

-- `strings.Split` by one byte: a text without it is its own only part.
abbrev pub split : ℕ → Text → List Text
split sep [] = [] ∷ []
split sep (c ∷ s) =
    let rest = split sep s in let more = push c rest in if c == sep then [] ∷ rest else more

abbrev cut_push : ℕ → Option (Text × Text) → Option (Text × Text)
cut_push c none = none
cut_push c (some (before, after)) = some (c ∷ before, after)

-- `strings.SplitN(s, sep, 2)` and `strings.Cut`: `none` is one part.
abbrev pub cut : ℕ → Text → Option (Text × Text)
cut sep [] = none
cut sep (c ∷ s) = let rest = cut_push c (cut sep s) in if c == sep then some ([], s) else rest

-- `strings.ToLower` on ASCII text.
abbrev lower_byte : ℕ → ℕ
lower_byte c = if leb 65 c && leb c 90 then c + 32 else c

abbrev pub to_lower : Text → Text
to_lower [] = []
to_lower (c ∷ s) = lower_byte c ∷ to_lower s

-- `strings.Fields`, from the right: a byte joins the field that starts right after it, if one does.
abbrev grow : ℕ → Bool → List Text → List Text
grow c true ws = push c ws
grow c false ws = (c ∷ []) ∷ ws

abbrev pub starts_word : Text → Bool
starts_word [] = false
starts_word (c ∷ s) = if is_space c then false else true

abbrev pub fields : Text → List Text
fields [] = []
fields (c ∷ s) =
    let rest = fields s in
    let more = grow c (starts_word s) rest in if is_space c then rest else more

-- `strings.Split` by a longer separator, whose bytes after the first `skip` passes over.
abbrev pub split_text : Text → ℕ → Text → List Text
split_text sep skip [] = [] ∷ []
split_text sep zero (c ∷ s) =
    let fresh = split_text sep (length sep - 1) s in
    let more = push c (split_text sep 0 s) in if has_prefix sep (c ∷ s) then [] ∷ fresh else more
split_text sep (suc k) (c ∷ s) = split_text sep k s

-- The arrow between blanks, in its bytes.
abbrev pub arrow : Text
arrow = 32 ∷ 226 ∷ 134 ∷ 146 ∷ 32 ∷ []

-- `strings.TrimRight` of one byte.
abbrev pub trim_end_cons : ℕ → ℕ → Text → Text
trim_end_cons cut c [] = if c == cut then [] else c ∷ []
trim_end_cons cut c (d ∷ r) = c ∷ d ∷ r

abbrev pub trim_end : ℕ → Text → Text
trim_end cut [] = []
trim_end cut (c ∷ s) = trim_end_cons cut c (trim_end cut s)
