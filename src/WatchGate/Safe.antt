-- ===== src/WatchGate/Safe.antt =====
-- internal/app/watchgate.go (ParseWatch, checkWatchPath): what may be watched, spelled out.
use mathlib.Core.List.{append-nil}
use aegis_go.Prelude.{
  ℕ, ◌≤◌, ◌≡◌, ◌≢◌, refl, sym, ap, subst, Bool, true, false, not, ◌&&◌, ◌||◌, List, [], ◌∷◌, ◌++◌,
  some, inl, inr, ◌⊎◌, Bool-cases, if◌then◌else◌, leb, leb→le, ◌==◌, any, length, All, arith,
}
use aegis_go.Prelude.Result.{ok}
use aegis_go.Rules.{Text, codes}
use aegis_go.Texts.{has_prefix, text_eq, to_lower, empty}
use aegis_go.Texts.Laws.{text_eq_refl}
use aegis_go.AddRule.{is_word}
use aegis_go.WatchGate.{
  StoredWatch, Parsers, parse_watch, check_watch_path, is_pseudo, is_log_ext, ext, under,
  valid_name, all_name,
}
use aegis_go.WatchGate.Laws.{parse_watch-IsWatchable}

-- A lower-case letter, a digit, an underscore or a dash.
abbrev IsNameByte : ℕ → Type 0
IsNameByte c = ((97 ≤ c) × (c ≤ 122)) ⊎ (((48 ≤ c) × (c ≤ 57)) ⊎ ((c ≡ 95) ⊎ (c ≡ 45)))

-- A letter and between one and forty bytes more.
pub record IsName (name : Text) : Type 0 where
  pub first : ℕ
  pub rest : Text
  pub parts : name ≡ first ∷ rest
  pub letter : (97 ≤ first) × (first ≤ 122)
  pub bytes : All IsNameByte rest
  pub long : (1 ≤ length rest) × (length rest ≤ 40)

abbrev log_endings : List Text
log_endings =
    codes ".log" ∷ codes ".txt" ∷ codes ".out" ∷ codes ".err" ∷ codes ".ndjson" ∷ codes ".json" ∷ []

-- Outside of /dev, /proc and /sys as it is written, and with the ending of a log in any case.
pub record IsLogPath (path : Text) : Type 0 where
  pub dev : (path ≢ codes "/dev") × (has_prefix (codes "/dev/") path ≡ false)
  pub proc : (path ≢ codes "/proc") × (has_prefix (codes "/proc/") path ≡ false)
  pub sys : (path ≢ codes "/sys") × (has_prefix (codes "/sys/") path ≡ false)
  pub stem : Text
  pub ending : Text
  pub ends : path ≡ stem ++ ending
  pub of_log : any (text_eq (to_lower ending)) log_endings ≡ true

or_false : (a b : Bool) → (a || b) ≡ false → (a ≡ false) × (b ≡ false)
or_false true b h = cc
or_false false b h = (refl, h)

and_true : (a b : Bool) → (a && b) ≡ true → (a ≡ true) × (b ≡ true)
and_true true b h = (refl, h)
and_true false b h = cc

differs : (s t : Text) → text_eq s t ≡ false → s ≢ t
differs s t h e = cc (text_eq_refl t, subst (λ x. text_eq x t ≡ false) e h)

name_byte : (c : ℕ) → (is_word c || c == 45) ≡ true → IsNameByte c
name_byte c h = ground arith

all_name-All : (s : Text) → all_name s ≡ true → All IsNameByte s
all_name-All [] h = tt
all_name-All (c ∷ s) h =
    let (here, later) = and_true (is_word c || c == 45) (all_name s) h in
    (name_byte c here, all_name-All s later)

valid_name-IsName : (name : Text) → valid_name name ≡ true → IsName name
valid_name-IsName [] h = cc
valid_name-IsName (c ∷ s) h =
    let (letter, more) = and_true (leb 97 c && leb c 122) _ h in
    let (low, high) = and_true (leb 97 c) (leb c 122) letter in
    let (bytes, long) = and_true (all_name s) _ more in
    let (one, forty) = and_true (leb 1 (length s)) (leb (length s) 40) long in
    record {
      first = c;
      rest = s;
      parts = refl;
      letter = (leb→le 97 c low, leb→le c 122 high);
      bytes = all_name-All s bytes;
      long = (leb→le 1 (length s) one, leb→le (length s) 40 forty);
    }

-- The extension is the end of the path.
ext-ends : (p : Text) → (stem : Text) × (p ≡ stem ++ ext p)
ext-ends [] = ([], refl)
ext-ends (c ∷ s) = elim (Bool-cases (not (empty (ext s)))) [
  | inl e ↦ let (stem, ends) = ext-ends s in rw e (c ∷ stem, ap (λ x. c ∷ x) ends)
  | inr e ↦ elim (Bool-cases ((c == 46) && not (any (λ d. d == 47) s))) [
    | inl d ↦ rw (e, d) ([], refl)
    | inr d ↦ rw (e, d) (c ∷ s, sym (append-nil (c ∷ s)))
  ]
]

or_any :
    (b : Bool) {r r' : Bool}
    → (r ≡ true → r' ≡ true)
    → (b || r) ≡ true
    → (if b then true else r') ≡ true
or_any true f h = refl
or_any false f h = f h

listed : (e : Text) → is_log_ext e ≡ true → any (text_eq e) log_endings ≡ true
listed e =
    let is = text_eq e in
    or_any (is (codes ".log")) (
      or_any (is (codes ".txt")) (
        or_any (is (codes ".out"))
          (or_any (is (codes ".err")) (or_any (is (codes ".ndjson")) (λ h. rw h refl)))))

outside :
    (dir bare p : Text)
    → (has_prefix dir p || text_eq p bare) ≡ false
    → (p ≢ bare) × (has_prefix dir p ≡ false)
outside dir bare p h =
    let (apart, other) = or_false (has_prefix dir p) (text_eq p bare) h in
    (differs p bare other, apart)

check_watch_path-IsLogPath : (p : Text) → check_watch_path p ≡ ok tt → IsLogPath p
unfolding check_watch_path
check_watch_path-IsLogPath p h = elim (Bool-cases (is_pseudo p)) [
  | inl e ↦ cc (rw e at h)
  | inr e ↦ elim (Bool-cases (is_log_ext (to_lower (ext p)))) [
    | inr x ↦ cc (rw (e, x) at h)
    | inl x ↦
        let (dev, more) = or_false (under (codes "/dev/") p) _ e in
        let (proc, sys) = or_false (under (codes "/proc/") p) (under (codes "/sys/") p) more in
        let (stem, ends) = ext-ends p in
        record {
          dev = outside (codes "/dev/") (codes "/dev") p dev;
          proc = outside (codes "/proc/") (codes "/proc") p proc;
          sys = outside (codes "/sys/") (codes "/sys") p sys;
          stem = stem;
          ending = ext p;
          ends = ends;
          of_log = listed (to_lower (ext p)) x;
        }
  ]
]

-- A text that /watch accepts has a name of a lower-case letter and one to forty letters, digits,
-- underscores or dashes, a path, as written, that is neither /dev, /proc or /sys nor below one of
-- them and that ends in .log, .txt, .out, .err, .ndjson or .json in any case, and a pattern that is
-- not empty and compiles.
pub parse_watch-IsSafe :
    (c : Parsers) (text : Text) {w : StoredWatch}
    → parse_watch c text ≡ ok w
    → IsName w.name
      × IsLogPath w.path
      × (w.pattern ≢ [])
      × ((re : Text → Bool) × (c.regexp (codes "(?i)" ++ w.pattern) ≡ some re))
parse_watch-IsSafe c text {w} h =
    let k = parse_watch-IsWatchable c text h in
    let full = (or_false (empty w.name || empty w.path) (empty w.pattern) k.complete).1 in
    (
      valid_name-IsName w.name k.named,
      check_watch_path-IsLogPath w.path k.allowed,
      (λ e. cc (ap empty e, full)),
      k.compiles,
    )
