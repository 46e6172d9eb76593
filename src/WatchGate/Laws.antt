-- ===== src/WatchGate/Laws.antt =====
-- internal/app/watchgate.go (ParseWatch): what every accepted /watch asks for.
use aegis_go.Prelude.{
  ◌≡◌, subst, Bool, true, false, ◌||◌, Option, some, inl, inr, Bool-cases, Option-cases, ◌++◌,
}
use aegis_go.Prelude.Result.{ok, ok-injective, Result-cases}
use aegis_go.Rules.{Text, codes, trim_space}
use aegis_go.Texts.{empty, trim_prefix, split}
use aegis_go.AddRule.{trim_all}
use aegis_go.WatchGate.{
  StoredWatch, Parsers, blank, parse_watch, validate, check_watch_path, or_bad_pattern, valid_name,
  assign_all, segments,
}

-- A name, a path that may be watched and a pattern that compiles.
pub record IsWatchable (regexp : Text → Option (Text → Bool)) (name path pattern : Text)
    : Type 0 where
  pub complete : (empty name || empty path || empty pattern) ≡ false
  pub named : valid_name name ≡ true
  pub allowed : check_watch_path path ≡ ok tt
  pub compiles : (re : Text → Bool) × (regexp (codes "(?i)" ++ pattern) ≡ some re)

abbrev Watchable : Parsers → StoredWatch → Type 0
Watchable c w = IsWatchable c.regexp w.name w.path w.pattern

or_bad_pattern-IsWatchable :
    (c : Parsers) (s w : StoredWatch)
    → (empty s.name || empty s.path || empty s.pattern) ≡ false
    → check_watch_path s.path ≡ ok tt
    → valid_name s.name ≡ true
    → or_bad_pattern s (c.regexp (codes "(?i)" ++ s.pattern)) ≡ ok w
    → Watchable c w
or_bad_pattern-IsWatchable c s w full path name h =
    elim (Option-cases (c.regexp (codes "(?i)" ++ s.pattern))) [
      | inl e ↦ cc (rw e at h)
      | inr (re, e) ↦
          subst (Watchable c) (ok-injective (rw e at h))
            (record { complete = full; named = name; allowed = path; compiles = (re, e) })
    ]

validate-IsWatchable : (c : Parsers) (s w : StoredWatch) → validate c s ≡ ok w → Watchable c w
unfolding validate
validate-IsWatchable c s w h = elim (Bool-cases (empty s.name || empty s.path || empty s.pattern)) [
  | inl e ↦ cc (rw e at h)
  | inr e ↦ elim (Result-cases (check_watch_path s.path)) [
    | inr (x, p) ↦ cc (rw (e, p) at h)
    | inl (u, p) ↦ elim (Bool-cases (valid_name s.name)) [
      | inl v ↦ or_bad_pattern-IsWatchable c s w e p v (rw (e, p, v) at h)
      | inr v ↦ cc (rw (e, p, v) at h)
    ]
  ]
]

-- A text that /watch accepts has a name of the alphabet, a path with the extension of a log that
-- does not start in one of the three kernel file systems, and a pattern that compiles.
pub parse_watch-IsWatchable :
    (c : Parsers) (text : Text) {w : StoredWatch}
    → parse_watch c text ≡ ok w
    → IsWatchable c.regexp w.name w.path w.pattern
unfolding parse_watch
parse_watch-IsWatchable c text {w = w} h =
    let body = trim_space (trim_prefix (codes "/watch") (trim_space text)) in
    elim (Bool-cases (empty body)) [
      | inl e ↦ cc (rw e at h)
      | inr e ↦ elim (Result-cases (assign_all c (segments (trim_all (split 124 body))) blank)) [
        | inr (x, p) ↦ cc (rw (e, p) at h)
        | inl (s, p) ↦ validate-IsWatchable c s w (rw (e, p) at h)
      ]
    ]
