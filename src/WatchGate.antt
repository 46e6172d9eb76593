-- ===== src/WatchGate.antt =====
-- internal/app/watchgate.go: the chat command /watch, and the path that it may watch.
pub mod Laws
pub mod Safe
pub mod Store
use aegis_go.Prelude.{
  ℕ, zero, suc, ◌+◌, ◌*◌, Bool, true, false, not, ◌&&◌, ◌||◌, List, [], ◌∷◌, ◌++◌, Option, none,
  some, any, if◌then◌else◌, leb, ◌==◌, length,
}
use aegis_go.Prelude.Result.{Result, ok, err, ◌>>=◌}
use aegis_go.Rules.{Text, codes, trim_space}
use aegis_go.Texts.{has_prefix, text_eq, empty, trim_prefix, trim_end, split, cut, to_lower}
use aegis_go.AddRule.{trim_all, is_word}
use aegis_go.Watchdog.{Duration, pos, negsuc}
use aegis_go.Watchdog.Manager.{second}

pub record StoredWatch : Type 0 where
  pub name : Text
  pub path : Text
  pub pattern : Text
  pub every : Duration
  pub cooldown : Duration

abbrev pub blank : StoredWatch
blank = record { name = []; path = []; pattern = []; every = pos 0; cooldown = pos 0 }

-- The regexp compiler, time.ParseDuration, and the number that Sscanf reads; `none` is an error.
pub record Parsers : Type 0 where
  pub regexp : Text → Option (Text → Bool)
  pub duration : Text → Option Duration
  pub number : Text → Option Duration

pub data ParseError : Type 0 where
  usage : ParseError
  bad_segment : Text → ParseError
  unknown_key : Text → ParseError
  bad_duration : Text → ParseError
  required : ParseError
  pseudo_filesystem : Text → ParseError
  bad_extension : Text → ParseError
  bad_name : Text → ParseError
  bad_pattern : ParseError

-- `filepath.Ext`.
abbrev ext : Text → Text
ext [] = []
ext (c ∷ s) =
    let later = ext s in
    if not (empty later)
    then later
    else if (c == 46) && not (any (λ d. d == 47) s)
    then c ∷ s
    else []

abbrev pub under : Text → Text → Bool
under dir p = has_prefix dir p || text_eq p (trim_end 47 dir)

abbrev is_pseudo : Text → Bool
is_pseudo p = under (codes "/dev/") p || (under (codes "/proc/") p || under (codes "/sys/") p)

abbrev is_log_ext : Text → Bool
is_log_ext e =
    text_eq e (codes ".log")
    || (text_eq e (codes ".txt")
        || (text_eq e (codes ".out")
            || (text_eq e (codes ".err")
                || (text_eq e (codes ".ndjson") || text_eq e (codes ".json")))))

unfoldable pub check_watch_path : Text → Result ParseError Unit
check_watch_path p =
    if is_pseudo p
    then err (pseudo_filesystem p)
    else if is_log_ext (to_lower (ext p))
    then ok tt
    else err (bad_extension p)

abbrev has_equals : Text → Bool
has_equals = any (λ c. c == 61)

-- `segs[len(segs)-1]` is `seg`; the parts are trimmed.
abbrev pub merge : Text → List Text → List Text
merge seg [] = seg ∷ []
merge seg (p ∷ ps) =
    let skipped = merge seg ps in
    let fresh = merge p ps in
    let joined = merge (seg ++ (124 ∷ p)) ps in
    if empty p then skipped else if has_equals p then seg ∷ fresh else joined

abbrev pub segments : List Text → List Text
segments [] = []
segments (p ∷ ps) =
    let rest = segments ps in let first = merge p ps in if empty p then rest else first

abbrev seconds : Text → Option Duration → Result ParseError Duration
seconds v none = err (bad_duration v)
seconds v (some (pos zero)) = err (bad_duration v)
seconds v (some (pos (suc n))) = ok (pos (suc n * second))
seconds v (some (negsuc n)) = err (bad_duration v)

abbrev or_seconds : Parsers → Text → Option Duration → Result ParseError Duration
or_seconds c v none = seconds v (c.number v)
or_seconds c v (some d) = ok d

unfoldable pub parse_dur_loose : Parsers → Text → Result ParseError Duration
parse_dur_loose c v = or_seconds c v (c.duration v)

-- The switch on the key.
abbrev pub assign : Parsers → Text → Text → StoredWatch → Result ParseError StoredWatch
assign c k v w =
    if text_eq k (codes "name")
    then ok (record w { name = v })
    else if text_eq k (codes "path")
    then ok (record w { path = v })
    else if text_eq k (codes "pattern")
    then ok (record w { pattern = v })
    else if text_eq k (codes "every")
    then (parse_dur_loose c v >>= λ d. ok (record w { every = d }))
    else if text_eq k (codes "cooldown")
    then (parse_dur_loose c v >>= λ d. ok (record w { cooldown = d }))
    else err (unknown_key k)

abbrev pub assign_cut :
    Parsers → Text → Option (Text × Text) → StoredWatch → Result ParseError StoredWatch
assign_cut c seg none w = err (bad_segment seg)
assign_cut c seg (some (k, v)) w = assign c (to_lower (trim_space k)) (trim_space v) w

unfoldable pub assign_all : Parsers → List Text → StoredWatch → Result ParseError StoredWatch
assign_all c [] w = ok w
assign_all c (seg ∷ segs) w = assign_cut c seg (cut 61 seg) w >>= λ w'. assign_all c segs w'

-- `^[a-z][a-z0-9_-]{1,40}$`.
abbrev all_name : Text → Bool
all_name [] = true
all_name (c ∷ s) = (is_word c || c == 45) && all_name s

abbrev pub valid_name : Text → Bool
valid_name [] = false
valid_name (c ∷ s) =
    (leb 97 c && leb c 122) && (all_name s && (leb 1 (length s) && leb (length s) 40))

abbrev or_default : ℕ → Duration → Duration
or_default d (pos zero) = pos d
or_default d (pos (suc n)) = pos (suc n)
or_default d (negsuc n) = negsuc n

abbrev pub with_defaults : StoredWatch → StoredWatch
with_defaults w = record w {
  every = or_default (30 * second) w.every;
  cooldown = or_default (600 * second) w.cooldown;
}

abbrev pub or_bad_pattern : StoredWatch → Option (Text → Bool) → Result ParseError StoredWatch
or_bad_pattern w none = err bad_pattern
or_bad_pattern w (some re) = ok (with_defaults w)

abbrev check_rest : Parsers → StoredWatch → Result ParseError StoredWatch
check_rest c w =
    if valid_name w.name
    then or_bad_pattern w (c.regexp (codes "(?i)" ++ w.pattern))
    else err (bad_name w.name)

-- The checks after the loop, in order.
unfoldable pub validate : Parsers → StoredWatch → Result ParseError StoredWatch
validate c w =
    if empty w.name || empty w.path || empty w.pattern
    then err required
    else check_watch_path w.path >>= λ u. check_rest c w

unfoldable pub parse_watch : Parsers → Text → Result ParseError StoredWatch
parse_watch c text =
    let body = trim_space (trim_prefix (codes "/watch") (trim_space text)) in
    if empty body
    then err usage
    else assign_all c (segments (trim_all (split 124 body))) blank >>= validate c
