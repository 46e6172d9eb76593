-- ===== src/Watchdog/Manager.antt =====
-- internal/logwatch/watchdog.go (Manager): the watches by name and the goroutines that poll them.
-- `compile` is regexp.Compile. A tick that outlives the grace of a stop is left out.
pub mod Laws
use aegis_go.Prelude.{
  ℕ, zero, suc, ◌+◌, ◌*◌, Bool, true, false, not, ◌&&◌, ◌||◌, List, [], ◌∷◌, ◌++◌, Option, none,
  some, if◌then◌else◌, ◌==◌, keep, any, map,
}
use aegis_go.Prelude.Result.{Result, ok, err}
use aegis_go.Rules.{Text, codes}
use aegis_go.Texts.{empty, text_eq}
use aegis_go.Watchdog.{
  Watch, Duration, pos, negsuc, Running, Watching, Alert, Around, Disk, poll, begun,
}

abbrev pub second : ℕ
second = 1000000000

-- A registered watch, with the goroutine that polls it, and the alerts that it has sent.
pub record Entry : Type 0 where
  pub spec : Watch
  pub regexp : Text → Bool
  pub loop : ℕ
  pub run : Running
  pub sent : List Alert

-- `watches` is the map by name, `loops` the goroutines that run, and `room` the size of the channel.
pub record Manager : Type 0 where
  pub watches : List Entry
  pub loops : List ℕ
  pub next_loop : ℕ
  pub waiting : List Alert
  pub room : ℕ

pub data WatchError : Type 0 where
  incomplete : WatchError
  bad_pattern : WatchError

-- A buffer below zero is one of zero.
unfoldable pub new_manager : ℕ → Manager
new_manager buffer = record {
  watches = [];
  loops = [];
  next_loop = 0;
  waiting = [];
  room = if buffer == 0 then 16 else buffer;
}

abbrev pub named : Text → Entry → Bool
named name e = text_eq e.spec.name name

abbrev pub runs_in : ℕ → Entry → Bool
runs_in id e = e.loop == id

abbrev pub find_watch : Text → List Entry → Option Entry
find_watch name [] = none
find_watch name (e ∷ es) = let rest = find_watch name es in if named name e then some e else rest

abbrev pub others : Text → List Entry → List Entry
others name = keep (λ e. not (named name e))

-- `r.stop()`.
abbrev pub stop_loop : ℕ → List ℕ → List ℕ
stop_loop id = keep (λ l. not (l == id))

abbrev pub drop_watch : Text → Option Entry → Manager → Manager
drop_watch name none m = m
drop_watch name (some e) m = record m {
  watches = others name m.watches;
  loops = stop_loop e.loop m.loops;
}

abbrev pub or_seconds : Duration → Duration
or_seconds (pos zero) = pos (30 * second)
or_seconds (pos (suc d)) = pos (suc d)
or_seconds (negsuc d) = pos (30 * second)

abbrev pub or_minutes : Duration → Duration
or_minutes (pos zero) = pos (600 * second)
or_minutes (pos (suc d)) = pos (suc d)
or_minutes (negsuc d) = negsuc d

abbrev pub with_defaults : Watch → Watch
with_defaults w = record w { every = or_seconds w.every; cooldown = or_minutes w.cooldown }

-- The watch after its first poll, and its goroutine.
abbrev pub launch : Watch → (Text → Bool) → Watching → Manager → Manager
launch w re s m = record m {
  watches =
      record { spec = w; regexp = re; loop = m.next_loop; run = s.run; sent = s.sent } ∷ m.watches;
  loops = m.next_loop ∷ m.loops;
  next_loop = suc m.next_loop;
  waiting = s.waiting;
}

abbrev pub replace : Around → Disk → Watch → (Text → Bool) → Manager → Manager
replace around disk w re m =
    let m' = drop_watch w.name (find_watch w.name m.watches) m in
    launch w re (poll around m'.room w re disk (begun m'.waiting)) m'

abbrev add_compiled :
    Around → Disk → Watch → Option (Text → Bool) → Manager → Result WatchError Unit × Manager
add_compiled around disk w none m = (err bad_pattern, m)
add_compiled around disk w (some re) m = (ok tt, replace around disk (with_defaults w) re m)

unfoldable pub add :
    (Text → Option (Text → Bool))
    → Around
    → Disk
    → Watch
    → Manager
    → Result WatchError Unit × Manager
add compile around disk w m =
    if empty w.name || empty w.path || empty w.pattern
    then (err incomplete, m)
    else add_compiled around disk w (compile (codes "(?i)" ++ w.pattern)) m

abbrev pub found : Option Entry → Bool
found none = false
found (some e) = true

unfoldable pub remove : Text → Manager → Bool × Manager
remove name m = let old = find_watch name m.watches in (found old, drop_watch name old m)

abbrev pub stop_all : List Entry → List ℕ → List ℕ
stop_all [] ls = ls
stop_all (e ∷ es) ls = stop_all es (stop_loop e.loop ls)

unfoldable pub stop : Manager → Manager
stop m = record m { watches = []; loops = stop_all m.watches m.loops }

abbrev count_of : Entry → Text × ℕ
count_of e = (e.spec.name, e.run.matches)

unfoldable pub counts : Manager → List (Text × ℕ)
counts m = map count_of m.watches

unfoldable pub specs : Manager → List Watch
specs m = map (λ e. e.spec) m.watches

abbrev after_poll : Entry → Watching → Entry
after_poll e s = record e { run = s.run; sent = s.sent }

-- A tick of the goroutine of a watch.
unfoldable pub tick_in : Around → Disk → ℕ → ℕ → List Alert → List Entry → List Entry × List Alert
tick_in around disk room id waiting [] = ([], waiting)
tick_in around disk room id waiting (e ∷ es) =
    let s =
      poll around room e.spec e.regexp disk
        (record { run = e.run; waiting = waiting; sent = e.sent }) in
    let (es', waiting') = tick_in around disk room id waiting es in
    if runs_in id e then (after_poll e s ∷ es, s.waiting) else (e ∷ es', waiting')

unfoldable pub tick : Around → Disk → ℕ → Manager → Manager
tick around disk id m =
    let (es, waiting) = tick_in around disk m.room id m.waiting m.watches in
    if any (λ l. l == id) m.loops then record m { watches = es; waiting = waiting } else m

-- What happens to a manager.
pub data Op : Type 0 where
  adding : Around → Disk → Watch → Op
  removing : Text → Op
  stopping : Op
  ticking : Around → Disk → ℕ → Op

unfoldable pub step : (Text → Option (Text → Bool)) → Op → Manager → Manager
step compile (adding around disk w) m = (add compile around disk w m).1
step compile (removing name) m = (remove name m).1
step compile stopping m = stop m
step compile (ticking around disk id) m = tick around disk id m

unfoldable pub steps : (Text → Option (Text → Bool)) → List Op → Manager → Manager
steps compile [] m = m
steps compile (op ∷ ops) m = steps compile ops (step compile op m)
