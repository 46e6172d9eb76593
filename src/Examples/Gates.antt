-- ===== src/Examples/Gates.antt =====
-- The theorems on the watch commands, on one chat that adds a watch.
use aegis_go.Prelude.{◌≢◌, Bool, ◌++◌, ◌≡◌, refl, true, List, [], ◌∷◌, none, some, All}
use aegis_go.Prelude.Result.{ok}
use aegis_go.Rules.{Text, codes}
use aegis_go.Texts.{has_prefix}
use aegis_go.Watchdog.{pos, Around, Disk}
use aegis_go.Watchdog.Manager.{new_manager}
use aegis_go.WatchGate.{
  StoredWatch, Parsers, parse_watch, parse_dur_loose, assign_all, validate, check_watch_path,
}
use aegis_go.WatchGate.Safe.{IsName, IsLogPath, parse_watch-IsSafe}
use aegis_go.WatchGate.Store.{Op, chat, reboot, opened, steps, start_watches}
use aegis_go.WatchGate.Store.Restart.{IsLive, restart_rehydrates}
use aegis_go.Examples.{always}

abbrev quiet : Around
quiet = record { clock = λ n. n; meanwhile = λ n q. q }

abbrev no_file : Disk
no_file = record { stat = none; opens = true; read_at = λ n off. ([], true) }

abbrev parsers : Parsers
parsers = record {
  regexp = λ p. some (has_prefix p);
  duration = λ v. some (pos 5000000);
  number = λ v. none;
}

abbrev watch_text : Text
watch_text = codes "/watch name=gw | path=/tmp/gw.log | pattern=panic|FATAL | cooldown=5ms"

abbrev gw : StoredWatch
gw = record {
  name = codes "gw";
  path = codes "/tmp/gw.log";
  pattern = codes "panic|FATAL";
  every = pos 30000000000;
  cooldown = pos 5000000;
}

parses : parse_watch parsers watch_text ≡ ok gw
unfolding parse_watch parse_dur_loose assign_all validate check_watch_path
parses = refl

parse_watch-IsSafe_example :
    IsName gw.name
    × IsLogPath gw.path
    × (gw.pattern ≢ [])
    × ((re : Text → Bool) × (parsers.regexp (codes "(?i)" ++ gw.pattern) ≡ some re))
parse_watch-IsSafe_example = parse_watch-IsSafe parsers watch_text parses

abbrev ops : List Op
ops =
    chat quiet no_file watch_text
    ∷ reboot quiet (λ p. no_file) 4
    ∷ chat quiet no_file (codes "/unwatch other")
    ∷ []

restart_rehydrates_example :
    let g = steps always parsers ops (opened 8) in
    let (res, g') =
      start_watches always parsers.regexp quiet
        (λ p. no_file)
        (record { mgr = new_manager 8; db = g.db }) in
    (res ≡ some (ok tt)) × All (IsLive g'.mgr) g.db.rows
restart_rehydrates_example = restart_rehydrates always parsers ops quiet (λ p. no_file) 8 refl
