-- ===== src/Examples/Watches.antt =====
-- The theorems on the log watch, on one watch of one log.
use aegis_go.Prelude.{
  String, ◌+◌, ◌*◌, ◌<◌, ◌≡◌, refl, Bool, true, false, List, [], ◌∷◌, ◌++◌, Option, some, inl, inr,
  length, take, drop,
}
use aegis_go.Rules.{Text, codes}
use aegis_go.Texts.{has_prefix}
use aegis_go.Watchdog.{
  poll, tail_file, scan, Disk, Watch, pos, Alert, Around, on_line, polls, begun, lines_of,
}
use aegis_go.Watchdog.Laws.{IsLog}
use aegis_go.Watchdog.Laws.Once.{written, IsGrowing, disks, count, polls-count_once}
use aegis_go.Watchdog.Laws.Spacing.{IsSpaced, alerts_apart, matched_noticed}
use aegis_go.Watchdog.Manager.{
  step, add, tick, tick_in, remove, new_manager, Op, adding, removing, ticking, steps,
}
use aegis_go.Watchdog.Manager.Laws.{IsSound, steps-IsSound}

-- A reader that keeps the channel empty, and a clock that ticks with the matches.
abbrev calm : Around
calm = record { clock = λ n. n * 200; meanwhile = λ n q. [] }

abbrev panics : Watch
panics = record {
  name = codes "panics";
  path = codes "/tmp/a.log";
  pattern = codes "^panic";
  every = pos 30;
  cooldown = pos 300;
}

abbrev is_panic : Text → Bool
is_panic = has_prefix (codes "panic")

abbrev log_file : Text → Disk
log_file c = record {
  stat = some (record { regular = true; size = length c });
  opens = true;
  read_at = λ n off. (take n (drop off c), false);
}

log_file-IsLog : (c : Text) → IsLog c (log_file c)
log_file-IsLog c = record { info = refl; openable = refl; bytes = λ n off h. refl }

abbrev line : String → Text
line s = codes s ++ 10 ∷ []

abbrev before : Text
before = line "panic: one" ++ line "fine"

abbrev later : Text
later = line "panic: two"

abbrev growth : List (Text × Disk)
growth =
    (before, log_file before) ∷ ([], log_file before) ∷ (later, log_file (before ++ later)) ∷ []

growth-IsGrowing : IsGrowing [] growth
growth-IsGrowing = (
  inr (line "panic: one" ++ codes "fine", refl),
  log_file-IsLog before,
  (
    inl refl,
    log_file-IsLog before,
    (inr (codes "panic: two", refl), log_file-IsLog (before ++ later), tt),
  ),
)

two_panics : count is_panic (lines_of (written growth)) ≡ 2
two_panics = refl

polls-count_once_example :
    let s = polls calm 16 panics is_panic (disks growth) (begun []) in
    (s.run.matches ≡ count is_panic (lines_of (written growth)))
    × (s.run.last_line ≡ length (written growth))
polls-count_once_example = polls-count_once calm 16 panics is_panic [] growth growth-IsGrowing

alerts_apart_example :
    let s = polls calm 16 panics is_panic (disks growth) (begun []) in
    IsSpaced 300 s.run.cooldown_until s.sent
alerts_apart_example = alerts_apart calm 16 panics is_panic 299 (disks growth) [] refl

matched_noticed_example :
    let s = polls calm 16 panics is_panic (disks growth) (begun []) in
    (a : Alert) × (rest : List Alert) × ((on_line calm 16 panics is_panic
        (codes "panic: three")
        s).sent
      ≡ a ∷ rest)
    × (s.run.matches * 200 < a.at + 300)
matched_noticed_example =
    matched_noticed calm 16 panics is_panic 299 (disks growth) [] (codes "panic: three") refl
      (λ n q. refl) refl

abbrev compile_panics : Text → Option (Text → Bool)
compile_panics p = some is_panic

abbrev life : List Op
life =
    adding calm (log_file before) panics
    ∷ ticking calm (log_file (before ++ later)) 0
    ∷ adding calm (log_file before) panics
    ∷ removing (codes "other")
    ∷ []

-- The second watch of the name has replaced the first, and its goroutine.
one_loop : (steps compile_panics life (new_manager 0)).loops ≡ 1 ∷ []
unfolding steps step new_manager add tick tick_in remove poll tail_file scan on_line
one_loop = refl

steps-IsSound_example : IsSound (steps compile_panics life (new_manager 0))
steps-IsSound_example = steps-IsSound compile_panics life 0
