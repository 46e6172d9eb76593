-- ===== src/Watchdog.antt =====
-- internal/logwatch/watchdog.go: a watch reads what is new in a log file and alerts on the lines that
-- match. Times and durations are in nanoseconds.
pub mod Laws
pub mod Manager
use aegis_go.Prelude.{
  ℕ, zero, suc, ◌+◌, ◌-◌, ◌*◌, Bool, true, false, not, ◌&&◌, ◌||◌, List, [], ◌∷◌, ◌++◌, Option,
  none, some, if◌then◌else◌, ltb, leb, ◌==◌, length, take, drop,
}
use aegis_go.Rules.{Text}
use aegis_go.Texts.{empty, split, trim_end}

-- What a poll meets at the path: what stat says, whether the file opens, and the bytes that a read of
-- so many bytes at an offset puts into the buffer, with whether it reports an error.
pub record FileInfo : Type 0 where
  pub regular : Bool
  pub size : ℕ

pub record Disk : Type 0 where
  pub stat : Option FileInfo
  pub opens : Bool
  pub read_at : ℕ → ℕ → Text × Bool

abbrev pub kept_lines : List Text → List Text
kept_lines [] = []
kept_lines (p ∷ ps) =
    let rest = kept_lines ps in let line = trim_end 13 p in if empty line then rest else line ∷ rest

-- The lines of the bytes read: without their carriage returns, and without the empty ones.
abbrev pub lines_of : Text → List Text
lines_of buf = kept_lines (split 10 buf)

abbrev pub read_new : ℕ → ℕ → Text × Bool → List Text × ℕ × ℕ
read_new size off (buf, failed) =
    if failed && empty buf then ([], size, off) else (lines_of buf, size, off + length buf)

abbrev pub tail_from : Disk → ℕ → ℕ → List Text × ℕ × ℕ
tail_from disk size off =
    if size == off
    then ([], size, off)
    else if disk.opens
    then read_new size off (disk.read_at (size - off) off)
    else ([], size, off)

abbrev pub tail_info : Disk → ℕ → ℕ → Option FileInfo → List Text × ℕ × ℕ
tail_info disk last_size last_off none = ([], last_size, last_off)
tail_info disk last_size last_off (some fi) =
    if not fi.regular
    then ([], last_size, last_off)
    else if ltb fi.size last_off || ltb fi.size last_size
    then tail_from disk fi.size 0
    else tail_from disk fi.size last_off

-- The new lines, the size and the offset.
unfoldable pub tail_file : Disk → ℕ → ℕ → List Text × ℕ × ℕ
tail_file disk last_size last_off = tail_info disk last_size last_off disk.stat

-- `time.Duration`.
pub data Duration : Type 0 where
  pos : ℕ → Duration
  negsuc : ℕ → Duration

pub record Watch : Type 0 where
  pub name : Text
  pub path : Text
  pub pattern : Text
  pub every : Duration
  pub cooldown : Duration

pub record Alert : Type 0 where
  pub watch : Text
  pub line : Text
  pub at : ℕ

pub record Running : Type 0 where
  pub last_line : ℕ
  pub last_size : ℕ
  pub cooldown_until : ℕ
  pub matches : ℕ

-- A running watch, the alerts that wait in the channel, oldest first, and those that the watch has
-- put there, newest first.
pub record Watching : Type 0 where
  pub run : Running
  pub waiting : List Alert
  pub sent : List Alert

-- By the number of the match: what the clock says, and what the reader and the other watches make of
-- the channel before the send.
pub record Around : Type 0 where
  pub clock : ℕ → ℕ
  pub meanwhile : ℕ → List Alert → List Alert

abbrev max_line : ℕ
max_line = 300

abbrev pub cap_line : Text → Text
cap_line s = if ltb max_line (length s) then take max_line s ++ (226 ∷ 128 ∷ 166 ∷ []) else s

-- The send with a default.
abbrev pub offer : ℕ → Alert → List Alert → Watching → Watching
offer room a queue s =
    if ltb (length queue) room
    then record s { waiting = queue ++ a ∷ []; sent = a ∷ s.sent }
    else record s { waiting = queue }

abbrev pub arm : Duration → ℕ → Running → Running
arm (pos zero) now r = r
arm (pos (suc d)) now r = record r { cooldown_until = now + suc d }
arm (negsuc d) now r = r

abbrev pub counted : Running → Running
counted r = record r { matches = suc r.matches }

abbrev pub matched : Around → ℕ → Watch → Text → ℕ → Watching → Watching
matched around room w line now s =
    if ltb now s.run.cooldown_until
    then record s { run = counted s.run }
    else offer room (record { watch = w.name; line = cap_line line; at = now })
        (around.meanwhile s.run.matches s.waiting)
        (record s { run = arm w.cooldown now (counted s.run) })

unfoldable pub on_line : Around → ℕ → Watch → (Text → Bool) → Text → Watching → Watching
on_line around room w re line s =
    if re line then matched around room w line (around.clock s.run.matches) s else s

unfoldable pub scan : Around → ℕ → Watch → (Text → Bool) → List Text → Watching → Watching
scan around room w re [] s = s
scan around room w re (l ∷ ls) s = scan around room w re ls (on_line around room w re l s)

abbrev pub read : ℕ → ℕ → Watching → Watching
read size off s = record s { run = record s.run { last_size = size; last_line = off } }

abbrev pub scan_tail : Around → ℕ → Watch → (Text → Bool) → List Text × ℕ × ℕ → Watching → Watching
scan_tail around room w re (lines, size, off) s = scan around room w re lines (read size off s)

unfoldable pub poll : Around → ℕ → Watch → (Text → Bool) → Disk → Watching → Watching
poll around room w re disk s =
    scan_tail around room w re (tail_file disk s.run.last_size s.run.last_line) s

-- The polls of a watch, each with what it meets on the disk.
unfoldable pub polls : Around → ℕ → Watch → (Text → Bool) → List Disk → Watching → Watching
polls around room w re [] s = s
polls around room w re (d ∷ ds) s = polls around room w re ds (poll around room w re d s)

abbrev pub fresh : Running
fresh = record { last_line = 0; last_size = 0; cooldown_until = 0; matches = 0 }

-- A new watch, and the channel that it finds.
abbrev pub begun : List Alert → Watching
begun queue = record { run = fresh; waiting = queue; sent = [] }
