-- ===== src/WatchGate/Store.antt =====
-- internal/app/watchgate.go (HandleWatchText, StartWatches) over internal/logwatch/store.go: the watches
-- that chats add and remove, and the rows that bring them back. `accepts n` is the driver's verdict on
-- the n-th statement. The goroutine that hands the alerts to the chat is left out, as is the analysis.
pub mod Laws
pub mod Restart
use aegis_go.Prelude.{
  ℕ, zero, suc, ◌+◌, ◌*◌, ◌/◌, Bool, true, false, not, ◌&&◌, ◌||◌, List, [], ◌∷◌, ◌++◌, Option,
  none, some, any, map, if◌then◌else◌, keep, ltb, ◌==◌, length,
}
use aegis_go.Prelude.Result.{Result, ok, err}
use aegis_go.Rules.{Text, codes, trim_space}
use aegis_go.Texts.{text_eq, empty, trim_prefix, cut}
use aegis_go.Watchdog.{Watch, Duration, pos, negsuc, Around, Disk}
use aegis_go.Watchdog.Manager.{Manager, WatchError, new_manager, add, remove, counts}
use aegis_go.WatchGate.{StoredWatch, Parsers, ParseError, parse_watch}

-- A row of log_watches.
pub record WatchRow : Type 0 where
  pub name : Text
  pub path : Text
  pub pattern : Text
  pub every_ms : Duration
  pub cooldown_ms : Duration

-- `rows` is in the order of the names, which are the primary key.
pub record WatchTable : Type 0 where
  pub rows : List WatchRow
  pub calls : ℕ

abbrev pub asked : WatchTable → WatchTable
asked d = record d { calls = suc d.calls }

abbrev millisecond : ℕ
millisecond = 1000000

abbrev negated : ℕ → Duration
negated zero = pos zero
negated (suc n) = negsuc n

-- An integer division, towards zero.
abbrev in_ms : Duration → Duration
in_ms (pos n) = pos (n / millisecond)
in_ms (negsuc n) = negated (suc n / millisecond)

abbrev pub row_of : StoredWatch → WatchRow
row_of w = record {
  name = w.name;
  path = w.path;
  pattern = w.pattern;
  every_ms = in_ms w.every;
  cooldown_ms = in_ms w.cooldown;
}

abbrev pub row_named : Text → WatchRow → Bool
row_named name r = text_eq r.name name

abbrev pub text_less : Text → Text → Bool
text_less s [] = false
text_less [] (d ∷ t) = true
text_less (c ∷ s) (d ∷ t) = let rest = text_less s t in if c == d then rest else ltb c d

abbrev pub insert_row : WatchRow → List WatchRow → List WatchRow
insert_row r [] = r ∷ []
insert_row r (x ∷ xs) =
    let rest = insert_row r xs in if text_less r.name x.name then r ∷ x ∷ xs else x ∷ rest

-- ON CONFLICT(name).
abbrev pub overwrite : WatchRow → List WatchRow → List WatchRow
overwrite r [] = []
overwrite r (x ∷ xs) = let rest = overwrite r xs in if row_named r.name x then r ∷ xs else x ∷ rest

abbrev pub upsert_row : WatchRow → List WatchRow → List WatchRow
upsert_row r rows = if any (row_named r.name) rows then overwrite r rows else insert_row r rows

unfoldable pub save_watch : (ℕ → Bool) → StoredWatch → WatchTable → Bool × WatchTable
save_watch accepts w d =
    if accepts d.calls
    then (true, record (asked d) { rows = upsert_row (row_of w) d.rows })
    else (false, asked d)

unfoldable pub delete_watch : (ℕ → Bool) → Text → WatchTable → Bool × WatchTable
delete_watch accepts name d =
    if accepts d.calls
    then (true, record (asked d) { rows = keep (λ r. not (row_named name r)) d.rows })
    else (false, asked d)

abbrev pub every_of : Duration → Duration
every_of (pos n) = pos (n * millisecond)
every_of (negsuc n) = pos zero

abbrev pub cooldown_of : Duration → Duration
cooldown_of (pos n) = pos (n * millisecond)
cooldown_of (negsuc n) = negated (suc n * millisecond)

abbrev pub stored : WatchRow → StoredWatch
stored r = record {
  name = r.name;
  path = r.path;
  pattern = r.pattern;
  every = every_of r.every_ms;
  cooldown = cooldown_of r.cooldown_ms;
}

unfoldable pub list_watches : (ℕ → Bool) → WatchTable → Option (List StoredWatch) × WatchTable
list_watches accepts d =
    if accepts d.calls then (some (map stored d.rows), asked d) else (none, asked d)

-- The manager and the table behind the gate.
pub record Gate : Type 0 where
  pub mgr : Manager
  pub db : WatchTable

-- What HandleWatchText answers. The analysis reads a file and changes nothing.
pub data Reply : Type 0 where
  malformed : ParseError → Reply
  rejected : WatchError → Reply
  not_saved : Reply
  live : StoredWatch → Reply
  unwatch_usage : Reply
  not_deleted : Reply
  removed : Text → Reply
  not_listed : Reply
  watches : List StoredWatch → List (Text × ℕ) → Reply
  analysis : Reply
  unknown : Text → Reply

abbrev pub as_watch : StoredWatch → Watch
as_watch w = record {
  name = w.name;
  path = w.path;
  pattern = w.pattern;
  every = w.every;
  cooldown = w.cooldown;
}

abbrev save_reply : StoredWatch → Manager → Bool × WatchTable → Reply × Gate
save_reply w m (true, d) = (live w, record { mgr = m; db = d })
save_reply w m (false, d) = (not_saved, record { mgr = m; db = d })

abbrev after_add :
    (ℕ → Bool) → StoredWatch → WatchTable → Result WatchError Unit × Manager → Reply × Gate
after_add accepts w d (err e, m) = (rejected e, record { mgr = m; db = d })
after_add accepts w d (ok u, m) = save_reply w m (save_watch accepts w d)

abbrev pub watch_parsed :
    (ℕ → Bool) → Parsers → Around → Disk → Result ParseError StoredWatch → Gate → Reply × Gate
watch_parsed accepts c around disk (err e) g = (malformed e, g)
watch_parsed accepts c around disk (ok w) g =
    after_add accepts w g.db (add c.regexp around disk (as_watch w) g.mgr)

abbrev delete_reply : Text → Manager → Bool × WatchTable → Reply × Gate
delete_reply name m (true, d) = (removed name, record { mgr = m; db = d })
delete_reply name m (false, d) = (not_deleted, record { mgr = m; db = d })

abbrev pub unwatch : (ℕ → Bool) → Text → Gate → Reply × Gate
unwatch accepts name g =
    if empty name
    then (unwatch_usage, g)
    else delete_reply name (remove name g.mgr).1 (delete_watch accepts name g.db)

abbrev list_reply : Manager → Option (List StoredWatch) × WatchTable → Reply × Gate
list_reply m (none, d) = (not_listed, record { mgr = m; db = d })
list_reply m (some ws, d) = (watches ws (counts m), record { mgr = m; db = d })

abbrev head_of : Text → Option (Text × Text) → Text
head_of text none = text
head_of text (some (before, after)) = before

abbrev pub command_of : Text → Text
command_of text = trim_space (head_of text (cut 32 text))

unfoldable pub handle_watch_text : (ℕ → Bool) → Parsers → Around → Disk → Text → Gate → Reply × Gate
handle_watch_text accepts c around disk text g =
    let cmd = command_of text in
    if text_eq cmd (codes "/watch")
    then watch_parsed accepts c around disk (parse_watch c text) g
    else if text_eq cmd (codes "/unwatch")
    then unwatch accepts (trim_space (trim_prefix (codes "/unwatch") text)) g
    else if text_eq cmd (codes "/watchlist")
    then list_reply g.mgr (list_watches accepts g.db)
    else if text_eq cmd (codes "/analyze")
    then (analysis, g)
    else (unknown cmd, g)

abbrev pub rehydrated :
    Result WatchError Unit × Manager
    → (Manager → Result WatchError Unit × Manager)
    → Result WatchError Unit × Manager
rehydrated (err e, m) k = (err e, m)
rehydrated (ok u, m) k = k m

-- `disks` is what the first polls meet on the disk, by path.
unfoldable pub rehydrate :
    (Text → Option (Text → Bool))
    → Around
    → (Text → Disk)
    → List StoredWatch
    → Manager
    → Result WatchError Unit × Manager
rehydrate compile around disks [] m = (ok tt, m)
rehydrate compile around disks (w ∷ ws) m =
    rehydrated (add compile around (disks w.path) (as_watch w) m)
      (rehydrate compile around disks ws)

abbrev start_listed :
    (Text → Option (Text → Bool))
    → Around
    → (Text → Disk)
    → Manager
    → Option (List StoredWatch) × WatchTable
    → Option (Result WatchError Unit) × Gate
start_listed compile around disks m (none, d) = (none, record { mgr = m; db = d })
start_listed compile around disks m (some ws, d) =
    let (res, m') = rehydrate compile around disks ws m in (some res, record { mgr = m'; db = d })

-- `none` is a failed query.
unfoldable pub start_watches :
    (ℕ → Bool)
    → (Text → Option (Text → Bool))
    → Around
    → (Text → Disk)
    → Gate
    → Option (Result WatchError Unit) × Gate
start_watches accepts compile around disks g =
    start_listed compile around disks g.mgr (list_watches accepts g.db)

-- What happens to the gate in the life of its database.
pub data Op : Type 0 where
  chat : Around → Disk → Text → Op
  reboot : Around → (Text → Disk) → ℕ → Op

unfoldable pub step : (ℕ → Bool) → Parsers → Op → Gate → Gate
step accepts c (chat around disk text) g = (handle_watch_text accepts c around disk text g).1
step accepts c (reboot around disks buffer) g =
    (start_watches accepts c.regexp around disks (record { mgr = new_manager buffer; db = g.db })).1

unfoldable pub steps : (ℕ → Bool) → Parsers → List Op → Gate → Gate
steps accepts c [] g = g
steps accepts c (op ∷ ops) g = steps accepts c ops (step accepts c op g)

abbrev pub opened : ℕ → Gate
opened buffer = record { mgr = new_manager buffer; db = record { rows = []; calls = 0 } }
