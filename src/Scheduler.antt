-- ===== src/Scheduler.antt =====
-- internal/telegram/scheduler.go over internal/store/schedules.go: schedules that a chat registers,
-- with a store wired, as app.go does. `accepts n` is the driver's verdict on the n-th statement, and
-- `duration` is time.ParseDuration, in nanoseconds, `none` for an error or a negative length.
pub mod Laws
use aegis_go.Prelude.{
  ℕ, zero, suc, ◌+◌, ◌*◌, ◌/◌, ◌^◌, Bool, true, false, not, ◌&&◌, ◌||◌, List, [], ◌∷◌, ◌++◌, Option,
  none, some, any, keep, if◌then◌else◌, ltb, leb, ◌==◌, max,
}
use aegis_go.Prelude.Result.{Result, ok, err}
use aegis_go.Rules.{Text, codes, trim_space}
use aegis_go.Texts.{text_eq, trim_prefix, fields}
use aegis_go.Inbox.{ChatId}
use aegis_go.Approvals.Commands.{parse_id}

abbrev pub minute : ℕ
minute = 60000000000

abbrev pub millisecond : ℕ
millisecond = 1000000

-- A row of scheduled_jobs.
pub record SchedJob : Type 0 where
  pub id : ℕ
  pub chat_id : ChatId
  pub command : Text
  pub interval_ms : ℕ

-- `rows` is in the order of its AUTOINCREMENT key.
pub record Schedules : Type 0 where
  pub rows : List SchedJob
  pub next_id : ℕ
  pub calls : ℕ

pub data StoreError : Type 0 where
  failed : StoreError

abbrev pub sent : Schedules → Schedules
sent d = record d { calls = d.calls + 1 }

unfoldable pub save_schedule :
    (ℕ → Bool) → ChatId → Text → ℕ → Schedules → Result StoreError ℕ × Schedules
save_schedule accepts chat command ms d =
    if accepts d.calls
    then (
      ok d.next_id,
      record (sent d) {
        rows =
            d.rows
            ++ record { id = d.next_id; chat_id = chat; command = command; interval_ms = ms } ∷ [];
        next_id = suc d.next_id;
      },
    )
    else (err StoreError.failed, sent d)

abbrev pub has_row_id : ℕ → SchedJob → Bool
has_row_id id r = r.id == id

unfoldable pub delete_schedule : (ℕ → Bool) → ℕ → Schedules → Result StoreError Bool × Schedules
delete_schedule accepts id d =
    if accepts d.calls
    then (
      ok (any (has_row_id id) d.rows),
      record (sent d) { rows = keep (λ r. not (has_row_id id r)) d.rows },
    )
    else (err StoreError.failed, sent d)

unfoldable pub list_schedules :
    (ℕ → Bool) → Schedules → Result StoreError (List SchedJob) × Schedules
list_schedules accepts d =
    if accepts d.calls then (ok d.rows, sent d) else (err StoreError.failed, sent d)

-- A job that runs; `next_run` is when.
pub record CronJob : Type 0 where
  pub id : ℕ
  pub chat_id : ChatId
  pub command : Text
  pub interval : ℕ
  pub next_run : ℕ

-- `jobs` is the map by id, `launched` the goroutines that were started and not stopped.
pub record Scheduler : Type 0 where
  pub jobs : List CronJob
  pub launched : List ℕ
  pub db : Schedules

abbrev pub job_id : ℕ → CronJob → Bool
job_id id j = j.id == id

-- `s.jobs[id] = j`.
abbrev pub put_job : CronJob → List CronJob → List CronJob
put_job j js = j ∷ keep (λ x. not (job_id j.id x)) js

abbrev pub job_of_row : ℕ → SchedJob → CronJob
job_of_row now r = record {
  id = r.id;
  chat_id = r.chat_id;
  command = r.command;
  interval = r.interval_ms * millisecond;
  next_run = now + r.interval_ms * millisecond;
}

-- The rows that Start takes up.
abbrev pub startable : (ChatId → Bool) → SchedJob → Bool
startable allow r = allow r.chat_id && leb minute (r.interval_ms * millisecond)

unfoldable pub rehydrate : (ChatId → Bool) → ℕ → List SchedJob → List CronJob → List CronJob
rehydrate allow now [] js = js
rehydrate allow now (r ∷ rs) js =
    let taken = rehydrate allow now rs (put_job (job_of_row now r) js) in
    let passed = rehydrate allow now rs js in if startable allow r then taken else passed

abbrev pub ids : List CronJob → List ℕ
ids [] = []
ids (j ∷ js) = j.id ∷ ids js

abbrev launch_all : Scheduler → Scheduler
launch_all s = record s { launched = ids s.jobs ++ s.launched }

abbrev started :
    (ChatId → Bool)
    → ℕ
    → List CronJob
    → List ℕ
    → Result StoreError (List SchedJob) × Schedules
    → Scheduler
started allow now js ls (err e, d) = launch_all (record { jobs = js; launched = ls; db = d })
started allow now js ls (ok rows, d) =
    launch_all (record { jobs = rehydrate allow now rows js; launched = ls; db = d })

unfoldable pub start : (ℕ → Bool) → (ChatId → Bool) → ℕ → Scheduler → Scheduler
start accepts allow now s = started allow now s.jobs s.launched (list_schedules accepts s.db)

pub data SchedReply : Type 0 where
  usage : SchedReply
  bad_interval : SchedReply
  not_allowed : SchedReply
  not_saved : SchedReply
  scheduled : ℕ → Text → ℕ → SchedReply
  unschedule_usage : SchedReply
  no_job : ℕ → SchedReply
  not_removed : ℕ → SchedReply
  unscheduled : ℕ → Text → SchedReply

abbrev join_words : List Text → Text
join_words [] = []
join_words (w ∷ []) = w
join_words (w ∷ v ∷ ws) = w ++ (32 ∷ join_words (v ∷ ws))

abbrev pub at_least_minute : Option ℕ → Text → Result SchedReply (ℕ × Text)
at_least_minute none command = err bad_interval
at_least_minute (some d) command = if ltb d minute then err bad_interval else ok (d, command)

abbrev pub every_fields : (Text → Option ℕ) → List Text → Result SchedReply (ℕ × Text)
every_fields duration (name ∷ length ∷ word ∷ words) =
    if text_eq name (codes "every")
    then at_least_minute (duration length) (join_words (word ∷ words))
    else err usage
every_fields duration ws = err usage

unfoldable pub parse_every : (Text → Option ℕ) → Text → Result SchedReply (ℕ × Text)
parse_every duration text =
    every_fields duration (fields (trim_prefix (codes "/") (trim_space text)))

abbrev id_of : Option ℕ → Result SchedReply ℕ
id_of none = err unschedule_usage
id_of (some id) = ok id

abbrev pub unschedule_fields : List Text → Result SchedReply ℕ
unschedule_fields (name ∷ id ∷ []) =
    if text_eq name (codes "unschedule")
    then id_of (parse_id (trim_prefix (codes "#") id))
    else err unschedule_usage
unschedule_fields ws = err unschedule_usage

unfoldable pub parse_unschedule : Text → Result SchedReply ℕ
parse_unschedule text =
    unschedule_fields (fields (trim_space (trim_prefix (codes "/") (trim_space text))))

abbrev pub new_job : ℕ → ChatId → Text → ℕ → ℕ → CronJob
new_job now chat command interval id = record {
  id = id;
  chat_id = chat;
  command = command;
  interval = interval;
  next_run = now + interval;
}

abbrev saved :
    ℕ
    → ChatId
    → Text
    → ℕ
    → List CronJob
    → List ℕ
    → Result StoreError ℕ × Schedules
    → SchedReply × Scheduler
saved now chat command interval js ls (err e, d) =
    (not_saved, record { jobs = js; launched = ls; db = d })
saved now chat command interval js ls (ok id, d) = (
  scheduled id command interval,
  record { jobs = put_job (new_job now chat command interval id) js; launched = id ∷ ls; db = d },
)

abbrev pub register_parsed :
    (ℕ → Bool)
    → (ChatId → Bool)
    → ℕ
    → ChatId
    → Result SchedReply (ℕ × Text)
    → Scheduler
    → SchedReply × Scheduler
register_parsed accepts allow now chat (err e) s = (e, s)
register_parsed accepts allow now chat (ok (interval, command)) s =
    if allow chat
    then saved now chat command interval s.jobs s.launched
        (save_schedule accepts chat command (interval / millisecond) s.db)
    else (not_allowed, s)

unfoldable pub register :
    (ℕ → Bool)
    → (ChatId → Bool)
    → (Text → Option ℕ)
    → ℕ
    → ChatId
    → Text
    → Scheduler
    → SchedReply × Scheduler
register accepts allow duration now chat text s =
    register_parsed accepts allow now chat (parse_every duration text) s

abbrev pub find_job : ℕ → List CronJob → Option CronJob
find_job id [] = none
find_job id (j ∷ js) = if job_id id j then some j else find_job id js

abbrev removed :
    ℕ → Text → List CronJob → List ℕ → Result StoreError Bool × Schedules → SchedReply × Scheduler
removed id command js ls (err e, d) = (not_removed id, record { jobs = js; launched = ls; db = d })
removed id command js ls (ok hit, d) =
    (unscheduled id command, record { jobs = js; launched = ls; db = d })

abbrev pub stop_job : (ℕ → Bool) → ℕ → Option CronJob → Scheduler → SchedReply × Scheduler
stop_job accepts id none s = (no_job id, s)
stop_job accepts id (some j) s =
    removed id j.command (keep (λ x. not (job_id id x)) s.jobs)
      (keep (λ i. not (i == id)) s.launched) (delete_schedule accepts id s.db)

abbrev pub unregister_parsed : (ℕ → Bool) → Result SchedReply ℕ → Scheduler → SchedReply × Scheduler
unregister_parsed accepts (err e) s = (e, s)
unregister_parsed accepts (ok id) s = stop_job accepts id (find_job id s.jobs) s

unfoldable pub unregister : (ℕ → Bool) → Text → Scheduler → SchedReply × Scheduler
unregister accepts text s = unregister_parsed accepts (parse_unschedule text) s

-- A new process: the database stays, the memory does not.
unfoldable pub restart : (ℕ → Bool) → (ChatId → Bool) → ℕ → Scheduler → Scheduler
restart accepts allow now s =
    start accepts allow now (record { jobs = []; launched = []; db = s.db })

-- What happens to a scheduler in the life of its database.
pub data Op : Type 0 where
  every : ℕ → ChatId → Text → Op
  unschedule : Text → Op
  reboot : ℕ → Op

unfoldable pub step : (ℕ → Bool) → (ChatId → Bool) → (Text → Option ℕ) → Op → Scheduler → Scheduler
step accepts allow duration (Op.every now chat text) s =
    (register accepts allow duration now chat text s).1
step accepts allow duration (Op.unschedule text) s = (unregister accepts text s).1
step accepts allow duration (Op.reboot now) s = restart accepts allow now s

unfoldable pub steps :
    (ℕ → Bool) → (ChatId → Bool) → (Text → Option ℕ) → List Op → Scheduler → Scheduler
steps accepts allow duration [] s = s
steps accepts allow duration (op ∷ ops) s =
    steps accepts allow duration ops (step accepts allow duration op s)
