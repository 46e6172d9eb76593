-- ===== src/Scheduler/Laws/Restart.antt =====
-- internal/telegram/scheduler.go and internal/store/schedules.go: what a restart brings back.
use aegis_go.Prelude.{
  ℕ, ◌+◌, ◌*◌, ◌/◌, ◌≤◌, ◌≡◌, refl, sym, ap, ◌∙◌, subst, Bool, true, false, List, [], ◌∷◌, Option,
  none, some, leb, arith, inl, inr, Bool-cases, leb→le, Option-cases,
}
use mathlib.Core.Option.{some-injective}
use aegis_go.Prelude.Result.{Result, ok, err}
use aegis_go.Rules.{Text, codes, trim_space}
use aegis_go.Texts.{text_eq, fields, trim_prefix}
use aegis_go.Inbox.{ChatId}
use aegis_go.Approvals.Commands.{parse_id}
use aegis_go.Scheduler.{
  SchedJob, CronJob, Scheduler, SchedReply, minute, millisecond, job_of_row, startable, find_job,
  delete_schedule, list_schedules, unregister, unregister_parsed, stop_job, start, parse_unschedule,
  restart, Op, step, steps, unscheduled, unschedule_usage, unschedule_fields,
}
use aegis_go.Scheduler.Laws.{find_row, IsKeyed, find_row-gone, revived, find_job-rehydrate}
use aegis_go.Scheduler.Laws.Durable.{IsSaved, IsDurable, register-IsDurable, unregister-IsDurable}

le_leb : (a b : ℕ) → a ≤ b → leb a b ≡ true
le_leb a b h = ground arith

module _ (accepts : ℕ → Bool) (allow : ChatId → Bool) where
  restart_jobs :
      (now id : ℕ) (s : Scheduler)
      → IsDurable s
      → accepts s.db.calls ≡ true
      → find_job id (restart accepts allow now s).jobs
        ≡ revived allow now (find_row id s.db.rows) none
  unfolding restart start list_schedules
  restart_jobs now id s v h =
      rw h (find_job-rehydrate allow now id s.db.next_id s.db.rows [] v.keyed)

  restart_failed :
      (now id : ℕ) (s : Scheduler)
      → accepts s.db.calls ≡ false
      → find_job id (restart accepts allow now s).jobs ≡ none
  unfolding restart start list_schedules
  restart_failed now id s h = rw h

  restart_row :
      (now id : ℕ) (s : Scheduler)
      → find_row id (restart accepts allow now s).db.rows ≡ find_row id s.db.rows
  unfolding restart start list_schedules
  restart_row now id s = elim (Bool-cases (accepts s.db.calls)) [ inl h ↦ rw h | inr h ↦ rw h ]

  restart-IsKeyed :
      (now : ℕ) (s : Scheduler)
      → IsDurable s
      → IsKeyed (restart accepts allow now s).db.rows (restart accepts allow now s).db.next_id
  unfolding restart start list_schedules
  restart-IsKeyed now s v = elim (Bool-cases (accepts s.db.calls)) [
    | inl h ↦ rw h v.keyed
    | inr h ↦ rw h v.keyed
  ]

  revived_row :
      (now : ℕ) (o : Option SchedJob) {j : CronJob}
      → revived allow now o none ≡ some j
      → (r : SchedJob) × (o ≡ some r) × (job_of_row now r ≡ j) × (startable allow r ≡ true)
  revived_row now none h = cc
  revived_row now (some r) {j} h = elim (Bool-cases (startable allow r)) [
    | inl e ↦ (r, refl, some-injective (job_of_row now r) j (rw e at h), e)
    | inr e ↦ cc (rw e at h)
  ]

  startable_parts :
      (r : SchedJob)
      → startable allow r ≡ true
      → (allow r.chat_id ≡ true) × (minute ≤ r.interval_ms * millisecond)
  startable_parts r h = elim (Bool-cases (allow r.chat_id)) [
    | inl e ↦ (e, leb→le minute (r.interval_ms * millisecond) (rw e at h))
    | inr e ↦ cc (rw e at h)
  ]

  row-IsSaved : (now : ℕ) (r : SchedJob) → startable allow r ≡ true → IsSaved (job_of_row now r) r
  row-IsSaved now r h = record {
    chat = refl;
    command = refl;
    interval = omega arith;
    floor = (startable_parts r h).1;
  }

  restart-IsDurable :
      (now : ℕ) (s : Scheduler) → IsDurable s → IsDurable (restart accepts allow now s)
  restart-IsDurable now s v = elim (Bool-cases (accepts s.db.calls)) [
    | inl h ↦ record {
      keyed = restart-IsKeyed now s v;
      rows = λ id j found.
          let (r, row, e, ok_) =
            revived_row now (find_row id s.db.rows) (sym (restart_jobs now id s v h) ∙ found) in
          (r, restart_row now id s ∙ row, subst (λ x. IsSaved x r) e (row-IsSaved now r ok_));
    }
    | inr h ↦ record {
      keyed = restart-IsKeyed now s v;
      rows = λ id j found. cc (restart_failed now id s h, found);
    }
  ]

  step-IsDurable :
      (duration : Text → Option ℕ) (op : Op) (s : Scheduler)
      → IsDurable s
      → IsDurable (step accepts allow duration op s)
  unfolding step
  step-IsDurable duration (Op.every now chat text) s v =
      register-IsDurable accepts allow duration now chat text s v
  step-IsDurable duration (Op.unschedule text) s v = unregister-IsDurable accepts allow text s v
  step-IsDurable duration (Op.reboot now) s v = restart-IsDurable now s v

  -- Registrations, removals and restarts, whatever the driver answers, leave each running job with its
  -- row.
  pub steps-IsDurable :
      (duration : Text → Option ℕ) (ops : List Op) (s : Scheduler)
      → IsDurable s
      → IsDurable (steps accepts allow duration ops s)
  unfolding steps
  steps-IsDurable duration [] s v = v
  steps-IsDurable duration (op ∷ ops) s v =
      steps-IsDurable duration ops (step accepts allow duration op s)
        (step-IsDurable duration op s v)

  -- After registrations, removals and restarts from a scheduler whose jobs have their rows, a
  -- restart whose query succeeds brings back every running job whose chat is still allowed: its
  -- chat and command, and its interval in whole milliseconds, with the next run one interval away.
  pub restart_keeps :
      (duration : Text → Option ℕ) (ops : List Op) (s : Scheduler) (now id : ℕ) {j : CronJob}
      → IsDurable s
      → let s' = steps accepts allow duration ops s in
        find_job id s'.jobs ≡ some j
        → accepts s'.db.calls ≡ true
        → allow j.chat_id ≡ true
        → (j' : CronJob) × (find_job id (restart accepts allow now s').jobs ≡ some j')
          × (j'.chat_id ≡ j.chat_id)
          × (j'.command ≡ j.command)
          × (j'.interval ≡ j.interval / millisecond * millisecond)
          × (j'.next_run ≡ now + j'.interval)
  restart_keeps duration ops s now id {j} v running up ok_ =
      let s' = steps accepts allow duration ops s in
      let v' = steps-IsDurable duration ops s v in
      let (r, row, same) = v'.rows id j running in
      let startable_ : startable allow r ≡ true =
        rw (same.chat, ok_) (le_leb minute (r.interval_ms * millisecond) same.floor) in
      (
        job_of_row now r,
        restart_jobs now id s' v' up ∙ rw (row, startable_),
        same.chat,
        same.command,
        ap (λ n. n * millisecond) same.interval,
        refl,
      )

  -- Everything that runs after a restart is for an allowed chat, at most once a minute, and not at
  -- once.
  pub restart_admits :
      (now id : ℕ) (s : Scheduler) {j : CronJob}
      → IsDurable s
      → find_job id (restart accepts allow now s).jobs ≡ some j
      → (allow j.chat_id ≡ true) × (minute ≤ j.interval) × (j.next_run ≡ now + j.interval)
  restart_admits now id s {j} v found = elim (Bool-cases (accepts s.db.calls)) [
    | inr h ↦ cc (restart_failed now id s h, found)
    | inl h ↦
        let (r, row, e, ok_) =
          revived_row now (find_row id s.db.rows) (sym (restart_jobs now id s v h) ∙ found) in
        let (allowed, long) = startable_parts r ok_ in
        subst
          (λ (x : CronJob).
            (allow x.chat_id ≡ true) × (minute ≤ x.interval) × (x.next_run ≡ now + x.interval))
          e (allowed, long, refl)
  ]

  unschedule_fails :
      (ws : List Text) (e : SchedReply) → unschedule_fields ws ≡ err e → e ≡ unschedule_usage
  unschedule_fails [] e h = cc
  unschedule_fails (a ∷ []) e h = cc
  unschedule_fails (a ∷ b ∷ c ∷ ws) e h = cc
  unschedule_fails (a ∷ b ∷ []) e h = elim (Bool-cases (text_eq a (codes "unschedule"))) [
    | inr w ↦ cc (rw w at h)
    | inl w ↦ elim (Option-cases (parse_id (trim_prefix (codes "#") b))) [
      | inl none' ↦ cc (rw (w, none') at h)
      | inr (n, some') ↦ cc (rw (w, some') at h)
    ]
  ]

  parse_unschedule_fails :
      (text : Text) (e : SchedReply) → parse_unschedule text ≡ err e → e ≡ unschedule_usage
  unfolding parse_unschedule
  parse_unschedule_fails text e h =
      unschedule_fails (fields (trim_space (trim_prefix (codes "/") (trim_space text)))) e h

  stop_job_removes :
      (id i : ℕ) (o : Option CronJob) (s : Scheduler) {c : Text}
      → (stop_job accepts id o s).0 ≡ unscheduled i c
      → (i ≡ id) × (find_row id (stop_job accepts id o s).1.db.rows ≡ none)
  unfolding delete_schedule
  stop_job_removes id i none s h = cc
  stop_job_removes id i (some j) s h = elim (Bool-cases (accepts s.db.calls)) [
    | inr w ↦ cc (rw w at h)
    | inl w ↦ (cc (rw w at h), rw w (find_row-gone id s.db.rows))
  ]

  unregister_removes :
      (i : ℕ) (p : Result SchedReply ℕ) (s : Scheduler) {c : Text}
      → ((e : SchedReply) → p ≡ err e → e ≡ unschedule_usage)
      → (unregister_parsed accepts p s).0 ≡ unscheduled i c
      → find_row i (unregister_parsed accepts p s).1.db.rows ≡ none
  unregister_removes i (err e) s usage h = cc (usage e refl, h)
  unregister_removes i (ok id) s usage h =
      let (same, gone) = stop_job_removes id i (find_job id s.jobs) s h in
      subst (λ k. find_row k (stop_job accepts id (find_job id s.jobs) s).1.db.rows ≡ none)
        (sym same) gone

  -- Where each running job has its row, a job that a chat was told is unscheduled does not come
  -- back with a restart.
  pub unscheduled_stays_gone :
      (text : Text) (s : Scheduler) (now i : ℕ) {c : Text}
      → IsDurable s
      → (unregister accepts text s).0 ≡ unscheduled i c
      → find_job i (restart accepts allow now (unregister accepts text s).1).jobs ≡ none
  unfolding unregister
  unscheduled_stays_gone text s now i v h =
      let s' = (unregister accepts text s).1 in
      let gone = unregister_removes i (parse_unschedule text) s (parse_unschedule_fails text) h in
      elim (Bool-cases (accepts s'.db.calls)) [
        | inr down ↦ restart_failed now i s' down
        | inl up ↦
            restart_jobs now i s' (unregister-IsDurable accepts allow text s v) up
            ∙ ap (λ o. revived allow now o none) gone
      ]
