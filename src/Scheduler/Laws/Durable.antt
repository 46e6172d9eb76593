-- ===== src/Scheduler/Laws/Durable.antt =====
-- internal/telegram/scheduler.go and internal/store/schedules.go: each running job has its row.
use aegis_go.Prelude.{
  ℕ, suc, ◌*◌, ◌/◌, ◌≤◌, ◌≡◌, refl, sym, ◌∙◌, subst, Bool, false, not, List, [], ◌∷◌, ◌++◌, Option,
  none, some, keep, ◌==◌, arith, inl, inr, Bool-cases,
}
use mathlib.Core.Option.{some-injective}
use aegis_go.Prelude.Result.{Result, ok, err}
use aegis_go.Rules.{Text, codes, trim_space}
use aegis_go.Texts.{text_eq, fields, trim_prefix}
use aegis_go.Inbox.{ChatId}
use aegis_go.Scheduler.{
  SchedJob, CronJob, Scheduler, SchedReply, minute, millisecond, put_job, find_job, new_job,
  save_schedule, delete_schedule, register, register_parsed, unregister, unregister_parsed,
  stop_job, parse_every, parse_unschedule, at_least_minute, every_fields, job_id,
}
use aegis_go.Scheduler.Laws.{
  find_row, IsKeyed, append-IsKeyed, keep-IsKeyed, find_row-append_old, find_row-append_new,
  find_row-keep, find_job-keep, find_job-gone, find_job-put_other, find_job-put_same,
}

-- A job as its row has it: whole milliseconds survive.
pub record IsSaved (j : CronJob) (r : SchedJob) : Type 0 where
  pub chat : r.chat_id ≡ j.chat_id
  pub command : r.command ≡ j.command
  pub interval : r.interval_ms ≡ j.interval / millisecond
  pub floor : minute ≤ r.interval_ms * millisecond

-- Every running job has its row.
pub record IsDurable (s : Scheduler) : Type 0 where
  pub keyed : IsKeyed s.db.rows s.db.next_id
  pub rows :
      (id : ℕ) (j : CronJob)
      → find_job id s.jobs ≡ some j
      → (r : SchedJob) × (find_row id s.db.rows ≡ some r) × IsSaved j r

every_minute :
    (o : Option ℕ) (command : Text) {d : ℕ} {c : Text}
    → at_least_minute o command ≡ ok (d, c)
    → minute ≤ d
every_minute none command h = cc
every_minute (some d) command h = ground arith

every_fields-minute :
    (duration : Text → Option ℕ) (ws : List Text) {d : ℕ} {c : Text}
    → every_fields duration ws ≡ ok (d, c)
    → minute ≤ d
every_fields-minute duration [] h = cc
every_fields-minute duration (a ∷ []) h = cc
every_fields-minute duration (a ∷ b ∷ []) h = cc
every_fields-minute duration (a ∷ b ∷ c ∷ ws) h = elim (Bool-cases (text_eq a (codes "every"))) [
  | inl e ↦ every_minute (duration b) _ (rw e at h)
  | inr e ↦ cc (rw e at h)
]

parse_every-minute :
    (duration : Text → Option ℕ) (text : Text) {d : ℕ} {c : Text}
    → parse_every duration text ≡ ok (d, c)
    → minute ≤ d
unfolding parse_every
parse_every-minute duration text h =
    every_fields-minute duration (fields (trim_prefix (codes "/") (trim_space text))) h

module _ (accepts : ℕ → Bool) (allow : ChatId → Bool) where
  -- The inserted row, and the job with the row's id.
  added-IsDurable :
      (now : ℕ) (chat : ChatId) (command : Text) (interval : ℕ) (s : Scheduler) (calls : ℕ)
      (ls : List ℕ)
      → minute ≤ interval
      → IsDurable s
      → let id = s.db.next_id in
        let row : SchedJob = record {
          id = id;
          chat_id = chat;
          command = command;
          interval_ms = interval / millisecond;
        } in
        IsDurable (record {
          jobs = put_job (new_job now chat command interval id) s.jobs;
          launched = ls;
          db = record { rows = s.db.rows ++ row ∷ []; next_id = suc id; calls = calls };
        })
  added-IsDurable now chat command interval s calls ls long v =
      let id = s.db.next_id in
      let row : SchedJob = record {
        id = id;
        chat_id = chat;
        command = command;
        interval_ms = interval / millisecond;
      } in
      let job = new_job now chat command interval id in
      record {
        keyed = append-IsKeyed s.db.rows row v.keyed;
        rows = λ i j found. elim (Bool-cases (i == id)) [
          | inl e ↦
              let same : i ≡ id = ground (arith, e) in
              let it : job ≡ j = some-injective job j (
                sym (find_job-put_same job s.jobs)
                ∙ subst (λ k. find_job k (put_job job s.jobs) ≡ some j) same found) in
              (
                row,
                subst (λ k. find_row k (s.db.rows ++ row ∷ []) ≡ some row) (sym same)
                    (find_row-append_new s.db.rows row v.keyed),
                subst (λ x. IsSaved x row) it
                    (record {
                      chat = refl;
                      command = refl;
                      interval = refl;
                      floor = omega (arith, long);
                    }),
              )
          | inr e ↦
              let (r, found', saved') =
                v.rows i j (sym (find_job-put_other i job s.jobs e) ∙ found) in
              (r, find_row-append_old i s.db.rows row found', saved')
        ];
      }

  register_parsed-IsDurable :
      (now : ℕ) (chat : ChatId) (p : Result SchedReply (ℕ × Text)) (s : Scheduler)
      → ((d : ℕ) (c : Text) → p ≡ ok (d, c) → minute ≤ d)
      → IsDurable s
      → IsDurable (register_parsed accepts allow now chat p s).1
  unfolding save_schedule
  register_parsed-IsDurable now chat (err e) s long v = v
  register_parsed-IsDurable now chat (ok (interval, command)) s long v =
      elim (Bool-cases (allow chat)) [
        | inr e ↦ rw e v
        | inl e ↦ elim (Bool-cases (accepts s.db.calls)) [
          | inl w ↦
              rw (e, w)
                (added-IsDurable now chat command interval s _ _ (long interval command refl) v)
          | inr w ↦ rw (e, w) (record { keyed = v.keyed; rows = v.rows })
        ]
      ]

  pub register-IsDurable :
      (duration : Text → Option ℕ) (now : ℕ) (chat : ChatId) (text : Text) (s : Scheduler)
      → IsDurable s
      → IsDurable (register accepts allow duration now chat text s).1
  unfolding register
  register-IsDurable duration now chat text s v =
      register_parsed-IsDurable now chat (parse_every duration text) s
        (λ d c e. parse_every-minute duration text e) v

  kept_job :
      (i gone : ℕ) (js : List CronJob) {j : CronJob}
      → find_job i (keep (λ x. not (job_id gone x)) js) ≡ some j
      → (find_job i js ≡ some j) × ((i == gone) ≡ false)
  kept_job i gone js {j} h = elim (Bool-cases (i == gone)) [
    | inr e ↦ (sym (find_job-keep i gone js e) ∙ h, e)
    | inl e ↦
        let same : i ≡ gone = ground (arith, e) in
        cc (
          find_job-gone gone js,
          subst (λ k. find_job k (keep (λ x. not (job_id gone x)) js) ≡ some j) same h,
        )
  ]

  stop_job-IsDurable :
      (id : ℕ) (o : Option CronJob) (s : Scheduler)
      → IsDurable s
      → IsDurable (stop_job accepts id o s).1
  unfolding delete_schedule
  stop_job-IsDurable id none s v = v
  stop_job-IsDurable id (some j) s v = elim (Bool-cases (accepts s.db.calls)) [
    | inl w ↦ rw w (record {
      keyed = keep-IsKeyed id s.db.next_id s.db.rows v.keyed;
      rows = λ i x found.
          let (there, other) = kept_job i id s.jobs found in
          let (r, row, saved') = v.rows i x there in
          (r, find_row-keep i id s.db.rows other ∙ row, saved');
    })
    | inr w ↦
        rw w (record {
          keyed = v.keyed;
          rows = λ i x found. v.rows i x (kept_job i id s.jobs found).0;
        })
  ]

  unregister_parsed-IsDurable :
      (p : Result SchedReply ℕ) (s : Scheduler)
      → IsDurable s
      → IsDurable (unregister_parsed accepts p s).1
  unregister_parsed-IsDurable (err e) s v = v
  unregister_parsed-IsDurable (ok id) s v = stop_job-IsDurable id (find_job id s.jobs) s v

  pub unregister-IsDurable :
      (text : Text) (s : Scheduler) → IsDurable s → IsDurable (unregister accepts text s).1
  unfolding unregister
  unregister-IsDurable text s v = unregister_parsed-IsDurable (parse_unschedule text) s v
