-- ===== src/Scheduler/Laws.antt =====
-- internal/telegram/scheduler.go and internal/store/schedules.go: the rows and the jobs as maps by id.
pub mod Durable
pub mod Restart
use aegis_go.Prelude.{
  ℕ, zero, suc, ◌+◌, ◌*◌, ◌/◌, ◌≤◌, ◌<◌, ◌≡◌, ◌≢◌, refl, sym, ap, ◌∙◌, subst, Bool, true, false,
  not, ◌&&◌, List, [], ◌∷◌, ◌++◌, Option, none, some, any, keep, if◌then◌else◌, ◌==◌, leb, arith,
  ◌⊎◌, inl, inr, Bool-cases, All,
}
use aegis_go.Inbox.{ChatId}
use aegis_go.Scheduler.{
  SchedJob, CronJob, has_row_id, job_id, put_job, job_of_row, startable, rehydrate, find_job,
}

abbrev pub find_row : ℕ → List SchedJob → Option SchedJob
find_row id [] = none
find_row id (r ∷ rs) = if has_row_id id r then some r else find_row id rs

-- Ids are keys, below the next one.
abbrev pub IsKeyed : List SchedJob → ℕ → Type 0
IsKeyed [] next = Unit {0}
IsKeyed (r ∷ rs) next = (r.id < next) × (any (has_row_id r.id) rs ≡ false) × IsKeyed rs next

absent_row : (id : ℕ) (rs : List SchedJob) → any (has_row_id id) rs ≡ false → find_row id rs ≡ none
absent_row id [] h = refl
absent_row id (r ∷ rs) h = elim (Bool-cases (has_row_id id r)) [
  | inl e ↦ cc (rw e at h)
  | inr e ↦ rw e (absent_row id rs (rw e at h))
]

fresh_row :
    (id next : ℕ) (rs : List SchedJob)
    → IsKeyed rs next
    → next ≤ id
    → any (has_row_id id) rs ≡ false
fresh_row id next [] k h = refl
fresh_row id next (r ∷ rs) k h =
    let other : has_row_id id r ≡ false = ground (arith, k.0) in
    rw other (fresh_row id next rs k.2 h)

any_row-append :
    (id : ℕ) (rs : List SchedJob) (r : SchedJob)
    → any (has_row_id id) rs ≡ false
    → has_row_id id r ≡ false
    → any (has_row_id id) (rs ++ r ∷ []) ≡ false
any_row-append id [] r h k = rw k
any_row-append id (x ∷ rs) r h k = elim (Bool-cases (has_row_id id x)) [
  | inl e ↦ cc (rw e at h)
  | inr e ↦ rw e (any_row-append id rs r (rw e at h) k)
]

pub append-IsKeyed :
    (rs : List SchedJob) (r : SchedJob) → IsKeyed rs r.id → IsKeyed (rs ++ r ∷ []) (suc r.id)
append-IsKeyed [] r k = (omega arith, refl, tt)
append-IsKeyed (x ∷ rs) r (low, other, k) = (
  omega (arith, low),
  any_row-append x.id rs r other (ground (arith, low)),
  append-IsKeyed rs r k,
)

any_row-keep :
    (id gone : ℕ) (rs : List SchedJob)
    → any (has_row_id id) rs ≡ false
    → any (has_row_id id) (keep (λ r. not (has_row_id gone r)) rs) ≡ false
any_row-keep id gone [] h = refl
any_row-keep id gone (x ∷ rs) h = elim (Bool-cases (has_row_id id x)) [
  | inl e ↦ cc (rw e at h)
  | inr e ↦ elim (Bool-cases (has_row_id gone x)) [
    | inl w ↦ rw w (any_row-keep id gone rs (rw e at h))
    | inr w ↦ rw (w, e) (any_row-keep id gone rs (rw e at h))
  ]
]

pub keep-IsKeyed :
    (gone next : ℕ) (rs : List SchedJob)
    → IsKeyed rs next
    → IsKeyed (keep (λ r. not (has_row_id gone r)) rs) next
keep-IsKeyed gone next [] k = tt
keep-IsKeyed gone next (x ∷ rs) (low, other, k) = elim (Bool-cases (has_row_id gone x)) [
  | inl w ↦ rw w (keep-IsKeyed gone next rs k)
  | inr w ↦ rw w (low, any_row-keep x.id gone rs other, keep-IsKeyed gone next rs k)
]

-- An insert keeps the rows that were there, and a delete the others.
pub find_row-append_old :
    (id : ℕ) (rs : List SchedJob) (x : SchedJob) {r : SchedJob}
    → find_row id rs ≡ some r
    → find_row id (rs ++ x ∷ []) ≡ some r
find_row-append_old id [] x h = cc
find_row-append_old id (y ∷ rs) x h = elim (Bool-cases (has_row_id id y)) [
  | inl e ↦ rw e (rw e at h)
  | inr e ↦ rw e (find_row-append_old id rs x (rw e at h))
]

pub find_row-append_new :
    (rs : List SchedJob) (x : SchedJob) → IsKeyed rs x.id → find_row x.id (rs ++ x ∷ []) ≡ some x
find_row-append_new [] x k = ground arith
find_row-append_new (y ∷ rs) x (low, other, k) =
    let differs : has_row_id x.id y ≡ false = ground (arith, low) in
    rw differs (find_row-append_new rs x k)

pub find_row-keep :
    (id gone : ℕ) (rs : List SchedJob)
    → (id == gone) ≡ false
    → find_row id (keep (λ r. not (has_row_id gone r)) rs) ≡ find_row id rs
find_row-keep id gone [] h = refl
find_row-keep id gone (x ∷ rs) h = elim (Bool-cases (has_row_id gone x)) [
  | inl w ↦
      let other : has_row_id id x ≡ false = ground (arith, w, h) in
      rw (w, other) (find_row-keep id gone rs h)
  | inr w ↦ elim (Bool-cases (has_row_id id x)) [
    | inl e ↦ rw (w, e)
    | inr e ↦ rw (w, e) (find_row-keep id gone rs h)
  ]
]

pub find_row-gone :
    (gone : ℕ) (rs : List SchedJob) → find_row gone (keep (λ r. not (has_row_id gone r)) rs) ≡ none
find_row-gone gone [] = refl
find_row-gone gone (x ∷ rs) = elim (Bool-cases (has_row_id gone x)) [
  | inl w ↦ rw w (find_row-gone gone rs)
  | inr w ↦ rw (w, w) (find_row-gone gone rs)
]

-- The same for the map of jobs.
pub find_job-keep :
    (id gone : ℕ) (js : List CronJob)
    → (id == gone) ≡ false
    → find_job id (keep (λ x. not (job_id gone x)) js) ≡ find_job id js
find_job-keep id gone [] h = refl
find_job-keep id gone (x ∷ js) h = elim (Bool-cases (job_id gone x)) [
  | inl w ↦
      let other : job_id id x ≡ false = ground (arith, w, h) in
      rw (w, other) (find_job-keep id gone js h)
  | inr w ↦ elim (Bool-cases (job_id id x)) [
    | inl e ↦ rw (w, e)
    | inr e ↦ rw (w, e) (find_job-keep id gone js h)
  ]
]

pub find_job-gone :
    (gone : ℕ) (js : List CronJob) → find_job gone (keep (λ x. not (job_id gone x)) js) ≡ none
find_job-gone gone [] = refl
find_job-gone gone (x ∷ js) = elim (Bool-cases (job_id gone x)) [
  | inl w ↦ rw w (find_job-gone gone js)
  | inr w ↦ rw (w, w) (find_job-gone gone js)
]

pub find_job-put_other :
    (id : ℕ) (j : CronJob) (js : List CronJob)
    → (id == j.id) ≡ false
    → find_job id (put_job j js) ≡ find_job id js
find_job-put_other id j js h =
    let other : job_id id j ≡ false = ground (arith, h) in rw other (find_job-keep id j.id js h)

pub find_job-put_same : (j : CronJob) (js : List CronJob) → find_job j.id (put_job j js) ≡ some j
find_job-put_same j js = ground arith

-- What a restart makes of a row.
abbrev pub revived : (ChatId → Bool) → ℕ → Option SchedJob → Option CronJob → Option CronJob
revived allow now none o = o
revived allow now (some r) o = if startable allow r then some (job_of_row now r) else o

pub find_job-rehydrate :
    (allow : ChatId → Bool) (now id next : ℕ) (rs : List SchedJob) (js : List CronJob)
    → IsKeyed rs next
    → find_job id (rehydrate allow now rs js) ≡ revived allow now (find_row id rs) (find_job id js)
unfolding rehydrate
find_job-rehydrate allow now id next [] js k = refl
find_job-rehydrate allow now id next (r ∷ rs) js (low, other, k) =
    let put = put_job (job_of_row now r) js in
    elim (Bool-cases (has_row_id id r)) [
      | inl e ↦
          let same : r.id ≡ id = ground (arith, e) in
          let gone = absent_row id rs (subst (λ i. any (has_row_id i) rs ≡ false) same other) in
          elim (Bool-cases (startable allow r)) [
            | inr w ↦ rw (e, w) (find_job-rehydrate allow now id next rs js k ∙ rw gone refl)
            | inl w ↦
                rw (e, w)
                  (find_job-rehydrate allow now id next rs put k
                    ∙ rw gone refl
                    ∙ subst (λ i. find_job i put ≡ some (job_of_row now r)) same
                        (find_job-put_same (job_of_row now r) js))
          ]
      | inr e ↦
          let differs : (id == r.id) ≡ false = ground (arith, e) in
          elim (Bool-cases (startable allow r)) [
            | inr w ↦ rw (e, w) (find_job-rehydrate allow now id next rs js k)
            | inl w ↦
                rw (e, w)
                  (find_job-rehydrate allow now id next rs put k
                    ∙ ap (revived allow now (find_row id rs))
                        (find_job-put_other id (job_of_row now r) js differs))
          ]
    ]
