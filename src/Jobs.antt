-- ===== src/Jobs.antt =====
-- internal/tools/jobs.go: background jobs. Each critical section under the manager's lock is one step:
-- `Start` has two, with the job's goroutine free to finish between them. `live` is the goroutines of
-- the task group; ids are fresh, as random ones are.
pub mod Laws
use aegis_go.Prelude.{
  ℕ, Bool, true, false, not, ◌&&◌, String, str_eq, List, [], ◌∷◌, ◌++◌, Option, none, some, map,
  keep, any, length, if◌then◌else◌, ltb, ◌≡◌,
}
use aegis_go.Prelude.Result.{Result, ok, err}

-- The strings running, done, error and cancelled.
pub data JobStatus : Type 0 where
  job_running job_done job_error job_cancelled : JobStatus

pub record Job : Type 0 where
  pub id : String
  pub kind : String
  pub status : JobStatus
  pub created_at : ℕ
  pub finished_at : ℕ
  pub error : String
  pub result : Option String

abbrev pub max_finished_jobs : ℕ
max_finished_jobs = 256

-- `jobs` and `cancels` are the maps, the latter by its keys; `asked` is the contexts cancelled.
pub record JobManager : Type 0 where
  pub jobs : List Job
  pub finished : List String
  pub cancels : List String
  pub live : List String
  pub asked : List String

abbrev pub new_job_manager : JobManager
new_job_manager = record { jobs = []; finished = []; cancels = []; live = []; asked = [] }

abbrev pub is_running : Job → Bool
is_running j = elim j.status [
  | job_running ↦ true
  | job_done ↦ false
  | job_error ↦ false
  | job_cancelled ↦ false
]

abbrev pub same_id : String → Job → Bool
same_id id j = str_eq j.id id

abbrev pub find_job : String → List Job → Option Job
find_job id [] = none
find_job id (j ∷ js) = if same_id id j then some j else find_job id js

abbrev pub running_as : String → Job → Bool
running_as id j = same_id id j && is_running j

-- Whether the map holds a running job under the id.
abbrev pub runs : String → List Job → Bool
runs id js = any (running_as id) js

abbrev pub drop_job : String → List Job → List Job
drop_job id js = keep (λ j. not (same_id id j)) js

abbrev pub drop_id : String → List String → List String
drop_id id ids = keep (λ i. not (str_eq i id)) ids

abbrev pub new_job : String → String → ℕ → Job
new_job id kind now = record {
  id = id;
  kind = kind;
  status = job_running;
  created_at = now;
  finished_at = 0;
  error = "";
  result = none;
}

unfoldable pub register : String → String → ℕ → JobManager → JobManager
register id kind now m = record m { jobs = new_job id kind now ∷ m.jobs; live = id ∷ m.live }

-- How a job ends: `cancelled` is whether its own context was.
abbrev pub settled : Result String String → Bool → ℕ → Job → Job
settled (ok res) cancelled now j = record j {
  finished_at = now;
  status = job_done;
  result = some res;
}
settled (err e) true now j = record j {
  finished_at = now;
  status = job_cancelled;
  error = "cancelled";
}
settled (err e) false now j = record j { finished_at = now; status = job_error; error = e }

abbrev pub settle : String → Result String String → Bool → ℕ → Job → Job
settle id out cancelled now j = if same_id id j then settled out cancelled now j else j

unfoldable pub evict_finished : List Job → List String → List Job × List String
evict_finished js [] = (js, [])
evict_finished js (f ∷ fs) =
    let rest = evict_finished (drop_job f js) fs in
    if ltb max_finished_jobs (length (f ∷ fs)) then rest else (js, f ∷ fs)

-- The end of the job's goroutine; `expired` is that its deadline came before any cancellation.
unfoldable pub finish : String → Result String String → Bool → ℕ → JobManager → JobManager
finish id out expired now m =
    let settled_jobs = map (settle id out (any (str_eq id) m.asked && not expired) now) m.jobs in
    let kept = evict_finished settled_jobs (m.finished ++ id ∷ []) in
    record {
      jobs = kept.0;
      finished = kept.1;
      cancels = drop_id id m.cancels;
      live = drop_id id m.live;
      asked = m.asked;
    }

abbrev pub is_running_job : Option Job → Bool
is_running_job none = false
is_running_job (some j) = is_running j

-- The second section of `Start`.
unfoldable pub arm : String → JobManager → JobManager
arm id m =
    if is_running_job (find_job id m.jobs)
    then record m { cancels = id ∷ drop_id id m.cancels }
    else m

abbrev pub cancel_found : String → Option Job → JobManager → (Option Job × Bool) × JobManager
cancel_found id none m = ((none, false), m)
cancel_found id (some j) m =
    if is_running j && any (str_eq id) m.cancels
    then ((some j, true), record m { asked = id ∷ m.asked })
    else ((some j, false), m)

-- The snapshot if the id is known, and whether a cancellation was issued.
unfoldable pub cancel : String → JobManager → (Option Job × Bool) × JobManager
cancel id m = cancel_found id (find_job id m.jobs) m

-- One critical section of some goroutine.
pub data Step (m : JobManager) : JobManager → Type 0 where
  starts :
      (id kind : String) (now : ℕ)
      → any (same_id id) m.jobs ≡ false
      → any (str_eq id) m.finished ≡ false
      → any (str_eq id) m.live ≡ false
      → Step m (register id kind now m)
  arms : (id : String) → Step m (arm id m)
  finishes :
      (id : String) (out : Result String String) (expired : Bool) (now : ℕ)
      → any (str_eq id) m.live ≡ true
      → Step m (finish id out expired now m)
  cancels : (id : String) → Step m (cancel id m).1

pub data Reachable : JobManager → Type 0 where
  fresh : Reachable new_job_manager
  after : {m m' : JobManager} → Reachable m → Step m m' → Reachable m'
