-- ===== src/Jobs/Laws.antt =====
-- internal/tools/jobs.go, evictFinishedLocked: running jobs, and the finish order.
pub mod Soundness
use aegis_go.Prelude.{
  ℕ, zero, suc, ◌+◌, ◌≤◌, ◌<◌, ◌≡◌, ◌≢◌, refl, sym, ◌∙◌, ap, subst, Bool, true, false, not, ◌&&◌,
  ◌||◌, String, str_eq, eq_iff, eq_refl, List, [], ◌∷◌, ◌++◌, Option, none, some, map, keep, any,
  length, arith, Option-cases, Bool-cases, inl, inr, ◌⊎◌, if◌then◌else◌, ltb, if_split,
  any-keep_none, All, All-append,
}
use mathlib.Core.Option.{some-injective}
use aegis_go.Prelude.Result.{Result, ok, err}
use aegis_go.Jobs.{
  JobManager, Job, JobStatus, Step, Reachable, register, finish, arm, cancel, cancel_found, settle,
  settled, evict_finished, drop_job, drop_id, find_job, is_running, is_running_job, same_id,
  running_as, runs, max_finished_jobs, new_job_manager,
}

abbrev pub Runs : List Job → String → Type 0
Runs js id = runs id js ≡ true

abbrev pub Rests : List Job → String → Type 0
Rests js id = runs id js ≡ false

-- A job that runs, or is in the finish order.
abbrev pub Kept : List String → Job → Type 0
Kept fs j = (is_running j ≡ true) ⊎ (any (str_eq j.id) fs ≡ true)

pub record IsSound (m : JobManager) : Type 0 where
  pub live_run : All (Runs m.jobs) m.live
  pub cancels_run : All (Runs m.jobs) m.cancels
  pub finished_rest : All (Rests m.jobs) m.finished
  pub kept : All (Kept m.finished) m.jobs
  pub bounded : length m.finished ≤ max_finished_jobs

-- Two ids that differ in whether they run are different.
apart : (js : List Job) (id f : String) → Runs js id → Rests js f → str_eq f id ≡ false
apart js id f r s = elim (Bool-cases (str_eq f id)) [
  | inr e ↦ e
  | inl e ↦ cc (subst (λ x. runs x js ≡ false) ((eq_iff f id).0 e) s, r)
]

pub same_other :
    (j : Job) (id f : String) → str_eq f id ≡ false → same_id id j ≡ true → same_id f j ≡ false
same_other j id f apart_ e = elim (Bool-cases (same_id f j)) [
  | inr w ↦ w
  | inl w ↦ cc (subst (λ x. str_eq x id ≡ true) ((eq_iff j.id f).0 w) e, apart_)
]

runs-drop_job :
    (js : List Job) (id f : String) → str_eq f id ≡ false → runs id (drop_job f js) ≡ runs id js
runs-drop_job [] id f h = refl
runs-drop_job (j ∷ js) id f h = elim (Bool-cases (same_id id j)) [
  | inl e ↦ rw (same_other j id f h e, e) (ground (arith, runs-drop_job js id f h))
  | inr e ↦ ground (arith, e, runs-drop_job js id f h)
]

Rests-drop_job : (js : List Job) (id f : String) → Rests js id → Rests (drop_job f js) id
Rests-drop_job js id f h = any-keep_none (running_as id) (λ j. not (same_id f j)) js h

pub All-map {ℓ κ ι} :
    {A : Type ℓ} {P : A → Type κ} {Q : A → Type ι}
    → ((x : A) → P x → Q x)
    → (xs : List A) → All P xs
    → All Q xs
All-map f [] h = tt
All-map f (x ∷ xs) h = (f x h.0, All-map f xs h.1)

-- Eviction from a finish order at rest: a running job stays.
pub evict_keeps :
    (js : List Job) (fs : List String) (id : String)
    → All (Rests js) fs
    → Runs js id
    → Runs (evict_finished js fs).0 id
unfolding evict_finished
evict_keeps js [] id rest r = r
evict_keeps js (f ∷ fs) id rest r =
    if_split (λ (q : List Job × List String). Runs q.0 id) (ltb max_finished_jobs (length (f ∷ fs)))
      (λ _.
        evict_keeps (drop_job f js) fs id (All-map (λ g. Rests-drop_job js g f) fs rest.1)
          (runs-drop_job js id f (apart js id f r rest.0) ∙ r))
      (λ _. r)

pub evict-Rests :
    (js : List Job) (fs : List String)
    → All (Rests js) fs
    → All (Rests (evict_finished js fs).0) (evict_finished js fs).1
unfolding evict_finished
evict-Rests js [] rest = tt
evict-Rests js (f ∷ fs) rest =
    if_split (λ (q : List Job × List String). All (Rests q.0) q.1)
      (ltb max_finished_jobs (length (f ∷ fs)))
      (λ _. evict-Rests (drop_job f js) fs (All-map (λ g. Rests-drop_job js g f) fs rest.1))
      (λ _. rest)

pub evict_bounded :
    (js : List Job) (fs : List String) → length (evict_finished js fs).1 ≤ max_finished_jobs
unfolding evict_finished
evict_bounded js [] = omega arith
evict_bounded js (f ∷ fs) =
    if_split (λ (q : List Job × List String). length q.1 ≤ max_finished_jobs)
      (ltb max_finished_jobs (length (f ∷ fs))) (λ _. evict_bounded (drop_job f js) fs)
      (λ small. ground (arith, small))

-- A job outside the first of the finish order is kept by the others.
Kept-drop_job :
    (f : String) (fs : List String) (js : List Job)
    → All (Kept (f ∷ fs)) js
    → All (Kept fs) (drop_job f js)
Kept-drop_job f fs [] h = tt
Kept-drop_job f fs (j ∷ js) h = elim (Bool-cases (same_id f j)) [
  | inl e ↦ rw e (Kept-drop_job f fs js h.1)
  | inr e ↦
      rw e (elim h.0 [ inl r ↦ inl r | inr there ↦ inr (rw e at there) ], Kept-drop_job f fs js h.1)
]

pub evict-Kept :
    (js : List Job) (fs : List String)
    → All (Kept fs) js
    → All (Kept (evict_finished js fs).1) (evict_finished js fs).0
unfolding evict_finished
evict-Kept js [] h = h
evict-Kept js (f ∷ fs) h =
    if_split (λ (q : List Job × List String). All (Kept q.1) q.0)
      (ltb max_finished_jobs (length (f ∷ fs)))
      (λ _. evict-Kept (drop_job f js) fs (Kept-drop_job f fs js h)) (λ _. h)
