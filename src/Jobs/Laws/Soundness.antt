-- ===== src/Jobs/Laws/Soundness.antt =====
-- internal/tools/jobs.go: every interleaving of the manager's critical sections.
use aegis_go.Prelude.{
  not, ℕ, ◌≡◌, refl, sym, ◌∙◌, subst, Bool, true, false, ◌&&◌, String, str_eq, eq_iff, eq_refl,
  List, [], ◌∷◌, ◌++◌, Option, none, some, map, any, arith, Bool-cases, inl, inr, if_split, All,
  All-append,
}
use aegis_go.Prelude.Result.{Result, ok, err}
use aegis_go.Jobs.{
  JobManager, Job, Step, Reachable, register, finish, arm, cancel, cancel_found, settle, settled,
  evict_finished, drop_id, find_job, is_running, is_running_job, same_id, running_as, runs, new_job,
}
use aegis_go.Jobs.Laws.{
  Runs, Rests, Kept, IsSound, same_other, All-map, evict_keeps, evict-Rests, evict_bounded,
  evict-Kept,
}

drop_id-All {κ ι} :
    {P : String → Type κ} {Q : String → Type ι} (id : String)
    → ((i : String) → str_eq i id ≡ false → P i → Q i)
    → (ids : List String) → All P ids
    → All Q (drop_id id ids)
drop_id-All id f [] h = tt
drop_id-All id f (i ∷ ids) h = elim (Bool-cases (str_eq i id)) [
  | inl e ↦ rw e (drop_id-All id f ids h.1)
  | inr e ↦ rw e (f i e h.0, drop_id-All id f ids h.1)
]

settled_stops :
    (out : Result String String) (c : Bool) (now : ℕ) (j : Job)
    → is_running (settled out c now j) ≡ false
settled_stops (ok res) c now j = refl
settled_stops (err e) true now j = refl
settled_stops (err e) false now j = refl

settled_id :
    (out : Result String String) (c : Bool) (now : ℕ) (j : Job) → (settled out c now j).id ≡ j.id
settled_id (ok res) c now j = refl
settled_id (err e) true now j = refl
settled_id (err e) false now j = refl

and_false : (a : Bool) {b : Bool} → b ≡ false → (a && b) ≡ false
and_false true h = h
and_false false h = refl

module _ (id : String) (out : Result String String) (c : Bool) (now : ℕ) where
  -- Settling one job does not touch another.
  runs-settle :
      (js : List Job) (i : String)
      → str_eq i id ≡ false
      → runs i (map (settle id out c now) js) ≡ runs i js
  runs-settle [] i h = refl
  runs-settle (j ∷ js) i h = elim (Bool-cases (same_id id j)) [
    | inr e ↦ rw e (rw (runs-settle js i h) refl)
    | inl e ↦ rw (e, settled_id out c now j, same_other j id i h e, runs-settle js i h) refl
  ]

  rests_one : (j : Job) → running_as id (settle id out c now j) ≡ false
  rests_one j = elim (Bool-cases (same_id id j)) [
    | inr e ↦ rw (e, e) refl
    | inl e ↦ rw e (and_false (same_id id (settled out c now j)) (settled_stops out c now j))
  ]

  Rests-settle_same : (js : List Job) → Rests (map (settle id out c now) js) id
  Rests-settle_same [] = refl
  Rests-settle_same (j ∷ js) = rw (rests_one j) (Rests-settle_same js)

  Rests-settle : (js : List Job) (i : String) → Rests js i → Rests (map (settle id out c now) js) i
  Rests-settle js i h = elim (Bool-cases (str_eq i id)) [
    | inr e ↦ runs-settle js i e ∙ h
    | inl e ↦
        subst (λ x. Rests (map (settle id out c now) js) x) (sym ((eq_iff i id).0 e))
          (Rests-settle_same js)
  ]

  Kept-settle :
      (fs : List String) (js : List Job)
      → All (Kept fs) js
      → All (Kept (fs ++ id ∷ [])) (map (settle id out c now) js)
  Kept-settle fs [] h = tt
  Kept-settle fs (j ∷ js) h = elim (Bool-cases (same_id id j)) [
    | inl e ↦ rw e (inr (rw (settled_id out c now j) (any_last j.id fs e)), Kept-settle fs js h.1)
    | inr e ↦ rw e (
      elim h.0 [ inl r ↦ inl r | inr there ↦ inr (any_more j.id fs there) ],
      Kept-settle fs js h.1,
    )
  ]
    where
      any_last :
          (i : String) (fs : List String)
          → str_eq i id ≡ true
          → any (str_eq i) (fs ++ id ∷ []) ≡ true
      any_last i [] e = rw e refl
      any_last i (f ∷ fs) e = ground (arith, any_last i fs e)

      any_more :
          (i : String) (fs : List String)
          → any (str_eq i) fs ≡ true
          → any (str_eq i) (fs ++ id ∷ []) ≡ true
      any_more i [] e = cc
      any_more i (f ∷ fs) e = ground (arith, any_more i fs, e)

finish-IsSound :
    (id : String) (out : Result String String) (expired : Bool) (now : ℕ) (m : JobManager)
    → IsSound m
    → IsSound (finish id out expired now m)
unfolding finish
finish-IsSound id out expired now m s =
    let c = any (str_eq id) m.asked && not expired in
    let js = map (settle id out c now) m.jobs in
    let rest : All (Rests js) (m.finished ++ id ∷ []) =
      All-append (Rests js) m.finished (id ∷ [])
        (All-map (λ f. Rests-settle id out c now m.jobs f) m.finished s.finished_rest)
        (Rests-settle_same id out c now m.jobs, tt) in
    let runs_on : (i : String)
        → str_eq i id ≡ false
        → Runs m.jobs i
        → Runs (evict_finished js (m.finished ++ id ∷ [])).0 i =
      λ i other r.
        evict_keeps js (m.finished ++ id ∷ []) i rest
          (runs-settle id out c now m.jobs i other ∙ r) in
    record {
      live_run = drop_id-All id runs_on m.live s.live_run;
      cancels_run = drop_id-All id runs_on m.cancels s.cancels_run;
      finished_rest = evict-Rests js (m.finished ++ id ∷ []) rest;
      kept =
          evict-Kept js (m.finished ++ id ∷ []) (Kept-settle id out c now m.finished m.jobs s.kept);
      bounded = evict_bounded js (m.finished ++ id ∷ []);
    }

-- A running job that is found runs.
found-Runs : (js : List Job) (id : String) → is_running_job (find_job id js) ≡ true → Runs js id
found-Runs [] id h = cc
found-Runs (j ∷ js) id h = elim (Bool-cases (same_id id j)) [
  | inl e ↦ rw e (ground (arith, rw e at h))
  | inr e ↦ rw e (found-Runs js id (rw e at h))
]

arm-IsSound : (id : String) (m : JobManager) → IsSound m → IsSound (arm id m)
unfolding arm
arm-IsSound id m s =
    if_split IsSound (is_running_job (find_job id m.jobs))
      (λ r. record {
        live_run = s.live_run;
        cancels_run = (found-Runs m.jobs id r, drop_id-All id (λ i _ h. h) m.cancels s.cancels_run);
        finished_rest = s.finished_rest;
        kept = s.kept;
        bounded = s.bounded;
      })
      (λ _. s)

cancel_found-IsSound :
    (id : String) (o : Option Job) (m : JobManager) → IsSound m → IsSound (cancel_found id o m).1
cancel_found-IsSound id none m s = s
cancel_found-IsSound id (some j) m s =
    if_split (λ (q : (Option Job × Bool) × JobManager). IsSound q.1)
      (is_running j && any (str_eq id) m.cancels)
      (λ _. record {
        live_run = s.live_run;
        cancels_run = s.cancels_run;
        finished_rest = s.finished_rest;
        kept = s.kept;
        bounded = s.bounded;
      })
      (λ _. s)

Runs-more : (j : Job) (js : List Job) (i : String) → Runs js i → Runs (j ∷ js) i
Runs-more j js i h = ground (arith, h)

Rests-more :
    (j : Job) (js : List Job) (fs : List String)
    → any (str_eq j.id) fs ≡ false
    → All (Rests js) fs
    → All (Rests (j ∷ js)) fs
Rests-more j js [] new h = tt
Rests-more j js (f ∷ fs) new h = elim (Bool-cases (str_eq j.id f)) [
  | inl e ↦ cc (rw e at new)
  | inr e ↦ (rw (e, h.0) refl, Rests-more j js fs (rw e at new) h.1)
]

register-IsSound :
    (id kind : String) (now : ℕ) (m : JobManager)
    → any (str_eq id) m.finished ≡ false
    → IsSound m
    → IsSound (register id kind now m)
unfolding register
register-IsSound id kind now m new s = record {
  live_run = (
    rw (eq_refl id) refl,
    All-map (λ i. Runs-more (new_job id kind now) m.jobs i) m.live s.live_run,
  );
  cancels_run = All-map (λ i. Runs-more (new_job id kind now) m.jobs i) m.cancels s.cancels_run;
  finished_rest = Rests-more (new_job id kind now) m.jobs m.finished new s.finished_rest;
  kept = (inl refl, s.kept);
  bounded = s.bounded;
}

Step-IsSound : {m m' : JobManager} → Step m m' → IsSound m → IsSound m'
unfolding cancel
Step-IsSound {m} (Step.starts id kind now _ new _) s = register-IsSound id kind now m new s
Step-IsSound {m} (Step.arms id) s = arm-IsSound id m s
Step-IsSound {m} (Step.finishes id out expired now _) s = finish-IsSound id out expired now m s
Step-IsSound {m} (Step.cancels id) s = cancel_found-IsSound id (find_job id m.jobs) m s

-- In every reachable state, each live goroutine and each cancel function has its job in the map,
-- running; no job in the finish order runs; each job in the map runs or is in the finish order; and
-- the finish order holds at most 256 ids.
pub Reachable-IsSound : {m : JobManager} → Reachable m → IsSound m
Reachable-IsSound Reachable.fresh = record {
  live_run = tt;
  cancels_run = tt;
  finished_rest = tt;
  kept = tt;
  bounded = omega arith;
}
Reachable-IsSound (Reachable.after r t) = Step-IsSound t (Reachable-IsSound r)
