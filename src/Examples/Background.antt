-- ===== src/Examples/Background.antt =====
-- The theorem on background jobs: a job that finishes before its cancel function is stored.
use aegis_go.Prelude.{false, ◌≡◌, refl, true, [], any, str_eq}
use aegis_go.Prelude.Result.{ok}
use aegis_go.Jobs.{
  JobManager, Step, Reachable, new_job_manager, register, finish, arm, evict_finished,
}
use aegis_go.Jobs.Laws.{IsSound}
use aegis_go.Jobs.Laws.Soundness.{Reachable-IsSound}

abbrev running_one : JobManager
running_one = register "j_1" "download" 1 new_job_manager

abbrev ended : JobManager
ended = finish "j_1" (ok "file") false 2 running_one

abbrev armed : JobManager
armed = arm "j_1" ended

is_live : any (str_eq "j_1") running_one.live ≡ true
unfolding register
is_live = refl

history : Reachable armed
history =
    Reachable.after
      (Reachable.after
        (Reachable.after Reachable.fresh (Step.starts "j_1" "download" 1 refl refl refl))
        (Step.finishes "j_1" (ok "file") false 2 is_live))
      (Step.arms "j_1")

-- No cancel function is left behind for the finished job.
no_stale_cancel : armed.cancels ≡ []
unfolding register finish arm evict_finished
no_stale_cancel = refl

Reachable-IsSound_example : IsSound armed
Reachable-IsSound_example = Reachable-IsSound history
