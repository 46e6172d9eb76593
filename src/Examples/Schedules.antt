-- ===== src/Examples/Schedules.antt =====
-- The theorems on the scheduler, on one chat that registers, restarts and removes one schedule.
use aegis_go.Prelude.{ℕ, ◌≡◌, ◌+◌, ◌*◌, ◌/◌, refl, Bool, true, List, [], ◌∷◌, Option, none, some}
use aegis_go.Rules.{Text, codes}
use aegis_go.Inbox.{ChatId}
use aegis_go.Scheduler.{
  CronJob, Scheduler, Op, minute, millisecond, register, unregister, unscheduled, start, restart,
  rehydrate, step, steps, find_job, parse_every, parse_unschedule, save_schedule, delete_schedule,
  list_schedules,
}
use aegis_go.Scheduler.Laws.Durable.{IsDurable}
use aegis_go.Scheduler.Laws.Restart.{steps-IsDurable, restart_keeps, unscheduled_stays_gone}
use aegis_go.Examples.{always}

abbrev owner : ChatId
owner = ChatId.pos 7

abbrev anyone : ChatId → Bool
anyone c = true

abbrev five_minutes : Text → Option ℕ
five_minutes t = some (5 * minute)

abbrev boot : Scheduler
boot = record { jobs = []; launched = []; db = record { rows = []; next_id = 1; calls = 0 } }

abbrev ops : List Op
ops = Op.every 10 owner (codes "/every 5m /disk") ∷ Op.reboot 20 ∷ []

boot-IsDurable : IsDurable boot
boot-IsDurable = record { keyed = tt; rows = λ id j h. cc h }

abbrev disk : CronJob
disk = record {
  id = 1;
  chat_id = owner;
  command = codes "/disk";
  interval = 5 * minute;
  next_run = 20 + 5 * minute;
}

disk_runs : find_job 1 (steps always anyone five_minutes ops boot).jobs ≡ some disk
unfolding steps step register restart start rehydrate parse_every save_schedule list_schedules
disk_runs = refl

restart_keeps_example :
    (j' : CronJob) × (find_job 1
        (restart always anyone 30 (steps always anyone five_minutes ops boot)).jobs
      ≡ some j')
    × (j'.chat_id ≡ owner)
    × (j'.command ≡ codes "/disk")
    × (j'.interval ≡ 5 * minute / millisecond * millisecond)
    × (j'.next_run ≡ 30 + j'.interval)
restart_keeps_example =
    restart_keeps always anyone five_minutes ops boot 30 1 boot-IsDurable disk_runs refl refl

abbrev running : Scheduler
running = steps always anyone five_minutes (Op.every 10 owner (codes "/every 5m /disk") ∷ []) boot

running-IsDurable : IsDurable running
running-IsDurable =
    steps-IsDurable always anyone five_minutes (Op.every 10 owner (codes "/every 5m /disk") ∷ [])
      boot boot-IsDurable

restarted : find_job 1 (restart always anyone 20 running).jobs ≡ some disk
unfolding steps step register restart start rehydrate parse_every save_schedule list_schedules
restarted = refl

told_gone : (unregister always (codes "/unschedule #1") running).0 ≡ unscheduled 1 (codes "/disk")
unfolding steps step register unregister parse_every parse_unschedule save_schedule delete_schedule
told_gone = refl

unscheduled_stays_gone_example :
    find_job 1
      (restart always anyone 40 (unregister always (codes "/unschedule #1") running).1).jobs
    ≡ none
unscheduled_stays_gone_example =
    unscheduled_stays_gone always anyone (codes "/unschedule #1") running 40 1 running-IsDurable
      told_gone
