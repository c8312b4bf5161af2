-- ===== src/Tests/Scheduler.antt =====
-- The scheduler over the ticker.
use supaback.Prelude.{codes, true, none, some, ok, ◌≡◌, ◌↔◌, if◌then◌else◌}
use supaback.Prelude.Int.{pos, int_eq}
use supaback.Scheduler.{Scheduler, make_job, register, remove}
use supaback.Scheduler
use supaback.Scheduler.Linked.{IsLinked, running, register-IsLinked}
use supaback.Scheduler.Linked.Startup.{new-IsLinked}
use supaback.Scheduler.Linked.Running.{running-register}
use supaback.Tests.{Table, ticker, ticker-IsCron, is_hourly}

abbrev one_job : Scheduler Table
one_job = (register ticker (pos 1) (codes "@hourly") (codes "full") (Scheduler.new ticker)).1

one_job-IsLinked : IsLinked ticker one_job
one_job-IsLinked =
    register-IsLinked ticker ticker-IsCron (pos 1) (codes "@hourly") (codes "full")
      (Scheduler.new ticker) (new-IsLinked ticker ticker-IsCron)

-- A second expression that cron refuses takes the first entry away.
running-register_example :
    (running ticker (register ticker (pos 1) (codes "daily") (codes "full") one_job).1 (pos 1) ≡ (
      if int_eq (pos 1) (pos 1)
      then (if is_hourly (codes "daily")
          then some (make_job (pos 1) (codes "daily") (codes "full"))
          else none)
      else running ticker one_job (pos 1)))
    × (((register ticker (pos 1) (codes "daily") (codes "full") one_job).0 ≡ ok tt)
        ↔ (is_hourly (codes "daily") ≡ true))
running-register_example =
    running-register ticker ticker-IsCron (pos 1) (pos 1) (codes "daily") (codes "full") one_job
      one_job-IsLinked
