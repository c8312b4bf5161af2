-- ===== src/Program.antt =====
-- The program while it runs: the requests to the server and the statements of the jobs in the
-- background, one after another. A handler is one event; of a job, each statement is one, so that
-- other events come between them.
pub mod Synced
pub mod Fired
pub mod Jobs
pub mod Restart
use supaback.Prelude.{ℕ, Text, List, [], ◌∷◌, Option, Result, All}
use supaback.Prelude.Int.{ℤ}
use supaback.Config.{DestinationConfig}
use supaback.Store.{JobStatus, Fault}
use supaback.Store.Ids.{Op, perform, creates_job, completes_job, touches_schedule}
use supaback.Cron.{Cron}
use supaback.Destination.{Destination}
use supaback.Api.Schedules.Sync.{NoFault}
use supaback.Api.Server.{Handler, Request, Env, serve}

pub data Event (W : Type 0) : Type 0 where
  serves : Env → Request → Event W
  -- `TouchSchedule`, of an entry that is due
  touches : Fault → ℕ → ℤ → Event W
  -- `CreateJob` and `CompleteJob`, of a run
  begins : Fault → ℕ → Text → Text → Event W
  ends : Fault → ℕ → ℤ → JobStatus → ℤ → Text → Event W
  -- what a backup, a retention or anything outside leaves of the world
  leaves : W → Event W

module _ {C W : Type 0} (cron : Cron C)
    (new_dest : DestinationConfig → W → Result (Destination W) × W) (static_dir : Option Text) where
  unfoldable pub after : Event W → Handler C W → Handler C W
  after (serves env req) h = (serve cron new_dest static_dir env req h).2
  after (touches f now id) h = record h { store = perform (touches_schedule f now id) h.store }
  after (begins f now t d) h = record h { store = perform (creates_job f now t d) h.store }
  after (ends f now id st size msg) h = record h {
    store = perform (completes_job f now id st size msg) h.store;
  }
  after (leaves w) h = record h { world = w }

  unfoldable pub after_all : List (Event W) → Handler C W → Handler C W
  after_all [] h = h
  after_all (e ∷ es) h = after_all es (after e h)

-- The statements of a request for a schedule do not fail.
abbrev pub IsCalm : {W : Type 0} → Event W → Type 0
IsCalm (serves env req) = NoFault env.schedules
IsCalm (touches f now id) = Unit
IsCalm (begins f now t d) = Unit
IsCalm (ends f now id st size msg) = Unit
IsCalm (leaves w) = Unit
