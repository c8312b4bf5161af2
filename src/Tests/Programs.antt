-- ===== src/Tests/Programs.antt =====
-- The program from its start to its next start, over the shelf and the ticker.
use supaback.Prelude.{
  Text, codes, List, [], ◌∷◌, true, false, none, some, Result, ok, ◌≡◌, refl, text_eq,
}
use supaback.Prelude.Int.{pos, int_eq}
use supaback.Config.{for_type, DestinationConfig, Env, defaults}
use supaback.Config.Settings.{
  env_overrides, override, with_env, merge_from_map, if_present, merge_retention, merge_supabase,
  merge_backup, merge_s3, merge_sftp, if_set,
}
use supaback.Dict.{get, set}
use supaback.Store
use supaback.Store.{Store, Schedule, success}
use supaback.Store.Ids.{
  Op, HasFreshIds, creates_schedule, perform, perform-HasFreshIds, new-HasFreshIds,
}
use supaback.Store.Migration.{Tables, new_store, migrate, exec_all, store_of, close}
use supaback.Store.Schedules.{list_schedules, create_schedule, find_row}
use supaback.Store.Settings.{get_all_settings}
use supaback.Scheduler
use supaback.Scheduler.{load_and_start, load_all, make_job}
use supaback.Scheduler.Linked.{running}
use supaback.Destination.{Destination}
use supaback.Api.Schedules
use supaback.Api.Schedules.{removed, delete_row, toggle}
use supaback.Api.Schedules.Race.{delete_toggle_race}
use supaback.Api.Server.{Handler, posts_schedule, patches_schedule}
use supaback.Api.Server
use supaback.Program.{Event, touches, serves, begins, ends, leaves, after_all}
use supaback.Program.Synced.{RunsTable}
use supaback.Program.Fired.{JobEvents, fire_events}
use supaback.Scheduler.Firing.{fire}
use supaback.Tests.Runner.{due, r, today}
use supaback.Program.Restart.{handler_of, started-RunsTable}
use supaback.Main.{App, startup, with_settings, with_overrides, open_dest}
use supaback.Tests.{Table, ticker, ticker-IsCron, is_hourly, shelf, halves}
use supaback.Tests.Startup.{calm}
use supaback.Tests.Api.{quiet, quiet-NoFault, nightly}

abbrev World : Type 0
World = List Text

abbrev make_shelf : DestinationConfig → World → Result (Destination World) × World
make_shelf c w = (ok shelf, w)

-- A table with one schedule.
abbrev nightly_row : Op
nightly_row = creates_schedule none 5 (codes "nightly") (codes "@hourly") (codes "full")

abbrev file : Tables
file = close (perform nightly_row Store.new)

file-HasFreshIds : HasFreshIds (store_of file)
unfolding store_of close
file-HasFreshIds = perform-HasFreshIds nightly_row Store.new new-HasFreshIds

abbrev app : App (Destination World) Table World
app = record {
  state = record { cfg = defaults; dest = some shelf };
  store = perform nightly_row Store.new;
  scheduler = (load_and_start ticker none (perform nightly_row Store.new) (Scheduler.new ticker)).1;
  world = [];
}

abbrev no_env : Env
no_env name = []

starts : startup make_shelf ticker no_env calm (ok defaults) file [] ≡ ok app
unfolding startup new_store migrate exec_all store_of close with_settings with_overrides open_dest
    load_and_start list_schedules perform create_schedule merge_from_map if_present merge_retention
    merge_supabase merge_backup merge_s3 merge_sftp if_set env_overrides override with_env
    get_all_settings text_eq set get
starts = refl

abbrev env : Server.Env
env = record {
  schedules = quiet;
  settings = record {
    tx = record { begin = none; prepare = none; exec = λ k. none; commit = none };
    read_fault = none;
  };
  jobs_fault = none;
  stat = λ path. Server.not_exist;
  creates = λ key. true;
}

-- A request between the statements of a job.
abbrev events : List (Event World)
events =
    begins none 6 (codes "full") (codes "shelf")
    ∷ serves env (posts_schedule nightly)
    ∷ ends none 7 (pos 1) success (pos 3) []
    ∷ serves env (patches_schedule (codes "1") (some false))
    ∷ leaves (codes "2024-05-01" ∷ [])
    ∷ []

abbrev program : Handler Table World
program = record {
  state = record { cfg = defaults; dest = shelf };
  store = app.store;
  scheduler = app.scheduler;
  world = app.world;
}

program_running :
    RunsTable ticker is_hourly (after_all ticker make_shelf none [] (handler_of app shelf))
program_running =
    started-RunsTable make_shelf ticker ticker-IsCron no_env calm (ok defaults) file [] none shelf
      [] {a = app} file-HasFreshIds starts refl tt

program-RunsTable : RunsTable ticker is_hourly program
unfolding after_all handler_of
program-RunsTable = program_running

abbrev row : Schedule
row = record {
  id = pos 1;
  name = codes "nightly";
  cron_expr = codes "@hourly";
  type = codes "full";
  enabled = true;
  created_at = 5;
  last_run_at = none;
}

row_found : find_row (pos 1) app.store.schedules ≡ some row
unfolding find_row perform create_schedule int_eq
row_found = refl

row_parses : is_hourly row.cron_expr ≡ true
unfolding text_eq
row_parses = refl

abbrev pair : Schedules.App Table
pair = record { store = app.store; scheduler = app.scheduler }

abbrev raced : Schedules.App Table
raced =
    (delete_row ticker quiet (pos 1)
      (toggle ticker quiet (some (pos 1)) (some true) (removed ticker (pos 1) pair)).1).1

delete_toggle_race_example :
    (find_row (pos 1) raced.store.schedules ≡ none)
    × (running ticker raced.scheduler (pos 1)
        ≡ some (make_job (pos 1) (codes "@hourly") (codes "full")))
delete_toggle_race_example =
    delete_toggle_race ticker ticker-IsCron quiet quiet (pos 1) pair row quiet-NoFault refl
      program-RunsTable.linked row_found row_parses

fire_events_example :
    let (s', w') = fire (halves today) program.state due none 4 r program.store program.world in
    (es : List (Event World)) × JobEvents
      (halves today)
      r
      program.state.dest
      (for_type due.job_type program.state.cfg)
      program.store.jobs_seq
      program.world
      w'
      es
    × (after_all ticker make_shelf none (touches none 4 due.schedule_id ∷ es) program
        ≡ record program { store = s'; world = w' })
fire_events_example = fire_events ticker make_shelf none (halves today) due none 4 r program
