-- ===== src/Program/Restart.antt =====
-- From one start of the program to the next.
use supaback.Prelude.{Bool, Text, List, Option, some, Result, ok, ◌≡◌, All}
use supaback.Config.{Config, DestinationConfig, Env}
use supaback.Store.Ids.{HasFreshIds}
use supaback.Store.Migration.{Tables, store_of}
use supaback.Cron.{Cron, IsCron}
use supaback.Destination.{Destination}
use supaback.Api.Server.{Handler}
use supaback.Main.{App, Faults, startup}
use supaback.Main.Synced.{startup-IsSynced}
use supaback.Program.{Event, after_all, IsCalm}
use supaback.Program.Synced.{RunsTable, after_all-RunsTable}

-- What `NewServer` gives its handlers, with the destination that the program opened.
unfoldable pub handler_of : {C W : Type 0} → App (Destination W) C W → Destination W → Handler C W
handler_of a d = record {
  state = record { cfg = a.state.cfg; dest = d };
  store = a.store;
  scheduler = a.scheduler;
  world = a.world;
}

module _ {C W : Type 0} (new_dest : DestinationConfig → W → Result (Destination W) × W)
    (cron : Cron C) {parses : Text → Bool} (lawful : IsCron cron parses) where
  pub started-RunsTable :
      (env : Env) (f : Faults) (config : Result Config) (tables : Tables) (w : W)
      (static_dir : Option Text) (d : Destination W) (es : List (Event W))
      {a : App (Destination W) C W}
      → HasFreshIds (store_of tables)
      → startup new_dest cron env f config tables w ≡ ok a
      → a.state.dest ≡ some d
      → All IsCalm es
      → RunsTable cron parses (after_all cron new_dest static_dir es (handler_of a d))
  unfolding handler_of
  started-RunsTable env f config tables w static_dir d es {a} fresh h q n =
      after_all-RunsTable cron lawful new_dest static_dir es (handler_of a d) n
        (startup-IsSynced new_dest cron lawful env f config tables w {a = a} fresh h).0
