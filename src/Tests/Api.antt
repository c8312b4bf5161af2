-- ===== src/Tests/Api.antt =====
-- Requests to the handlers.
use supaback.Prelude.{
  In, inl, arith, Text, codes, List, [], ◌∷◌, false, Option, none, some, Result, ok, ◌≡◌, ◌≢◌, refl,
  text_eq,
}
use supaback.Prelude.Int.{pos, add_int64}
use supaback.Dict.{Dict, get, set}
use supaback.Dict
use supaback.Strconv.{split}
use supaback.Config.{DestinationConfig}
use supaback.Config.Key
use supaback.Config.Settings.{merge_from_map}
use supaback.Store.{Store, Fault}
use supaback.Scheduler.{load_and_start}
use supaback.Api.{respond, BackupDate, backups}
use supaback.Api.Backups.{
  list_backups, list_dates, entry_of_date, total, sum_sizes, list_backups_totals,
}
use supaback.Path.{base}
use supaback.Destination.{Destination}
use supaback.Store.Ids.{Op, creates_schedule, new-HasFreshIds}
use supaback.Store.Settings.{
  set_settings, upsert_all, transact, begun, begin_tx, prepared, after_upserts, commit_tx, upsert,
  rollback, get_all_settings,
}
use supaback.Store
use supaback.Scheduler
use supaback.Scheduler.Linked.Startup.{new-IsLinked, running-new}
use supaback.Store.Schedules.{find_row}
use supaback.Api.Schedules.{CreateRequest, create, toggle}
use supaback.Api.Schedules
use supaback.Api.Schedules.Sync.{IsSynced, NoFault, delete-IsSynced, toggle-IsSynced}
use supaback.Api.Schedules.Sync.Create.{create-IsSynced}
use supaback.Api.Settings.{
  JsonValue, str, null, update_settings, incoming, switch, reload, saved_to,
}
use supaback.Api.Settings
use supaback.Api.Settings.Update.{update_settings-cfg, clearing_ignored, sent}
use supaback.Tests.{shelf, Table, ticker, ticker-IsCron, is_hourly}
use supaback.Tests.Config.{settled}

abbrev idle : Schedules.App Table
idle = record { store = Store.new; scheduler = Scheduler.new ticker }

idle-IsSynced : IsSynced ticker is_hourly idle
unfolding find_row
idle-IsSynced = record {
  fresh = new-HasFreshIds;
  linked = new-IsLinked ticker ticker-IsCron;
  runs = λ x. running-new ticker ticker-IsCron x;
}

abbrev pub quiet : Schedules.Env
quiet = record { now = 5; read_fault = none; write_fault = none; undo_fault = none }

pub quiet-NoFault : NoFault quiet
quiet-NoFault = record { read = refl; write = refl; undo = refl }

abbrev pub nightly : Option CreateRequest
nightly = some (record { name = codes "nightly"; cron_expr = codes " @hourly"; type = [] })

abbrev busy : Schedules.App Table
busy = (create ticker quiet nightly idle).1

create-IsSynced_example : IsSynced ticker is_hourly (create ticker quiet nightly idle).1
create-IsSynced_example =
    create-IsSynced ticker ticker-IsCron quiet nightly idle quiet-NoFault idle-IsSynced

busy-IsSynced : IsSynced ticker is_hourly busy
busy-IsSynced = create-IsSynced ticker ticker-IsCron quiet nightly idle quiet-NoFault idle-IsSynced

toggle-IsSynced_example :
    IsSynced ticker is_hourly (toggle ticker quiet (some (pos 1)) (some false) busy).1
toggle-IsSynced_example =
    toggle-IsSynced ticker ticker-IsCron quiet (some (pos 1)) (some false) busy busy-IsSynced

delete-IsSynced_example :
    IsSynced ticker is_hourly (Schedules.delete ticker quiet (some (pos 1)) busy).1
delete-IsSynced_example =
    delete-IsSynced ticker ticker-IsCron quiet (some (pos 1)) busy refl busy-IsSynced

-- A table with one schedule, with which the program starts.
abbrev nightly_row : Op
nightly_row = creates_schedule none 2 (codes "nightly") (codes "@hourly") (codes "full")

-- A destination that can always be made, and is the path.
abbrev make : DestinationConfig → List Text → Result Text × List Text
make c w = (ok c.local_path, w)

abbrev app : Settings.App Text (List Text)
app = record {
  state = record { cfg = settled; dest = [] };
  store = record Store.new { settings = (Key.buckets, codes "photos") ∷ [] };
  world = [];
}

abbrev env : Settings.Env
env = record {
  tx = record { begin = none; prepare = none; exec = λ k. none; commit = none };
  read_fault = none;
}

abbrev body : List (Text × JsonValue)
body = (Key.buckets, str []) ∷ (Key.supabase_url, str (codes "u")) ∷ []

update_settings-cfg_example :
    let r = update_settings make env (some body) app in
    (r.0.status ≢ 200 → r.1.state ≡ app.state)
    × (r.0.status ≡ 200 → r.1.state.cfg ≡ merge_from_map settled r.1.store.settings)
update_settings-cfg_example = update_settings-cfg make env (some body) app

cleared : get (sent body) Key.buckets ≡ some []
unfolding get incoming set Dict.delete text_eq
cleared = refl

held : get app.store.settings Key.buckets ≡ some (codes "photos")
unfolding get text_eq
held = refl

answers_200 : (update_settings make env (some body) app).0.status ≡ 200
unfolding update_settings saved_to reload switch set_settings upsert_all transact begun begin_tx
    prepared after_upserts commit_tx upsert rollback get_all_settings incoming set text_eq
    Dict.delete
answers_200 = refl

clearing_ignored_example :
    let r = update_settings make env (some body) app in
    (get r.1.store.settings Key.buckets ≡ some (codes "photos"))
    × (Key.buckets ≡ Key.buckets → r.1.state.cfg.backup.buckets ≡ split b',' (codes "photos"))
    × (Key.buckets ≡ Key.s3_endpoint → r.1.state.cfg.destination.s3.endpoint ≡ codes "photos")
    × (Key.buckets ≡ Key.s3_prefix → r.1.state.cfg.destination.s3.prefix ≡ codes "photos")
    × (Key.buckets ≡ Key.sftp_key_path → r.1.state.cfg.destination.sftp.key_path ≡ codes "photos")
clearing_ignored_example =
    clearing_ignored make env body app Key.buckets b'p' (codes "hotos") cleared held answers_200

-- A destination with a date of two files.
abbrev two_files : Destination (List Text)
two_files = record shelf {
  list_files = λ prefix w. (
    ok (
        record { key = codes "2024-03-01/a"; size = pos 3 }
        ∷ record { key = codes "2024-03-01/b"; size = pos 4 }
        ∷ []),
    w,
  );
}

abbrev dated : BackupDate
dated = record {
  date = codes "2024-03-01";
  total_bytes = pos 7;
  files =
      record { key = codes "2024-03-01/a"; name = codes "a"; size = pos 3 }
      ∷ record { key = codes "2024-03-01/b"; name = codes "b"; size = pos 4 }
      ∷ [];
}

answered : (list_backups two_files (codes "2024-03-01" ∷ [])).0 ≡ respond 200 (backups (dated ∷ []))
unfolding list_backups list_dates entry_of_date total base add_int64
answered = refl

list_backups_totals_example :
    In dated.date (codes "2024-03-01" ∷ []) × (dated.total_bytes ≡ pos (sum_sizes dated.files))
list_backups_totals_example =
    list_backups_totals two_files (codes "2024-03-01" ∷ []) (codes "2024-03-01" ∷ []) (dated ∷ [])
      dated refl answered (inl refl) (refl, (refl, tt)) (omega arith)
