-- ===== src/Tests/Startup.antt =====
-- The program started in an environment that names another project than its table does.
use supaback.Prelude.{
  Text, codes, List, [], ◌∷◌, none, some, Result, ok, ◌≡◌, refl, text_eq, if◌then◌else◌,
}
use supaback.Config.{DestinationConfig, Env, defaults}
use supaback.Config.Key
use supaback.Config.Settings.{
  env_overrides, override, with_env, merge_from_map, merge_supabase, merge_backup, merge_s3,
  merge_sftp, if_set,
}
use supaback.Config.Environment.{FollowsEnv}
use supaback.Dict.{get, set}
use supaback.Store.{Store}
use supaback.Store
use supaback.Store.Migration.{Tables, new_store, migrate, exec_all, store_of, close}
use supaback.Store.Settings.{
  set_settings, upsert_all, transact, begun, begin_tx, prepared, after_upserts, commit_tx, upsert,
  rollback, get_all_settings,
}
use supaback.Store.Schedules.{list_schedules}
use supaback.Prelude.Sort.{sort_by}
use supaback.Scheduler.{load_and_start, load_all}
use supaback.Main.{
  Faults, App, startup, startup-FollowsEnv, with_settings, with_overrides, open_dest,
}
use supaback.Tests.{Table, ticker}

abbrev project : Env
project name = if text_eq name (codes "SUPABASE_URL") then codes "https://b.supabase.co" else []

abbrev pub calm : Faults
calm = record {
  opening = none;
  migration = λ k. none;
  read = none;
  tx = record { begin = none; prepare = none; exec = λ k. none; commit = none };
  schedules = none;
}

abbrev table : Store
table = record Store.new { settings = (Key.supabase_url, codes "https://a.supabase.co") ∷ [] }

abbrev file : Tables
file = close table

abbrev make : DestinationConfig → List Text → Result Text × List Text
make c w = (ok c.local_path, w)

abbrev started_app : App Text Table (List Text)
started_app = record {
  state = record {
    cfg = merge_from_map (merge_from_map defaults table.settings) (env_overrides project);
    dest = some (codes "./backups");
  };
  store = record Store.new { settings = (Key.supabase_url, codes "https://b.supabase.co") ∷ [] };
  scheduler = record { cron = ticker.empty; entries = [] };
  world = [];
}

starts : startup make ticker project calm (ok defaults) file [] ≡ ok started_app
unfolding startup new_store migrate exec_all store_of close with_settings with_overrides open_dest
    load_and_start load_all list_schedules merge_from_map merge_supabase merge_backup merge_s3
    merge_sftp if_set env_overrides override with_env get_all_settings set_settings upsert_all
    transact begun begin_tx prepared after_upserts commit_tx upsert rollback sort_by text_eq set get
starts = refl

startup-FollowsEnv_example : FollowsEnv project started_app.state.cfg
startup-FollowsEnv_example =
    startup-FollowsEnv make ticker project calm (ok defaults) file [] {a = started_app} starts
