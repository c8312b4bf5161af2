-- ===== src/Main.antt =====
-- cmd/supaback/main.go: from the configuration file to the scheduler, and the calls deferred to the
-- end.
pub mod Synced
use supaback.Prelude.{
  ℕ, Text, codes, [], ◌∷◌, Option, none, some, Result, ok, err, ◌≡◌, ◌≢◌, refl, sym, ap,
  if◌then◌else◌, is_empty,
}
use supaback.Dict.{Dict}
use supaback.Config.{Config, DestinationConfig, Env, no_s3, no_sftp}
use supaback.Dict
use supaback.Config.Settings.{
  merge_supabase, merge_backup, merge_retention, merge_s3, merge_sftp, if_set, if_present,
  merge_from_map, env_overrides,
}
use supaback.Config.Environment.{FollowsEnv, merge-env_overrides}
use supaback.Store.{Store, Fault}
use supaback.Store.Migration.{Tables, new_store, close}
use supaback.Store.Settings.{TxFaults, set_settings, get_all_settings}
use supaback.AppState.{State}
use supaback.AppState
use supaback.Cron.{Cron}
use supaback.Scheduler.{Scheduler, load_and_start, stop}
use supaback.Scheduler

-- The driver's failures while the program starts.
pub record Faults : Type 0 where
  pub opening : Fault
  pub migration : ℕ → Fault
  pub read : Fault
  pub tx : TxFaults
  pub schedules : Fault

-- `cfg = config.MergeFromMap(cfg, dbSettings)`, or a warning.
unfoldable pub with_settings : Config → Result Dict → Config
with_settings cfg (err e) = cfg
with_settings cfg (ok db) = merge_from_map cfg db

-- The overrides of the environment, which are also written to the table; an error of that is logged.
unfoldable pub with_overrides : TxFaults → Dict → Config → Store → Config × Store
with_overrides tx over cfg store =
    if is_empty over
    then (cfg, store)
    else (merge_from_map cfg over, (set_settings tx over store).1)

merge_from_map-nil : (c : Config) → merge_from_map c [] ≡ c
unfolding merge_from_map merge_supabase merge_backup merge_retention merge_s3 merge_sftp if_set
    if_present Dict.get
merge_from_map-nil c = refl

overridden :
    (tx : TxFaults) (over : Dict) (cfg : Config) (store : Store)
    → (with_overrides tx over cfg store).0 ≡ merge_from_map cfg over
unfolding with_overrides
overridden tx [] cfg store = sym (merge_from_map-nil cfg)
overridden tx (o ∷ over) cfg store = refl

-- `fallbackCfg`.
abbrev pub fallback : DestinationConfig
fallback = record {
  type = codes "local";
  local_path = codes "./backups";
  s3 = no_s3;
  sftp = no_sftp;
}

-- What the program starts with. `none` stands for the nil that `destination.New` returns beside an
-- error, which the fallback does not look at.
pub record App (D C W : Type 0) : Type 0 where
  pub state : State (Option D)
  pub store : Store
  pub scheduler : Scheduler C
  pub world : W

module _ {D W : Type 0} (new_dest : DestinationConfig → W → Result D × W) where
  or_nil : Result D × W → Option D × W
  or_nil (ok d, w) = (some d, w)
  or_nil (err e, w) = (none, w)

  or_fallback : Result D × W → Option D × W
  unfolding or_nil
  or_fallback (ok d, w) = (some d, w)
  or_fallback (err e, w) = or_nil (new_dest fallback w)

  -- The destination of a configuration.
  unfoldable pub open_dest : DestinationConfig → W → Option D × W
  unfolding or_fallback
  open_dest c w = or_fallback (new_dest c w)

  module _ {C : Type 0} (cron : Cron C) where
    finish : Config → Store → Option D × W → Result (Unit {0}) × Scheduler C → Result (App D C W)
    finish cfg store (dest, w) (ok _, sched) =
        ok (record { state = AppState.new cfg dest; store = store; scheduler = sched; world = w })
    finish cfg store (dest, w) (err e, sched) = err e

    with_store : Env → Faults → Config → Result Store → W → Result (App D C W)
    unfolding finish
    with_store env f file (err e) w = err e
    with_store env f file (ok store) w =
        let (cfg, store') =
          with_overrides f.tx (env_overrides env)
            (with_settings file (get_all_settings f.read store)) store in
        finish cfg store' (open_dest cfg.destination w)
          (load_and_start cron f.schedules store' (Scheduler.new cron))

    started : Env → Faults → Result Config → Tables → W → Result (App D C W)
    unfolding with_store
    started env f (err e) tables w = err e
    started env f (ok file) tables w =
        with_store env f file (new_store f.opening f.migration tables).0 w

    -- `main`, up to the server: an error ends the program. `config` is what `Load` returns, and the
    -- tables are those of the database file.
    unfoldable pub startup : Env → Faults → Result Config → Tables → W → Result (App D C W)
    unfolding started
    startup env f config tables w = started env f config tables w

    -- The end of `main`, after a signal: the deferred calls.
    unfoldable pub shut_down : Scheduler C → Store → Scheduler C × Tables
    shut_down sched store = (stop cron sched, close store)

    no_start : (e : Text) {a : App D C W} → ◌≢◌ {A = Result (App D C W)} (err e) (ok a)
    no_start e h = cc

    ok-ok : {x y : App D C W} → ok x ≡ ok y → x ≡ y
    ok-ok h = cc

    finish-cfg :
        (cfg : Config) (store : Store) (d : Option D × W) (r : Result (Unit {0}) × Scheduler C)
        {a : App D C W}
        → finish cfg store d r ≡ ok a
        → a.state.cfg ≡ cfg
    unfolding finish
    finish-cfg cfg store (dest, w) (ok u, sched) h =
        ap (λ (x : App D C W). x.state.cfg) (sym (ok-ok h))
    finish-cfg cfg store (dest, w) (err e, sched) h = absurd (no_start e h)

    with_store-FollowsEnv :
        (env : Env) (f : Faults) (file : Config) (store : Result Store) (w : W) {a : App D C W}
        → with_store env f file store w ≡ ok a
        → FollowsEnv env a.state.cfg
    unfolding with_store
    with_store-FollowsEnv env f file (err e) w h = absurd (no_start e h)
    with_store-FollowsEnv env f file (ok store) w h =
        rw (finish-cfg _ _ _ _ h, overridden f.tx (env_overrides env) _ store)
          (merge-env_overrides env (with_settings file (get_all_settings f.read store)))

    -- Every variable of the environment that `EnvOverrides` covers and that is set gives its field
    -- of the configuration that the program starts with, whatever the file and the table say.
    pub startup-FollowsEnv :
        (env : Env) (f : Faults) (config : Result Config) (tables : Tables) (w : W) {a : App D C W}
        → startup env f config tables w ≡ ok a
        → FollowsEnv env a.state.cfg
    unfolding startup
    startup-FollowsEnv env f (err e) tables w h = absurd (no_start e h)
    startup-FollowsEnv env f (ok file) tables w h =
        with_store-FollowsEnv env f file (new_store f.opening f.migration tables).0 w h
