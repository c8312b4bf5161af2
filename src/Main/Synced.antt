-- ===== src/Main/Synced.antt =====
-- A program that starts runs the schedules of its table.
use supaback.Prelude.{
  Text, [], ◌∷◌, Bool, Option, none, some, Result, ok, err, ◌≡◌, ◌≢◌, refl, ap, ◌∙◌,
}
use supaback.Dict.{Dict}
use supaback.Config.{Config, DestinationConfig, Env}
use supaback.Store.{Store}
use supaback.Store.Ids.{HasFreshIds, perform, perform-HasFreshIds, sets_settings}
use supaback.Store.Schedules.{list_schedules}
use supaback.Store.Settings.{TxFaults}
use supaback.Store.Settings.Tables.{set_settings_tables}
use supaback.Store.Migration.{Tables, new_store, store_of, new_store-kept}
use supaback.Cron.{Cron, IsCron}
use supaback.Scheduler
use supaback.Scheduler.{Scheduler, load_and_start}
use supaback.Api.Schedules
use supaback.Api.Schedules.Sync.{IsSynced}
use supaback.Api.Schedules.Sync.Startup.{load_and_start-IsSynced}
use supaback.Main
use supaback.Main.{Faults, App, startup, with_overrides}

-- Writing the overrides of the environment leaves the schedules alone.
with_overrides-kept :
    (tx : TxFaults) (over : Dict) (cfg : Config) (store : Store)
    → HasFreshIds store
    → HasFreshIds (with_overrides tx over cfg store).1
      × ((with_overrides tx over cfg store).1.schedules ≡ store.schedules)
      × ((with_overrides tx over cfg store).1.jobs ≡ store.jobs)
unfolding with_overrides perform
with_overrides-kept tx [] cfg store h = (h, refl, refl)
with_overrides-kept tx (o ∷ over) cfg store h = (
  perform-HasFreshIds (sets_settings tx (o ∷ over)) store h,
  (set_settings_tables tx (o ∷ over) store).2,
  (set_settings_tables tx (o ∷ over) store).0,
)

module _ {C : Type 0} (cron : Cron C) {parses : Text → Bool} (lawful : IsCron cron parses) where
  refused : (x : Text) → ◌≢◌ {A = Result (Unit {0})} (err x) (ok tt)
  refused x q = cc

  loaded :
      (e : Option Text) (store : Store)
      → (load_and_start cron e store (Scheduler.new cron)).0 ≡ ok tt
      → HasFreshIds store
      → IsSynced cron parses (record {
        store = store;
        scheduler = (load_and_start cron e store (Scheduler.new cron)).1;
      })
  unfolding load_and_start list_schedules
  loaded none store h fresh = (load_and_start-IsSynced cron lawful store fresh).1
  loaded (some e) store h fresh = absurd (refused _ h)

module _ {D C W : Type 0} (new_dest : DestinationConfig → W → Result D × W) (cron : Cron C) where
  -- The part of the program that the schedules stand in.
  abbrev pub schedules_of : App D C W → Schedules.App C
  schedules_of a = record { store = a.store; scheduler = a.scheduler }

  finished :
      (cfg : Config) (store : Store) (d : Option D × W) (r : Result (Unit {0}) × Scheduler C)
      {a : App D C W}
      → Main.finish new_dest cron cfg store d r ≡ ok a
      → (r.0 ≡ ok tt) × (schedules_of a ≡ record { store = store; scheduler = r.1 })
  unfolding Main.finish
  finished cfg store (dest, w) (ok u, sched) {a} h = (refl, cc)
  finished cfg store (dest, w) (err e, sched) {a} h = cc

  module _ {parses : Text → Bool} (lawful : IsCron cron parses) where
    with_store-IsSynced :
        (env : Env) (f : Faults) (file : Config) (r : Result Store) (held : Store) (w : W)
        {a : App D C W}
        → ((s : Store) → r ≡ ok s → s ≡ held)
        → HasFreshIds held
        → Main.with_store new_dest cron env f file r w ≡ ok a
        → IsSynced cron parses (schedules_of a)
          × (a.store.schedules ≡ held.schedules)
          × (a.store.jobs ≡ held.jobs)
    unfolding Main.with_store
    with_store-IsSynced env f file (err e) held w {a} same fresh h = cc
    with_store-IsSynced env f file (ok store) held w {a} same fresh h =
        let (r, e) = finished _ _ _ _ {a = a} h in
        let kept = with_overrides-kept f.tx _ _ store (rw (same store refl) fresh) in
        (
          rw e (loaded cron lawful f.schedules _ r kept.0),
          ap (λ (x : Schedules.App C). x.store.schedules) e
              ∙ (kept.1 ∙ ap (λ (x : Store). x.schedules) (same store refl)),
          ap (λ (x : Schedules.App C). x.store.jobs) e
              ∙ (kept.2 ∙ ap (λ (x : Store). x.jobs) (same store refl)),
        )

    -- A program that starts from a database file whose ids ascend has cron in step with its table,
    -- and its schedules and jobs are those of the file.
    pub startup-IsSynced :
        (env : Env) (f : Faults) (config : Result Config) (tables : Tables) (w : W) {a : App D C W}
        → HasFreshIds (store_of tables)
        → startup new_dest cron env f config tables w ≡ ok a
        → IsSynced cron parses (schedules_of a)
          × (a.store.schedules ≡ (store_of tables).schedules)
          × (a.store.jobs ≡ (store_of tables).jobs)
    unfolding startup Main.started
    startup-IsSynced env f (err e) tables w {a} fresh h = cc
    startup-IsSynced env f (ok file) tables w {a} fresh h =
        with_store-IsSynced env f file (new_store f.opening f.migration tables).0 (store_of tables)
          w {a = a} (λ s q. new_store-kept f.opening f.migration tables q) fresh h
