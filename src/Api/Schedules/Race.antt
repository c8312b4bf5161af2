-- ===== src/Api/Schedules/Race.antt =====
-- Two requests for one schedule at a time: the handlers share no lock.
use supaback.Prelude.{Text, Bool, true, none, some, Result, ok, err, ◌≡◌, refl, ◌∙◌}
use supaback.Prelude.Int.{ℤ, int_eq_iff}
use supaback.Store.{Store, Schedule}
use supaback.Store.Schedules.{
  find_row, delete_rows, update_rows, set_enabled, get_schedule, toggle_schedule, delete_schedule,
}
use supaback.Store.Schedules.Rows.{find_row-delete}
use supaback.Cron.{Cron, IsCron}
use supaback.Scheduler.{Scheduler, make_job, register, remove}
use supaback.Scheduler
use supaback.Scheduler.Linked.{IsLinked, running, remove-IsLinked}
use supaback.Scheduler.Linked.Running.{running-register}
use supaback.Api.Schedules
use supaback.Api.Schedules.{App, Env, removed, delete_row, toggle}
use supaback.Api.Schedules.Sync.{NoFault}

module _ {C : Type 0} (cron : Cron C) {parses : Text → Bool} (lawful : IsCron cron parses) where
  deleted-app :
      (env : Env) (id : ℤ) (a : App C)
      → env.write_fault ≡ none
      → (delete_row cron env id a).1 ≡ record {
        store = record a.store { schedules = delete_rows id a.store.schedules };
        scheduler = a.scheduler;
      }
  unfolding delete_row Schedules.deleted delete_schedule
  deleted-app env id a n = rw n refl

  enabled-app :
      (sc : Schedule) (store : Store) (r : Result (Unit {0}) × Scheduler C)
      → (Schedules.enabled cron sc true store r).1 ≡ record { store = store; scheduler = r.1 }
  unfolding Schedules.enabled
  enabled-app sc store (ok u, sched) = refl
  enabled-app sc store (err e, sched) = refl

  toggled-app :
      (env : Env) (id : ℤ) (sc : Schedule) (a : App C)
      → NoFault env
      → find_row id a.store.schedules ≡ some sc
      → (toggle cron env (some id) (some true) a).1 ≡ record {
        store = record a.store { schedules = update_rows (set_enabled true) id a.store.schedules };
        scheduler = (register cron id sc.cron_expr sc.type a.scheduler).1;
      }
  unfolding toggle get_schedule Schedules.found Schedules.toggled toggle_schedule
      Scheduler.set_enabled
  toggled-app env id sc a n f =
      rw (n.read, f, n.write) (enabled-app sc _ (register cron id sc.cron_expr sc.type a.scheduler))

  -- Where `ToggleSchedule` enables a schedule between the two steps of `DeleteSchedule` for it, and
  -- cron takes its expression, the row is gone and cron goes on running its job.
  pub delete_toggle_race :
      (env env' : Env) (id : ℤ) (a : App C) (sc : Schedule)
      → NoFault env
      → env'.write_fault ≡ none
      → IsLinked cron a.scheduler
      → find_row id a.store.schedules ≡ some sc
      → parses sc.cron_expr ≡ true
      → let b =
          (delete_row cron env' id
            (toggle cron env (some id) (some true) (removed cron id a)).1).1 in
        (find_row id b.store.schedules ≡ none)
        × (running cron b.scheduler id ≡ some (make_job id sc.cron_expr sc.type))
  unfolding removed
  delete_toggle_race env env' id a sc n n' l f p =
      let halfway = removed cron id a in
      let e = toggled-app env id sc halfway n f in
      let b = (toggle cron env (some id) (some true) halfway).1 in
      rw (deleted-app env' id b n', e)
        (
          find_row-delete id id (update_rows (set_enabled true) id a.store.schedules)
              ∙ (rw ((int_eq_iff id id).1 refl) refl),
          (running-register cron lawful id id sc.cron_expr sc.type (remove cron id a.scheduler)
                (remove-IsLinked cron lawful id a.scheduler l)).0
              ∙ (rw ((int_eq_iff id id).1 refl, p) refl),
        )
