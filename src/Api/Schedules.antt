-- ===== src/Api/Schedules.antt =====
-- internal/api/handlers.go: the handlers of the schedules.
pub mod Sync
pub mod Race
use supaback.Prelude.{
  ℕ, Text, codes, is_empty, List, [], ◌∷◌, ◌++◌, Bool, true, false, ◌&&◌, ◌||◌, Option, none, some,
  Result, ok, err, if◌then◌else◌,
}
use supaback.Prelude.Int.{ℤ}
use supaback.Strconv.{parse_int, trim_space}
use supaback.Store.{Store, Schedule, Fault}
use supaback.Store.Schedules.{
  create_schedule, list_schedules, get_schedule, delete_schedule, toggle_schedule,
}
use supaback.Cron.{Cron}
use supaback.Scheduler.{Scheduler, add, remove}
use supaback.Scheduler
use supaback.Api.{Response, Body, schedule, schedules, no_content, respond, fail}

-- What the handlers of the schedules share.
pub record App (C : Type 0) : Type 0 where
  pub store : Store
  pub scheduler : Scheduler C

-- The driver's failures during one request, and the time.
pub record Env : Type 0 where
  pub now : ℕ
  pub read_fault : Fault
  pub write_fault : Fault
  pub undo_fault : Fault

-- `createScheduleRequest`.
pub record CreateRequest : Type 0 where
  pub name : Text
  pub cron_expr : Text
  pub type : Text

or_full : Text → Text
or_full [] = codes "full"
or_full (c ∷ s) = c ∷ s

-- `parseID`: the id, if it is a number.
id_of : ℤ × Bool → Option ℤ
id_of (n, true) = some n
id_of (n, false) = none

unfoldable pub parse_id : Text → Option ℤ
unfolding id_of
parse_id s = id_of (parse_int s)

module _ {C : Type 0} (cron : Cron C) where
  -- `ListSchedules`.
  list : Result (List Schedule) → Response
  list (ok scs) = respond 200 (schedules scs)
  list (err e) = fail 500 e

  unfoldable pub list_handler : Env → App C → Response
  unfolding list
  list_handler env a = list (list_schedules env.read_fault a.store)

  -- After `h.scheduler.Add`: a refused expression takes the row back out.
  unfoldable pub added : Env → Schedule → Store → Result (Unit {0}) × Scheduler C → Response × App C
  added env sc store (ok _, sched) =
      (respond 201 (schedule sc), record { store = store; scheduler = sched })
  added env sc store (err e, sched) = (
    fail 400 e,
    record { store = (delete_schedule env.undo_fault sc.id store).1; scheduler = sched },
  )

  unfoldable pub created : Env → Scheduler C → Result Schedule × Store → Response × App C
  created env sched (err e, store) = (fail 500 e, record { store = store; scheduler = sched })
  created env sched (ok sc, store) = added env sc store (add cron sc.id sc.cron_expr sc.type sched)

  -- `CreateSchedule`.
  unfoldable pub create : Env → Option CreateRequest → App C → Response × App C
  unfolding or_full
  create env none a = (fail 400 (codes "invalid JSON"), a)
  create env (some req) a =
      let name = trim_space req.name in
      let expr = trim_space req.cron_expr in
      if is_empty name || is_empty expr
      then (fail 400 (codes "name and cron_expr are required"), a)
      else created env a.scheduler
          (create_schedule env.write_fault env.now name expr (or_full req.type) a.store)

  -- After `h.store.DeleteSchedule`.
  deleted : Scheduler C → Result (Unit {0}) × Store → Response × App C
  deleted sched (ok _, store) =
      (respond 204 no_content, record { store = store; scheduler = sched })
  deleted sched (err e, store) = (fail 500 e, record { store = store; scheduler = sched })

  -- `h.scheduler.Remove`, and then the delete of the row.
  unfoldable pub removed : ℤ → App C → App C
  removed id a = record a { scheduler = remove cron id a.scheduler }

  unfoldable pub delete_row : Env → ℤ → App C → Response × App C
  unfolding deleted
  delete_row env id a = deleted a.scheduler (delete_schedule env.write_fault id a.store)

  -- `DeleteSchedule`, for the `id` of the path.
  unfoldable pub delete : Env → Option ℤ → App C → Response × App C
  unfolding removed delete_row
  delete env none a = (fail 400 (codes "invalid id"), a)
  delete env (some id) a = delete_row env id (removed id a)

  enabled : Schedule → Bool → Store → Result (Unit {0}) × Scheduler C → Response × App C
  enabled sc on store (ok _, sched) = (
    respond 200 (schedule (record sc { enabled = on })),
    record { store = store; scheduler = sched },
  )
  enabled sc on store (err e, sched) = (fail 400 e, record { store = store; scheduler = sched })

  toggled : ℤ → Schedule → Bool → Scheduler C → Result (Unit {0}) × Store → Response × App C
  unfolding enabled
  toggled id sc on sched (err e, store) = (fail 500 e, record { store = store; scheduler = sched })
  toggled id sc on sched (ok _, store) =
      enabled sc on store (Scheduler.set_enabled cron id sc.cron_expr sc.type on sched)

  found : Env → ℤ → Bool → Result (Option Schedule) → App C → Response × App C
  unfolding toggled
  found env id on (err e) a = (fail 404 (codes "schedule not found"), a)
  found env id on (ok none) a = (fail 404 (codes "schedule not found"), a)
  found env id on (ok (some sc)) a =
      toggled id sc on a.scheduler (toggle_schedule env.write_fault id on a.store)

  -- `ToggleSchedule`.
  unfoldable pub toggle : Env → Option ℤ → Option Bool → App C → Response × App C
  unfolding found
  toggle env none req a = (fail 400 (codes "invalid id"), a)
  toggle env (some id) none a = (fail 400 (codes "invalid JSON"), a)
  toggle env (some id) (some on) a = found env id on (get_schedule env.read_fault id a.store) a
