-- ===== src/Scheduler.antt =====
-- internal/scheduler/scheduler.go: the cron entries of the schedules.
pub mod EntryMap
pub mod Linked
pub mod Firing
use supaback.Prelude.{
  ℕ, Text, codes, List, [], ◌∷◌, ◌++◌, Bool, true, false, Option, none, some, Result, ok, err,
  ◌>>=◌, if◌then◌else◌,
}
use supaback.Prelude.Int.{ℤ}
use supaback.Store.{Store, Schedule, Fault}
use supaback.Store.Schedules.{list_schedules}
use supaback.Cron.{Cron, CronJob}
use EntryMap.{Entries, entry_of, set_entry, delete_entry}

-- `entries` is the map from schedule ids to cron entry ids.
pub record Scheduler (C : Type 0) : Type 0 where
  pub cron : C
  pub entries : Entries

-- `s.makeJob(scheduleID, jobType)`, and the expression at which cron runs it.
abbrev pub make_job : ℤ → Text → Text → CronJob
make_job id expr job_type = record { expr = expr; schedule_id = id; job_type = job_type }

module _ {C : Type 0} (cron : Cron C) where
  -- `New`.
  abbrev pub new : Scheduler C
  new = record { cron = cron.empty; entries = [] }

  -- `if id, ok := s.entries[scheduleID]; ok { s.cron.Remove(id) }`
  unfoldable pub drop_entry : Option ℕ → C → C
  drop_entry none c = c
  drop_entry (some i) c = cron.remove i c

  -- After `AddFunc`: the entry is recorded where it returned no error.
  unfoldable pub record_entry : ℤ → Text → Entries → Result ℕ × C → Result (Unit {0}) × Scheduler C
  record_entry id expr entries (ok i, c) =
      (ok tt, record { cron = c; entries = set_entry entries id i })
  record_entry id expr entries (err e, c) = (
    err (codes "invalid cron expression " ++ (expr ++ (codes ": " ++ e))),
    record { cron = c; entries = entries },
  )

  -- `register`.
  unfoldable pub register : ℤ → Text → Text → Scheduler C → Result (Unit {0}) × Scheduler C
  register id expr job_type s =
      record_entry id expr s.entries
        (cron.add_func (make_job id expr job_type) (drop_entry (entry_of s.entries id) s.cron))

  -- `Add`.
  unfoldable pub add : ℤ → Text → Text → Scheduler C → Result (Unit {0}) × Scheduler C
  add = register

  -- `Remove`.
  unfoldable pub remove : ℤ → Scheduler C → Scheduler C
  remove id s = elim (entry_of s.entries id) [
    | none ↦ s
    | some i ↦ record { cron = cron.remove i s.cron; entries = delete_entry s.entries id }
  ]

  -- `SetEnabled`.
  unfoldable pub set_enabled :
      ℤ → Text → Text → Bool → Scheduler C → Result (Unit {0}) × Scheduler C
  set_enabled id expr job_type true s = register id expr job_type s
  set_enabled id expr job_type false s = (ok tt, remove id s)

  -- The loop of `LoadAndStart`, which logs a schedule that cannot be registered and goes on.
  unfoldable pub load_all : List Schedule → Scheduler C → Scheduler C
  load_all [] s = s
  load_all (sc ∷ scs) s =
      load_all scs (if sc.enabled then (register sc.id sc.cron_expr sc.type s).1 else s)

  -- `LoadAndStart`.
  unfoldable pub load_and_start : Fault → Store → Scheduler C → Result (Unit {0}) × Scheduler C
  load_and_start fault store s = elim (list_schedules fault store) [
    | err e ↦ (err (codes "load schedules: " ++ e), s)
    | ok scs ↦
        let loaded = load_all scs s in (ok tt, record loaded { cron = cron.start loaded.cron })
  ]

  -- `Stop`.
  unfoldable pub stop : Scheduler C → Scheduler C
  stop s = record s { cron = cron.stop s.cron }
