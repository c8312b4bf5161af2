-- ===== src/Scheduler/Firing.antt =====
-- internal/scheduler/scheduler.go: what `makeJob` makes cron do when an entry is due.
use supaback.Prelude.{
  ℕ, Text, codes, List, [], ◌∷◌, ◌++◌, map, true, Option, none, some, ◌≡◌, ◌⊎◌, refl, ap, ◌∙◌,
  if◌then◌else◌,
}
use supaback.Prelude.Int.{ℤ, int_eq}
use supaback.Runner.Records.{Ends, Said, status_of-Said, back_up-Ends}
use supaback.Config.{Config, validate, for_type}
use supaback.Store.{Store, Job, Schedule, Fault}
use supaback.Store.Schedules.{touch_schedule, update_rows, set_last_run}
use supaback.Store.Ids.{HasFreshIds, perform, touches_schedule, perform-HasFreshIds}
use supaback.Cron.{CronJob}
use supaback.AppState.{State, get}
use supaback.Destination.{Destination}
use supaback.Runner.{Backups, Run, Progress, back_up, run}
use supaback.Runner.Outcome.{finished_job, run-finished_job, job_type-for_type}

last_run_rows :
    (now : ℕ) (id : ℤ) (scs : List Schedule)
    → update_rows (set_last_run now) id scs
      ≡ map (λ sc. if int_eq sc.id id then record sc { last_run_at = some now } else sc) scs
unfolding update_rows
last_run_rows now id [] = refl
last_run_rows now id (sc ∷ scs) =
    ap (◌∷◌ (if int_eq sc.id id then record sc { last_run_at = some now } else sc))
      (last_run_rows now id scs)

module _ {W : Type 0} (backups : Backups W) where
  -- The configuration and the destination are those in use when the entry is due; the errors of
  -- `TouchSchedule` and of the run are dropped or logged.
  unfoldable pub fire : State (Destination W) → CronJob → Fault → ℕ → Run → Store → W → Store × W
  unfolding get
  fire state j touch_fault now r s w =
      let touched = (touch_schedule touch_fault now j.schedule_id s).1 in
      let (cfg, dest) = get state in
      let (_, s', w') = run backups dest r (for_type j.job_type cfg) touched w in (s', w')

  -- With a configuration that includes both halves and is valid for the type of the schedule, which
  -- is one of the three, and a driver that does not fail, an entry that is due sets the last run of
  -- the row of its own schedule and changes no other, and adds one job, finished and of the type of
  -- the schedule: a success with the bytes of the halves, or failed with the message of the half
  -- that failed.
  pub fire_records :
      (state : State (Destination W)) (j : CronJob) (now : ℕ) (r : Run) (s : Store) (w : W)
      → HasFreshIds s
      → state.cfg.backup.include_database ≡ true
      → state.cfg.backup.include_storage ≡ true
      → (j.job_type ≡ codes "full")
        ⊎ ((j.job_type ≡ codes "database") ⊎ (j.job_type ≡ codes "storage"))
      → validate (for_type j.job_type state.cfg) ≡ none
      → r.create_fault ≡ none
      → r.complete_fault ≡ none
      → let s' = (fire state j none now r s w).0 in
        (s'.schedules
          ≡ map
              (λ sc.
                if int_eq sc.id j.schedule_id then record sc { last_run_at = some now } else sc)
              s.schedules)
        × (t : ℤ) × (o : Option Text) × (job : Job) × (s'.jobs ≡ s.jobs ++ job ∷ [])
        × (job.type ≡ j.job_type)
        × (job.finished_at ≡ some r.finished)
        × Ends backups (for_type j.job_type state.cfg) w t o
        × Said o job.status job.error_msg
        × (job.size_bytes ≡ t)
  unfolding fire touch_schedule perform
  fire_records state j now r s w fresh database storage known valid created completed =
      let (_, recorded) =
        run-finished_job backups state.dest r c touched w
          (perform-HasFreshIds (touches_schedule none now j.schedule_id) s fresh) valid created
          completed in
      (
        ap (λ (t : Store). t.schedules) recorded ∙ last_run_rows now j.schedule_id s.schedules,
        p.total_bytes,
        p.run_err,
        finished_job backups state.dest r c touched p,
        ap (λ (t : Store). t.jobs) recorded,
        job_type-for_type state.cfg j.job_type database storage known,
        refl,
        back_up-Ends backups state.dest c w,
        status_of-Said p.run_err,
        refl,
      )
    where
      c : Config
      c = for_type j.job_type state.cfg

      p : Progress
      p = (back_up backups state.dest c w).0

      touched : Store
      touched = record s { schedules = update_rows (set_last_run now) j.schedule_id s.schedules }
