-- ===== src/Program/Jobs.antt =====
-- A job in the background is a sequence of the program's events.
use mathlib.Core.Path.{subst}
use supaback.Prelude.{
  ℕ, Text, List, [], ◌∷◌, Bool, Option, none, some, Result, ok, err, ◌≡◌, refl, All,
}
use supaback.Prelude.Int.{ℤ}
use supaback.Config.{Config, DestinationConfig, validate, for_type}
use supaback.AppState.{get}
use supaback.Store.{Store, Fault}
use supaback.Store.Ids.{perform, touches_schedule}
use supaback.Store.Jobs.{create_job}
use supaback.Cron.{Cron, CronJob, IsCron}
use supaback.Destination.{Destination}
use supaback.Runner.{
  Backups, Run, run, run_validated, run_created, run_job, back_up, job_type, status_of, message_of,
  retain,
}
use supaback.Scheduler.Firing.{fire}
use supaback.Api.Server.{Handler}
use supaback.Program.Synced.{RunsTable, after_all-RunsTable}
use supaback.Program.{Event, serves, touches, begins, ends, leaves, after, after_all, IsCalm}

-- An event of a job, and of no request.
abbrev pub IsJob : {W : Type 0} → Event W → Type 0
IsJob (serves env req) = ⊥
IsJob (touches f now id) = Unit
IsJob (begins f now t d) = Unit
IsJob (ends f now id st size msg) = Unit
IsJob (leaves w) = Unit

job-IsCalm : {W : Type 0} (e : Event W) → IsJob e → IsCalm e
job-IsCalm (serves env req) j = absurd j
job-IsCalm (touches f now id) j = tt
job-IsCalm (begins f now t d) j = tt
job-IsCalm (ends f now id st size msg) j = tt
job-IsCalm (leaves w) j = tt

jobs-IsCalm : {W : Type 0} (es : List (Event W)) → All IsJob es → All IsCalm es
jobs-IsCalm [] j = tt
jobs-IsCalm (e ∷ es) j = (job-IsCalm e j.0, jobs-IsCalm es j.1)

module _ {C W : Type 0} (cron : Cron C)
    (new_dest : DestinationConfig → W → Result (Destination W) × W) (static_dir : Option Text)
    (backups : Backups W) where
  -- Events of a job that lead to a store and a world.
  abbrev Leads : Handler C W → Store → W → Type 0
  Leads h s w =
      (es : List (Event W)) × All IsJob es
      × (after_all cron new_dest static_dir es h ≡ record h { store = s; world = w })

  job-Leads :
      (r : Run) (dest : Destination W) (c : Config) (h : Handler C W) (created : Result ℤ)
      → Leads h
          (run_created backups dest r c created h.store h.world).1
          (run_created backups dest r c created h.store h.world).2
  unfolding run_created run_job after_all after perform
  job-Leads r dest c h (err e) = ([], tt, refl)
  job-Leads r dest c h (ok id) =
      let p = (back_up backups dest c h.world).0 in
      (
        ends r.complete_fault r.finished id (status_of p.run_err) p.total_bytes
              (message_of p.run_err)
            ∷ leaves (
                retain backups dest p.run_err c.backup.retention r.swept
                  (back_up backups dest c h.world).1)
            ∷ [],
        (tt, (tt, tt)),
        refl,
      )

  validated-Leads :
      (r : Run) (dest : Destination W) (c : Config) (h : Handler C W) (valid : Option Text)
      → Leads h
          (run_validated backups dest r c valid h.store h.world).1
          (run_validated backups dest r c valid h.store h.world).2
  unfolding run_validated after_all after perform
  validated-Leads r dest c h (some e) = ([], tt, refl)
  validated-Leads r dest c h none =
      let created = create_job r.create_fault r.started (job_type c) dest.name h.store in
      let (es, n, e) = job-Leads r dest c (record h { store = created.1 }) created.0 in
      (begins r.create_fault r.started (job_type c) dest.name ∷ es, (tt, n), e)

  -- A run, as a whole, does to the program what some sequence of the events of a job does.
  run-Leads :
      (r : Run) (dest : Destination W) (c : Config) (h : Handler C W)
      → Leads h (run backups dest r c h.store h.world).1 (run backups dest r c h.store h.world).2
  unfolding run
  run-Leads r dest c h = validated-Leads r dest c h (validate c)

  -- An entry of cron that is due does what its touch and a run do.
  fire-Leads :
      (j : CronJob) (f : Fault) (now : ℕ) (r : Run) (h : Handler C W)
      → Leads h
          (fire backups h.state j f now r h.store h.world).0
          (fire backups h.state j f now r h.store h.world).1
  unfolding fire after_all after perform get
  fire-Leads j f now r h =
      let touched = perform (touches_schedule f now j.schedule_id) h.store in
      let (es, n, e) =
        run-Leads r h.state.dest (for_type j.job_type h.state.cfg) (record h { store = touched }) in
      (touches f now j.schedule_id ∷ es, (tt, n), e)

  -- An entry that is due, and all of its job, leaves cron in step with the table.
  fire-RunsTable :
      {parses : Text → Bool} (lawful : IsCron cron parses) (j : CronJob) (f : Fault) (now : ℕ)
      (r : Run) (h : Handler C W)
      → RunsTable cron parses h
      → RunsTable cron parses (record h {
        store = (fire backups h.state j f now r h.store h.world).0;
        world = (fire backups h.state j f now r h.store h.world).1;
      })
  fire-RunsTable {parses} lawful j f now r h s =
      let (es, n, e) = fire-Leads j f now r h in
      subst (RunsTable cron parses) e
        (after_all-RunsTable cron lawful new_dest static_dir es h (jobs-IsCalm es n) s)
