-- ===== src/Program/Fired.antt =====
-- The events of the program that an entry of cron makes when it is due.
use mathlib.Core.Path.{subst}
use supaback.Prelude.{ℕ, suc, Text, List, [], ◌∷◌, Option, none, some, Result, ◌≡◌, refl}
use supaback.Prelude.Int.{ℤ, pos}
use supaback.Config.{Config, DestinationConfig, validate, for_type}
use supaback.AppState.{get}
use supaback.Store.{Store, Fault, JobStatus}
use supaback.Store.Ids.{perform, touches_schedule}
use supaback.Store.Jobs.{create_job}
use supaback.Store.Schedules.{touch_schedule}
use supaback.Cron.{Cron, CronJob}
use supaback.Destination.{Destination}
use supaback.Runner.{
  Backups, Run, run, run_validated, run_created, run_job, back_up, job_type, status_of, message_of,
}
use supaback.Runner.Records.{Ends, Said, status_of-Said, Typed, back_up-Ends, job_type-Typed}
use supaback.Scheduler.Firing.{fire}
use supaback.Api.Server.{Handler}
use supaback.Program.{Event, touches, begins, ends, leaves, after, after_all}

module _ {W : Type 0} (backups : Backups W) where
  -- The events of one run, by what stops it, from a world to another: none where the configuration
  -- is not valid; the failed insert of its record; or the insert, the end, under the id of that
  -- record and with the status, the bytes and the message of the backup, and the world that is
  -- left.
  pub data JobEvents (r : Run) (dest : Destination W) (c : Config) (seq : ℕ) (w w' : W)
      : List (Event W) → Type 0 where
    unconfigured : (e : Text) → validate c ≡ some e → w' ≡ w → JobEvents r dest c seq w w' []
    unrecorded :
        (e type : Text)
        → validate c ≡ none
        → r.create_fault ≡ some e
        → Typed c.backup.include_database c.backup.include_storage type
        → w' ≡ w
        → JobEvents r dest c seq w w' (begins (some e) r.started type dest.name ∷ [])
    recorded :
        (o : Option Text) (size : ℤ) (status : JobStatus) (msg type : Text)
        → validate c ≡ none
        → r.create_fault ≡ none
        → Typed c.backup.include_database c.backup.include_storage type
        → Ends backups c w size o
        → Said o status msg
        → JobEvents r dest c seq w w' (
            begins none r.started type dest.name
            ∷ ends r.complete_fault r.finished (pos (suc seq)) status size msg
            ∷ leaves w'
            ∷ [])

module _ {C W : Type 0} (cron : Cron C)
    (new_dest : DestinationConfig → W → Result (Destination W) × W) (static_dir : Option Text)
    (backups : Backups W) where
  -- Events of a run that lead to a store and a world.
  abbrev LeadTo : Run → Destination W → Config → Handler C W → Store → W → Type 0
  LeadTo r dest c h s w =
      (es : List (Event W)) × JobEvents backups r dest c h.store.jobs_seq h.world w es
      × (after_all cron new_dest static_dir es h ≡ record h { store = s; world = w })

  created_events :
      (r : Run) (dest : Destination W) (c : Config) (h : Handler C W) (fault : Fault)
      → validate c ≡ none
      → r.create_fault ≡ fault
      → let (created, s) = create_job fault r.started (job_type c) dest.name h.store in
        let (_, s', w') = run_created backups dest r c created s h.world in LeadTo r dest c h s' w'
  unfolding create_job run_created run_job after_all after perform
  created_events r dest c h (some e) v f = (
    begins (some e) r.started (job_type c) dest.name ∷ [],
    unrecorded e (job_type c) v f (job_type-Typed backups dest c) refl,
    refl,
  )
  created_events r dest c h none v f =
      let p = (back_up backups dest c h.world).0 in
      (
        _,
        recorded p.run_err p.total_bytes (status_of p.run_err) (message_of p.run_err) (job_type c) v
            f (job_type-Typed backups dest c) (back_up-Ends backups dest c h.world)
            (status_of-Said p.run_err),
        refl,
      )

  validated_events :
      (r : Run) (dest : Destination W) (c : Config) (h : Handler C W) (valid : Option Text)
      → validate c ≡ valid
      → let (_, s', w') = run_validated backups dest r c valid h.store h.world in
        LeadTo r dest c h s' w'
  unfolding run_validated after_all
  validated_events r dest c h (some e) v = ([], unconfigured e v refl, refl)
  validated_events r dest c h none v = created_events r dest c h r.create_fault v refl

  touch-jobs_seq :
      (f : Fault) (now : ℕ) (id : ℤ) (s : Store)
      → (perform (touches_schedule f now id) s).jobs_seq ≡ s.jobs_seq
  unfolding perform touch_schedule
  touch-jobs_seq (some e) now id s = refl
  touch-jobs_seq none now id s = refl

  -- What an entry of cron that is due does to the program is what these events do one by one: the
  -- touch of the schedule of the entry, and then the events
  -- of one run with the configuration in use, scoped to the type of the entry. A run whose
  -- configuration is not valid has none, and one whose record cannot be inserted has only the
  -- failed insert; any other inserts its record and then ends the job with the next id, as failed
  -- with its message where a half of the backup that is included failed, and else as a success
  -- with the bytes of both.
  pub fire_events :
      (j : CronJob) (f : Fault) (now : ℕ) (r : Run) (h : Handler C W)
      → let (s', w') = fire backups h.state j f now r h.store h.world in
        (es : List (Event W)) × JobEvents backups r h.state.dest
          (for_type j.job_type h.state.cfg)
          h.store.jobs_seq
          h.world
          w'
          es
        × (after_all cron new_dest static_dir (touches f now j.schedule_id ∷ es) h
            ≡ record h { store = s'; world = w' })
  unfolding fire after_all after perform get run
  fire_events j f now r h =
      let touched : Store = perform (touches_schedule f now j.schedule_id) h.store in
      let c : Config = for_type j.job_type h.state.cfg in
      let (es, n, e) =
        validated_events r h.state.dest c (record h { store = touched }) (validate c) refl in
      (
        es,
        subst
            (λ seq.
              JobEvents backups r h.state.dest c seq h.world
                (fire backups h.state j f now r h.store h.world).1 es)
            (touch-jobs_seq f now j.schedule_id h.store) n,
        e,
      )
