-- ===== src/Program/Synced.antt =====
-- Whatever happens while the program runs, cron runs what the table of schedules says.
use mathlib.Core.Option
use supaback.Prelude.{
  ℕ, Text, List, [], ◌∷◌, Bool, true, false, Option, none, some, Result, ok, err, ◌≡◌, refl, sym,
  ap, ◌∙◌, All, if◌then◌else◌,
}
use supaback.Prelude.Int.{ℤ, int_eq}
use supaback.Dict.{Dict}
use supaback.Config.{Config, DestinationConfig}
use supaback.Store.{Store, Schedule, Fault, JobStatus}
use supaback.Store.Schedules.{find_row, update_rows, set_last_run, touch_schedule}
use supaback.Store.Schedules.Rows.{find_row-update}
use supaback.Store.Jobs.{create_job, complete_job}
use supaback.Store.Settings.Tables.{set_settings_tables}
use supaback.Store.Ids.{
  perform, perform-HasFreshIds, HasFreshIds, creates_job, completes_job, touches_schedule,
  sets_settings,
}
use supaback.Cron.{Cron, IsCron}
use supaback.Scheduler.{Scheduler}
use supaback.Destination.{Destination}
use supaback.Api.Settings
use supaback.Api.Settings.{JsonValue, update_settings, saved_to, reload, switch, incoming}
use supaback.Api.Schedules.{parse_id}
use supaback.Api.Schedules.Sync.{IsSynced, NoFault, expected, delete-IsSynced, toggle-IsSynced}
use supaback.Api.Schedules.Sync.Create.{create-IsSynced}
use supaback.Api.Server
use supaback.Api.Server.{
  Handler, Request, Env, serve, schedules_app, gets_health, gets_settings, puts_settings, gets_jobs,
  posts_job, gets_schedules, posts_schedule, deletes_schedule, patches_schedule, gets_backups,
  gets_backup, gets_date, gets_page,
}
use supaback.Program.{Event, serves, touches, begins, ends, leaves, after, after_all, IsCalm}

-- The time of the last run has no part in what should run.
expected-touch :
    (parses : Text → Bool) (now : ℕ) (id x : ℤ) (scs : List Schedule)
    → expected parses (find_row x scs)
      ≡ expected parses (find_row x (update_rows (set_last_run now) id scs))
expected-touch parses now id x scs =
    rw (find_row-update (set_last_run now) id x scs (λ r. refl))
      (same (int_eq id x) (find_row x scs))
  where
    same :
        (b : Bool) (o : Option Schedule)
        → expected parses o ≡ expected parses (if b then Option.map (set_last_run now) o else o)
    same true none = refl
    same true (some sc) = refl
    same false o = refl

-- A statement that leaves the schedules as they are, or sets the time of a last run.
abbrev SameSchedules : Store → Store → Type 0
SameSchedules s s' =
    (parses : Text → Bool) (x : ℤ)
    → expected parses (find_row x s.schedules) ≡ expected parses (find_row x s'.schedules)

touch-SameSchedules :
    (f : Fault) (now : ℕ) (id : ℤ) (s : Store)
    → SameSchedules s (perform (touches_schedule f now id) s)
unfolding perform touch_schedule
touch-SameSchedules (some e) now id s parses x = refl
touch-SameSchedules none now id s parses x = expected-touch parses now id x s.schedules

begin-SameSchedules :
    (f : Fault) (now : ℕ) (t d : Text) (s : Store)
    → SameSchedules s (perform (creates_job f now t d) s)
unfolding perform create_job
begin-SameSchedules (some e) now t d s parses x = refl
begin-SameSchedules none now t d s parses x = refl

end-SameSchedules :
    (f : Fault) (now : ℕ) (id : ℤ) (st : JobStatus) (size : ℤ) (msg : Text) (s : Store)
    → SameSchedules s (perform (completes_job f now id st size msg) s)
unfolding perform complete_job
end-SameSchedules (some e) now id st size msg s parses x = refl
end-SameSchedules none now id st size msg s parses x = refl

module _ {C : Type 0} (cron : Cron C) (parses : Text → Bool) where
  IsSynced-store :
      (s s' : Store) (sched : Scheduler C)
      → HasFreshIds s'
      → SameSchedules s s'
      → IsSynced cron parses (record { store = s; scheduler = sched })
      → IsSynced cron parses (record { store = s'; scheduler = sched })
  IsSynced-store s s' sched fresh same i = record {
    fresh = fresh;
    linked = i.linked;
    runs = λ x. i.runs x ∙ same parses x;
  }

  -- Cron is in step with the table.
  abbrev pub RunsTable : {W : Type 0} → Handler C W → Type 0
  RunsTable h = IsSynced cron parses (record { store = h.store; scheduler = h.scheduler })

-- What `UpdateSettings` leaves of the store: it is as it was, or the settings were written.
module _ {D W : Type 0} (new_dest : DestinationConfig → W → Result D × W) where
  switch-store :
      (cfg : Config) (r : Result D × W) (a : Settings.App D W) → (switch cfg r a).1.store ≡ a.store
  unfolding switch
  switch-store cfg (ok d, w) a = refl
  switch-store cfg (err e, w) a = refl

  reload-store : (r : Result Dict) (a : Settings.App D W) → (reload new_dest r a).1.store ≡ a.store
  unfolding reload
  reload-store (ok db) a = switch-store _ _ a
  reload-store (err e) a = refl

  saved_to-store :
      (env : Settings.Env) (r : Result (Unit {0}) × Store) (a : Settings.App D W)
      → (saved_to new_dest env r a).1.store ≡ r.1
  unfolding saved_to
  saved_to-store env (err e, store) a = refl
  saved_to-store env (ok u, store) a = reload-store _ (record a { store = store })

  update_settings-HasFreshIds :
      (env : Settings.Env) (raw : Option (List (Text × JsonValue))) (a : Settings.App D W)
      → HasFreshIds a.store
      → HasFreshIds (update_settings new_dest env raw a).1.store
        × ((update_settings new_dest env raw a).1.store.schedules ≡ a.store.schedules)
  unfolding update_settings perform
  update_settings-HasFreshIds env none a h = (h, refl)
  update_settings-HasFreshIds env (some raw) a h = rw (saved_to-store env _ a) (
    perform-HasFreshIds (sets_settings env.tx _) a.store h,
    (set_settings_tables env.tx _ a.store).2,
  )

module _ {C W : Type 0} (cron : Cron C) {parses : Text → Bool} (lawful : IsCron cron parses)
    (new_dest : DestinationConfig → W → Result (Destination W) × W) (static_dir : Option Text) where
  serve-RunsTable :
      (env : Env) (req : Request) (h : Handler C W)
      → NoFault env.schedules
      → RunsTable cron parses h
      → RunsTable cron parses (serve cron new_dest static_dir env req h).2
  unfolding serve Server.answered Server.with_world Server.with_schedules Server.with_settings
      Server.triggered
  serve-RunsTable env gets_health h n s = s
  serve-RunsTable env gets_settings h n s = s
  serve-RunsTable env (puts_settings raw) h n s =
      let a : Settings.App (Destination W) W = record {
        state = h.state;
        store = h.store;
        world = h.world;
      } in
      let (fresh, kept) = update_settings-HasFreshIds new_dest env.settings raw a s.fresh in
      IsSynced-store cron parses h.store _ h.scheduler fresh
        (λ p x. ap (λ scs. expected p (find_row x scs)) (sym kept)) s
  serve-RunsTable env (gets_jobs limit) h n s = s
  serve-RunsTable env (posts_job type) h n s = s
  serve-RunsTable env gets_schedules h n s = s
  serve-RunsTable env (posts_schedule req) h n s =
      create-IsSynced cron lawful env.schedules req (schedules_app cron new_dest h) n s
  serve-RunsTable env (deletes_schedule id) h n s =
      delete-IsSynced cron lawful env.schedules (parse_id id) (schedules_app cron new_dest h)
        n.write s
  serve-RunsTable env (patches_schedule id req) h n s =
      toggle-IsSynced cron lawful env.schedules (parse_id id) req (schedules_app cron new_dest h) s
  serve-RunsTable env gets_backups h n s = s
  serve-RunsTable env (gets_backup key) h n s = s
  serve-RunsTable env (gets_date date) h n s = s
  serve-RunsTable env (gets_page path) h n s = s

  after-RunsTable :
      (e : Event W) (h : Handler C W)
      → IsCalm e
      → RunsTable cron parses h
      → RunsTable cron parses (after cron new_dest static_dir e h)
  unfolding after
  after-RunsTable (serves env req) h n s = serve-RunsTable env req h n s
  after-RunsTable (touches f now id) h n s =
      IsSynced-store cron parses h.store _ h.scheduler
        (perform-HasFreshIds (touches_schedule f now id) h.store s.fresh)
        (touch-SameSchedules f now id h.store) s
  after-RunsTable (begins f now t d) h n s =
      IsSynced-store cron parses h.store _ h.scheduler
        (perform-HasFreshIds (creates_job f now t d) h.store s.fresh)
        (begin-SameSchedules f now t d h.store) s
  after-RunsTable (ends f now id st size msg) h n s =
      IsSynced-store cron parses h.store _ h.scheduler
        (perform-HasFreshIds (completes_job f now id st size msg) h.store s.fresh)
        (end-SameSchedules f now id st size msg h.store) s
  after-RunsTable (leaves w) h n s = s

  -- Whatever requests are served, and whatever statements of jobs come between them.
  pub after_all-RunsTable :
      (es : List (Event W)) (h : Handler C W)
      → All IsCalm es
      → RunsTable cron parses h
      → RunsTable cron parses (after_all cron new_dest static_dir es h)
  unfolding after_all
  after_all-RunsTable [] h n s = s
  after_all-RunsTable (e ∷ es) h n s =
      after_all-RunsTable es (after cron new_dest static_dir e h) n.1 (after-RunsTable e h n.0 s)
