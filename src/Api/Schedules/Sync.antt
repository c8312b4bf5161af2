-- ===== src/Api/Schedules/Sync.antt =====
-- What cron runs is what the table of schedules says.
pub mod Create
pub mod Startup
use mathlib.Core.Option
use supaback.Prelude.{
  ℕ, suc, Text, codes, is_empty, List, [], ◌∷◌, ◌++◌, Bool, true, false, ◌&&◌, ◌||◌, Option, none,
  some, Result, ok, err, ◌≡◌, ◌≢◌, ◌↔◌, refl, sym, ap, ◌∙◌, arith, if◌then◌else◌, Bool-cases,
  Option-cases, Result-cases, inl, inr,
}
use supaback.Prelude.Int.{ℤ, pos, int_eq, int_eq_iff}
use supaback.Store.{Store, Schedule, Fault}
use supaback.Store.Schedules.{
  create_schedule, new_schedule, get_schedule, delete_schedule, toggle_schedule, find_row,
  delete_rows, update_rows, set_enabled,
}
use supaback.Store.Schedules.Rows.{find_row-id, find_row-delete, find_row-update, find_row-append}
use supaback.Store.Ids.{
  HasFreshIds, perform, perform-HasFreshIds, creates_schedule, deletes_schedule, toggles_schedule,
  find_row-next,
}
use supaback.Cron.{Cron, CronJob, IsCron}
use supaback.Scheduler.{Scheduler, make_job, add, remove, register}
use supaback.Scheduler
use supaback.Scheduler.Linked.{IsLinked, running, register-IsLinked, remove-IsLinked}
use supaback.Scheduler.Linked.Running.{running-register, running-remove}
use supaback.Api.{Response}
use supaback.Strconv.{trim_space}
use supaback.Api.Schedules.{
  App, Env, CreateRequest, added, created, create, or_full, trim_space, deleted, delete, enabled,
  toggled, found, toggle,
}

-- What should run for a row: its job, if it is enabled and its expression parses.
abbrev pub expected : (Text → Bool) → Option Schedule → Option CronJob
expected parses none = none
expected parses (some sc) =
    if sc.enabled && parses sc.cron_expr then some (make_job sc.id sc.cron_expr sc.type) else none

module _ {C : Type 0} (cron : Cron C) (parses : Text → Bool) where
  pub record IsSynced (a : App C) : Type 0 where
    pub fresh : HasFreshIds a.store
    pub linked : IsLinked cron a.scheduler
    pub runs : (x : ℤ) → running cron a.scheduler x ≡ expected parses (find_row x a.store.schedules)

expected-delete :
    (parses : Text → Bool) (id x : ℤ) (scs : List Schedule)
    → (if int_eq id x then none else expected parses (find_row x scs))
      ≡ expected parses (find_row x (delete_rows id scs))
expected-delete parses id x scs = elim (Bool-cases (int_eq id x)) [
  | inl t ↦ rw (find_row-delete id x scs, t) refl
  | inr f ↦ rw (find_row-delete id x scs, f) refl
]

-- The job that `register` adds for a row.
abbrev pub job_if : (Text → Bool) → ℤ → Schedule → Option CronJob
job_if parses id sc = if parses sc.cron_expr then some (make_job id sc.cron_expr sc.type) else none

expected-enable :
    (parses : Text → Bool) (id x : ℤ) (scs : List Schedule) (sc : Schedule)
    → find_row id scs ≡ some sc
    → (if int_eq id x then job_if parses id sc else expected parses (find_row x scs))
      ≡ expected parses (find_row x (update_rows (set_enabled true) id scs))
expected-enable parses id x scs sc h = elim (Bool-cases (int_eq id x)) [
  | inl t ↦
      rw
        (
          find_row-update (set_enabled true) id x scs (λ r. refl),
          t,
          ← (int_eq_iff id x).0 t,
          h,
          ← find_row-id id scs h,
        )
        refl
  | inr f ↦ rw (find_row-update (set_enabled true) id x scs (λ r. refl), f) refl
]

expected-disable :
    (parses : Text → Bool) (id x : ℤ) (scs : List Schedule) (sc : Schedule)
    → find_row id scs ≡ some sc
    → (if int_eq id x then none else expected parses (find_row x scs))
      ≡ expected parses (find_row x (update_rows (set_enabled false) id scs))
expected-disable parses id x scs sc h = elim (Bool-cases (int_eq id x)) [
  | inl t ↦
      rw (find_row-update (set_enabled false) id x scs (λ r. refl), t, ← (int_eq_iff id x).0 t, h)
        refl
  | inr f ↦ rw (find_row-update (set_enabled false) id x scs (λ r. refl), f) refl
]

expected-create :
    (parses : Text → Bool) (x : ℤ) (scs : List Schedule) (sc : Schedule)
    → find_row sc.id scs ≡ none
    → sc.enabled ≡ true
    → (if int_eq sc.id x then job_if parses sc.id sc else expected parses (find_row x scs))
      ≡ expected parses (find_row x (scs ++ sc ∷ []))
expected-create parses x scs sc h e = elim (Bool-cases (int_eq sc.id x)) [
  | inl t ↦ rw (find_row-append x scs sc h, t, e) refl
  | inr f ↦ rw (find_row-append x scs sc h, f) refl
]

expected-undo :
    (parses : Text → Bool) (x : ℤ) (scs : List Schedule) (sc : Schedule)
    → find_row sc.id scs ≡ none
    → parses sc.cron_expr ≡ false
    → (if int_eq sc.id x then job_if parses sc.id sc else expected parses (find_row x scs))
      ≡ expected parses (find_row x (delete_rows sc.id (scs ++ sc ∷ [])))
expected-undo parses x scs sc h p = elim (Bool-cases (int_eq sc.id x)) [
  | inl t ↦ rw (find_row-delete sc.id x (scs ++ sc ∷ []), t, p) refl
  | inr f ↦ rw (find_row-delete sc.id x (scs ++ sc ∷ []), find_row-append x scs sc h, f) refl
]

-- A driver that does not fail during the request.
pub record NoFault (env : Env) : Type 0 where
  pub read : env.read_fault ≡ none
  pub write : env.write_fault ≡ none
  pub undo : env.undo_fault ≡ none

module _ {C : Type 0} (cron : Cron C) {parses : Text → Bool} (lawful : IsCron cron parses) where
  module _ (a : App C) (s : IsSynced cron parses a) where
    -- `register` for a row, whatever becomes of the table meanwhile.
    runs-register :
        (id x : ℤ) (expr job_type : Text)
        → running cron (register cron id expr job_type a.scheduler).1 x ≡ (
            if int_eq id x
            then (if parses expr then some (make_job id expr job_type) else none)
            else expected parses (find_row x a.store.schedules))
    runs-register id x expr job_type =
        (running-register cron lawful id x expr job_type a.scheduler s.linked).0
        ∙ ap
            (λ r.
              if int_eq id x
              then (if parses expr then some (make_job id expr job_type) else none)
              else r)
            (s.runs x)

    runs-remove :
        (id x : ℤ)
        → running cron (remove cron id a.scheduler) x
          ≡ (if int_eq id x then none else expected parses (find_row x a.store.schedules))
    runs-remove id x =
        running-remove cron lawful id x a.scheduler s.linked
        ∙ ap (λ r. if int_eq id x then none else r) (s.runs x)

  -- `DeleteSchedule` keeps cron in step with the table, where its statement does not fail: whatever
  -- the id, and if it is no number.
  pub delete-IsSynced :
      (env : Env) (id : Option ℤ) (a : App C)
      → env.write_fault ≡ none
      → IsSynced cron parses a
      → IsSynced cron parses (delete cron env id a).1
  unfolding delete deleted delete_schedule
  delete-IsSynced env none a n s = s
  delete-IsSynced env (some id) a n s = rw n (record {
    fresh =
        unfold perform delete_schedule in
        perform-HasFreshIds (deletes_schedule none id) a.store s.fresh;
    linked = remove-IsLinked cron lawful id a.scheduler s.linked;
    runs = λ x. runs-remove a s id x ∙ expected-delete parses id x a.store.schedules;
  })

  toggled-IsSynced :
      (env : Env) (id : ℤ) (on : Bool) (sc : Schedule) (a : App C)
      → env.write_fault ≡ none
      → find_row id a.store.schedules ≡ some sc
      → IsSynced cron parses a
      → IsSynced cron parses (record {
        store = record a.store { schedules = update_rows (set_enabled on) id a.store.schedules };
        scheduler = (Scheduler.set_enabled cron id sc.cron_expr sc.type on a.scheduler).1;
      })
  unfolding Scheduler.set_enabled
  toggled-IsSynced env id true sc a n f s = record {
    fresh =
        unfold perform toggle_schedule in
        perform-HasFreshIds (toggles_schedule none id true) a.store s.fresh;
    linked = register-IsLinked cron lawful id sc.cron_expr sc.type a.scheduler s.linked;
    runs = λ x.
        runs-register a s id x sc.cron_expr sc.type
        ∙ expected-enable parses id x a.store.schedules sc f;
  }
  toggled-IsSynced env id false sc a n f s = record {
    fresh =
        unfold perform toggle_schedule in
        perform-HasFreshIds (toggles_schedule none id false) a.store s.fresh;
    linked = remove-IsLinked cron lawful id a.scheduler s.linked;
    runs = λ x. runs-remove a s id x ∙ expected-disable parses id x a.store.schedules sc f;
  }

  enabled-app :
      (sc : Schedule) (on : Bool) (store : Store) (r : Result (Unit {0}) × Scheduler C)
      → (enabled cron sc on store r).1 ≡ record { store = store; scheduler = r.1 }
  unfolding enabled
  enabled-app sc on store (ok u, sched) = refl
  enabled-app sc on store (err e, sched) = refl

  found-IsSynced :
      (env : Env) (id : ℤ) (on : Bool) (row : Option Schedule) (a : App C)
      → find_row id a.store.schedules ≡ row
      → IsSynced cron parses a
      → IsSynced cron parses (found cron env id on (ok row) a).1
  unfolding found toggled toggle_schedule
  found-IsSynced env id on none a f s = s
  found-IsSynced env id on (some sc) a f s = elim (Option-cases env.write_fault) [
    | inl n ↦
        rw
          (
            n,
            enabled-app sc on _ (Scheduler.set_enabled cron id sc.cron_expr sc.type on a.scheduler),
          )
          (toggled-IsSynced env id on sc a n f s)
    | inr (e, q) ↦ rw q s
  ]

  -- `ToggleSchedule` keeps cron in step with the table on every branch: whatever the request,
  -- whether its schedule exists and cron takes the expression or not, and also where the row cannot
  -- be read or the statement fails.
  pub toggle-IsSynced :
      (env : Env) (id : Option ℤ) (req : Option Bool) (a : App C)
      → IsSynced cron parses a
      → IsSynced cron parses (toggle cron env id req a).1
  unfolding toggle get_schedule found
  toggle-IsSynced env none req a s = s
  toggle-IsSynced env (some id) none a s = s
  toggle-IsSynced env (some id) (some on) a s = elim (Option-cases env.read_fault) [
    | inl n ↦ rw n (found-IsSynced env id on _ a refl s)
    | inr (e, q) ↦ rw q s
  ]
