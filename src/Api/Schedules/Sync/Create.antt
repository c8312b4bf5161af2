-- ===== src/Api/Schedules/Sync/Create.antt =====
-- `CreateSchedule` keeps cron in step with the table, also where it takes the new row back out.
use supaback.Prelude.{
  ℕ, Text, is_empty, Bool, false, ◌||◌, Option, none, some, Result, ok, err, ◌≡◌, refl, ◌∙◌,
  Bool-cases, Result-cases, inl, inr,
}
use supaback.Store.{Store, Schedule}
use supaback.Store.Schedules.{create_schedule, new_schedule, delete_schedule, find_row}
use supaback.Store.Ids.{
  HasFreshIds, perform, perform-HasFreshIds, creates_schedule, deletes_schedule, find_row-next,
}
use supaback.Cron.{Cron, IsCron}
use supaback.Scheduler.{Scheduler, add, register}
use supaback.Scheduler.Linked.{IsLinked, register-IsLinked}
use supaback.Scheduler.Linked.Running.{running-register}
use supaback.Strconv.{trim_space}
use supaback.Api.Schedules.{App, Env, CreateRequest, added, created, create, or_full}
use supaback.Api.Schedules.Sync.{IsSynced, NoFault, runs-register, expected-create, expected-undo}

module _ {C : Type 0} (cron : Cron C) {parses : Text → Bool} (lawful : IsCron cron parses) where
  module _ (a : App C) (s : IsSynced cron parses a) (now : ℕ) (name expr job_type : Text) where
    abbrev row : Schedule
    row = new_schedule now name expr job_type a.store

    abbrev with_row : Store
    with_row = (create_schedule none now name expr job_type a.store).1

    abbrev registered : Result (Unit {0}) × Scheduler C
    registered = register cron row.id row.cron_expr row.type a.scheduler

    with_row-HasFreshIds : HasFreshIds with_row
    with_row-HasFreshIds =
        unfold perform in
        perform-HasFreshIds (creates_schedule none now name expr job_type) a.store s.fresh

    row-absent : find_row row.id a.store.schedules ≡ none
    unfolding new_schedule
    row-absent = find_row-next 0 a.store.schedules_seq a.store.schedules s.fresh.schedules

    linked : IsLinked cron registered.1
    linked = register-IsLinked cron lawful row.id row.cron_expr row.type a.scheduler s.linked

    kept-IsSynced : IsSynced cron parses (record { store = with_row; scheduler = registered.1 })
    unfolding create_schedule new_schedule
    kept-IsSynced = record {
      fresh = with_row-HasFreshIds;
      linked = linked;
      runs = λ x.
          runs-register cron lawful a s row.id x row.cron_expr row.type
          ∙ expected-create parses x a.store.schedules row row-absent refl;
    }

    undone-IsSynced :
        parses row.cron_expr ≡ false
        → IsSynced cron parses
            (record { store = (delete_schedule none row.id with_row).1; scheduler = registered.1 })
    unfolding create_schedule delete_schedule new_schedule
    undone-IsSynced p = record {
      fresh =
          unfold perform in
          perform-HasFreshIds (deletes_schedule none row.id) with_row with_row-HasFreshIds;
      linked = linked;
      runs = λ x.
          runs-register cron lawful a s row.id x row.cron_expr row.type
          ∙ expected-undo parses x a.store.schedules row row-absent p;
    }

    refused : (e : Text) → registered.0 ≡ err e → parses row.cron_expr ≡ false
    refused e h = elim (Bool-cases (parses row.cron_expr)) [
      | inl t ↦ absurd (
          clash
            ((running-register cron lawful row.id row.id row.cron_expr row.type a.scheduler
                s.linked).1.1
              t)
            h)
      | inr f ↦ f
    ]
      where
        clash : {r : Result (Unit {0})} → r ≡ ok tt → r ≡ err e → ⊥
        clash p q = cc

    added-IsSynced :
        (env : Env)
        → env.undo_fault ≡ none
        → IsSynced cron parses (added cron env row with_row registered).1
    unfolding added
    added-IsSynced env u = elim (Result-cases registered.0) [
      | inl (_, e) ↦ rw e kept-IsSynced
      | inr (m, e) ↦ rw (e, u) (undone-IsSynced (refused m e))
    ]

  -- `CreateSchedule` keeps cron in step with the table, where no statement fails: whatever the
  -- request, and whether cron takes its expression or not.
  pub create-IsSynced :
      (env : Env) (req : Option CreateRequest) (a : App C)
      → NoFault env
      → IsSynced cron parses a
      → IsSynced cron parses (create cron env req a).1
  unfolding create created add added
  create-IsSynced env none a n s = s
  create-IsSynced env (some req) a n s =
      elim (Bool-cases (is_empty (trim_space req.name) || is_empty (trim_space req.cron_expr))) [
        | inl e ↦ rw e s
        | inr e ↦
            rw (e, n.write)
              (unfold create_schedule in
                added-IsSynced a s env.now (trim_space req.name) (trim_space req.cron_expr)
                  (or_full req.type) env n.undo)
      ]
