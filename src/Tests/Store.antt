-- ===== src/Tests/Store.antt =====
-- A store after two statements, and a transaction of settings.
use mathlib.Core.List.{Perm}
use Prim.Native.Nat.{min}
use supaback.Prelude.{codes, List, [], ◌∷◌, ◌++◌, length, none, some, ok, ◌≡◌, refl, text_eq}
use supaback.Prelude.Int.{pos}
use supaback.Prelude.Sort.{IsDescBy}
use supaback.Dict.{Dict, get, IsMap}
use supaback.Store.{Store, Job, new}
use supaback.Store.Jobs.{list_jobs}
use supaback.Store.Settings.{
  TxFaults, set_settings, upsert_all, transact, begun, begin_tx, prepared, after_upserts, commit_tx,
  upsert, rollback,
}
use supaback.Store.Settings.Transaction.{stored, set_settings-get}
use supaback.Store.Ids.Given.{Grows, run_never_repeats}
use supaback.Store.Ids.{
  run, job_ids, schedule_ids, deletes_schedule, HasFreshIds, Op, creates_job, creates_schedule,
  perform, new-HasFreshIds,
}
use supaback.Store.Recent.{list_jobs-latest}

abbrev no_fault : TxFaults
no_fault = record { begin = none; prepare = none; exec = λ k. none; commit = none }

abbrev full_disk : TxFaults
full_disk = record no_fault { commit = some (codes "disk full") }

abbrev update : Dict
update = (codes "a", codes "1") ∷ (codes "b", []) ∷ []

abbrev two_settings : Store
two_settings = record new { settings = (codes "a", codes "0") ∷ (codes "b", codes "2") ∷ [] }

update-IsMap : IsMap update
unfolding get text_eq
update-IsMap = (refl, (refl, tt))

update_runs : (set_settings no_fault update two_settings).0 ≡ ok tt
unfolding set_settings upsert_all transact begun begin_tx prepared after_upserts commit_tx upsert
    rollback
update_runs = refl

set_settings-get_example :
    let s = (set_settings no_fault update two_settings).1 in
    (get s.settings (codes "b")
      ≡ stored (get update (codes "b")) (get two_settings.settings (codes "b")))
    × (s.schedules ≡ [])
    × (s.jobs ≡ [])
set_settings-get_example =
    set_settings-get no_fault update two_settings (codes "b") update-IsMap update_runs

abbrev first_schedule : Op
first_schedule = creates_schedule none 5 (codes "nightly") (codes "@hourly") (codes "full")

-- The newest schedule is deleted, and another is created.
abbrev statements : List Op
statements =
    first_schedule
    ∷ deletes_schedule none (pos 1)
    ∷ creates_schedule none 6 (codes "weekly") (codes "@hourly") (codes "full")
    ∷ []

run_never_repeats_example :
    HasFreshIds (run statements new)
    × Grows 0 (run statements new).jobs_seq [] (job_ids (run statements new).jobs)
    × Grows 0 (run statements new).schedules_seq [] (schedule_ids (run statements new).schedules)
run_never_repeats_example = run_never_repeats statements new new-HasFreshIds

abbrev two_jobs : Store
two_jobs =
    perform (creates_job none 8 (codes "full") (codes "shelf"))
      (perform (creates_job none 6 (codes "full") (codes "shelf")) new)

list_jobs-latest_example :
    (jobs rest : List Job) × (list_jobs none (pos 1) two_jobs ≡ ok jobs)
    × (length jobs ≡ min 1 (length (jobs ++ rest)))
    × Perm (jobs ++ rest) two_jobs.jobs
    × IsDescBy (λ j. j.started_at) (jobs ++ rest)
list_jobs-latest_example = list_jobs-latest 1 two_jobs
