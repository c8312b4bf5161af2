-- ===== src/Tests/Runner.antt =====
-- Runs of one job on a shelf.
use supaback.Prelude.{
  map, if◌then◌else◌, Option, Text, codes, List, [], ◌∷◌, ◌++◌, false, none, some, Result, ok, err,
  ◌≡◌, inl, inr, refl, arith, text_eq, In,
}
use supaback.Prelude.Int.{ℤ, pos, int_eq}
use supaback.Time.{
  format_date, day_number, start_of, days_in, parse_date, has_layout, is_digit, numbers,
  in_calendar,
}
use supaback.Time.Order.{IsDate}
use supaback.Config.{Config, validate, for_type}
use supaback.Store.{success, new}
use supaback.Store.{Store, Job}
use supaback.Store.Jobs.{create_job}
use supaback.Store.Ids.{perform, creates_schedule, perform-HasFreshIds, new-HasFreshIds}
use supaback.Cron.{CronJob}
use supaback.AppState.{State}
use supaback.Destination.{Destination}
use supaback.Scheduler.Firing.{fire, fire_records}
use supaback.Retention.Keep.{count_newer}
use supaback.Runner.{
  Run, Backups, untouched, back_up, run_database, run_storage, run, run_validated, run_created,
  run_job, advance, result_of,
}
use supaback.Runner.Outcome.{database_job_excluded}
use supaback.Runner.Records.{Ends, Recorded, Said, run_records}
use supaback.Tests.{shelf, halves, date_of}
use supaback.Tests.Config.{settled}

abbrev pub today : Text
today = format_date (date_of 3)

abbrev pub r : Run
r = record {
  create_fault = none;
  complete_fault = none;
  started = 5;
  finished = 9;
  swept = start_of (date_of 3);
}

settled_valid : validate settled ≡ none
unfolding validate text_eq
settled_valid = refl

-- A backup whose database half fails after it has written.
abbrev failing : Backups (List Text)
failing = record (halves today) { database = λ c compress w. (err (codes "pg_dump"), today ∷ w) }

abbrev failed_run : Result (Unit {0})
failed_run = (run failing shelf r settled new []).0

failing_returns : failed_run ≡ err (codes "database backup: pg_dump")
unfolding run run_validated run_created run_job create_job back_up run_database run_storage advance
    result_of validate text_eq
failing_returns = refl

run_records_example :
    let (answer, s', w') = run failing shelf r settled new [] in
    (t : ℤ) × (o : Option Text) × (job : Job) × Ends failing settled [] t o
    × Recorded o answer job
    × (s' ≡ record new { jobs = [] ++ job ∷ []; jobs_seq = 1 })
    × (job.id ≡ pos 1)
    × (job.started_at ≡ 5)
    × (job.finished_at ≡ some 9)
    × (job.type ≡ codes "full")
    × (job.destination ≡ codes "shelf")
    × (job.size_bytes ≡ t)
run_records_example =
    run_records failing shelf r settled new [] new-HasFreshIds settled_valid refl refl

third-IsDate : IsDate (date_of 3)
unfolding days_in
third-IsDate = record {
  month_pos = omega arith;
  month_le = omega arith;
  day_pos = omega arith;
  day_le = omega arith;
}

-- One date is kept; a day before is on the shelf.
abbrev pruned : Config
pruned = record settled {
  backup = record settled.backup { retention = record { keep_last = pos 1; keep_days = pos 0 } };
}

abbrev shelved : List Text
shelved = codes "2024-03-01" ∷ []

pruned_valid : validate pruned ≡ none
unfolding validate text_eq
pruned_valid = refl

newest : count_newer (date_of 3) (back_up (halves today) shelf pruned shelved).1 ≡ 0
unfolding back_up run_database run_storage advance count_newer parse_date has_layout is_digit
    numbers in_calendar days_in format_date day_number
newest = refl

written : In today (back_up (halves today) shelf pruned shelved).1
unfolding back_up run_database run_storage advance
written = inl refl

abbrev storage_only : Config
storage_only = record settled { backup = record settled.backup { include_database = false } }

scoped_valid : validate (for_type (codes "database") storage_only) ≡ none
unfolding validate for_type text_eq
scoped_valid = refl

database_job_excluded_example :
    (back_up (halves today) shelf (for_type (codes "database") storage_only) [] ≡ (untouched, []))
    × ((run (halves today) shelf r (for_type (codes "database") storage_only) new []).0 ≡ ok tt)
    × ((run (halves today) shelf r (for_type (codes "database") storage_only) new []).1.jobs
        ≡ record {
          id = pos 1;
          started_at = 5;
          finished_at = some 9;
          status = success;
          type = codes "storage";
          destination = codes "shelf";
          size_bytes = pos 0;
          error_msg = [];
        }
          ∷ [])
database_job_excluded_example =
    database_job_excluded (halves today) shelf r storage_only new [] new-HasFreshIds refl
      scoped_valid refl refl

abbrev pub due : CronJob
due = record { expr = codes "@hourly"; schedule_id = pos 1; job_type = codes "database" }

abbrev in_use : State (Destination (List Text))
in_use = record { cfg = settled; dest = shelf }

abbrev one_schedule : Store
one_schedule =
    perform (creates_schedule none 2 (codes "nightly") (codes "@hourly") (codes "database")) new

due_valid : validate (for_type (codes "database") settled) ≡ none
unfolding validate for_type text_eq
due_valid = refl

fire_records_example :
    let s' = (fire (halves today) in_use due none 4 r one_schedule []).0 in
    (s'.schedules
      ≡ map
          (λ sc. if int_eq sc.id (pos 1) then record sc { last_run_at = some 4 } else sc)
          one_schedule.schedules)
    × (t : ℤ) × (o : Option Text) × (job : Job) × (s'.jobs ≡ one_schedule.jobs ++ job ∷ [])
    × (job.type ≡ codes "database")
    × (job.finished_at ≡ some 9)
    × Ends (halves today) (for_type (codes "database") settled) [] t o
    × Said o job.status job.error_msg
    × (job.size_bytes ≡ t)
fire_records_example =
    fire_records (halves today) in_use due 4 r one_schedule []
      (perform-HasFreshIds
        (creates_schedule none 2 (codes "nightly") (codes "@hourly") (codes "database")) new
        new-HasFreshIds)
      refl refl (inr (inl refl)) due_valid refl refl
