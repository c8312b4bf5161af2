-- ===== src/Runner.antt =====
-- internal/backup/runner.go: one backup job. The two halves of a backup, database.go and storage.go,
-- are an interface here.
pub mod Failing
pub mod Outcome
pub mod Records
pub mod Restorable
use supaback.Prelude.{
  ℕ, Text, codes, List, [], ◌∷◌, ◌++◌, Bool, true, false, ◌&&◌, ◌||◌, Option, none, some, Result,
  ok, err, if◌then◌else◌,
}
use supaback.Prelude.Int.{ℤ, pos, ltb_ℤ, add_int64}
use supaback.Config.{Config, SupabaseConfig, RetentionConfig, validate}
use supaback.Destination.{Destination}
use supaback.Store.{Store, JobStatus, success, failed, Fault}
use supaback.Store.Jobs.{create_job, complete_job}
use supaback.Retention

-- `DatabaseBackup.Run` and `StorageBackup.Run`: the bytes written, or an error.
pub record Backups (W : Type 0) : Type 0 where
  pub database : SupabaseConfig → Bool → W → Result ℤ × W
  pub storage : SupabaseConfig → List Text → W → Result ℤ × W

-- What the environment decides of one run: the driver's failures, and the times that are read.
pub record Run : Type 0 where
  pub create_fault : Fault
  pub complete_fault : Fault
  pub started : ℕ
  pub finished : ℕ
  pub swept : ℕ

-- `jobType`.
unfoldable pub job_type : Config → Text
job_type c =
    if c.backup.include_database && c.backup.include_storage
    then codes "full"
    else if c.backup.include_database
    then codes "database"
    else codes "storage"

-- `totalBytes` and `runErr`.
pub record Progress : Type 0 where
  pub total_bytes : ℤ
  pub run_err : Option Text

abbrev pub untouched : Progress
untouched = record { total_bytes = pos 0; run_err = none }

-- A half that returned: its bytes, or its error under a prefix.
unfoldable pub advance : Text → Result ℤ → Progress → Progress
advance prefix (ok n) p = record p { total_bytes = add_int64 p.total_bytes n }
advance prefix (err e) p = record p { run_err = some (prefix ++ e) }

-- `store.StatusSuccess` or `store.StatusFailed`, and the message.
unfoldable pub status_of : Option Text → JobStatus
status_of none = success
status_of (some e) = failed

unfoldable pub message_of : Option Text → Text
message_of none = []
message_of (some e) = e

unfoldable pub result_of : Option Text → Result (Unit {0})
result_of none = ok tt
result_of (some e) = err e

module _ {W : Type 0} (backups : Backups W) (dest : Destination W) where
  unfoldable pub run_database : Config → W → Progress × W
  run_database c w =
      if c.backup.include_database
      then (let (r, w') = backups.database c.supabase c.backup.compress w in
          (advance (codes "database backup: ") r untouched, w'))
      else (untouched, w)

  -- The storage half is reached only where the database half has not failed.
  unfoldable pub run_storage : Config → Option Text → Progress → W → Progress × W
  run_storage c (some e) p w = (p, w)
  run_storage c none p w =
      if c.backup.include_storage
      then (let (r, w') = backups.storage c.supabase c.backup.buckets w in
          (advance (codes "storage backup: ") r p, w'))
      else (p, w)

  -- Both halves, in order.
  unfoldable pub back_up : Config → W → Progress × W
  back_up c w = let (p, w') = run_database c w in run_storage c p.run_err p w'

  -- Retention, after a successful backup and with a rule enabled. Its own error is only logged.
  unfoldable pub retain : Option Text → RetentionConfig → ℕ → W → W
  retain (some e) ret now w = w
  retain none ret now w =
      if ltb_ℤ (pos 0) ret.keep_last || ltb_ℤ (pos 0) ret.keep_days
      then (Retention.apply dest (record { keep_last = ret.keep_last; keep_days = ret.keep_days })
          now w).1
      else w

  -- From the created job on. An error of `CompleteJob` is only logged.
  unfoldable pub run_job : Run → Config → ℤ → Store → W → Result (Unit {0}) × Store × W
  run_job r c id s w =
      let (p, w') = back_up c w in
      (
        result_of p.run_err,
        (complete_job r.complete_fault r.finished id (status_of p.run_err) p.total_bytes
            (message_of p.run_err) s).1,
        retain p.run_err c.backup.retention r.swept w',
      )

  unfoldable pub run_created : Run → Config → Result ℤ → Store → W → Result (Unit {0}) × Store × W
  run_created r c (err e) s w = (err (codes "create job record: " ++ e), s, w)
  run_created r c (ok id) s w = run_job r c id s w

  unfoldable pub run_validated :
      Run → Config → Option Text → Store → W → Result (Unit {0}) × Store × W
  run_validated r c (some e) s w = (err (codes "not configured: " ++ e), s, w)
  run_validated r c none s w =
      let (created, s') = create_job r.create_fault r.started (job_type c) dest.name s in
      run_created r c created s' w

  -- `Run`.
  unfoldable pub run : Run → Config → Store → W → Result (Unit {0}) × Store × W
  run r c s w = run_validated r c (validate c) s w
