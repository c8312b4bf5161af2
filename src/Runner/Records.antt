-- ===== src/Runner/Records.antt =====
-- What the table of jobs says of a run, by what became of the two halves of the backup.
use mathlib.Core.Path.{subst}
use supaback.Prelude.{
  suc, Text, codes, [], ◌∷◌, ◌++◌, Bool, true, false, Option, none, some, Result, ok, err, ◌≡◌, ◌⊎◌,
  inl, inr, refl, sym, ap, ◌&&◌, if◌then◌else◌, Bool-cases, Result-cases,
}
use supaback.Prelude.Int.{ℤ, pos, add_int64}
use supaback.Config.{Config, validate}
use supaback.Destination.{Destination}
use supaback.Store.{Store, Job, JobStatus, success, failed}
use supaback.Store.Ids.{HasFreshIds}
use supaback.Runner.{
  Backups, Run, Progress, advance, job_type, status_of, message_of, result_of, run_database,
  run_storage, back_up, run,
}
use supaback.Runner.Outcome.{finished_job, run-finished_job}

module _ {W : Type 0} (backups : Backups W) (c : Config) where
  -- The database half is left out, or has returned its bytes.
  abbrev pub DatabaseDone : W → ℤ → W → Type 0
  DatabaseDone w n v =
      ((c.backup.include_database ≡ false) × (n ≡ pos 0) × (v ≡ w))
      ⊎ ((c.backup.include_database ≡ true)
          × (m : ℤ) × (backups.database c.supabase c.backup.compress w ≡ (ok m, v))
          × (n ≡ add_int64 (pos 0) m))

  -- The storage half, after `n` bytes of the database, with `t` bytes in all.
  abbrev pub StorageDone : W → ℤ → ℤ → Type 0
  StorageDone v n t =
      ((c.backup.include_storage ≡ false) × (t ≡ n))
      ⊎ ((c.backup.include_storage ≡ true)
          × (m : ℤ) × ((backups.storage c.supabase c.backup.buckets v).0 ≡ ok m)
          × (t ≡ add_int64 n m))

  -- How a backup ends: with so many bytes, and with the error of the first half that failed, if one
  -- did.
  pub data Ends (w : W) : ℤ → Option Text → Type 0 where
    database_fails :
        (e : Text)
        → c.backup.include_database ≡ true
        → (backups.database c.supabase c.backup.compress w).0 ≡ err e
        → Ends w (pos 0) (some (codes "database backup: " ++ e))
    storage_fails :
        (e : Text) (n : ℤ) (v : W)
        → DatabaseDone w n v
        → c.backup.include_storage ≡ true
        → (backups.storage c.supabase c.backup.buckets v).0 ≡ err e
        → Ends w n (some (codes "storage backup: " ++ e))
    completes : (n t : ℤ) (v : W) → DatabaseDone w n v → StorageDone v n t → Ends w t none

-- The answer and the record of a run that ended so.
abbrev pub Recorded : Option Text → Result (Unit {0}) → Job → Type 0
Recorded none r job = (r ≡ ok tt) × (job.status ≡ success) × (job.error_msg ≡ [])
Recorded (some e) r job = (r ≡ err e) × (job.status ≡ failed) × (job.error_msg ≡ e)

-- The status and the message of a backup that ended so.
abbrev pub Said : Option Text → JobStatus → Text → Type 0
Said none status msg = (status ≡ success) × (msg ≡ [])
Said (some e) status msg = (status ≡ failed) × (msg ≡ e)

pub status_of-Said : (o : Option Text) → Said o (status_of o) (message_of o)
unfolding status_of message_of
status_of-Said none = (refl, refl)
status_of-Said (some e) = (refl, refl)

-- The type of a job, by the halves that the configuration includes.
abbrev pub Typed : Bool → Bool → Text → Type 0
Typed true true t = t ≡ codes "full"
Typed true false t = t ≡ codes "database"
Typed false storage t = t ≡ codes "storage"

module _ {W : Type 0} (backups : Backups W) (dest : Destination W) where
  storage-Ends :
      (c : Config) (w v : W) (n : ℤ)
      → DatabaseDone backups c w n v
      → let p =
          (run_storage backups dest c none (record { total_bytes = n; run_err = none }) v).0 in
        Ends backups c w p.total_bytes p.run_err
  unfolding run_storage advance
  storage-Ends c w v n d = elim (Bool-cases c.backup.include_storage) [
    | inr f ↦ simp f (completes n n v d (inl (f, refl)))
    | inl t ↦ elim (Result-cases (backups.storage c.supabase c.backup.buckets v).0) [
      | inl (m, e) ↦ simp (t, e) (completes n (add_int64 n m) v d (inr (t, m, e, refl)))
      | inr (x, e) ↦ simp (t, e) (storage_fails x n v d t e)
    ]
  ]

  pub back_up-Ends :
      (c : Config) (w : W)
      → let p = (back_up backups dest c w).0 in Ends backups c w p.total_bytes p.run_err
  unfolding back_up run_database advance run_storage
  back_up-Ends c w = elim (Bool-cases c.backup.include_database) [
    | inr f ↦ simp f (storage-Ends c w w (pos 0) (inl (f, refl, refl)))
    | inl t ↦ elim (Result-cases (backups.database c.supabase c.backup.compress w).0) [
      | inl (m, e) ↦
          simp (t, e)
            (storage-Ends c w (backups.database c.supabase c.backup.compress w).1
              (add_int64 (pos 0) m)
              (inr
                (t, m, ap (λ a. (a, (backups.database c.supabase c.backup.compress w).1)) e, refl)))
      | inr (x, e) ↦ simp (t, e) (database_fails x t e)
    ]
  ]

  status_of-Recorded :
      (o : Option Text) (job : Job)
      → job.status ≡ status_of o
      → job.error_msg ≡ message_of o
      → Recorded o (result_of o) job
  unfolding status_of message_of result_of
  status_of-Recorded none job s m = (refl, s, m)
  status_of-Recorded (some e) job s m = (refl, s, m)

  pub job_type-Typed :
      (c : Config) → Typed c.backup.include_database c.backup.include_storage (job_type c)
  unfolding job_type
  job_type-Typed c = typed c.backup.include_database c.backup.include_storage
    where
      typed :
          (d s : Bool)
          → Typed d s
              (if d && s then codes "full" else if d then codes "database" else codes "storage")
      typed true true = refl
      typed true false = refl
      typed false s = refl

  -- With a valid configuration, a table whose ids ascend below the next one, and a driver that does
  -- not fail, a run adds one job, under the next id, to the table and changes nothing else of the
  -- store. The job carries the times, the destination, the type by the halves that are included,
  -- and the bytes of the halves that returned; it is a success without a message, and the run
  -- answers no error, where every half that is included returned, and it is failed, with the
  -- message that the run also returns, where one did not.
  pub run_records :
      (r : Run) (c : Config) (s : Store) (w : W)
      → HasFreshIds s
      → validate c ≡ none
      → r.create_fault ≡ none
      → r.complete_fault ≡ none
      → (t : ℤ) × (o : Option Text) × (job : Job) × Ends backups c w t o
        × Recorded o (run backups dest r c s w).0 job
        × ((run backups dest r c s w).1
            ≡ record s { jobs = s.jobs ++ job ∷ []; jobs_seq = suc s.jobs_seq })
        × (job.id ≡ pos (suc s.jobs_seq))
        × (job.started_at ≡ r.started)
        × (job.finished_at ≡ some r.finished)
        × Typed c.backup.include_database c.backup.include_storage job.type
        × (job.destination ≡ dest.name)
        × (job.size_bytes ≡ t)
  run_records r c s w h v f g =
      let (answer, store) = run-finished_job backups dest r c s w h v f g in
      (
        p.total_bytes,
        p.run_err,
        job,
        back_up-Ends c w,
        subst (λ a. Recorded p.run_err a job) (sym answer)
            (status_of-Recorded p.run_err job refl refl),
        store,
        refl,
        refl,
        refl,
        job_type-Typed c,
        refl,
        refl,
      )
    where
      p : Progress
      p = (back_up backups dest c w).0

      job : Job
      job = finished_job backups dest r c s p
