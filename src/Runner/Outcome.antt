-- ===== src/Runner/Outcome.antt =====
-- What one run leaves behind: the job record, the answer, and the backups at the destination.
use supaback.Prelude.{
  text_eq, ℕ, suc, ◌+◌, ◌≤◌, ◌<◌, Text, codes, List, [], ◌∷◌, ◌++◌, In, true, false, ◌||◌, Option,
  none, some, ok, ◌≡◌, refl, ap, ◌∙◌, ◌⊎◌, inl, inr, Bool-cases,
}
use supaback.Prelude.Int.{pos, ltb_ℤ}
use supaback.Config.{Config, RetentionConfig, validate, for_type}
use supaback.Destination.{Destination, IsLawful}
use supaback.Store.{Store, Job, success}
use supaback.Store.Jobs.{create_job, complete_job}
use supaback.Store.Ids.{HasFreshIds, complete_rows-last}
use supaback.Time.{Date, format_date, start_of, day_nanos}
use supaback.Time.Order.{IsDate}
use supaback.Time.Format.{parse_date-format}
use supaback.Retention
use supaback.Retention.Keep.{count_newer}
use supaback.Retention.Policy.{apply_protects}
use supaback.Retention.Window.{newest_today_survives}
use supaback.Runner.{
  Backups, Run, Progress, job_type, status_of, message_of, result_of, run_database, run_storage,
  back_up, retain, run_job, run_created, run_validated, run, untouched,
}

module _ {W : Type 0} (backups : Backups W) (dest : Destination W) where
  -- The record of a job that has run.
  abbrev pub finished_job : Run → Config → Store → Progress → Job
  finished_job r c s p = record {
    id = pos (suc s.jobs_seq);
    started_at = r.started;
    finished_at = some r.finished;
    status = status_of p.run_err;
    type = job_type c;
    destination = dest.name;
    size_bytes = p.total_bytes;
    error_msg = message_of p.run_err;
  }

  -- With a valid configuration, a table whose ids ascend below the next one, and a driver that does
  -- not fail, a run adds one job, under the next id and already finished, to the table, and changes no other row: its status, its size and its
  -- message are those of the backup, whose error the run returns.
  pub run-finished_job :
      (r : Run) (c : Config) (s : Store) (w : W)
      → HasFreshIds s
      → validate c ≡ none
      → r.create_fault ≡ none
      → r.complete_fault ≡ none
      → let p = (back_up backups dest c w).0 in
        ((run backups dest r c s w).0 ≡ result_of p.run_err)
        × ((run backups dest r c s w).1
            ≡ record s { jobs = s.jobs ++ finished_job r c s p ∷ []; jobs_seq = suc s.jobs_seq })
  unfolding run run_validated run_created run_job create_job complete_job
  run-finished_job r c s w h v f g =
      rw (v, f, g)
        (
          refl,
          ap
              (λ (js : List Job).
                let t : Store = record s { jobs = js; jobs_seq = suc s.jobs_seq } in t)
              (complete_rows-last r.finished 0 s.jobs_seq (status_of p.run_err) p.total_bytes
                (message_of p.run_err) s.jobs _ h.jobs refl),
        )
    where
      p : Progress
      p = (back_up backups dest c w).0

  retain_protects :
      (entries : W → List Text) (o : Option Text) (ret : RetentionConfig) (now : ℕ) (d : Date)
      (w : W)
      → IsLawful dest entries
      → IsDate d
      → d.year < 10000
      → now ≤ start_of d + day_nanos
      → count_newer d (entries w) ≡ 0
      → In (format_date d) (entries w)
      → In (format_date d) (entries (retain backups dest o ret now w))
  unfolding retain
  retain_protects entries (some e) ret now d w l p y t n i = i
  retain_protects entries none ret now d w l p y t n i =
      elim (Bool-cases (ltb_ℤ (pos 0) ret.keep_last || ltb_ℤ (pos 0) ret.keep_days)) [
        | inl on ↦ rw on (
            apply_protects dest entries l policy now w (format_date d)
              (inr
                (d, parse_date-format d p y, newest_today_survives policy now d (entries w) on t n))
              i)
        | inr off ↦ rw off i
      ]
    where
      policy : Retention.Config
      policy = record { keep_last = ret.keep_last; keep_days = ret.keep_days }

  -- Whatever the retention settings, a run over a lawful destination, of a valid configuration and
  -- with a job record, spares a date, of a four-digit year, whose day has not ended when retention
  -- is applied, where it is there and the newest at the destination after the backup.
  run_spares_today :
      (entries : W → List Text) (r : Run) (c : Config) (s : Store) (w : W) (d : Date)
      → IsLawful dest entries
      → IsDate d
      → d.year < 10000
      → r.swept ≤ start_of d + day_nanos
      → validate c ≡ none
      → r.create_fault ≡ none
      → let w' = (back_up backups dest c w).1 in
        count_newer d (entries w') ≡ 0
        → In (format_date d) (entries w')
        → In (format_date d) (entries (run backups dest r c s w).2)
  unfolding run run_validated run_created run_job create_job
  run_spares_today entries r c s w d l p y t v f n i =
      rw (v, f)
        (retain_protects entries (back_up backups dest c w).0.run_err c.backup.retention r.swept d
          (back_up backups dest c w).1 l p y t n i)

-- A job scoped to a type is of that type, where the configuration includes both halves.
pub job_type-for_type :
    (c : Config) (t : Text)
    → c.backup.include_database ≡ true
    → c.backup.include_storage ≡ true
    → (t ≡ codes "full") ⊎ ((t ≡ codes "database") ⊎ (t ≡ codes "storage"))
    → job_type (for_type t c) ≡ t
unfolding job_type for_type text_eq
job_type-for_type c t a b (inl e) = rw (e, a, b) refl
job_type-for_type c t a b (inr (inl e)) = rw (e, a) refl
job_type-for_type c t a b (inr (inr e)) = rw e refl

module _ {W : Type 0} (backups : Backups W) (dest : Destination W) where
  excluded_backs_up_nothing :
      (c : Config) (w : W)
      → c.backup.include_database ≡ false
      → (back_up backups dest (for_type (codes "database") c) w ≡ (untouched, w))
        × (job_type (for_type (codes "database") c) ≡ codes "storage")
  unfolding back_up run_database run_storage job_type for_type text_eq
  excluded_backs_up_nothing c w e = rw e (refl, refl)

  -- A database job of a configuration that excludes the database calls neither half of the backup,
  -- and yet it answers success and is recorded as a successful storage job of no bytes.
  pub database_job_excluded :
      (r : Run) (c : Config) (s : Store) (w : W)
      → HasFreshIds s
      → c.backup.include_database ≡ false
      → validate (for_type (codes "database") c) ≡ none
      → r.create_fault ≡ none
      → r.complete_fault ≡ none
      → (back_up backups dest (for_type (codes "database") c) w ≡ (untouched, w))
        × ((run backups dest r (for_type (codes "database") c) s w).0 ≡ ok tt)
        × ((run backups dest r (for_type (codes "database") c) s w).1.jobs
            ≡ s.jobs
              ++ record {
                id = pos (suc s.jobs_seq);
                started_at = r.started;
                finished_at = some r.finished;
                status = success;
                type = codes "storage";
                destination = dest.name;
                size_bytes = pos 0;
                error_msg = [];
              }
                ∷ [])
  unfolding result_of status_of message_of
  database_job_excluded r c s w h e v f g =
      let (q, t) = excluded_backs_up_nothing c w e in
      let (answer, store) =
        run-finished_job backups dest r (for_type (codes "database") c) s w h v f g in
      (q, rw q at answer, ap (λ (x : Store). x.jobs) store ∙ (rw (q, t) refl))
