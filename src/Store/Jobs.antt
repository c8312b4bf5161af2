-- ===== src/Store/Jobs.antt =====
-- internal/store/store.go: the table of jobs.
use supaback.Prelude.{
  ℕ, suc, Text, codes, List, [], ◌∷◌, ◌++◌, take, none, some, Result, ok, err, if◌then◌else◌,
}
use supaback.Prelude.Int.{ℤ, pos, negsuc, int_eq}
use supaback.Prelude.Sort.{sort_by}
use supaback.Store.{Store, Job, JobStatus, running, Fault}

-- `CreateJob`: INSERT INTO jobs, and the id of the new row.
unfoldable pub create_job : Fault → ℕ → Text → Text → Store → Result ℤ × Store
create_job (some e) now job_type destination s = (err (codes "create job: " ++ e), s)
create_job none now job_type destination s = (
  ok (pos (suc s.jobs_seq)),
  record s {
    jobs =
        s.jobs
        ++ record {
          id = pos (suc s.jobs_seq);
          started_at = now;
          finished_at = none;
          status = running;
          type = job_type;
          destination = destination;
          size_bytes = pos 0;
          error_msg = [];
        }
          ∷ [];
    jobs_seq = suc s.jobs_seq;
  },
)

-- UPDATE jobs SET … WHERE id=?
unfoldable pub complete_rows : ℕ → ℤ → JobStatus → ℤ → Text → List Job → List Job
complete_rows now id status size msg [] = []
complete_rows now id status size msg (j ∷ js) =
    (if int_eq j.id id
      then record j { finished_at = some now; status = status; size_bytes = size; error_msg = msg }
      else j)
    ∷ complete_rows now id status size msg js

-- `CompleteJob`.
unfoldable pub complete_job :
    Fault → ℕ → ℤ → JobStatus → ℤ → Text → Store → Result (Unit {0}) × Store
complete_job (some e) now id status size msg s = (err e, s)
complete_job none now id status size msg s =
    (ok tt, record s { jobs = complete_rows now id status size msg s.jobs })

-- LIMIT ?, which a negative number lifts.
limit_rows {ℓ} : {A : Type ℓ} → ℤ → List A → List A
limit_rows (pos n) rows = take n rows
limit_rows (negsuc n) rows = rows

-- `ListJobs`: the latest first. SQL leaves the order of equal times open.
unfoldable pub list_jobs : Fault → ℤ → Store → Result (List Job)
unfolding limit_rows
list_jobs (some e) limit s = err e
list_jobs none limit s = ok (limit_rows limit (sort_by (λ j. j.started_at) s.jobs))
