-- ===== src/Store/Ids.antt =====
-- Row ids: each table's ids ascend, and the next id is above them all.
pub mod Given
use mathlib.Core.List.{map-append}
use supaback.Prelude.{
  ℕ, suc, Text, List, [], ◌∷◌, ◌++◌, map, none, some, Bool, false, ◌≡◌, ◌≤◌, ◌<◌, refl, ap, ◌∙◌,
  arith, Bool-cases, inl, inr,
}
use supaback.Prelude.Int.{ℤ, pos, int_eq, int_eq_iff}
use supaback.Dict.{Dict}
use supaback.Store.{Store, Job, JobStatus, Schedule, Fault, new}
use supaback.Store.Jobs.{create_job, complete_rows, complete_job}
use supaback.Store.Schedules.{
  create_schedule, find_row, delete_rows, delete_schedule, update_rows, set_enabled, set_last_run,
  toggle_schedule, touch_schedule,
}
use supaback.Store.Settings.{TxFaults, set_settings}
use supaback.Store.Settings.Tables.{set_settings_tables}

-- The ids ascend from above `lo` up to `hi` at most.
abbrev pub Ascending : ℕ → List ℤ → ℕ → Type 0
Ascending lo [] hi = lo ≤ hi
Ascending lo (id ∷ ids) hi = (n : ℕ) × (id ≡ pos n) × (lo < n) × Ascending n ids hi

abbrev pub job_ids : List Job → List ℤ
job_ids = map λ j. j.id

abbrev pub schedule_ids : List Schedule → List ℤ
schedule_ids = map λ sc. sc.id

pub record HasFreshIds (s : Store) : Type 0 where
  pub jobs : Ascending 0 (job_ids s.jobs) s.jobs_seq
  pub schedules : Ascending 0 (schedule_ids s.schedules) s.schedules_seq

Ascending-snoc :
    (lo : ℕ) (ids : List ℤ) (hi : ℕ)
    → Ascending lo ids hi
    → Ascending lo (ids ++ pos (suc hi) ∷ []) (suc hi)
Ascending-snoc lo [] hi h = (suc hi, refl, omega arith, omega arith)
Ascending-snoc lo (id ∷ ids) hi (n, e, l, a) = (n, e, l, Ascending-snoc n ids hi a)

Ascending-le :
    (lo lo' : ℕ) (ids : List ℤ) (hi : ℕ) → lo ≤ lo' → Ascending lo' ids hi → Ascending lo ids hi
Ascending-le lo lo' [] hi h a = omega arith
Ascending-le lo lo' (id ∷ ids) hi h (n, e, l, a) = (n, e, omega arith, a)

pub job_ids_complete :
    (now : ℕ) (id : ℤ) (status : JobStatus) (size : ℤ) (msg : Text) (js : List Job)
    → job_ids (complete_rows now id status size msg js) ≡ job_ids js
unfolding complete_rows
job_ids_complete now id status size msg [] = refl
job_ids_complete now id status size msg (j ∷ js) =
    ground (arith, job_ids_complete now id status size msg js)

pub schedule_ids-update :
    (f : Schedule → Schedule) (id : ℤ) (scs : List Schedule)
    → ((sc : Schedule) → (f sc).id ≡ sc.id)
    → schedule_ids (update_rows f id scs) ≡ schedule_ids scs
unfolding update_rows
schedule_ids-update f id [] h = refl
schedule_ids-update f id (sc ∷ scs) h = ground (arith, h sc, schedule_ids-update f id scs h)

delete_rows-Ascending :
    (id : ℤ) (lo : ℕ) (scs : List Schedule) (hi : ℕ)
    → Ascending lo (schedule_ids scs) hi
    → Ascending lo (schedule_ids (delete_rows id scs)) hi
unfolding delete_rows
delete_rows-Ascending id lo [] hi a = a
delete_rows-Ascending id lo (sc ∷ scs) hi (n, e, l, a) = elim (Bool-cases (int_eq sc.id id)) [
  | inl t ↦ rw t (Ascending-le lo n _ hi (omega arith) (delete_rows-Ascending id n scs hi a))
  | inr t ↦ rw t (n, e, l, delete_rows-Ascending id n scs hi a)
]

-- Every statement that writes to the store.
pub data Op : Type 0 where
  creates_job : Fault → ℕ → Text → Text → Op
  completes_job : Fault → ℕ → ℤ → JobStatus → ℤ → Text → Op
  creates_schedule : Fault → ℕ → Text → Text → Text → Op
  deletes_schedule : Fault → ℤ → Op
  toggles_schedule : Fault → ℤ → Bool → Op
  touches_schedule : Fault → ℕ → ℤ → Op
  sets_settings : TxFaults → Dict → Op

unfoldable pub perform : Op → Store → Store
perform (creates_job f now t d) s = (create_job f now t d s).1
perform (completes_job f now id st size msg) s = (complete_job f now id st size msg s).1
perform (creates_schedule f now n c t) s = (create_schedule f now n c t s).1
perform (deletes_schedule f id) s = (delete_schedule f id s).1
perform (toggles_schedule f id on) s = (toggle_schedule f id on s).1
perform (touches_schedule f now id) s = (touch_schedule f now id s).1
perform (sets_settings f m) s = (set_settings f m s).1

-- After any statement, failing or not, the ids of each table go on ascending, and the next one
-- stays above them.
pub perform-HasFreshIds : (o : Op) (s : Store) → HasFreshIds s → HasFreshIds (perform o s)
unfolding perform create_job complete_job create_schedule delete_schedule toggle_schedule
    touch_schedule
perform-HasFreshIds (creates_job (some e) now t d) s h = h
perform-HasFreshIds (creates_job none now t d) s h = record {
  jobs = rw map-append (Ascending-snoc 0 (job_ids s.jobs) s.jobs_seq h.jobs);
  schedules = h.schedules;
}
perform-HasFreshIds (completes_job (some e) now id st size msg) s h = h
perform-HasFreshIds (completes_job none now id st size msg) s h = record {
  jobs = rw (job_ids_complete now id st size msg s.jobs) h.jobs;
  schedules = h.schedules;
}
perform-HasFreshIds (creates_schedule (some e) now n c t) s h = h
perform-HasFreshIds (creates_schedule none now n c t) s h = record {
  jobs = h.jobs;
  schedules =
      rw map-append (Ascending-snoc 0 (schedule_ids s.schedules) s.schedules_seq h.schedules);
}
perform-HasFreshIds (deletes_schedule (some e) id) s h = h
perform-HasFreshIds (deletes_schedule none id) s h = record {
  jobs = h.jobs;
  schedules = delete_rows-Ascending id 0 s.schedules s.schedules_seq h.schedules;
}
perform-HasFreshIds (toggles_schedule (some e) id on) s h = h
perform-HasFreshIds (toggles_schedule none id on) s h = record {
  jobs = h.jobs;
  schedules = rw (schedule_ids-update (set_enabled on) id s.schedules (λ sc. refl)) h.schedules;
}
perform-HasFreshIds (touches_schedule (some e) now id) s h = h
perform-HasFreshIds (touches_schedule none now id) s h = record {
  jobs = h.jobs;
  schedules = rw (schedule_ids-update (set_last_run now) id s.schedules (λ sc. refl)) h.schedules;
}
perform-HasFreshIds (sets_settings f m) s h =
    let t = set_settings_tables f m s in
    record { jobs = rw (t.0, t.1) h.jobs; schedules = rw (t.2, t.3) h.schedules }

-- A sequence of statements.
pub run : List Op → Store → Store
run [] s = s
run (o ∷ os) s = run os (perform o s)

pub run-HasFreshIds : (os : List Op) (s : Store) → HasFreshIds s → HasFreshIds (run os s)
unfolding run
run-HasFreshIds [] s h = h
run-HasFreshIds (o ∷ os) s h = run-HasFreshIds os (perform o s) (perform-HasFreshIds o s h)

pub new-HasFreshIds : HasFreshIds new
new-HasFreshIds = record { jobs = omega arith; schedules = omega arith }

pub Ascending-bound : (lo : ℕ) (ids : List ℤ) (hi : ℕ) → Ascending lo ids hi → lo ≤ hi
Ascending-bound lo [] hi a = a
Ascending-bound lo (id ∷ ids) hi (n, e, l, a) = omega (arith, Ascending-bound n ids hi a)

pub int_eq-above : (n hi : ℕ) → n ≤ hi → int_eq (pos n) (pos (suc hi)) ≡ false
unfolding int_eq
int_eq-above n hi h = ground arith

-- The row of a job that was just created is the only one that its completion writes to.
pub complete_rows-last :
    (now lo hi : ℕ) (status : JobStatus) (size : ℤ) (msg : Text) (js : List Job) (j : Job)
    → Ascending lo (job_ids js) hi
    → j.id ≡ pos (suc hi)
    → complete_rows now (pos (suc hi)) status size msg (js ++ j ∷ [])
      ≡ js
        ++ record j { finished_at = some now; status = status; size_bytes = size; error_msg = msg }
          ∷ []
unfolding complete_rows
complete_rows-last now lo hi status size msg [] j a e =
    rw ((int_eq_iff j.id (pos (suc hi))).1 e) refl
complete_rows-last now lo hi status size msg (x ∷ xs) j (n, p, l, a) e =
    rw other (ap (◌∷◌ x) (complete_rows-last now n hi status size msg xs j a e))
  where
    other : int_eq x.id (pos (suc hi)) ≡ false
    other =
        ap (λ (z : ℤ). int_eq z (pos (suc hi))) p
        ∙ int_eq-above n hi (Ascending-bound n (job_ids xs) hi a)

-- The next id is in no row.
pub find_row-next :
    (lo hi : ℕ) (scs : List Schedule)
    → Ascending lo (schedule_ids scs) hi
    → find_row (pos (suc hi)) scs ≡ none
unfolding find_row
find_row-next lo hi [] a = refl
find_row-next lo hi (x ∷ xs) (n, p, l, a) = rw other (find_row-next n hi xs a)
  where
    other : int_eq x.id (pos (suc hi)) ≡ false
    other =
        ap (λ (z : ℤ). int_eq z (pos (suc hi))) p
        ∙ int_eq-above n hi (Ascending-bound n (schedule_ids xs) hi a)
