-- ===== src/Store/Migration.antt =====
-- internal/store/store.go: opening and closing the database file.
use supaback.Prelude.{
  ℕ, suc, codes, List, [], ◌∷◌, ◌++◌, Option, none, some, Result, ok, err, ◌≡◌, refl, ◌∙◌,
  Option-cases, inl, inr,
}
use supaback.Dict.{Dict}
use supaback.Store.{Store, Job, Schedule, Fault}

-- What the file holds between two runs of the program: the tables that are there, and the last id
-- that each AUTOINCREMENT column gave. The index on the jobs changes no answer, and is left out.
pub record Tables : Type 0 where
  pub jobs : Option (List Job)
  pub jobs_seq : ℕ
  pub schedules : Option (List Schedule)
  pub schedules_seq : ℕ
  pub settings : Option Dict

-- The rows of a table, none where it is not there.
rows : {A : Type 0} → Option (List A) → List A
rows none = []
rows (some xs) = xs

-- `CREATE TABLE IF NOT EXISTS`, of each table.
create_jobs : Tables → Tables
unfolding rows
create_jobs t = record t { jobs = some (rows t.jobs) }

create_schedules : Tables → Tables
unfolding rows
create_schedules t = record t { schedules = some (rows t.schedules) }

create_settings : Tables → Tables
unfolding rows
create_settings t = record t { settings = some (rows t.settings) }

-- The statements of one `Exec`, numbered from `k`, up to the first one that fails.
unfoldable pub exec_all :
    (ℕ → Fault) → ℕ → List (Tables → Tables) → Tables → Result (Unit {0}) × Tables
exec_all f k [] t = (ok tt, t)
exec_all f k (q ∷ qs) t =
    let rest = exec_all f (suc k) qs (q t) in elim (f k) [ some e ↦ (err e, t) | none ↦ rest ]

-- `migrate`; the second statement creates the index.
unfoldable pub migrate : (ℕ → Fault) → Tables → Result (Unit {0}) × Tables
unfolding create_jobs create_schedules create_settings
migrate f t = exec_all f 0 (create_jobs ∷ (λ x. x) ∷ create_schedules ∷ create_settings ∷ []) t

-- The database behind a handle, read from its tables.
unfoldable pub store_of : Tables → Store
unfolding rows
store_of t = record {
  jobs = rows t.jobs;
  jobs_seq = t.jobs_seq;
  schedules = rows t.schedules;
  schedules_seq = t.schedules_seq;
  settings = rows t.settings;
}

migrated : Result (Unit {0}) × Tables → Result Store × Tables
migrated (ok _, t) = (ok (store_of t), t)
migrated (err e, t) = (err (codes "migrate: " ++ e), t)

-- `New`, of the file that the path names: `opening` is the error of `sql.Open`.
unfoldable pub new_store : Fault → (ℕ → Fault) → Tables → Result Store × Tables
unfolding migrated
new_store (some e) f t = (err (codes "open sqlite: " ++ e), t)
new_store none f t = migrated (migrate f t)

-- `Close`: what the file then holds.
unfoldable pub close : Store → Tables
close s = record {
  jobs = some s.jobs;
  jobs_seq = s.jobs_seq;
  schedules = some s.schedules;
  schedules_seq = s.schedules_seq;
  settings = some s.settings;
}

-- No statement of `migrate` changes what the tables hold.
Harmless : List (Tables → Tables) → Type 0
Harmless [] = Unit
Harmless (q ∷ qs) = ((t : Tables) → store_of (q t) ≡ store_of t) × Harmless qs

exec_all-kept :
    (f : ℕ → Fault) (k : ℕ) (qs : List (Tables → Tables)) (t : Tables)
    → Harmless qs
    → store_of (exec_all f k qs t).1 ≡ store_of t
unfolding exec_all Harmless
exec_all-kept f k [] t h = refl
exec_all-kept f k (q ∷ qs) t h = elim (Option-cases (f k)) [
  | inr (e, p) ↦ rw (p, exec_all) refl
  | inl p ↦ rw (p, exec_all) (exec_all-kept f (suc k) qs (q t) h.1 ∙ h.0 t)
]

pub migrate-kept : (f : ℕ → Fault) (t : Tables) → store_of (migrate f t).1 ≡ store_of t
unfolding migrate store_of create_jobs create_schedules create_settings
migrate-kept f t =
    exec_all-kept f 0 _ t
      (unfold Harmless rows in ((λ t. refl), ((λ t. refl), ((λ t. refl), ((λ t. refl), tt)))))

migrated-kept :
    (r : Result (Unit {0}) × Tables) (s : Store) → (migrated r).0 ≡ ok s → s ≡ store_of r.1
unfolding migrated
migrated-kept (ok u, t) s h = cc
migrated-kept (err e, t) s h = cc

-- A store that `New` opens holds what the file held.
pub new_store-kept :
    (opening : Fault) (f : ℕ → Fault) (t : Tables) {s : Store}
    → (new_store opening f t).0 ≡ ok s
    → s ≡ store_of t
unfolding new_store
new_store-kept (some e) f t h = cc
new_store-kept none f t {s} h = migrated-kept (migrate f t) s h ∙ migrate-kept f t
