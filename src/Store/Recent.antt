-- ===== src/Store/Recent.antt =====
-- `ListJobs` returns the latest jobs.
use Prim.Native.Nat.{min}
use mathlib.Core.List.{Perm}
use mathlib.Core.Path.{◌≡◌, refl, ap}
use supaback.Prelude.{ℕ, zero, suc, List, [], ◌∷◌, ◌++◌, take, length, none, ok, arith}
use supaback.Prelude.Int.{pos}
use supaback.Prelude.Sort.{sort_by, sort_by-perm, sort_by-IsDescBy, IsDescBy}
use supaback.Store.{Store, Job}
use supaback.Store.Jobs.{list_jobs}

abbrev pub drop {ℓ} : {A : Type ℓ} → ℕ → List A → List A
drop zero xs = xs
drop (suc n) [] = []
drop (suc n) (x ∷ xs) = drop n xs

take-append-drop {ℓ} : {A : Type ℓ} (n : ℕ) (xs : List A) → take n xs ++ drop n xs ≡ xs
take-append-drop zero xs = refl
take-append-drop (suc n) [] = refl
take-append-drop (suc n) (x ∷ xs) = ap (◌∷◌ x) (take-append-drop n xs)

length-take {ℓ} : {A : Type ℓ} (n : ℕ) (xs : List A) → length (take n xs) ≡ min n (length xs)
length-take zero xs = omega arith
length-take (suc n) [] = omega arith
length-take (suc n) (x ∷ xs) = omega (arith, length-take n xs)

-- A listing with a limit is the beginning of the table sorted by start, latest first: with the jobs
-- that it leaves out it makes up the whole table, and none of those started after one that it has.
pub list_jobs-latest :
    (n : ℕ) (s : Store)
    → (jobs rest : List Job) × (list_jobs none (pos n) s ≡ ok jobs)
      × (length jobs ≡ min n (length (jobs ++ rest)))
      × Perm (jobs ++ rest) s.jobs
      × IsDescBy (λ j. j.started_at) (jobs ++ rest)
unfolding list_jobs
list_jobs-latest n s = (
  take n sorted,
  drop n sorted,
  refl,
  rw (take-append-drop n sorted) (length-take n sorted),
  rw (take-append-drop n sorted) (sort_by-perm (λ j. j.started_at) s.jobs),
  rw (take-append-drop n sorted) (sort_by-IsDescBy (λ j. j.started_at) s.jobs),
)
  where
    sorted : List Job
    sorted = sort_by (λ j. j.started_at) s.jobs
