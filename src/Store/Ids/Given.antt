-- ===== src/Store/Ids/Given.antt =====
-- Which ids a sequence of statements gives to its rows.
use mathlib.Core.List.{map-append}
use supaback.Prelude.{
  ℕ, suc, List, [], ◌∷◌, ◌++◌, In, none, some, ◌≡◌, ◌≤◌, ◌<◌, ◌⊎◌, inl, inr, refl, arith,
  Bool-cases,
}
use mathlib.Core.Path.{subst}
use supaback.Prelude.Int.{ℤ, pos, int_eq}
use supaback.Store.{Store, Schedule}
use supaback.Store.Jobs.{create_job, complete_job}
use supaback.Store.Schedules.{
  create_schedule, delete_rows, delete_schedule, set_enabled, set_last_run, toggle_schedule,
  touch_schedule,
}
use supaback.Store.Settings.Tables.{set_settings_tables}
use supaback.Store.Ids.{
  job_ids, schedule_ids, job_ids_complete, schedule_ids-update, HasFreshIds, Op, creates_job,
  completes_job, creates_schedule, deletes_schedule, toggles_schedule, touches_schedule,
  sets_settings, perform, run, run-HasFreshIds,
}

-- From the numbers `seq` to `seq'`, a table has not taken back a number that it had counted: what
-- it holds, it held, or is above all that was counted.
abbrev pub Grows : ℕ → ℕ → List ℤ → List ℤ → Type 0
Grows seq seq' ids ids' =
    (seq ≤ seq') × ((x : ℤ) → In x ids' → In x ids ⊎ ((n : ℕ) × (x ≡ pos n) × (seq < n)))

Grows-refl : (seq : ℕ) (ids : List ℤ) → Grows seq seq ids ids
Grows-refl seq ids = (omega arith, λ x i. inl i)

Grows-same : (seq : ℕ) {ids ids' : List ℤ} → ids' ≡ ids → Grows seq seq ids ids'
Grows-same seq e = (omega arith, λ x i. inl (subst (In x) e i))

Grows-trans : (a b c : ℕ) (xs ys zs : List ℤ) → Grows a b xs ys → Grows b c ys zs → Grows a c xs zs
Grows-trans a b c xs ys zs (l, f) (m, g) =
    (omega arith, λ x i. elim (g x i) [ inl j ↦ f x j | inr (n, e, h) ↦ inr (n, e, omega arith) ])

Grows-snoc : (seq : ℕ) (ids : List ℤ) → Grows seq (suc seq) ids (ids ++ pos (suc seq) ∷ [])
Grows-snoc seq ids = (omega arith, added ids)
  where
    added :
        (xs : List ℤ) (x : ℤ)
        → In x (xs ++ pos (suc seq) ∷ [])
        → In x xs ⊎ ((n : ℕ) × (x ≡ pos n) × (seq < n))
    added [] x (inl e) = inr (suc seq, e, omega arith)
    added [] x (inr f) = absurd f
    added (y ∷ ys) x (inl e) = inl (inl e)
    added (y ∷ ys) x (inr i) = elim (added ys x i) [ inl j ↦ inl (inr j) | inr a ↦ inr a ]

In-delete_rows :
    (id x : ℤ) (scs : List Schedule)
    → In x (schedule_ids (delete_rows id scs))
    → In x (schedule_ids scs)
unfolding delete_rows
In-delete_rows id x [] i = i
In-delete_rows id x (sc ∷ scs) i = elim (Bool-cases (int_eq sc.id id)) [
  | inl t ↦ inr (In-delete_rows id x scs (rw (t, delete_rows) at i))
  | inr f ↦ elim (kept (rw (f, delete_rows) at i)) [
    | inl e ↦ inl e
    | inr j ↦ inr (In-delete_rows id x scs j)
  ]
]
  where
    kept :
        In x (sc.id ∷ schedule_ids (delete_rows id scs))
        → (x ≡ sc.id) ⊎ In x (schedule_ids (delete_rows id scs))
    kept i = i

-- Both tables, from one store to another.
abbrev pub GivesNew : Store → Store → Type 0
GivesNew s t =
    Grows s.jobs_seq t.jobs_seq (job_ids s.jobs) (job_ids t.jobs)
    × Grows s.schedules_seq t.schedules_seq (schedule_ids s.schedules) (schedule_ids t.schedules)

GivesNew-refl : (s : Store) → GivesNew s s
GivesNew-refl s =
    (Grows-refl s.jobs_seq (job_ids s.jobs), Grows-refl s.schedules_seq (schedule_ids s.schedules))

perform-GivesNew : (o : Op) (s : Store) → GivesNew s (perform o s)
unfolding perform create_job complete_job create_schedule delete_schedule toggle_schedule
    touch_schedule
perform-GivesNew (creates_job (some e) now t d) s = GivesNew-refl s
perform-GivesNew (creates_job none now t d) s =
    (rw map-append (Grows-snoc s.jobs_seq (job_ids s.jobs)), (GivesNew-refl s).1)
perform-GivesNew (completes_job (some e) now id st size msg) s = GivesNew-refl s
perform-GivesNew (completes_job none now id st size msg) s =
    (Grows-same s.jobs_seq (job_ids_complete now id st size msg s.jobs), (GivesNew-refl s).1)
perform-GivesNew (creates_schedule (some e) now n c t) s = GivesNew-refl s
perform-GivesNew (creates_schedule none now n c t) s =
    ((GivesNew-refl s).0, rw map-append (Grows-snoc s.schedules_seq (schedule_ids s.schedules)))
perform-GivesNew (deletes_schedule (some e) id) s = GivesNew-refl s
perform-GivesNew (deletes_schedule none id) s =
    ((GivesNew-refl s).0, (omega arith, λ x i. inl (In-delete_rows id x s.schedules i)))
perform-GivesNew (toggles_schedule (some e) id on) s = GivesNew-refl s
perform-GivesNew (toggles_schedule none id on) s = (
  (GivesNew-refl s).0,
  Grows-same s.schedules_seq (schedule_ids-update (set_enabled on) id s.schedules (λ sc. refl)),
)
perform-GivesNew (touches_schedule (some e) now id) s = GivesNew-refl s
perform-GivesNew (touches_schedule none now id) s = (
  (GivesNew-refl s).0,
  Grows-same s.schedules_seq (schedule_ids-update (set_last_run now) id s.schedules (λ sc. refl)),
)
perform-GivesNew (sets_settings f m) s =
    let t = set_settings_tables f m s in rw (t.0, t.1, t.2, t.3) (GivesNew-refl s)

run-GivesNew : (os : List Op) (s : Store) → GivesNew s (run os s)
unfolding run
run-GivesNew [] s = GivesNew-refl s
run-GivesNew (o ∷ os) s =
    let (j, sc) = perform-GivesNew o s in
    let (js, scs) = run-GivesNew os (perform o s) in
    (Grows-trans _ _ _ _ _ _ j js, Grows-trans _ _ _ _ _ _ sc scs)

-- Whatever statements are run, failing or not, on a store whose ids ascend, each table by ids that
-- its sequence number has reached at most: the ids of the later tables ascend in the same way, so
-- no two rows of a table share one, the sequence numbers do not go down, and every id of a later
-- table was in the earlier table or is above the earlier sequence number. So an id of a row that
-- was deleted is not given again.
pub run_never_repeats :
    (os : List Op) (s : Store)
    → HasFreshIds s
    → HasFreshIds (run os s)
      × Grows s.jobs_seq (run os s).jobs_seq (job_ids s.jobs) (job_ids (run os s).jobs)
      × Grows s.schedules_seq
          (run os s).schedules_seq
          (schedule_ids s.schedules)
          (schedule_ids (run os s).schedules)
run_never_repeats os s h =
    let (jobs, schedules) = run-GivesNew os s in (run-HasFreshIds os s h, jobs, schedules)
