-- ===== src/Api/Schedules/Sync/Startup.antt =====
-- `LoadAndStart` puts cron in step with the table.
use supaback.Prelude.{
  Text, List, [], ◌∷◌, Bool, true, false, Option, none, ok, ◌≡◌, refl, sym, ap, ◌∙◌, arith,
  if◌then◌else◌, Bool-cases, Option-cases, inl, inr,
}
use supaback.Prelude.Int.{ℤ, int_eq, int_eq_iff}
use supaback.Store.{Store, Schedule}
use supaback.Store.Schedules.{find_row, list_schedules}
use supaback.Store.Schedules.Sorted.{Distinct, Ascending-Distinct, find_row-sort, sort-Distinct}
use supaback.Store.Ids.{HasFreshIds}
use supaback.Cron.{Cron, CronJob, IsCron}
use supaback.Scheduler.{Scheduler, new, load_all, load_and_start}
use supaback.Scheduler.EntryMap.{entry_of}
use supaback.Scheduler.Linked.{IsLinked, running, register-IsLinked}
use supaback.Scheduler.Linked.Running.{running-register}
use supaback.Scheduler.Linked.Startup.{new-IsLinked, running-new}
use supaback.Api.Schedules.Sync.{expected, job_if, IsSynced}

-- What runs for `x` after one more row, and after a list of rows, was loaded.
abbrev after_row : (Text → Bool) → ℤ → Schedule → Option CronJob → Option CronJob
after_row parses x sc old =
    if sc.enabled then (if int_eq sc.id x then job_if parses sc.id sc else old) else old

loaded : (Text → Bool) → ℤ → List Schedule → Option CronJob → Option CronJob
loaded parses x [] old = old
loaded parses x (sc ∷ scs) old = loaded parses x scs (after_row parses x sc old)

loaded-absent :
    (parses : Text → Bool) (x : ℤ) (scs : List Schedule) (old : Option CronJob)
    → find_row x scs ≡ none
    → loaded parses x scs old ≡ old
unfolding loaded find_row
loaded-absent parses x [] old h = refl
loaded-absent parses x (sc ∷ scs) old h = ground (arith, loaded-absent parses x scs old)

loaded-expected :
    (parses : Text → Bool) (x : ℤ) (scs : List Schedule)
    → Distinct scs
    → loaded parses x scs none ≡ expected parses (find_row x scs)
unfolding loaded find_row
loaded-expected parses x [] d = refl
loaded-expected parses x (sc ∷ scs) d = elim (Bool-cases (int_eq sc.id x)) [
  | inl t ↦ rw t (
      loaded-absent parses x scs _ (ap (λ z. find_row z scs) (sym ((int_eq_iff sc.id x).0 t)) ∙ d.0)
      ∙ ground arith)
  | inr f ↦ rw f (ap (loaded parses x scs) (same sc.enabled) ∙ loaded-expected parses x scs d.1)
]
  where
    same : (b : Bool) → ◌≡◌ {A = Option CronJob} (if b then none else none) none
    same true = refl
    same false = refl

module _ {C : Type 0} (cron : Cron C) {parses : Text → Bool} (lawful : IsCron cron parses) where
  load_all-IsLinked :
      (scs : List Schedule) (s : Scheduler C)
      → IsLinked cron s
      → IsLinked cron (load_all cron scs s)
  unfolding load_all
  load_all-IsLinked [] s l = l
  load_all-IsLinked (sc ∷ scs) s l = elim (Bool-cases sc.enabled) [
    | inl t ↦
        rw t
          (load_all-IsLinked scs _ (register-IsLinked cron lawful sc.id sc.cron_expr sc.type s l))
    | inr f ↦ rw f (load_all-IsLinked scs s l)
  ]

  running-load_all :
      (x : ℤ) (scs : List Schedule) (s : Scheduler C)
      → IsLinked cron s
      → running cron (load_all cron scs s) x ≡ loaded parses x scs (running cron s x)
  unfolding load_all loaded
  running-load_all x [] s l = refl
  running-load_all x (sc ∷ scs) s l = elim (Bool-cases sc.enabled) [
    | inl t ↦ rw t (
        running-load_all x scs _ (register-IsLinked cron lawful sc.id sc.cron_expr sc.type s l)
        ∙ ap (loaded parses x scs)
            (running-register cron lawful sc.id x sc.cron_expr sc.type s l).0)
    | inr f ↦ rw f (running-load_all x scs s l)
  ]

  start-IsLinked :
      (s : Scheduler C) → IsLinked cron s → IsLinked cron (record s { cron = cron.start s.cron })
  start-IsLinked s l = record {
    recorded = λ i j h. l.recorded i j (sym (lawful.entry-start s.cron i) ∙ h);
    given = λ id i h. rw (lawful.issued-start s.cron) (l.given id i h);
    owned = λ id i j h e. l.owned id i j h (sym (lawful.entry-start s.cron i) ∙ e);
  }

  running-start :
      (x : ℤ) (s : Scheduler C)
      → running cron (record s { cron = cron.start s.cron }) x ≡ running cron s x
  unfolding running
  running-start x s = elim (Option-cases (entry_of s.entries x)) [
    | inl e ↦ rw e refl
    | inr (i, e) ↦ rw e (lawful.entry-start s.cron i)
  ]

  -- Where the rows can be read, `LoadAndStart` of a new scheduler returns no error and puts cron in
  -- step with a table whose ids ascend: each enabled schedule whose expression parses runs, and
  -- nothing else does.
  pub load_and_start-IsSynced :
      (store : Store)
      → HasFreshIds store
      → ((load_and_start cron none store (new cron)).0 ≡ ok tt)
        × IsSynced cron parses
            (record { store = store; scheduler = (load_and_start cron none store (new cron)).1 })
  unfolding load_and_start list_schedules
  load_and_start-IsSynced store fresh = (
    refl,
    record {
      fresh = fresh;
      linked = start-IsLinked _ (load_all-IsLinked _ (new cron) (new-IsLinked cron lawful));
      runs = λ x.
          running-start x _
          ∙ (running-load_all x _ (new cron) (new-IsLinked cron lawful)
              ∙ (ap (loaded parses x _) (running-new cron lawful x)
                  ∙ (loaded-expected parses x _
                        (sort-Distinct (λ sc. sc.created_at) store.schedules distinct)
                      ∙ ap (expected parses)
                          (find_row-sort (λ sc. sc.created_at) x store.schedules distinct))));
    },
  )
    where
      distinct : Distinct store.schedules
      distinct = Ascending-Distinct 0 store.schedules_seq store.schedules fresh.schedules
