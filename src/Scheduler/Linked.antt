-- ===== src/Scheduler/Linked.antt =====
-- The scheduler's map and the cron entries stay linked, and what runs for each schedule.
pub mod Running
pub mod Startup
use supaback.Prelude.{
  ℕ, ◌≤◌, ◌<◌, Text, List, [], ◌∷◌, Bool, true, false, Option, none, some, Result, ok, err, ◌≡◌,
  ◌≢◌, refl, sym, ap, ◌∙◌, arith, ◌==◌, if◌then◌else◌, Bool-cases, Option-cases, Result-cases, inl,
  inr,
}
use supaback.Prelude.Int.{ℤ, int_eq, int_eq_iff}
use supaback.Cron.{Cron, CronJob, IsCron}
use supaback.Scheduler.{Scheduler, make_job, drop_entry, record_entry, register, remove}
use supaback.Scheduler.EntryMap.{
  Entries, entry_of, set_entry, delete_entry, entry_of-set, entry_of-delete,
}

module _ {C : Type 0} (cron : Cron C) where
  -- Each cron entry is the one recorded for its schedule, and no recorded id is still to be given.
  pub record IsLinked (s : Scheduler C) : Type 0 where
    pub recorded :
        (i : ℕ) (j : CronJob)
        → cron.entry s.cron i ≡ some j
        → entry_of s.entries j.schedule_id ≡ some i
    pub given : (id : ℤ) (i : ℕ) → entry_of s.entries id ≡ some i → i ≤ cron.issued s.cron
    pub owned :
        (id : ℤ) (i : ℕ) (j : CronJob)
        → entry_of s.entries id ≡ some i
        → cron.entry s.cron i ≡ some j
        → j.schedule_id ≡ id

  entry_at : C → Option ℕ → Option CronJob
  entry_at c none = none
  entry_at c (some i) = cron.entry c i

  -- The job that cron runs for a schedule.
  unfoldable pub running : Scheduler C → ℤ → Option CronJob
  unfolding entry_at
  running s id = entry_at s.cron (entry_of s.entries id)

module _ {C : Type 0} (cron : Cron C) {parses : Text → Bool} (lawful : IsCron cron parses) where
  entry-drop :
      (o : Option ℕ) (c : C) (k : ℕ) (j : CronJob)
      → cron.entry (drop_entry cron o c) k ≡ some j
      → (cron.entry c k ≡ some j) × (o ≢ some k)
  unfolding drop_entry
  entry-drop none c k j h = (h, λ e. cc)
  entry-drop (some i) c k j h =
      (ground (arith, lawful.entry-remove i k c), λ e. ground (arith, lawful.entry-remove i k c))

  issued-drop : (o : Option ℕ) (c : C) → cron.issued (drop_entry cron o c) ≡ cron.issued c
  unfolding drop_entry
  issued-drop none c = refl
  issued-drop (some i) c = lawful.issued-remove i c

  -- An entry that is not the dropped one stays.
  drop-other :
      (o : Option ℕ) (c : C) (k : ℕ)
      → o ≢ some k
      → cron.entry (drop_entry cron o c) k ≡ cron.entry c k
  unfolding drop_entry
  drop-other none c k h = refl
  drop-other (some i) c k h = elim (Bool-cases (i == k)) [
    | inl e ↦ absurd (h (ground arith))
    | inr e ↦ lawful.entry-remove i k c ∙ (rw e refl)
  ]

  module _ (id : ℤ) (expr job_type : Text) (s : Scheduler C) where
    abbrev dropped : C
    dropped = drop_entry cron (entry_of s.entries id) s.cron

    abbrev job : CronJob
    job = make_job id expr job_type

    -- `register` either records the new entry, or fails with the old one gone.
    register-ok :
        (i : ℕ)
        → (cron.add_func job dropped).0 ≡ ok i
        → register cron id expr job_type s ≡ (
          ok tt,
          record { cron = (cron.add_func job dropped).1; entries = set_entry s.entries id i },
        )
    unfolding register record_entry
    register-ok i e = rw e refl

    register-err :
        (m : Text)
        → (cron.add_func job dropped).0 ≡ err m
        → (register cron id expr job_type s).1 ≡ record { cron = dropped; entries = s.entries }
    unfolding register record_entry
    register-err m e = rw e (
        ap (λ (c : C). let t : Scheduler C = record { cron = c; entries = s.entries } in t)
          (lawful.add_err job dropped m e))

    register-fails :
        (m : Text)
        → (cron.add_func job dropped).0 ≡ err m
        → (register cron id expr job_type s).0 ≢ ok tt
    unfolding register record_entry
    register-fails m e = rw e (λ h. cc)

    registered-IsLinked :
        (i : ℕ)
        → (cron.add_func job dropped).0 ≡ ok i
        → IsLinked cron s
        → IsLinked cron
            (record { cron = (cron.add_func job dropped).1; entries = set_entry s.entries id i })
    registered-IsLinked i e l = record {
      recorded = λ k j h. elim (Bool-cases (i == k)) [
        | inl t ↦ ground (
          arith,
          lawful.entry-add job dropped i k e,
          entry_of-set s.entries id j.schedule_id i,
          int_eq_iff id id,
        )
        | inr t ↦
            let (was, other) = entry-drop (entry_of s.entries id) s.cron k j (kept k j t h) in
            let there : entry_of s.entries j.schedule_id ≡ some k = l.recorded k j was in
            let apart : int_eq id j.schedule_id ≡ false = distinct id j.schedule_id k other there in
            rw (entry_of-set s.entries id j.schedule_id i, apart) there
      ];
      given = λ x k h. ground (
        arith,
        entry_of-set s.entries id x i,
        l.given x k,
        lawful.add_above job dropped i e,
        lawful.issued-add job dropped i e,
        issued-drop (entry_of s.entries id) s.cron,
      );
      owned = λ x k j h g. elim (Bool-cases (int_eq id x)) [
        | inl t ↦ ground (
          arith,
          lawful.entry-add job dropped i k e,
          entry_of-set s.entries id x i,
          int_eq_iff id x,
        )
        | inr t ↦
            let old : entry_of s.entries x ≡ some k =
              ground (arith, entry_of-set s.entries id x i) in
            l.owned x k j old
              (entry-drop (entry_of s.entries id) s.cron k j
                (kept k j (later k (l.given x k old)) g)).0
      ];
    }
      where
        kept :
            (k : ℕ) (j : CronJob)
            → (i == k) ≡ false
            → cron.entry (cron.add_func job dropped).1 k ≡ some j
            → cron.entry dropped k ≡ some j
        kept k j t h = ground (arith, lawful.entry-add job dropped i k e)

        later : (k : ℕ) → k ≤ cron.issued s.cron → (i == k) ≡ false
        later k h =
            ground
              (arith, lawful.add_above job dropped i e, issued-drop (entry_of s.entries id) s.cron)

        distinct :
            (a b : ℤ) (k : ℕ)
            → entry_of s.entries a ≢ some k
            → entry_of s.entries b ≡ some k
            → int_eq a b ≡ false
        distinct a b k h g = elim (Bool-cases (int_eq a b)) [
          | inl t ↦ absurd (h (ap (entry_of s.entries) ((int_eq_iff a b).0 t) ∙ g))
          | inr t ↦ t
        ]

    refused-IsLinked :
        IsLinked cron s → IsLinked cron (record { cron = dropped; entries = s.entries })
    refused-IsLinked l = record {
      recorded = λ k j h. l.recorded k j (entry-drop (entry_of s.entries id) s.cron k j h).0;
      given = λ x k h. rw (issued-drop (entry_of s.entries id) s.cron) (l.given x k h);
      owned = λ x k j h g. l.owned x k j h (entry-drop (entry_of s.entries id) s.cron k j g).0;
    }

    -- Registering a schedule keeps the entries linked, whether cron takes its expression or not.
    pub register-IsLinked : IsLinked cron s → IsLinked cron (register cron id expr job_type s).1
    register-IsLinked l = elim (Result-cases (cron.add_func job dropped).0) [
      | inl (i, e) ↦ rw (register-ok i e) (registered-IsLinked i e l)
      | inr (m, e) ↦ rw (register-err m e) (refused-IsLinked l)
    ]

  removed-IsLinked :
      (id : ℤ) (i : ℕ) (s : Scheduler C)
      → entry_of s.entries id ≡ some i
      → IsLinked cron s
      → IsLinked cron (record { cron = cron.remove i s.cron; entries = delete_entry s.entries id })
  removed-IsLinked id i s e l = record {
    recorded = λ k j h. ground (
      arith,
      entry_of-delete s.entries id j.schedule_id,
      lawful.entry-remove i k s.cron,
      l.recorded k j,
      int_eq_iff id j.schedule_id,
    );
    given = λ x k h.
        ground (arith, entry_of-delete s.entries id x, l.given x k, lawful.issued-remove i s.cron);
    owned = λ x k j h g.
        l.owned x k j (ground (arith, entry_of-delete s.entries id x))
          (ground (arith, lawful.entry-remove i k s.cron));
  }

  -- Removing a schedule keeps the links.
  pub remove-IsLinked :
      (id : ℤ) (s : Scheduler C) → IsLinked cron s → IsLinked cron (remove cron id s)
  unfolding remove
  remove-IsLinked id s l = elim (Option-cases (entry_of s.entries id)) [
    | inl e ↦ rw (e, remove) l
    | inr (i, e) ↦ rw (e, remove) (removed-IsLinked id i s e l)
  ]
