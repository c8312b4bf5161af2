-- ===== src/Scheduler/Linked/Running.antt =====
-- What cron runs for each schedule after `register` and `Remove`.
use supaback.Prelude.{
  ℕ, Text, Bool, true, false, Option, none, some, Result, ok, err, ◌≡◌, ◌↔◌, refl, sym, ◌∙◌, arith,
  if◌then◌else◌, Bool-cases, Option-cases, Result-cases, inl, inr,
}
use supaback.Prelude.Int.{ℤ, int_eq, int_eq_iff}
use supaback.Cron.{Cron, IsCron}
use supaback.Scheduler.{Scheduler, make_job, drop_entry, register, remove}
use supaback.Scheduler.EntryMap.{entry_of, set_entry, delete_entry, entry_of-set, entry_of-delete}
use supaback.Scheduler.Linked.{
  IsLinked, running, entry_at, drop-other, issued-drop, register-ok, register-err, register-fails,
  dropped,
}

module _ {C : Type 0} (cron : Cron C) {parses : Text → Bool} (lawful : IsCron cron parses) where
  drop-none :
      (o : Option ℕ) (c : C) (k : ℕ)
      → cron.entry c k ≡ none
      → cron.entry (drop_entry cron o c) k ≡ none
  unfolding drop_entry
  drop-none none c k h = h
  drop-none (some i) c k h = ground (arith, lawful.entry-remove i k c)

  -- Dropping the entry of one schedule leaves those of the others.
  drop-apart :
      (id x : ℤ) (k : ℕ) (s : Scheduler C)
      → IsLinked cron s
      → int_eq id x ≡ false
      → entry_of s.entries x ≡ some k
      → cron.entry (drop_entry cron (entry_of s.entries id) s.cron) k ≡ cron.entry s.cron k
  drop-apart id x k s l a h = elim (Option-cases (cron.entry s.cron k)) [
    | inl e ↦ drop-none (entry_of s.entries id) s.cron k e ∙ sym e
    | inr (j, e) ↦ drop-other cron lawful (entry_of s.entries id) s.cron k (λ g.
        false_true ((sym a) ∙ (int_eq_iff id x).1 (sym (l.owned id k j g e) ∙ l.owned x k j h e)))
  ]
    where
      false_true : false ≡ true → ⊥
      false_true p = cc

  drop_self : (o : Option ℕ) (c : C) → entry_at cron (drop_entry cron o c) o ≡ none
  unfolding drop_entry entry_at
  drop_self none c = refl
  drop_self (some i) c = ground (arith, lawful.entry-remove i i c)

  module _ (id x : ℤ) (expr job_type : Text) (s : Scheduler C) (l : IsLinked cron s) where
    unmoved :
        int_eq id x ≡ false
        → entry_at cron (dropped cron lawful id expr job_type s) (entry_of s.entries x)
          ≡ entry_at cron s.cron (entry_of s.entries x)
    unfolding entry_at
    unmoved f = elim (Option-cases (entry_of s.entries x)) [
      | inl e ↦ rw e refl
      | inr (k, e) ↦ rw e (drop-apart id x k s l f e)
    ]

    running-dropped :
        running cron
          (record { cron = dropped cron lawful id expr job_type s; entries = s.entries })
          x
        ≡ (if int_eq id x then none else running cron s x)
    unfolding running
    running-dropped = elim (Bool-cases (int_eq id x)) [
      | inl t ↦ rw (t, ← (int_eq_iff id x).0 t) (drop_self (entry_of s.entries id) s.cron)
      | inr f ↦ rw f (unmoved f)
    ]

    abbrev added : Result ℕ × C
    added = cron.add_func (make_job id expr job_type) (dropped cron lawful id expr job_type s)

    fresh :
        (i : ℕ) → added.0 ≡ ok i → entry_at cron added.1 (some i) ≡ some (make_job id expr job_type)
    unfolding entry_at
    fresh i e = ground (
      arith,
      lawful.entry-add (make_job id expr job_type) (dropped cron lawful id expr job_type s) i i e,
    )

    -- The recorded ids are older than the new one.
    kept :
        (i : ℕ)
        → added.0 ≡ ok i
        → entry_at cron added.1 (entry_of s.entries x)
          ≡ entry_at cron (dropped cron lawful id expr job_type s) (entry_of s.entries x)
    unfolding entry_at
    kept i e = elim (Option-cases (entry_of s.entries x)) [
      | inl n ↦ rw n refl
      | inr (k, n) ↦ rw n (
          ground (
            arith,
            l.given x k n,
            issued-drop cron lawful (entry_of s.entries id) s.cron,
            lawful.add_above (make_job id expr job_type) (dropped cron lawful id expr job_type s) i
                e,
            lawful.entry-add (make_job id expr job_type) (dropped cron lawful id expr job_type s) i
                k e,
          ))
    ]

    running-registered :
        (i : ℕ)
        → (cron.add_func (make_job id expr job_type) (dropped cron lawful id expr job_type s)).0
          ≡ ok i
        → running cron
            (record {
              cron =
                  (cron.add_func
                    (make_job id expr job_type)
                    (dropped cron lawful id expr job_type s)).1;
              entries = set_entry s.entries id i;
            })
            x
          ≡ (if int_eq id x then some (make_job id expr job_type) else running cron s x)
    unfolding running
    running-registered i e = elim (Bool-cases (int_eq id x)) [
      | inl t ↦ rw (entry_of-set s.entries id x i, t) (fresh i e)
      | inr f ↦ rw (entry_of-set s.entries id x i, f) (kept i e ∙ unmoved f)
    ]

    -- On linked entries: after `register` the schedule runs exactly where its expression parses, whatever ran for it
    -- before, and what runs for the other schedules is as it was. `register` returns an error
    -- exactly where the expression does not parse.
    pub running-register :
        (running cron (register cron id expr job_type s).1 x ≡ (
          if int_eq id x
          then (if parses expr then some (make_job id expr job_type) else none)
          else running cron s x))
        × (((register cron id expr job_type s).0 ≡ ok tt) ↔ (parses expr ≡ true))
    running-register = elim (Result-cases added.0) [
      | inl (i, e) ↦
          rw
            (
              register-ok cron lawful id expr job_type s i e,
              lawful.add_parses (make_job id expr job_type) (dropped cron lawful id expr job_type s)
                  i e,
            )
            (running-registered i e, (λ _. refl, λ _. refl))
      | inr (m, e) ↦
          let bad : parses expr ≡ false = refused m e in
          (
            rw (register-err cron lawful id expr job_type s m e, bad) running-dropped,
            (
              λ h. absurd (register-fails cron lawful id expr job_type s m e h),
              λ h. absurd (differ bad h),
            ),
          )
    ]
      where
        differ : {b : Bool} → b ≡ false → b ≡ true → ⊥
        differ p q = cc

        clash : {r : Result ℕ} {i : ℕ} {m : Text} → r ≡ ok i → r ≡ err m → ⊥
        clash p q = cc

        refused : (m : Text) → added.0 ≡ err m → parses expr ≡ false
        refused m e = elim (Bool-cases (parses expr)) [
          | inl t ↦
              let (i, q) =
                lawful.parses_add (make_job id expr job_type)
                  (dropped cron lawful id expr job_type s) t in
              absurd (clash q e)
          | inr f ↦ f
        ]

  nothing_runs :
      (id x : ℤ) (s : Scheduler C)
      → entry_of s.entries id ≡ none
      → running cron s x ≡ (if int_eq id x then none else running cron s x)
  unfolding running entry_at
  nothing_runs id x s e = elim (Bool-cases (int_eq id x)) [
    | inl t ↦ rw (t, ← (int_eq_iff id x).0 t, e) refl
    | inr f ↦ rw f refl
  ]

  removed_runs :
      (id x : ℤ) (i : ℕ) (s : Scheduler C)
      → IsLinked cron s
      → entry_of s.entries id ≡ some i
      → running cron (record { cron = cron.remove i s.cron; entries = delete_entry s.entries id }) x
        ≡ (if int_eq id x then none else running cron s x)
  unfolding running entry_at
  removed_runs id x i s l e = elim (Bool-cases (int_eq id x)) [
    | inl t ↦ rw (entry_of-delete s.entries id x, t) refl
    | inr f ↦ elim (Option-cases (entry_of s.entries x)) [
      | inl n ↦ rw (entry_of-delete s.entries id x, f, n) refl
      | inr (k, n) ↦
          rw (entry_of-delete s.entries id x, f, n)
            (unfold drop_entry in rw e at (drop-apart id x k s l f n))
    ]
  ]

  -- On linked entries: after `Remove` nothing runs for the schedule, and what runs for the others is
  -- as it was.
  pub running-remove :
      (id x : ℤ) (s : Scheduler C)
      → IsLinked cron s
      → running cron (remove cron id s) x ≡ (if int_eq id x then none else running cron s x)
  unfolding remove
  running-remove id x s l = elim (Option-cases (entry_of s.entries id)) [
    | inl e ↦ rw (e, remove) (nothing_runs id x s e)
    | inr (i, e) ↦ rw (e, remove) (removed_runs id x i s l e)
  ]
