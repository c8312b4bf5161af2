-- ===== src/Scheduler/Linked/Startup.antt =====
-- The scheduler as it is at the start of the program.
use supaback.Prelude.{Text, Bool, none, some, ◌≡◌, refl, ◌∙◌, sym}
use supaback.Prelude.Int.{ℤ}
use supaback.Cron.{Cron, IsCron}
use supaback.Scheduler.{new}
use supaback.Scheduler.EntryMap.{entry_of}
use supaback.Scheduler.Linked.{IsLinked, running}

never : {A : Type 0} {a : A} → none ≡ some a → ⊥
never h = cc

module _ {C : Type 0} (cron : Cron C) {parses : Text → Bool} (lawful : IsCron cron parses) where
  pub new-IsLinked : IsLinked cron (new cron)
  unfolding entry_of
  new-IsLinked = record {
    recorded = λ i j h. absurd (never (sym (lawful.entry-empty i) ∙ h));
    given = λ id i h. absurd (never h);
    owned = λ id i j h e. absurd (never h);
  }

  pub running-new : (x : ℤ) → running cron (new cron) x ≡ none
  unfolding running entry_of
  running-new x = refl
