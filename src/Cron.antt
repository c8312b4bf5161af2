-- ===== src/Cron.antt =====
-- The cron library that the scheduler uses (github.com/robfig/cron/v3), which is not part of the
-- repository: its operations, and the documented behaviour that the scheduler relies on.
use supaback.Prelude.{
  ℕ, Text, Result, ok, err, Option, none, some, Bool, true, ◌≡◌, ◌<◌, ◌==◌, if◌then◌else◌,
}
use supaback.Prelude.Int.{ℤ}

-- What the closure of `makeJob` holds, and the expression at which it is run.
pub record CronJob : Type 0 where
  pub expr : Text
  pub schedule_id : ℤ
  pub job_type : Text

-- `C` is the state of a `*cron.Cron`; an entry id is a number.
pub record Cron (C : Type 0) : Type 0 where
  pub empty : C
  pub add_func : CronJob → C → Result ℕ × C
  pub remove : ℕ → C → C
  pub start : C → C
  pub stop : C → C
  -- the job of an entry, where there is such an entry
  pub entry : C → ℕ → Option CronJob
  -- the last id that was given
  pub issued : C → ℕ

-- `AddFunc` gives an id above all earlier ones or, on an expression that does not parse, an error
-- and no entry; `Remove` takes one entry out; `Start` and `Stop` change no entry.
pub record IsCron {C : Type 0} (cron : Cron C) (parses : Text → Bool) : Type 0 where
  pub entry-empty : (i : ℕ) → cron.entry cron.empty i ≡ none
  pub add_parses :
      (j : CronJob) (c : C) (i : ℕ) → (cron.add_func j c).0 ≡ ok i → parses j.expr ≡ true
  pub parses_add :
      (j : CronJob) (c : C) → parses j.expr ≡ true → (i : ℕ) × ((cron.add_func j c).0 ≡ ok i)
  pub add_above : (j : CronJob) (c : C) (i : ℕ) → (cron.add_func j c).0 ≡ ok i → cron.issued c < i
  pub issued-add :
      (j : CronJob) (c : C) (i : ℕ)
      → (cron.add_func j c).0 ≡ ok i
      → cron.issued (cron.add_func j c).1 ≡ i
  pub entry-add :
      (j : CronJob) (c : C) (i k : ℕ)
      → (cron.add_func j c).0 ≡ ok i
      → cron.entry (cron.add_func j c).1 k ≡ (if i == k then some j else cron.entry c k)
  pub add_err :
      (j : CronJob) (c : C) (e : Text) → (cron.add_func j c).0 ≡ err e → (cron.add_func j c).1 ≡ c
  pub entry-remove :
      (i k : ℕ) (c : C) → cron.entry (cron.remove i c) k ≡ (if i == k then none else cron.entry c k)
  pub issued-remove : (i : ℕ) (c : C) → cron.issued (cron.remove i c) ≡ cron.issued c
  pub entry-start : (c : C) (k : ℕ) → cron.entry (cron.start c) k ≡ cron.entry c k
  pub issued-start : (c : C) → cron.issued (cron.start c) ≡ cron.issued c
  pub entry-stop : (c : C) (k : ℕ) → cron.entry (cron.stop c) k ≡ cron.entry c k
  pub issued-stop : (c : C) → cron.issued (cron.stop c) ≡ cron.issued c
