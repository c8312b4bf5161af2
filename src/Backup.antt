-- ===== src/Backup.antt =====
-- internal/backup: what the two halves of a backup share, how a call ends that may also panic.
pub mod Storage
pub mod Database
use supaback.Prelude.{Text}

-- How a call ends: with a value, with an error, or in a panic. `exhausted` is no outcome of the
-- code: the model ran out of the fuel that it was given.
pub data Outcome (A : Type 0) : Type 0 where
  done : A → Outcome A
  failed : Text → Outcome A
  panicked : Outcome A
  exhausted : Outcome A
