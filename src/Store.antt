-- ===== src/Store.antt =====
-- internal/store: the tables of the SQLite database. A statement is translated as SQL reads it; the
-- driver's failure of a statement is an argument, `none` where it runs, and a statement that fails
-- changes nothing. Times are arguments too.
pub mod Jobs
pub mod Schedules
pub mod Settings
pub mod Ids
pub mod Recent
pub mod Migration
use supaback.Prelude.{ℕ, Text, List, [], Bool, Option}
use supaback.Prelude.Int.{ℤ}
use supaback.Dict.{Dict}

pub data JobStatus : Type 0 where
  running success failed : JobStatus

pub record Job : Type 0 where
  pub id : ℤ
  pub started_at : ℕ
  pub finished_at : Option ℕ
  pub status : JobStatus
  pub type : Text
  pub destination : Text
  pub size_bytes : ℤ
  pub error_msg : Text

pub record Schedule : Type 0 where
  pub id : ℤ
  pub name : Text
  pub cron_expr : Text
  pub type : Text
  pub enabled : Bool
  pub created_at : ℕ
  pub last_run_at : Option ℕ

-- The tables, with the last id that each AUTOINCREMENT column gave.
pub record Store : Type 0 where
  pub jobs : List Job
  pub jobs_seq : ℕ
  pub schedules : List Schedule
  pub schedules_seq : ℕ
  pub settings : Dict

-- The error of the driver, if a statement fails.
abbrev pub Fault : Type 0
Fault = Option Text

-- The tables that `migrate` creates in a new database.
abbrev pub new : Store
new = record { jobs = []; jobs_seq = 0; schedules = []; schedules_seq = 0; settings = [] }
