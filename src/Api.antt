-- ===== src/Api.antt =====
-- internal/api/handlers.go: the HTTP handlers. A body is given as what `json.Decode` makes of it,
-- `none` for an error; the router and the encoding of answers are the libraries'.
pub mod Schedules
pub mod Settings
pub mod Jobs
pub mod Backups
pub mod Downloads
pub mod Server
use supaback.Prelude.{ℕ, Text, List, Bool, Option}
use supaback.Prelude.Int.{ℤ}
use supaback.Dict.{Dict}
use supaback.Store.{Schedule, Job}

-- `backupFileJSON` and `backupDateJSON`.
pub record BackupFile : Type 0 where
  pub key : Text
  pub name : Text
  pub size : ℤ

pub record BackupDate : Type 0 where
  pub date : Text
  pub total_bytes : ℤ
  pub files : List BackupFile

pub data Body : Type 0 where
  error : Text → Body
  no_content : Body
  health : Bool → Body
  settings : Bool → Dict → Body
  saved : Bool → Option Text → Body
  jobs : List Job → Body
  started : Text → Body
  schedule : Schedule → Body
  schedules : List Schedule → Body
  backups : List BackupDate → Body

-- What `writeJSON` and `writeError` send.
pub record Response : Type 0 where
  pub status : ℕ
  pub body : Body

abbrev pub respond : ℕ → Body → Response
respond status body = record { status = status; body = body }

abbrev pub fail : ℕ → Text → Response
fail status msg = record { status = status; body = error msg }
