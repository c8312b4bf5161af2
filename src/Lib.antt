-- ===== src/Lib.antt =====
-- SupaBack: a program that backs up a Supabase project, its database and its storage buckets, to a
-- local directory, an S3 bucket or an SFTP server, by hand or on cron schedules.
--
-- The parts, and how they interact. `main` (cmd/supaback/main.go) loads the configuration, merges
-- the table of settings and the environment into it, opens the destination, and starts the scheduler.
-- The handlers of the HTTP server change the tables, the configuration in use and the scheduler. A
-- due schedule, or a request, starts a runner, which writes the backup to the destination, records
-- the job and applies the retention policy.
--
--   * Config (internal/config): the records of config.go, `for_type`, `load`, `apply_env` and
--     `validate`; Config/Key and Config/Settings are settings.go (`merge_from_map`, `to_map`) with
--     `env_overrides` of config.go. Config/Merge, Config/Environment and Config/Validity prove.
--   * Retention (internal/retention/retention.go): `apply` and `build_keep_set`. Retention/Keep
--     states the policy (`survives`); Retention/Sweep and Retention/Policy are about what `apply` leaves.
--   * Destination (internal/destination/destination.go): the interface, as a record over a world `W`,
--     with the laws that its comments promise (`IsLawful`). Destination/Local
--     (internal/destination/local.go) is its implementation on a disk; Destination/Local/Lawful is
--     about the laws, Destination/Local/RoundTrip about what is written and read,
--     Destination/Local/Held and Destination/Local/Spared about what stands at a place and what a
--     deletion of another name leaves. Destination/S3
--     (internal/destination/s3.go) is the one in a bucket, over the AWS SDK (`Sdk`), of which `W` is
--     the world; Destination/S3/Pages is about its deletions, with the keys that an answer of
--     `DeleteObjects` reports as not removed. Destination/Sftp
--     (internal/destination/sftp.go) is the one on an SFTP server, over the SSH and SFTP libraries
--     (`Ssh`), with the session that it keeps. Destination/Sftp/Removal is its deletion, and
--     its children are about what that leaves; Destination/Sftp/Connection is about the connections
--     that it opens and closes. Destination/Opening is `New`.
--   * Disk: what the program uses of Go's package os, on a list of files and directories;
--     Disk/Remove and Disk/Write are about what its calls change, Disk/Walk about what a walk
--     finds. Path: path and path/filepath, with
--     what the system finds under a path (`locate`).
--   * Store (internal/store): the three tables; Store/Jobs, Store/Schedules and Store/Settings have a
--     function for each method. Each takes the failure of the driver as an argument. `SetSettings` is
--     the calls of one transaction, on the store and what the open transaction has written.
--     Store/Migration is the opening and the closing of the database file (store.go). Store/Ids
--     and Store/Ids/Given are about the ids of the rows.
--   * Cron: the cron library (github.com/robfig/cron/v3) as a record of operations over a state `C`,
--     with its documented laws (`IsCron`).
--   * Scheduler (internal/scheduler/scheduler.go): the map of entries; Scheduler/Firing is the
--     function that `makeJob` returns. Scheduler/Linked relates the map to cron's own entries.
--   * AppState (internal/appstate/state.go): the configuration and destination in use.
--   * Runner (internal/backup/runner.go): `run` over the interface `Backups`, which stands for
--     database.go and storage.go. Runner/Records says how a run is recorded, by what became of its
--     halves; Runner/Restorable and Runner/Failing follow a database job on a disk,
--     one that succeeds and one that fails; Runner/Outcome proves the rest.
--   * Backup/Database (internal/backup/database.go): `run`, `build_conn_dsn`,
--     `check_ipv4_reachable` and `dsn_escape`, over `Network` and `Tools`, which are Go's net/url and
--     net, pg_dump and gzip. Backup/Database/Address, Backup/Database/Restore and
--     Backup/Database/Place prove.
--   * Backup/Storage (internal/backup/storage.go): the requests, over a `Service`, which is the HTTP
--     client and the JSON codec. Backup/Storage/Listing is `listObjects`, Backup/Storage/Run the rest;
--     Backup/Storage/Pages, Backup/Storage/Complete and Backup/Storage/Survives prove.
--   * Api (internal/api/handlers.go): the handlers. Api/Downloads has the two downloads, and
--     Api/Downloads/Archive is about the second; Api/Schedules/Sync and Api/Schedules/Race are about
--     the handlers of the schedules, one at a time and two at once. Api/Server
--     (internal/api/server.go) is `new_server`, and `serve`, the handler of each route.
--   * Main (cmd/supaback/main.go): `startup`, which is `main` up to the server, and `shut_down`, its
--     deferred calls.
--   * Program: the program while it runs, as a sequence of events. A request is one event, and of a
--     job in the background each statement is one. Program/Fired says which events a
--     due entry makes; Program/Jobs, Program/Synced and Program/Restart follow the schedules, from a
--     job to a whole run of the program and from a start to the next.
--   * Time, Strconv and Dict: what the program uses of Go's time, strconv, strings and maps.
--   * Prelude: the shared helpers. Tests: instances of the interfaces, and the theorems run on them.
--
-- A Go error is `err` of its text. A string is the list of its bytes, an `int` or `int64` is an
-- integer, and sums of sizes wrap at 64 bits. An instant is a number of nanoseconds, in UTC. A
-- method that holds a lock throughout is one step. Most loops are recursions on a list. The
-- digits of a number are printed on fuel, one more than the number, which is enough since each
-- step divides it by ten. `listObjects` takes two bounds: how deep the folders are, and how many
-- pages one of them has, each with one to spare; `list_files` and `delete` of S3 take how many
-- pages a listing has, and `delete` of SFTP how deep a directory is. A bound that does not
-- suffice gives `exhausted`, which is no outcome of the code. The goroutines of a database backup
-- are one step: pg_dump, then the write of what it put out, ended by its error. `AddDate` is
-- exact here: a `keep_days` of so many centuries that Go's dates overflow is outside the model.
--
-- A disk has no links and does not fill up; the errors that it gives by itself are those of `denied`.
-- Nobody else changes the disk while a call runs. A database dump that is left unread after a failed
-- write, with the goroutine that waits for its reader, is outside the model.
--
-- Two requests at once: each statement and each call of the scheduler is one step, but a handler is
-- one event of Program; Api/Schedules/Race takes one pair of handlers apart.
--
-- Not modelled: how the router matches a path, CORS and what the file server answers (server.go),
-- flags, the wait for a signal and logging (main.go), which are calls of libraries, and the web
-- frontend, which is in another language.
pub mod Api
pub mod AppState
pub mod Backup
pub mod Config
pub mod Cron
pub mod Destination
pub mod Dict
pub mod Disk
pub mod Main
pub mod Path
pub mod Prelude
pub mod Program
pub mod Retention
pub mod Runner
pub mod Scheduler
pub mod Store
pub mod Strconv
pub mod Tests
pub mod Time
