-- ===== src/Tests/Failures.antt =====
-- Backups that fail, or that go wrong: what is left behind.
use supaback.Prelude.{codes, [], none, some, Result, ok, err, ◌≡◌, refl, true, false, text_eq}
use supaback.Prelude.Int.{ℤ, pos}
use supaback.Strconv.{split, join, trim_space}
use supaback.Path.{locate, elements, walk, push, is_rooted, clean, join_path}
use supaback.Disk.{
  Disk, same_place, stat, find_node, put_node, mkdir_all, made, make_in, create_file, open_file,
  open_place,
}
use supaback.Destination.Local
use supaback.Destination.Local.{write, in_directory, created, copied, read, local}
use supaback.Backup.{panicked}
use supaback.Backup.Storage.{Service, get, exchange, decoded, list_buckets}
use supaback.Backup.Storage.Run.{run, started}
use supaback.Backup.Database
use supaback.Backup.Database.{
  Url, Tools, Dump, first_ipv4, check_ipv4_reachable, build_conn_dsn, reachable, verdict, dsn_parts,
  key_of, cmd_err, with_stderr, stream, outcome, dumped, dump, dump_if, dsn_of, resolve, address_of,
  with_address, dsn_escape, has_special, or_default, trim_slash,
}
use supaback.Tests.Backup.{network, noon, empty_disk, service, config, closed}

-- A pg_dump that breaks off.
abbrev pub broken_tools : {W : Type 0} → Tools W
broken_tools = record {
  look_path = λ w. true;
  pg_dump = λ args password w.
      (record { output = codes "du"; stderr = []; failure = some (codes "exit status 1") }, w);
  gzip = λ s finished. s;
}

abbrev ran : Result ℤ × Disk
ran = Database.run network broken_tools (local (codes "b")) noon (codes "p") false empty_disk

-- The run fails, and its key holds the part that was dumped.
part_left :
    (ran.0 ≡ err (codes "write database backup: exit status 1"))
    × ((read (codes "b") (key_of noon false) ran.1).0
        ≡ ok (record { body = codes "du"; failure = none }))
unfolding Database.run dump_if dump dumped outcome stream cmd_err with_stderr trim_space key_of
    check_ipv4_reachable reachable verdict first_ipv4 build_conn_dsn dsn_of resolve address_of
    with_address dsn_parts write in_directory created copied create_file mkdir_all made make_in stat
    find_node put_node same_place locate elements walk push is_rooted split join clean join_path
    read Local.opened open_file open_place text_eq
part_left = (refl, refl)

-- Without a user, the part of the TLS mode follows `user=` and a blank.
no_user :
    join b' ' (
      dsn_parts (record {
        hostname = codes "db";
        port = [];
        user = [];
        password = [];
        path = [];
        sslmode = [];
      }))
    ≡ codes "host=db port=5432 dbname=postgres user= sslmode=require"
unfolding join dsn_parts dsn_escape has_special or_default trim_slash
no_user = refl

-- No URL parses.
abbrev unparsed : Service (Unit {0})
unparsed = record service { parses = λ url. false }

ends_in_panic : run unparsed closed config 1 2 (codes "2024-05-01") [] tt ≡ (pos 0, panicked, tt)
unfolding run started list_buckets get exchange decoded
ends_in_panic = refl
