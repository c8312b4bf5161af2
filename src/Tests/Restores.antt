-- ===== src/Tests/Restores.antt =====
-- A database job to a directory that holds an older backup.
use supaback.Prelude.{
  Text, codes, List, [], ◌∷◌, none, Result, ok, err, ◌≡◌, ◌≢◌, refl, arith, true, false, text_eq,
  text_ltb,
}
use supaback.Prelude.Int.{ℤ, pos}
use supaback.Strconv.{split, join, trim_space}
use supaback.Path.{locate, elements, walk, push, is_rooted, clean, join_path, lacks_slash}
use supaback.Disk.{
  Disk, file, directory, same_place, stat, find_node, put_node, mkdir_all, made, make_in,
  create_file, open_file, open_place, read_dir, children, sort_names, insert_name,
}
use supaback.Config.{Config, SupabaseConfig, validate}
use supaback.Time.{
  Date, format_date, start_of, day_number, days_in, parse_date, has_layout, is_digit, numbers,
  in_calendar,
}
use supaback.Time.Order.{IsDate}
use supaback.Store.{new}
use supaback.Store.Jobs.{create_job}
use supaback.Retention.Keep.{count_newer}
use supaback.Destination.Local.{write, in_directory, created, copied, directories, read, local}
use supaback.Destination.Local.Lawful.{entries}
use supaback.Backup.Database
use supaback.Backup.Database.{
  Dump, first_ipv4, check_ipv4_reachable, build_conn_dsn, reachable, verdict, dsn_parts, key_of,
  cmd_err, with_stderr, stream, outcome, dumped, dump, dump_if, dsn_of, resolve, address_of,
  with_address,
}
use supaback.Runner.{
  Run, back_up, run_database, run_storage, run, run_validated, run_created, run_job, advance,
  result_of,
}
use supaback.Runner.Restorable.{halves, job_restorable}
use supaback.Runner.Failing.{failed_job_spares}
use supaback.Tests.Failures.{broken_tools}
use supaback.Destination.Local
use supaback.Tests.Backup.{network, noon, tools}
use supaback.Tests.Config.{settled}

abbrev base_path : Text
base_path = codes "b"

abbrev may : Date
may = record { year = 2024; month = 5; day = 1 }

abbrev disk : Disk
disk = record {
  nodes =
      (codes "b" ∷ [], directory)
      ∷ (codes "2024-04-01" ∷ codes "b" ∷ [], directory)
      ∷ (codes "f" ∷ codes "2024-04-01" ∷ codes "b" ∷ [], file (codes "old"))
      ∷ [];
  denied = λ l. none;
}

-- The database alone, and one backup kept.
abbrev config : Config
config = record settled {
  supabase = record settled.supabase { database_url = codes "p" };
  backup = record settled.backup {
    include_database = true;
    include_storage = false;
    compress = true;
    retention = record { keep_last = pos 1; keep_days = pos 0 };
  };
}

abbrev no_storage : SupabaseConfig → List Text → Disk → Result ℤ × Disk
no_storage c buckets d = (err (codes "unused"), d)

abbrev r : Run
r = record {
  create_fault = none;
  complete_fault = none;
  started = 5;
  finished = 9;
  swept = start_of may;
}

valid : validate config ≡ none
unfolding validate text_eq
valid = refl

may-IsDate : IsDate may
unfolding days_in
may-IsDate = record {
  month_pos = omega arith;
  month_le = omega arith;
  day_pos = omega arith;
  day_le = omega arith;
}

dated : noon.date ≡ format_date may
unfolding format_date
dated = refl

stamped : lacks_slash noon.stamp ≡ true
unfolding lacks_slash
stamped = refl

newest :
    count_newer may (
      entries base_path
        (back_up (halves network tools base_path noon no_storage) (local base_path) config disk).1)
    ≡ 0
unfolding entries read_dir children sort_names insert_name directories count_newer parse_date
    has_layout is_digit numbers in_calendar days_in day_number back_up run_database run_storage
    advance Database.run dump_if dump dumped outcome stream cmd_err key_of check_ipv4_reachable
    reachable verdict first_ipv4 build_conn_dsn dsn_of resolve address_of with_address dsn_parts
    write in_directory created copied create_file mkdir_all made make_in stat find_node put_node
    same_place locate elements walk push is_rooted split join clean join_path text_eq text_ltb
newest = refl

succeeds :
    (run (halves network tools base_path noon no_storage) (local base_path) r config new disk).0
    ≡ ok tt
unfolding run run_validated run_created run_job create_job result_of validate back_up run_database
    run_storage advance Database.run dump_if dump dumped outcome stream cmd_err key_of
    check_ipv4_reachable reachable verdict first_ipv4 build_conn_dsn dsn_of resolve address_of
    with_address dsn_parts write in_directory created copied create_file mkdir_all made make_in stat
    find_node put_node same_place locate elements walk push is_rooted split join clean join_path
    text_eq text_ltb
succeeds = refl

job_restorable_example :
    (read base_path
      (key_of noon true)
      (run
        (halves network tools base_path noon no_storage)
        (local base_path)
        r
        config
        new
        disk).2).0
    ≡ ok (record { body = codes "zdump"; failure = none })
job_restorable_example =
    (job_restorable network tools base_path noon no_storage r config new disk may valid refl refl
      refl may-IsDate (omega arith) dated stamped (omega arith) newest succeeds).1

abbrev old : Text
old = codes "2024-04-01/f"

breaks_off :
    (run
      (halves network broken_tools base_path noon no_storage)
      (local base_path)
      r
      config
      new
      disk).0
    ≡ err (codes "database backup: write database backup: exit status 1")
unfolding run run_validated run_created run_job create_job result_of validate back_up run_database
    run_storage advance Database.run dump_if dump dumped outcome stream cmd_err with_stderr
    trim_space key_of check_ipv4_reachable reachable verdict first_ipv4 build_conn_dsn dsn_of
    resolve address_of with_address dsn_parts write in_directory created copied create_file
    mkdir_all made make_in stat find_node put_node same_place locate elements walk push is_rooted
    split join clean join_path text_eq text_ltb
breaks_off = refl

old_elsewhere : locate (join_path base_path old) ≢ locate (join_path base_path (key_of noon true))
unfolding locate elements walk push is_rooted split join clean join_path key_of text_eq
old_elsewhere e = cc

old_read : (read base_path old disk).0 ≡ ok (record { body = codes "old"; failure = none })
unfolding read Local.opened open_file open_place find_node same_place locate elements walk push
    is_rooted split join clean join_path text_eq stat
old_read = refl

failed_job_spares_example :
    (read base_path old
      (run
        (halves network broken_tools base_path noon no_storage)
        (local base_path)
        r
        config
        new
        disk).2).0
    ≡ ok (record { body = codes "old"; failure = none })
failed_job_spares_example =
    failed_job_spares network broken_tools base_path (λ host d. refl) (λ args password d. refl) noon
      no_storage r config new disk old (record { body = codes "old"; failure = none }) refl
      old_elsewhere breaks_off old_read
