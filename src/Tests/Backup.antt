-- ===== src/Tests/Backup.antt =====
-- A service that holds one bucket, and a database whose dump is one word.
use supaback.Prelude.{
  ◌↔◌, Text, codes, List, [], ◌∷◌, take, drop, Option, none, some, ok, err, ◌≡◌, refl, ◌==◌, arith,
  Bool, true, false, text_eq, if◌then◌else◌,
}
use supaback.Prelude.Int.{pos, pos_part, int_eq}
use supaback.Strconv.{split, join}
use supaback.Config.{SupabaseConfig}
use supaback.Destination.{Destination}
use supaback.Backup.{done}
use supaback.Backup.Storage.{
  reply, StorageObject, Service, page_size, exchange, checked, decoded, list_page,
}
use supaback.Backup.Storage.Listing.{path_of, list_objects}
use supaback.Backup.Storage.Complete.{
  Tree, nil, with_file, with_folder, objects, paths, Serves, list_objects-paths,
}
use supaback.Backup.Storage.Pages.{Lists}
use supaback.Backup.Storage.Run.{run}
use supaback.Backup.Database
use supaback.Backup.Database.{
  Url, Network, Tools, Dump, Clock, arguments, first_ipv4, check_ipv4_reachable, build_conn_dsn,
  reachable, verdict, dsn_parts, key_of, cmd_err, with_stderr, stream, outcome, dumped, dump,
  dump_if, dsn_of, resolve, address_of, with_address, dsn_escape, has_special, or_default,
  trim_slash,
}
use supaback.Backup.Database.Address.{Dialling, NoIpv4, dsn_dials_ipv4, run_hides_password}
use supaback.Backup.Database.Restore.{run-read}
use supaback.Path.{locate, elements, walk, push, is_rooted, clean, join_path}
use supaback.Disk.{
  Disk, same_place, stat, find_node, put_node, mkdir_all, made, make_in, create_file,
}
use supaback.Destination.Local.{write, in_directory, created, copied, read, local}

-- A file, and a folder with another one.
abbrev inner : Tree
inner = with_file (codes "b") (codes "2") nil

abbrev tree : Tree
tree = with_file (codes "a") (codes "1") (with_folder (codes "f") inner nil)

-- The offset and the prefix of a request, as they are sent back.
abbrev page_of : Text → List StorageObject
page_of [] = []
page_of (k ∷ []) = take page_size (drop k (objects tree))
page_of (k ∷ c ∷ prefix) = take page_size (drop k (objects inner))

abbrev pub service : Service (Unit {0})
service = record {
  parses = λ url. true;
  send = λ req w. (reply (pos 200) (record { body = req.body; failure = none }), w);
  marshal = λ q. pos_part q.offset ∷ q.prefix;
  decode_buckets = λ r. ok (record { id = codes "1"; name = codes "pics" } ∷ []);
  decode_objects = λ r. ok (page_of r.body);
}

abbrev pub config : SupabaseConfig
config = record {
  url = codes "https://p.supabase.co";
  service_key = codes "key";
  database_url = [];
}

abbrev pics : Text
pics = codes "pics"

pages_top : Lists service config pics [] (objects tree)
unfolding list_page exchange checked decoded int_eq
pages_top w k = (tt, refl)

pages_inner : Lists service config pics (codes "f") (objects inner)
unfolding list_page exchange checked decoded int_eq
pages_inner w k = (tt, refl)

tree_paged : Serves service config pics [] tree
unfolding path_of
tree_paged = (pages_inner, tt, tt)

list_objects-paths_example : (list_objects service config 1 2 pics [] tt).0 ≡ done (paths [] tree)
list_objects-paths_example =
    list_objects-paths service config pics 1 2 [] tree tt pages_top tree_paged (omega arith)
      (omega arith, tt, tt) (tt, tt) (omega arith)

-- A destination that takes nothing.
abbrev pub closed : Destination (Unit {0})
closed = record {
  write = λ key r w. (err (codes "closed"), w);
  list = λ prefix w. (err (codes "closed"), w);
  list_files = λ prefix w. (err (codes "closed"), w);
  read = λ key w. (err (codes "closed"), w);
  delete = λ key w. (err (codes "closed"), w);
  name = codes "closed";
}

abbrev db_host : Text
db_host = codes "db"

abbrev db_url : Url
db_url = record {
  hostname = db_host;
  port = [];
  user = codes "u";
  password = codes "secret";
  path = codes "/app";
  sslmode = [];
}

-- Addresses start with a digit; a URL that starts with `q` has another password.
abbrev is_address : Text → Bool
is_address [] = false
is_address (c ∷ s) = c == b'1'

abbrev parse : Text → Option Url
parse [] = none
parse (c ∷ s) = if c == b'q' then some (record db_url { password = codes "other" }) else some db_url

abbrev pub network : {W : Type 0} → Network W
network = record {
  parse_url = parse;
  is_ipv4 = is_address;
  lookup_host = λ host w. (ok (codes "fe80::1" ∷ codes "10.0.0.1" ∷ []), w);
  quote = λ s. s;
}

abbrev pub tools : {W : Type 0} → Tools W
tools = record {
  look_path = λ w. true;
  pg_dump = λ args password w. (record { output = codes "dump"; stderr = []; failure = none }, w);
  gzip = λ s finished. b'z' ∷ s;
}

abbrev pub noon : Clock
noon = record { date = codes "2024-05-01"; stamp = codes "20240501_120000" }

passes : (check_ipv4_reachable (network {W = Unit {0}}) (codes "p") tt).0 ≡ none
unfolding check_ipv4_reachable reachable verdict first_ipv4
passes = refl

dsn_dials_ipv4_example :
    Dialling
      (network {W = Unit {0}})
      db_url
      (ok (codes "fe80::1" ∷ codes "10.0.0.1" ∷ []))
      (build_conn_dsn (network {W = Unit {0}}) (codes "p") tt).0.0
    × (((check_ipv4_reachable (network {W = Unit {0}}) (codes "p") tt).0 ≡ none)
        ↔ (¬ NoIpv4 (network {W = Unit {0}}) (ok (codes "fe80::1" ∷ codes "10.0.0.1" ∷ []))))
dsn_dials_ipv4_example =
    dsn_dials_ipv4 (network {W = Unit {0}}) (codes "p") db_url tt refl refl refl refl

run_hides_password_example :
    Database.run (network {W = Unit {0}}) tools closed noon (codes "q") true tt
    ≡ Database.run (network {W = Unit {0}}) tools closed noon (codes "p") true tt
run_hides_password_example =
    run_hides_password network tools closed noon (codes "p") (codes "q") (codes "other") true db_url
      tt refl refl refl (λ args s s' v. refl)

abbrev pub empty_disk : Disk
empty_disk = record { nodes = []; denied = λ l. none }

abbrev after_dump : Disk
after_dump = (Database.run network tools (local (codes "b")) noon (codes "p") false empty_disk).1

dumped_four :
    Database.run network tools (local (codes "b")) noon (codes "p") false empty_disk
    ≡ (ok (pos 4), after_dump)
unfolding Database.run dump_if dump dumped outcome stream cmd_err key_of check_ipv4_reachable
    reachable verdict first_ipv4 build_conn_dsn dsn_of resolve address_of with_address dsn_parts
    write in_directory created copied create_file mkdir_all made make_in stat find_node put_node
    same_place locate elements walk push is_rooted split join clean join_path text_eq
dumped_four = refl

run-read_example :
    (read (codes "b") (key_of noon false) after_dump).0
    ≡ ok (record { body = codes "dump"; failure = none })
run-read_example =
    (run-read network tools (codes "b") noon (codes "p") false empty_disk after_dump (pos 4)
      dumped_four).1
