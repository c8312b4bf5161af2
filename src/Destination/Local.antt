-- ===== src/Destination/Local.antt =====
-- internal/destination/local.go: a destination in a directory of the disk.
pub mod Lawful
pub mod Spared
pub mod Held
pub mod RoundTrip
use supaback.Prelude.{
  ℕ, Text, codes, is_empty, List, [], ◌∷◌, ◌++◌, length, map, Bool, true, false, Option, none, some,
  Result, ok, err, if◌then◌else◌,
}
use supaback.Prelude.Int.{ℤ, pos}
use supaback.Path.{Location, locate, join_path}
use supaback.Disk.{
  Disk, Sys, done, missing, failed, mkdir_all, parent, create_file, read_dir, walk_dir, relative,
  remove_all, open_file,
}
use supaback.Destination.{Destination, FileInfo, Reader}

-- `newLocal`.
new_from : Text → Result (Unit {0}) × Disk → Result Text × Disk
new_from base_path (ok _, d) = (ok base_path, d)
new_from base_path (err e, d) = (err (codes "create local destination dir: " ++ e), d)

-- `os.MkdirAll` makes no directory of an empty name.
unfoldable pub new_local : Text → Disk → Result Text × Disk
unfolding new_from
new_local base_path d = new_from base_path (
    if is_empty base_path
    then (err (codes "mkdir : no such file or directory"), d)
    else mkdir_all (locate base_path) d)

-- What `io.Copy` returns once all that the reader yields is written.
unfoldable pub copied : Reader → Result ℤ
copied r = elim r.failure [ none ↦ ok (pos (length r.body)) | some e ↦ err e ]

-- After `os.Create`.
unfoldable pub created : Text → Reader → Result (Unit {0}) × Disk → Result ℤ × Disk
unfolding copied
created dest r (err e, d) = (err (codes "create file " ++ (dest ++ (codes ": " ++ e))), d)
created dest r (ok _, d) = (copied r, d)

-- After `os.MkdirAll`.
unfoldable pub in_directory : Text → Reader → Result (Unit {0}) × Disk → Result ℤ × Disk
unfolding created
in_directory dest r (err e, d) = (err (codes "create dir: " ++ e), d)
in_directory dest r (ok _, d) = created dest r (create_file (locate dest) r.body d)

-- The names of the directories.
unfoldable pub directories : List (Text × Bool) → List Text
directories [] = []
directories ((name, is_dir) ∷ es) =
    let rest = directories es in if is_dir then name ∷ rest else rest

listed : Sys (List (Text × Bool)) → Result (List Text)
listed (done es) = ok (directories es)
listed (missing e) = ok []
listed (failed e) = err e

module _ (base_path : Text) where
  -- `dir := l.basePath`, joined with a prefix that is not empty.
  unfoldable pub dir_of : Text → Text
  dir_of [] = base_path
  dir_of (c ∷ prefix) = join_path base_path (c ∷ prefix)

  -- `Write`.
  unfoldable pub write : Text → Reader → Disk → Result ℤ × Disk
  unfolding in_directory
  write key r d =
      let dest = join_path base_path key in in_directory dest r (mkdir_all (parent (locate dest)) d)

  -- `List`.
  unfoldable pub list : Text → Disk → Result (List Text) × Disk
  unfolding listed
  list prefix d = (listed (read_dir (locate (dir_of prefix)) d), d)

  -- `ListFiles`.
  unfoldable pub file_info : Location × Text → FileInfo
  file_info (l, body) = record { key = relative (locate base_path) l; size = pos (length body) }

  unfoldable pub found : Result (List (Location × Text)) → Result (List FileInfo)
  unfolding file_info
  found (ok files) = ok (map file_info files)
  found (err e) = err e

  unfoldable pub list_files : Text → Disk → Result (List FileInfo) × Disk
  unfolding found
  list_files prefix d = (found (walk_dir (locate (dir_of prefix)) d), d)

  -- `Read`.
  unfoldable pub opened : Result (Text × Option Text) → Result Reader
  opened (ok (body, failure)) = ok (record { body = body; failure = failure })
  opened (err e) = err e

  unfoldable pub read : Text → Disk → Result Reader × Disk
  unfolding opened
  read key d = (opened (open_file (locate (join_path base_path key)) d), d)

  -- `Delete`.
  unfoldable pub delete : Text → Disk → Result (Unit {0}) × Disk
  delete key d = remove_all (locate (join_path base_path key)) d

  -- A `*localDest`.
  abbrev pub local : Destination Disk
  local = record {
    write = write;
    list = list;
    list_files = list_files;
    read = read;
    delete = delete;
    name = codes "local:" ++ base_path;
  }
