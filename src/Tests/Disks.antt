-- ===== src/Tests/Disks.antt =====
-- A disk, and what a local destination does on it.
use supaback.Prelude.{
  Text, codes, List, [], ◌∷◌, ◌++◌, none, ok, ◌≡◌, ◌≢◌, refl, Bool, true, false, text_eq,
}
use supaback.Prelude.Int.{pos}
use supaback.Strconv.{split, join, has_dots, starts_with_dots}
use supaback.Path.{locate, elements, walk, push, is_rooted, clean, join_path, base}
use supaback.Disk.{
  Disk, file, directory, same_place, stat, find_node, put_node, mkdir_all, made, make_in,
  create_file, open_file, open_place,
}
use supaback.Disk.Remove.{same_place_iff}
use supaback.Destination.{Reader, IsLawful}
use supaback.Destination.Local
use supaback.Destination.Local.{write, in_directory, created, copied, read, local}
use supaback.Destination.Local.Lawful.{entries, local-IsLawful}
use supaback.Destination.Local.RoundTrip.{write-read, write_elsewhere}
use supaback.Api.Downloads
use supaback.Api.Downloads.{file_sent, fetch, download_backup}
use supaback.Api.Downloads.Below.{download_below}

abbrev root : Text
root = codes "b"

-- One file, in a directory.
abbrev disk : Disk
disk = record {
  nodes =
      (codes "b" ∷ [], directory)
      ∷ (codes "d" ∷ codes "b" ∷ [], directory)
      ∷ (codes "f" ∷ codes "d" ∷ codes "b" ∷ [], file (codes "old"))
      ∷ [];
  denied = λ l. none;
}

abbrev new_file : Reader
new_file = record { body = codes "new"; failure = none }

abbrev old_file : Reader
old_file = record { body = codes "old"; failure = none }

local-IsLawful_example : IsLawful (local root) (entries root)
local-IsLawful_example = local-IsLawful root

three_written : (write root (codes "e/g") new_file disk).0 ≡ ok (pos 3)
unfolding write in_directory created copied create_file mkdir_all made make_in stat find_node
    put_node same_place locate elements walk push is_rooted split join clean join_path text_eq
three_written = refl

write-read_example :
    (read root (codes "e/g") (write root (codes "e/g") new_file disk).1).0 ≡ ok new_file
write-read_example = (write-read root (codes "e/g") new_file disk (pos 3) three_written).0

f_read : (read root (codes "d/f") disk).0 ≡ ok old_file
unfolding read Local.opened open_file open_place stat find_node same_place locate elements walk push
    is_rooted split join clean join_path text_eq
f_read = refl

places_apart :
    same_place (locate (join_path root (codes "d/f"))) (locate (join_path root (codes "e/g")))
    ≡ false
unfolding same_place locate elements walk push is_rooted split join clean join_path text_eq
places_apart = refl

places_differ : locate (join_path root (codes "d/f")) ≢ locate (join_path root (codes "e/g"))
places_differ e = true_not_false ((same_place_iff _ _).1 e) places_apart
  where
    true_not_false : {b : Bool} → b ≡ true → b ≢ false
    true_not_false p q = cc

write_elsewhere_example :
    (read root (codes "d/f") (write root (codes "e/g") new_file disk).1).0 ≡ ok old_file
write_elsewhere_example =
    write_elsewhere root (codes "e/g") (codes "d/f") new_file old_file disk places_differ f_read

f_sent : (download_backup (local root) (codes "d/./f") disk).0 ≡ file_sent (codes "f") old_file
unfolding download_backup fetch Downloads.opened has_dots starts_with_dots base read Local.opened
    open_file open_place stat find_node same_place locate elements walk push is_rooted split join
    clean join_path text_eq
f_sent = refl

download_below_example :
    (ys : List Text) × (open_file (ys ++ locate root) disk ≡ ok (codes "old", none))
download_below_example = download_below root (codes "d/./f") (codes "f") old_file disk f_sent
