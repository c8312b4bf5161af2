-- ===== src/Disk.antt =====
-- A disk, as Go's package os acts on it under Unix: a list of files and directories by their
-- locations. The errors that a system gives by itself (permissions, bad sectors) are those of
-- `denied`. There are no links, and the disk does not fill up.
pub mod Remove
pub mod Write
pub mod Walk
use mathlib.Core.List.{reverse}
use supaback.Prelude.{
  ℕ, Text, codes, List, [], ◌∷◌, ◌++◌, Bool, true, false, not, ◌&&◌, ◌||◌, Option, none, some,
  Result, ok, err, text_eq, text_ltb, if◌then◌else◌,
}
use supaback.Strconv.{join}
use supaback.Path.{Location, render}

pub data Node : Type 0 where
  file : Text → Node
  directory : Node

abbrev pub Nodes : Type 0
Nodes = List (Location × Node)

pub record Disk : Type 0 where
  pub nodes : Nodes
  pub denied : Location → Option Text

-- What a call returns, where the caller asks for `os.IsNotExist`.
pub data Sys (A : Type 0) : Type 0 where
  done : A → Sys A
  missing : Text → Sys A
  failed : Text → Sys A

unfoldable pub same_place : Location → Location → Bool
same_place [] [] = true
same_place [] (y ∷ m) = false
same_place (x ∷ l) [] = false
same_place (x ∷ l) (y ∷ m) = text_eq x y && same_place l m

-- `l` is `dir`, or lies below it.
unfoldable pub is_within : Location → Location → Bool
is_within dir [] = same_place [] dir
is_within dir (x ∷ l) = same_place (x ∷ l) dir || is_within dir l

unfoldable pub find_node : Nodes → Location → Option Node
find_node [] l = none
find_node ((m, n) ∷ ns) l = if same_place m l then some n else find_node ns l

-- The working directory and the root are always there.
unfoldable pub stat : Nodes → Location → Option Node
stat ns [] = some directory
stat ns (x ∷ l) =
    if same_place (x ∷ l) (codes "/" ∷ []) then some directory else find_node ns (x ∷ l)

unfoldable pub put_node : Nodes → Location → Node → Nodes
put_node [] l n = (l, n) ∷ []
put_node ((m, k) ∷ ns) l n =
    let rest = put_node ns l n in if same_place m l then (l, n) ∷ ns else (m, k) ∷ rest

no_such_file : Text
no_such_file = codes "no such file or directory"

not_a_directory : Text
not_a_directory = codes "not a directory"

-- One directory, whose parent is there.
unfoldable pub made : Option Text → Location → Disk → Result (Unit {0}) × Disk
made (some e) l d = (err e, d)
made none l d = (ok tt, record d { nodes = put_node d.nodes l directory })

unfoldable pub make_in : Location → Result (Unit {0}) × Disk → Result (Unit {0}) × Disk
unfolding made
make_in l (err e, d) = (err e, d)
make_in l (ok _, d) = made (d.denied l) l d

-- `os.MkdirAll`.
unfoldable pub mkdir_all : Location → Disk → Result (Unit {0}) × Disk
unfolding make_in not_a_directory
mkdir_all [] d = (ok tt, d)
mkdir_all (x ∷ l) d = elim (stat d.nodes (x ∷ l)) [
  | some directory ↦ (ok tt, d)
  | some (file b) ↦ (err not_a_directory, d)
  | none ↦ make_in (x ∷ l) (mkdir_all l d)
]

abbrev pub parent : Location → Location
parent [] = []
parent (x ∷ l) = l

-- `os.Create`, and the copy of a body into the file.
unfoldable pub create_file : Location → Text → Disk → Result (Unit {0}) × Disk
unfolding no_such_file not_a_directory
create_file l body d = elim (d.denied l) [
  | some e ↦ (err e, d)
  | none ↦ elim (stat d.nodes l) [
    | some directory ↦ (err (codes "is a directory"), d)
    | some (file b) ↦ (ok tt, record d { nodes = put_node d.nodes l (file body) })
    | none ↦ elim (stat d.nodes (parent l)) [
      | none ↦ (err no_such_file, d)
      | some (file b) ↦ (err not_a_directory, d)
      | some directory ↦ (ok tt, record d { nodes = put_node d.nodes l (file body) })
    ]
  ]
]

-- What a directory holds: the names, and which of them are directories.
abbrev pub is_directory : Node → Bool
is_directory (file b) = false
is_directory directory = true

unfoldable pub children : Location → Nodes → List (Text × Bool)
children dir [] = []
children dir (([], n) ∷ ns) = children dir ns
children dir ((x ∷ l, n) ∷ ns) =
    let rest = children dir ns in if same_place l dir then (x, is_directory n) ∷ rest else rest

unfoldable pub insert_name : Text × Bool → List (Text × Bool) → List (Text × Bool)
insert_name e [] = e ∷ []
insert_name e (f ∷ fs) =
    let rest = insert_name e fs in if text_ltb f.0 e.0 then f ∷ rest else e ∷ f ∷ fs

-- By name, as `os.ReadDir` returns them.
unfoldable pub sort_names : List (Text × Bool) → List (Text × Bool)
unfolding insert_name
sort_names [] = []
sort_names (e ∷ es) = insert_name e (sort_names es)

-- `os.ReadDir`.
unfoldable pub read_dir : Location → Disk → Sys (List (Text × Bool))
unfolding no_such_file not_a_directory
read_dir l d = elim (d.denied l) [
  | some e ↦ failed e
  | none ↦ elim (stat d.nodes l) [
    | none ↦ missing no_such_file
    | some (file b) ↦ failed not_a_directory
    | some directory ↦ done (sort_names (children l d.nodes))
  ]
]

-- The first error of the nodes within `dir`.
unfoldable pub first_denied : Location → Disk → Nodes → Option Text
first_denied dir d [] = none
first_denied dir d ((l, n) ∷ ns) =
    let rest = first_denied dir d ns in
    if is_within dir l then elim (d.denied l) [ some e ↦ some e | none ↦ rest ] else rest

-- Within `dir`, a node stays if it is denied, or if one that is denied lies below it.
unfoldable pub is_denied : Option Text → Bool
is_denied none = false
is_denied (some e) = true

unfoldable pub is_stuck : Location → Disk → Nodes → Location → Bool
unfolding is_denied
is_stuck dir d [] l = false
is_stuck dir d ((m, n) ∷ ns) l =
    (is_within dir m && is_denied (d.denied m) && is_within l m) || is_stuck dir d ns l

unfoldable pub is_removed : Location → Disk → Location → Bool
is_removed dir d l = is_within dir l && not (is_stuck dir d d.nodes l)

unfoldable pub without : Location → Disk → Nodes → Nodes
without dir d [] = []
without dir d ((l, n) ∷ ns) =
    let rest = without dir d ns in if is_removed dir d l then rest else (l, n) ∷ rest

-- `os.RemoveAll`: everything that can be removed, and the first error.
unfoldable pub removed_all : Option Text → Result (Unit {0})
removed_all none = ok tt
removed_all (some e) = err e

unfoldable pub remove_all : Location → Disk → Result (Unit {0}) × Disk
unfolding removed_all
remove_all dir d =
    (removed_all (first_denied dir d d.nodes), record d { nodes = without dir d d.nodes })

-- `os.Open`: a directory can be opened too, and not read.
unfoldable pub open_place : Option Text → Option Node → Result (Text × Option Text)
unfolding no_such_file
open_place (some e) n = err e
open_place none none = err no_such_file
open_place none (some (file b)) = ok (b, none)
open_place none (some directory) = ok ([], some (codes "is a directory"))

unfoldable pub open_file : Location → Disk → Result (Text × Option Text)
unfolding open_place
open_file l d = open_place (d.denied l) (stat d.nodes l)

-- The order of `filepath.WalkDir`: name by name, from the top.
names_ltb : List Text → List Text → Bool
names_ltb xs [] = false
names_ltb [] (y ∷ ys) = true
names_ltb (x ∷ xs) (y ∷ ys) = text_ltb x y || (text_eq x y && names_ltb xs ys)

unfoldable pub insert_node : Location × Node → Nodes → Nodes
unfolding names_ltb
insert_node e [] = e ∷ []
insert_node e (f ∷ fs) =
    let rest = insert_node e fs in
    if names_ltb (reverse f.0) (reverse e.0) then f ∷ rest else e ∷ f ∷ fs

unfoldable pub sort_nodes : Nodes → Nodes
unfolding insert_node
sort_nodes [] = []
sort_nodes (e ∷ es) = insert_node e (sort_nodes es)

-- The files within `dir`, up to the first error.
unfoldable pub with_file :
    Location → Node → Result (List (Location × Text)) → Result (List (Location × Text))
with_file l (file b) (ok files) = ok ((l, b) ∷ files)
with_file l directory (ok files) = ok files
with_file l n (err e) = err e

unfoldable pub files_within : Location → Disk → Nodes → Result (List (Location × Text))
unfolding with_file
files_within dir d [] = ok []
files_within dir d ((l, n) ∷ ns) =
    let rest = files_within dir d ns in
    if is_within dir l
    then elim (d.denied l) [ some e ↦ err e | none ↦ with_file l n rest ]
    else rest

-- `filepath.WalkDir`, for a caller that takes the files, ends the walk at an error, and takes a
-- directory that is not there for an empty one.
unfoldable pub walk_dir : Location → Disk → Result (List (Location × Text))
walk_dir dir d = elim (d.denied dir) [
  | some e ↦ err e
  | none ↦ elim (stat d.nodes dir) [
    | none ↦ ok []
    | some n ↦ files_within dir d (sort_nodes d.nodes)
  ]
]

-- `filepath.Rel(dir, …)`, with slashes, of a location within `dir`.
unfoldable pub names_below : Location → Location → List Text
names_below dir [] = []
names_below dir (x ∷ l) =
    let rest = names_below dir l in if same_place (x ∷ l) dir then [] else x ∷ rest

unfoldable pub relative : Location → Location → Text
unfolding names_below
relative dir l = render false (reverse (names_below dir l))
