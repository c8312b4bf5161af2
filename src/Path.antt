-- ===== src/Path.antt =====
-- Go's packages path and path/filepath, on Unix, and how the system finds what a path names: both
-- go through the elements between the slashes.
pub mod Clean
pub mod Below
pub mod Relative
use mathlib.Core.List.{reverse}
use supaback.Prelude.{
  Text, codes, is_empty, List, [], ◌∷◌, ◌++◌, Bool, true, false, not, ◌&&◌, ◌||◌, ◌==◌,
  if◌then◌else◌, text_eq,
}
use supaback.Strconv.{split, join}

-- `..`: up from the deepest element, and nowhere from the root.
unfoldable pub go_up : Bool → List Text → List Text
go_up rooted [] = if rooted then [] else codes ".." ∷ []
go_up rooted (x ∷ st) = if text_eq x (codes "..") then codes ".." ∷ x ∷ st else st

-- One more element, over a stack with the deepest one first.
unfoldable pub push : Bool → Text → List Text → List Text
push rooted x st =
    if is_empty x || text_eq x (codes ".")
    then st
    else if text_eq x (codes "..")
    then go_up rooted st
    else x ∷ st

unfoldable pub walk : Bool → List Text → List Text → List Text
walk rooted [] st = st
walk rooted (x ∷ xs) st = walk rooted xs (push rooted x st)

unfoldable pub is_rooted : Text → Bool
is_rooted [] = false
is_rooted (c ∷ p) = c == b'/'

unfoldable pub elements : Text → List Text
elements p = walk (is_rooted p) (split b'/' p) []

-- What a path names: its elements, the deepest first, and `/` below them if it is rooted.
abbrev pub Location : Type 0
Location = List Text

abbrev pub root_of : Bool → Location
root_of rooted = if rooted then codes "/" ∷ [] else []

unfoldable pub locate : Text → Location
locate p = elements p ++ root_of (is_rooted p)

abbrev pub render : Bool → List Text → Text
render true xs = b'/' ∷ join b'/' xs
render false [] = codes "."
render false (x ∷ xs) = join b'/' (x ∷ xs)

-- `path.Clean` and `filepath.Clean`.
unfoldable pub clean : Text → Text
clean p = render (is_rooted p) (reverse (elements p))

-- `filepath.Join(dir, key)`.
unfoldable pub join_path : Text → Text → Text
join_path [] [] = []
join_path [] (c ∷ key) = clean (c ∷ key)
join_path (c ∷ dir) key = clean ((c ∷ dir) ++ (b'/' ∷ key))

-- `path.Base`: the last element of a path, without the slashes that end it.
drop_slashes : Text → Text
drop_slashes [] = []
drop_slashes (c ∷ s) =
    let rest = drop_slashes s in if c == b'/' && is_empty rest then [] else c ∷ rest

last_element : Text → Text → Text
last_element seen [] = seen
last_element seen (c ∷ s) =
    if c == b'/' then last_element [] s else last_element (seen ++ (c ∷ [])) s

named : Text → Text
named [] = codes "/"
named (c ∷ s) = c ∷ s

unfoldable pub base : Text → Text
unfolding drop_slashes last_element named
base [] = codes "."
base (c ∷ s) = named (last_element [] (drop_slashes (c ∷ s)))

-- A name is one element of a path: not empty, without a slash, and neither `.` nor `..`.
unfoldable pub lacks_slash : Text → Bool
lacks_slash [] = true
lacks_slash (c ∷ s) = not (c == b'/') && lacks_slash s

unfoldable pub is_name : Text → Bool
unfolding lacks_slash
is_name s =
    not (is_empty s) && lacks_slash s && not (text_eq s (codes ".")) && not (text_eq s (codes ".."))
