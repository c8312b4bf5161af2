-- ===== src/Path/Relative.antt =====
-- filepath.Dir and filepath.Rel, on Unix.
use mathlib.Core.List.{reverse}
use supaback.Prelude.{
  Text, codes, List, [], ◌∷◌, ◌++◌, Bool, false, not, ◌&&◌, ◌||◌, ◌==◌, Option, none, some, text_eq,
  if◌then◌else◌,
}
use supaback.Strconv.{join}
use supaback.Path.{elements, is_rooted, clean}

-- A text up to its last slash.
has_slash : Text → Bool
has_slash [] = false
has_slash (c ∷ s) = c == b'/' || has_slash s

up_to_slash : Text → Text
unfolding has_slash
up_to_slash [] = []
up_to_slash (c ∷ s) = let rest = up_to_slash s in if c == b'/' || has_slash s then c ∷ rest else []

-- `filepath.Dir`.
unfoldable pub dir : Text → Text
unfolding up_to_slash
dir p = clean (up_to_slash p)

-- Up from each element of the base that is left; none may itself go up.
ups : List Text → Option (List Text)
ups [] = some []
ups (x ∷ xs) =
    let rest = ups xs in
    if text_eq x (codes "..")
    then none
    else elim rest [ none ↦ none | some ys ↦ some (codes ".." ∷ ys) ]

steps : List Text → List Text → Option (List Text)
unfolding ups
steps [] ys = some ys
steps (x ∷ xs) [] = ups (x ∷ xs)
steps (x ∷ xs) (y ∷ ys) =
    let later = steps xs ys in
    if text_eq x y
    then later
    else elim (ups (x ∷ xs)) [ none ↦ none | some up ↦ some (up ++ (y ∷ ys)) ]

rendered : Option (List Text) → Text
rendered none = []
rendered (some []) = codes "."
rendered (some (x ∷ xs)) = join b'/' (x ∷ xs)

-- `filepath.Rel`, "" for its error.
unfoldable pub rel : Text → Text → Text
unfolding steps rendered
rel base target =
    if (is_rooted base && not (is_rooted target)) || (not (is_rooted base) && is_rooted target)
    then []
    else rendered (steps (reverse (elements base)) (reverse (elements target)))
