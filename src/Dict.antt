-- ===== src/Dict.antt =====
-- Go's `map[string]string`: the pairs in an order of iteration, each key once.
use supaback.Prelude.{
  Text, List, [], ◌∷◌, Option, none, some, text_eq, text_eq_iff, ◌≡◌, refl, ◌⊎◌, arith,
  if◌then◌else◌,
}

abbrev pub Dict : Type 0
Dict = List (Text × Text)

-- `m[k]`, and `v, ok := m[k]`.
unfoldable pub get : Dict → Text → Option Text
get [] k = none
get ((j, v) ∷ m) k = if text_eq j k then some v else get m k

-- `m[k] = v`
unfoldable pub set : Dict → Text → Text → Dict
set [] k v = (k, v) ∷ []
set ((j, w) ∷ m) k v = let rest = set m k v in if text_eq j k then (k, v) ∷ m else (j, w) ∷ rest

-- `delete(m, k)`
unfoldable pub delete : Dict → Text → Dict
delete [] k = []
delete ((j, w) ∷ m) k = let rest = delete m k in if text_eq j k then rest else (j, w) ∷ rest

pub get-set :
    (m : Dict) (k j v : Text) → get (set m k v) j ≡ (if text_eq k j then some v else get m j)
unfolding get set
get-set [] k j v = refl
get-set ((i, w) ∷ m) k j v =
    ground (arith, text_eq_iff k j, text_eq_iff i k, text_eq_iff i j, get-set m k j v)

pub get-delete :
    (m : Dict) (k j : Text) → get (delete m k) j ≡ (if text_eq k j then none else get m j)
unfolding get delete
get-delete [] k j = ground arith
get-delete ((i, w) ∷ m) k j =
    ground (arith, text_eq_iff k j, text_eq_iff i k, text_eq_iff i j, get-delete m k j)

-- The key is in the map.
abbrev pub HasKey : Text → Dict → Type 0
HasKey k [] = ⊥
HasKey k ((j, v) ∷ m) = (k ≡ j) ⊎ HasKey k m

-- Each key once.
abbrev pub IsMap : Dict → Type 0
IsMap [] = Unit
IsMap ((k, v) ∷ m) = (get m k ≡ none) × IsMap m
