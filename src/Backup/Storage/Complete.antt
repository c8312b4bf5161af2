-- ===== src/Backup/Storage/Complete.antt =====
-- The listing of a bucket finds all its files: the pages of each folder, and the folders in it.
use supaback.Prelude.{
  ℕ, zero, suc, ◌*◌, ◌^◌, ◌<◌, Text, List, [], ◌∷◌, ◌++◌, length, length-map, All, map, none, some,
  ◌≡◌, refl, sym, ap, ◌∙◌, arith,
}
use supaback.Config.{SupabaseConfig}
use supaback.Backup.{done}
use supaback.Backup.Storage.{StorageObject, Service, page_size}
use supaback.Backup.Storage.Listing.{path_of, list_objects}
use supaback.Backup.Storage.Pages.{Good, found_in, object_of, Lists, pages-items}

-- What a folder holds: files, with their ids, and folders.
pub data Tree : Type 0 where
  nil : Tree
  with_file : Text → Text → Tree → Tree
  with_folder : Text → Tree → Tree → Tree

-- The objects right in a folder.
abbrev pub objects : Tree → List StorageObject
objects nil = []
objects (with_file n i t) = record { name = n; id = some i } ∷ objects t
objects (with_folder n s t) = record { name = n; id = none } ∷ objects t

-- The paths of all the files under a prefix, each folder's at its place.
abbrev pub paths : Text → Tree → List Text
paths prefix nil = []
paths prefix (with_file n i t) = path_of prefix n ∷ paths prefix t
paths prefix (with_folder n s t) = paths (path_of prefix n) s ++ paths prefix t

-- How deep the folders are at most.
abbrev pub Below : ℕ → Tree → Type 0
Below zero t = ⊥
Below (suc d) nil = Unit
Below (suc d) (with_file n i t) = Below (suc d) t
Below (suc d) (with_folder n s t) = Below d s × Below (suc d) t

-- Every folder under this one has fewer than `k` objects.
abbrev pub Narrow : ℕ → Tree → Type 0
Narrow k nil = Unit
Narrow k (with_file n i t) = Narrow k t
Narrow k (with_folder n s t) = (length (objects s) < k) × Narrow k s × Narrow k t

-- What the objects of a folder are listed as.
items : Text → Tree → List (StorageObject × List Text)
items prefix nil = []
items prefix (with_file n i t) =
    (record { name = n; id = some i }, path_of prefix n ∷ []) ∷ items prefix t
items prefix (with_folder n s t) =
    (record { name = n; id = none }, paths (path_of prefix n) s) ∷ items prefix t

items-objects : (prefix : Text) (t : Tree) → map object_of (items prefix t) ≡ objects t
unfolding items
items-objects prefix nil = refl
items-objects prefix (with_file n i t) =
    ap (λ os. record { name = n; id = some i } ∷ os) (items-objects prefix t)
items-objects prefix (with_folder n s t) =
    ap (λ os. record { name = n; id = none } ∷ os) (items-objects prefix t)

items-paths : (prefix : Text) (t : Tree) → found_in (items prefix t) ≡ paths prefix t
unfolding items
items-paths prefix nil = refl
items-paths prefix (with_file n i t) = ap (λ ps. path_of prefix n ∷ ps) (items-paths prefix t)
items-paths prefix (with_folder n s t) =
    ap (λ ps. paths (path_of prefix n) s ++ ps) (items-paths prefix t)

module _ {W : Type 0} (service : Service W) (cfg : SupabaseConfig) (bucket : Text) where
  -- So it does with every folder under this one.
  abbrev pub Serves : Text → Tree → Type 0
  Serves prefix nil = Unit
  Serves prefix (with_file n i t) = Serves prefix t
  Serves prefix (with_folder n s t) =
      Lists service cfg bucket (path_of prefix n) (objects s)
      × Serves (path_of prefix n) s
      × Serves prefix t

  -- `list_objects` finds a folder that is at most `d` deep.
  Finds : ℕ → ℕ → Type 0
  Finds most d =
      (prefix : Text) (t : Tree) (w : W)
      → Lists service cfg bucket prefix (objects t)
      → Serves prefix t
      → length (objects t) < page_size * most
      → Narrow (page_size * most) t
      → Below d t
      → (w' : W) × (list_objects service cfg most d bucket prefix w ≡ (done (paths prefix t), w'))

  items-Good :
      (most d : ℕ) (prefix : Text) (t : Tree)
      → Finds most d
      → Serves prefix t
      → Narrow (page_size * most) t
      → Below (suc d) t
      → All (Good (list_objects service cfg most d bucket) prefix) (items prefix t)
  unfolding items Finds
  items-Good most d prefix nil f s n b = tt
  items-Good most d prefix (with_file x i t) f s n b = (refl, items-Good most d prefix t f s n b)
  items-Good most d prefix (with_folder x u t) f s n b =
      (λ w. f (path_of prefix x) u w s.0 s.1 n.0 n.1 b.0, items-Good most d prefix t f s.2 n.2 b.1)

  Finds-all : (most d : ℕ) → page_size * most < 2 ^ 63 → Finds most d
  unfolding list_objects Finds
  Finds-all most zero h prefix t w l s n a b = absurd b
  Finds-all most (suc d) h prefix t w l s n a b =
      let its = items prefix t in
      let (w', e) =
        pages-items service cfg bucket (list_objects service cfg most d bucket) prefix (objects t)
          its most 0 [] w l (items-objects prefix t)
          (items-Good most d prefix t (Finds-all most d h) s a b)
          (rw (sym (length-map object_of its), items-objects prefix t) n) (omega arith) in
      (w', e ∙ ap (λ ps. (done ps, w')) (items-paths prefix t))

  -- The listing of a bucket, where the service pages each folder under `prefix` as the tree says:
  -- given as many turns as the fullest folder has full pages and one more, and as much depth as
  -- the folders have, it ends and returns the path of every file, in order, each folder's in the
  -- folder's place.
  pub list_objects-paths :
      (most depth : ℕ) (prefix : Text) (t : Tree) (w : W)
      → Lists service cfg bucket prefix (objects t)
      → Serves prefix t
      → length (objects t) < page_size * most
      → Narrow (page_size * most) t
      → Below depth t
      → page_size * most < 2 ^ 63
      → (list_objects service cfg most depth bucket prefix w).0 ≡ done (paths prefix t)
  unfolding Finds
  list_objects-paths most depth prefix t w l s n a b h =
      ap (λ r. r.0) (Finds-all most depth h prefix t w l s n a b).1
