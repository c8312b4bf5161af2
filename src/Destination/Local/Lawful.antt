-- ===== src/Destination/Local/Lawful.antt =====
-- A local destination keeps the laws of its interface.
use supaback.Prelude.{
  Text, List, [], ◌∷◌, In, Bool, true, false, Option, none, some, ok, ◌≡◌, ◌≢◌, ◌↔◌, inl, inr, refl,
  arith, text_eq_iff, Option-cases,
}
use supaback.Path.{Location, locate, join_path, is_name}
use supaback.Path.Below.{locate_name}
use supaback.Disk.{
  Disk, file, directory, Nodes, Sys, done, missing, failed, is_within, stat, children, sort_names,
  insert_name, read_dir, first_denied, is_removed, without, remove_all, removed_all,
}
use supaback.Disk.Remove.{same_place_iff, above, sibling, stat-without, not_stuck}
use supaback.Destination.{IsLawful}
use supaback.Destination.Local.{directories, listed, dir_of, list, delete, local}

-- Sorting keeps the names.
directories-insert :
    (a : Text) (e : Text × Bool) (es : List (Text × Bool))
    → In a (directories (insert_name e es)) ↔ In a (directories (e ∷ es))
unfolding directories insert_name
directories-insert a (x, b) [] = (λ i. i, λ i. i)
directories-insert a (x, b) ((y, c) ∷ es) = ground (arith, directories-insert a (x, b) es)

directories-sort :
    (a : Text) (es : List (Text × Bool))
    → In a (directories (sort_names es)) ↔ In a (directories es)
unfolding sort_names directories
directories-sort a [] = (λ i. i, λ i. i)
directories-sort a ((x, b) ∷ es) =
    ground (arith, directories-insert a (x, b) (sort_names es), directories-sort a es)

-- What is left of a directory's own directories.
children-without :
    (a : Text) (dir at : Location) (d : Disk) (ns : Nodes)
    → In a (directories (children dir (without at d ns)))
      ↔ (In a (directories (children dir ns)) × (is_removed at d (a ∷ dir) ≡ false))
unfolding children without directories
children-without a dir at d [] = (λ i. absurd i, λ i. absurd i.0)
children-without a dir at d (([], n) ∷ ns) = ground (arith, children-without a dir at d ns)
children-without a dir at d ((x ∷ l, directory) ∷ ns) =
    ground (arith, same_place_iff l dir, children-without a dir at d ns)
children-without a dir at d ((x ∷ l, file b) ∷ ns) =
    ground (arith, same_place_iff l dir, children-without a dir at d ns)

-- What a destination holds: the names that `List` gives at the root.
present : Sys (List (Text × Bool)) → List Text
present (done es) = directories es
present (missing e) = []
present (failed e) = []

unfoldable pub entries : Text → Disk → List Text
unfolding present
entries base_path d = present (read_dir (locate base_path) d)

In-present :
    (e : Text) (l : Location) (d : Disk)
    → In e (present (read_dir l d)) ↔ (
        (d.denied l ≡ none)
        × (stat d.nodes l ≡ some directory)
        × In e (directories (children l d.nodes)))
unfolding read_dir present
In-present e l d = elim (Option-cases (d.denied l)) [
  | inr (x, h) ↦ rw (h, read_dir) (λ i. absurd i, λ i. cc)
  | inl h ↦ elim (Option-cases (stat d.nodes l)) [
    | inl s ↦ rw (h, s, read_dir) (λ i. absurd i, λ i. cc)
    | inr (file b, s) ↦ rw (h, s, read_dir) (λ i. absurd i, λ i. cc)
    | inr (directory, s) ↦
        let sorted = directories-sort e (children l d.nodes) in
        rw (h, s, read_dir) (λ i. (refl, refl, sorted.0 i), λ i. sorted.1 i.2)
  ]
]

present-remove :
    (e : Text) (l at : Location) (d : Disk)
    → In e (present (read_dir l (remove_all at d).1))
    → In e (present (read_dir l d)) × (is_removed at d (e ∷ l) ≡ false)
unfolding remove_all
present-remove e l at d i =
    let after = record d { nodes = without at d d.nodes } in
    ground (
      arith,
      In-present e l after,
      In-present e l d,
      stat-without l at d d.nodes,
      children-without e l at d d.nodes,
    )

present-kept :
    (e : Text) (l at : Location) (d : Disk)
    → is_within at l ≡ false
    → is_removed at d (e ∷ l) ≡ false
    → In e (present (read_dir l d))
    → In e (present (read_dir l (remove_all at d).1))
unfolding remove_all
present-kept e l at d w k i =
    let after = record d { nodes = without at d d.nodes } in
    ground (
      arith,
      In-present e l after,
      In-present e l d,
      stat-without l at d d.nodes,
      children-without e l at d d.nodes,
    )

list_present :
    (s : Sys (List (Text × Bool))) (names : List Text) → listed s ≡ ok names → names ≡ present s
unfolding listed present
list_present (done es) names h = cc
list_present (missing e) names h = cc
list_present (failed e) names h = cc

removed_ok : (o : Option Text) → removed_all o ≡ ok tt → o ≡ none
unfolding removed_all
removed_ok none h = refl
removed_ok (some e) h = cc

other_stays :
    (key e : Text) (l : Location) (d : Disk) → e ≢ key → is_removed (key ∷ l) d (e ∷ l) ≡ false
unfolding is_removed
other_stays key e l d n = ground (arith, sibling key e l, text_eq_iff e key)

key_removed :
    (key : Text) (l : Location) (d : Disk)
    → first_denied (key ∷ l) d d.nodes ≡ none
    → is_removed (key ∷ l) d (key ∷ l) ≡ true
unfolding is_removed
key_removed key l d h =
    ground
      (arith, sibling key key l, text_eq_iff key key, not_stuck (key ∷ l) d d.nodes (key ∷ l) h)

removed_gone :
    (key base_path : Text) (w : Disk)
    → is_name key ≡ true
    → (delete base_path key w).0 ≡ ok tt
    → ¬ In key (entries base_path (delete base_path key w).1)
unfolding entries delete remove_all
removed_gone key base_path w n h i =
    let l = locate base_path in
    let gone : is_removed (key ∷ l) w (key ∷ l) ≡ true =
      key_removed key l w
        (removed_ok (first_denied (key ∷ l) w w.nodes) (rw (locate_name base_path key n) at h)) in
    let kept = present-remove key l (key ∷ l) w (rw (locate_name base_path key n) at i) in
    ground (arith, kept.1)

-- A local destination keeps the laws of its interface, where its entries are the directories
-- right below its base path, none if these cannot be read: its `List` at the root returns the
-- entries or an error, a `Delete` of a name leaves the other entries, and removes its own where
-- it succeeds, and no `Delete` adds one.
pub local-IsLawful : (base_path : Text) → IsLawful (local base_path) (entries base_path)
unfolding entries delete list
local-IsLawful base_path =
    let l = locate base_path in
    record {
      list_entries = λ w names h. unfold dir_of in list_present (read_dir l w) names h;
      entries-list = λ w. refl;
      delete_other = λ key e w n d. rw (locate_name base_path key n) (
        (λ i. (present-remove e l (key ∷ l) w i).0),
        present-kept e l (key ∷ l) w (above key l) (other_stays key e l w d),
      );
      delete_self = λ key w n h i. removed_gone key base_path w n h i;
      delete_adds_nothing =
          λ key e w i. (present-remove e l (locate (join_path base_path key)) w i).0;
    }
