-- ===== src/Tests/Archives.antt =====
-- The archive of a date, of a disk with two dates.
use mathlib.Core.Path.{subst}
use supaback.Prelude.{
  Text, codes, List, [], ◌∷◌, ◌++◌, All, In, Bool, true, false, none, some, ◌≡◌, ◌≢◌, ◌↔◌, refl,
  sym, ap, ◌∙◌, inl, inr, text_eq, Bool-cases,
}
use supaback.Strconv.{split}
use supaback.Time.{has_layout, is_digit}
use supaback.Path.{Location, is_name, lacks_slash, locate, elements, walk, push, is_rooted}
use supaback.Path.Below.{Names}
use supaback.Disk.{
  Disk, Node, file, directory, Nodes, stat, find_node, same_place, is_within, names_below,
}
use supaback.Disk.Remove.{same_place_iff}
use supaback.Disk.Walk.{Unique, names_below-append}
use supaback.Destination.{Reader}
use supaback.Destination.Local.{local}
use supaback.Api.Downloads.{archive_sent, download_backup_date}
use supaback.Api.Downloads.Archive.{Tidy, IsEntry, archive-IsEntry}

abbrev at_b : Location → Location
at_b names = names ++ (codes "b" ∷ [])

abbrev may_first : Text
may_first = codes "2024-05-01"

-- A dump and an object of one date, and another date.
abbrev disk : Disk
disk = record {
  nodes =
      (at_b [], directory)
      ∷ (at_b (may_first ∷ []), directory)
      ∷ (at_b (codes "dump" ∷ may_first ∷ []), file (codes "rows"))
      ∷ (at_b (codes "o" ∷ codes "storage" ∷ may_first ∷ []), file (codes "object"))
      ∷ (at_b (codes "dump" ∷ codes "2024-04-01" ∷ []), file (codes "old"))
      ∷ [];
  denied = λ l. none;
}

found_In : (ns : Nodes) (l : Location) (n : Node) → In (l, n) ns → find_node ns l ≢ none
unfolding find_node
found_In [] l n i e = absurd i
found_In ((m, k) ∷ ns) l n i e = elim (Bool-cases (same_place m l)) [
  | inl t ↦ some_none (sym (rw t refl) ∙ e)
  | inr f ↦ elim i [
    | inl q ↦ apart ((same_place_iff m l).1 (sym (ap (λ p. p.0) q))) f
    | inr j ↦ found_In ns l n j (rw f at e)
  ]
]
  where
    some_none : some k ≢ none
    some_none q = cc

    apart : {b : Bool} → b ≡ true → b ≢ false
    apart p q = cc

Unique-cons :
    (l : Location) (n : Node) (ns : Nodes)
    → find_node ns l ≡ none
    → Unique ns
    → Unique ((l, n) ∷ ns)
Unique-cons l n ns f u x a b (inl p) (inl q) = ap (λ e. e.1) p ∙ sym (ap (λ e. e.1) q)
Unique-cons l n ns f u x a b (inl p) (inr q) =
    absurd (found_In ns x b q (ap (λ e. find_node ns e.0) p ∙ f))
Unique-cons l n ns f u x a b (inr p) (inl q) =
    absurd (found_In ns x a p (ap (λ e. find_node ns e.0) q ∙ f))
Unique-cons l n ns f u x a b (inr p) (inr q) = u x a b p q

abbrev Distinct : Nodes → Type 0
Distinct [] = Unit
Distinct ((l, n) ∷ ns) = (find_node ns l ≡ none) × Distinct ns

Distinct-Unique : (ns : Nodes) → Distinct ns → Unique ns
Distinct-Unique [] h = λ x a b i j. absurd i
Distinct-Unique ((l, n) ∷ ns) h = Unique-cons l n ns h.0 (Distinct-Unique ns h.1)

named_below :
    (dir : Location) (ns : Nodes)
    → All (λ e. Names (names_below dir e.0)) ns
    → (ys : List Text) (n : Node) → In (ys ++ dir, n) ns
    → Names ys
named_below dir [] h ys n i = absurd i
named_below dir (e ∷ ns) h ys n (inl q) =
    subst (λ xs. Names xs) (sym (ap (λ p. names_below dir p.0) q) ∙ names_below-append dir ys) h.0
named_below dir (e ∷ ns) h ys n (inr j) = named_below dir ns h.1 ys n j

abbrev day : Location
day = may_first ∷ locate (codes "b")

disk-Distinct : Distinct disk.nodes
unfolding find_node same_place text_eq
disk-Distinct = (refl, (refl, (refl, (refl, (refl, tt)))))

disk_named : All (λ e. Names (names_below day e.0)) disk.nodes
unfolding names_below same_place is_name lacks_slash text_eq locate elements walk push is_rooted
    split
disk_named =
    ((refl, tt), (tt, ((refl, tt), ((refl, (refl, tt)), ((refl, (refl, (refl, tt))), tt)))))

day_directory : stat disk.nodes day ≡ some directory
unfolding stat find_node same_place text_eq locate elements walk push is_rooted split
day_directory = refl

disk-Tidy : Tidy day disk
disk-Tidy = (
  day_directory,
  (λ l w. refl),
  Distinct-Unique disk.nodes disk-Distinct,
  named_below day disk.nodes disk_named,
)

dump_within : is_within day (at_b (codes "dump" ∷ may_first ∷ [])) ≡ true
unfolding is_within same_place text_eq locate elements walk push is_rooted split
dump_within = refl

may_first_layout : has_layout may_first ≡ true
unfolding has_layout is_digit
may_first_layout = refl

archive-IsEntry_example :
    (entries : List (Text × Reader)) × (download_backup_date
        (local (codes "b"))
        (λ key. true)
        may_first
        disk
      ≡ (archive_sent (codes "backup-2024-05-01.zip") entries, disk))
    × ((e : Text × Reader) → In e entries ↔ IsEntry (codes "b") day disk e)
archive-IsEntry_example =
    archive-IsEntry (λ key. true) (codes "b") may_first disk
      (at_b (codes "dump" ∷ may_first ∷ []), codes "rows") (λ key. refl) may_first_layout disk-Tidy
      (inr (inr (inl refl))) dump_within
