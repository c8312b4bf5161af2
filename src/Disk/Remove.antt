-- ===== src/Disk/Remove.antt =====
-- What `os.RemoveAll` leaves: which nodes lie within a directory, and what is found afterwards.
use supaback.Prelude.{
  ◌≤◌, Text, [], ◌∷◌, length, true, false, none, some, ◌≡◌, ◌≢◌, ◌↔◌, ◌⊎◌, inl, inr, refl, sym,
  arith, text_eq, text_eq_iff, Bool-cases, Option-cases, if◌then◌else◌,
}
use supaback.Path.{Location}
use supaback.Disk.{
  Disk, Node, Nodes, same_place, is_within, stat, find_node, first_denied, is_stuck, is_denied,
  is_removed, without,
}

pub same_place_iff : (l m : Location) → (same_place l m ≡ true) ↔ (l ≡ m)
unfolding same_place
same_place_iff [] [] = (λ h. refl, λ h. refl)
same_place_iff [] (y ∷ m) = (λ h. cc, λ h. cc)
same_place_iff (x ∷ l) [] = (λ h. cc, λ h. cc)
same_place_iff (x ∷ l) (y ∷ m) = ground (arith, text_eq_iff x y, same_place_iff l m)

is_within-length : (dir l : Location) → is_within dir l ≡ true → length dir ≤ length l
unfolding is_within
is_within-length dir [] h = rw (sym ((same_place_iff [] dir).0 h)) (omega arith)
is_within-length dir (x ∷ l) h = elim (Bool-cases (same_place (x ∷ l) dir)) [
  | inl t ↦ rw (sym ((same_place_iff (x ∷ l) dir).0 t)) (omega arith)
  | inr f ↦ let below : length dir ≤ length l = is_within-length dir l (ground arith) in omega arith
]

-- A directory is not within one that it holds.
pub above : (x : Text) (dir : Location) → is_within (x ∷ dir) dir ≡ false
above x dir = elim (Bool-cases (is_within (x ∷ dir) dir)) [
  | inl t ↦ absurd (omega (arith, is_within-length (x ∷ dir) dir t))
  | inr f ↦ f
]

pub sibling : (x y : Text) (dir : Location) → is_within (x ∷ dir) (y ∷ dir) ≡ text_eq y x
unfolding is_within same_place
sibling x y dir = ground (arith, above x dir, same_place_iff dir dir)

find-without :
    (l at : Location) (d : Disk) (ns : Nodes)
    → find_node (without at d ns) l ≡ (if is_removed at d l then none else find_node ns l)
unfolding find_node without
find-without l at d [] = ground arith
find-without l at d ((m, n) ∷ ns) = ground (arith, same_place_iff m l, find-without l at d ns)

pub stat-without :
    (l at : Location) (d : Disk) (ns : Nodes)
    → (stat (without at d ns) l ≡ stat ns l)
      ⊎ ((stat (without at d ns) l ≡ none) × (is_within at l ≡ true))
unfolding stat is_removed
stat-without [] at d ns = inl refl
stat-without (x ∷ l) at d ns = ground (arith, find-without (x ∷ l) at d ns)

some_not_none : (x : Text) → some x ≢ none
some_not_none x h = cc

not_denied :
    (at : Location) (d : Disk) (m : Location) (n : Node) (ns : Nodes)
    → first_denied at d ((m, n) ∷ ns) ≡ none
    → (first_denied at d ns ≡ none) × ((is_within at m ≡ false) ⊎ (is_denied (d.denied m) ≡ false))
unfolding first_denied is_denied
not_denied at d m n ns h = elim (Bool-cases (is_within at m)) [
  | inr w ↦ (rw (w, first_denied) at h, inl w)
  | inl w ↦ elim (Option-cases (d.denied m)) [
    | inl e ↦ (rw (w, e, first_denied) at h, inr (rw e refl))
    | inr (x, e) ↦ absurd (some_not_none x (rw (w, e, first_denied) at h))
  ]
]

pub not_stuck :
    (at : Location) (d : Disk) (ns : Nodes) (l : Location)
    → first_denied at d ns ≡ none
    → is_stuck at d ns l ≡ false
unfolding is_stuck
not_stuck at d [] l h = refl
not_stuck at d ((m, n) ∷ ns) l h =
    let (rest, first) = not_denied at d m n ns h in
    let others : is_stuck at d ns l ≡ false = not_stuck at d ns l rest in ground arith
