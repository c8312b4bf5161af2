-- ===== src/Destination/Local/Spared.antt =====
-- What a local destination's deletions leave: the files under every other name.
use supaback.Prelude.{
  Text, List, [], ◌∷◌, ◌++◌, length, none, some, length-append, true, false, ◌≡◌, ◌≢◌, inl, inr,
  sym, ap, ◌∙◌, arith, Bool-cases, text_eq_iff,
}
use supaback.Path.{Location, locate, is_name}
use supaback.Path.Below.{locate_name}
use supaback.Disk.{Disk, file, is_within, same_place, stat, remove_all}
use supaback.Disk.Remove.{same_place_iff, sibling, stat-without}
use supaback.Destination.Local.{delete}

-- What lies under a name does not lie within another one.
under_other :
    (ys : List Text) (x y : Text) (dir : Location)
    → y ≢ x
    → is_within (x ∷ dir) (ys ++ (y ∷ dir)) ≡ false
unfolding is_within
under_other [] x y dir n = ground (arith, sibling x y dir, text_eq_iff y x)
under_other (z ∷ ys) x y dir n = elim (Bool-cases (same_place (z ∷ (ys ++ (y ∷ dir))) (x ∷ dir))) [
  | inl t ↦ absurd (
      omega (
        arith,
        ap length ((same_place_iff (z ∷ (ys ++ (y ∷ dir))) (x ∷ dir)).0 t),
        length-append ys (y ∷ dir),
      ))
  | inr f ↦ rw f (under_other ys x y dir n)
]

-- A disk on which a place is free to open, and holds a file.
abbrev pub Holds : Location → Text → Disk → Type 0
Holds l body d = (d.denied l ≡ none) × (stat d.nodes l ≡ some (file body))

-- A deletion of a name leaves the files under every other name.
pub delete-Holds :
    (base_path key name body : Text) (ys : List Text) (d : Disk)
    → is_name key ≡ true
    → key ≢ name
    → Holds (ys ++ (name ∷ locate base_path)) body d
    → Holds (ys ++ (name ∷ locate base_path)) body (delete base_path key d).1
unfolding delete remove_all
delete-Holds base_path key name body ys d k n h =
    let dir = locate base_path in
    let at : Location = key ∷ dir in
    let apart = under_other ys key name dir (λ e. n (sym e)) in
    rw (locate_name base_path key k) (
      h.0,
      elim (stat-without (ys ++ (name ∷ dir)) at d d.nodes) [
        | inl same ↦ same ∙ h.1
        | inr (gone, within) ↦ absurd (apart_not (sym apart ∙ within))
      ],
    )
  where
    apart_not : false ≢ true
    apart_not q = cc
