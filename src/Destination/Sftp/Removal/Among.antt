-- ===== src/Destination/Sftp/Removal/Among.antt =====
-- What lies within the entries of a directory on an SFTP server, and below the directory.
use supaback.Prelude.{
  Text, List, [], ◌∷◌, ◌++◌, In, Bool, true, false, ◌||◌, Option, none, ◌≡◌, refl, sym, ap, ◌∙◌,
  arith, if◌then◌else◌, Bool-cases, Option-cases, inl, inr,
}
use supaback.Path.{Location}
use supaback.Disk.{same_place, is_within}
use supaback.Disk.Remove.{same_place_iff, above}
use supaback.Disk.Walk.{is_within-append, is_within_self}
use supaback.Destination.Sftp.Removal.Tree.{
  IsListing, Gone, Rooted, within_cons, within_append, true-false, none-some, inner-Rooted,
}

module _ {W : Type 0} (at : W → Location → Option Bool) where
  -- What lies within one of the entries of a directory.
  unfoldable pub among : List (Text × Bool) → Location → Location → Bool
  among [] dir l = false
  among ((n, b) ∷ es) dir l = is_within (n ∷ dir) l || among es dir l

  among_within :
      (es : List (Text × Bool)) (dir l : Location) → among es dir l ≡ true → is_within dir l ≡ true
  unfolding among
  among_within [] dir l h = cc
  among_within ((n, b) ∷ es) dir l h = elim (Bool-cases (is_within (n ∷ dir) l)) [
    | inl t ↦ let (ys, e) = is_within-append (n ∷ dir) l t in ap (is_within dir) e ∙ deeper dir n ys
    | inr f ↦ among_within es dir l (ground arith)
  ]
    where
      deeper : (d : Location) (x : Text) (ys : List Text) → is_within d (ys ++ (x ∷ d)) ≡ true
      deeper d x [] = within_cons at d x d (is_within_self d)
      deeper d x (y ∷ ys) = within_cons at d y (ys ++ (x ∷ d)) (deeper d x ys)

  In-among :
      (es : List (Text × Bool)) (dir : Location) (n : Text) (b : Bool) (ys : List Text)
      → In (n, b) es
      → among es dir (ys ++ (n ∷ dir)) ≡ true
  unfolding among
  In-among [] dir n b ys i = absurd i
  In-among (e ∷ es) dir n b ys (inl q) =
      let here : is_within (e.0 ∷ dir) (ys ++ (n ∷ dir)) ≡ true =
        ap (λ p. is_within (p.0 ∷ dir) (ys ++ (n ∷ dir))) (sym q) ∙ within_append at (n ∷ dir) ys in
      rw here refl
  In-among (e ∷ es) dir n b ys (inr j) = ground (arith, In-among es dir n b ys j)

  -- What lies below a directory lies within one of its entries, or holds nothing.
  below_among :
      (es : List (Text × Bool)) (dir : Location) (w : W) (ys : List Text) (n : Text)
      → Rooted at dir w
      → IsListing at w dir es
      → among es dir (ys ++ (n ∷ dir)) ≡ false
      → at w (ys ++ (n ∷ dir)) ≡ none
  below_among es dir w ys n r i f = elim (Option-cases (at w (n ∷ dir))) [
    | inl e ↦ nothing_below ys e
    | inr (b, e) ↦ absurd (true-false at (sym (In-among es dir n b ys ((i.listed n b).1 e)) ∙ f))
  ]
    where
      nothing_below : (zs : List Text) → at w (n ∷ dir) ≡ none → at w (zs ++ (n ∷ dir)) ≡ none
      nothing_below [] e = e
      nothing_below (z ∷ zs) e = elim (Option-cases (at w (z ∷ zs ++ (n ∷ dir)))) [
        | inl q ↦ q
        | inr (b, q) ↦
            absurd
              (none-some at true (sym (nothing_below zs e) ∙ inner-Rooted at dir n w r z zs b q))
      ]

  pub among_self : (es : List (Text × Bool)) (dir : Location) → among es dir dir ≡ false
  unfolding among
  among_self [] dir = refl
  among_self ((n, b) ∷ es) dir = rw (above n dir) (among_self es dir)

  -- The name by which a location below a directory goes on from it.
  first_below :
      (y : Text) (ys : List Text) (dir : Location)
      → (zs : List Text) × (n : Text) × (y ∷ ys ++ dir ≡ zs ++ (n ∷ dir))
  first_below y [] dir = ([], y, refl)
  first_below y (z ∷ ys) dir =
      let (zs, n, e) = first_below z ys dir in (y ∷ zs, n, ap (λ t. y ∷ t) e)

  pub inner_gone :
      (es : List (Text × Bool)) (dir : Location) (w w' : W) (zs : List Text) (n : Text)
      → Rooted at dir w
      → IsListing at w dir es
      → ((l : Location) → at w' l ≡ (if among es dir l then none else at w l))
      → at w' (zs ++ (n ∷ dir)) ≡ none
  inner_gone es dir w w' zs n r i g = elim (Bool-cases (among es dir (zs ++ (n ∷ dir)))) [
    | inl t ↦ g (zs ++ (n ∷ dir)) ∙ (rw t refl)
    | inr f ↦ g (zs ++ (n ∷ dir)) ∙ (rw f (below_among es dir w zs n r i f))
  ]

  -- The directory itself goes after what lies within its entries.
  pub emptied-Gone :
      (es : List (Text × Bool)) (dir : Location) (w w' w'' : W)
      → Rooted at dir w
      → IsListing at w dir es
      → ((l : Location) → at w' l ≡ (if among es dir l then none else at w l))
      → ((l : Location) → at w'' l ≡ (if same_place dir l then none else at w' l))
      → Gone at dir w w''
  emptied-Gone es dir w w' w'' r i g g' l = elim (Bool-cases (is_within dir l)) [
    | inr o ↦ rw o (g' l ∙ (rw (elsewhere o) (g l ∙ (rw (not_among o) refl))))
    | inl v ↦ rw v (g' l ∙ within v)
  ]
    where
      not_among : is_within dir l ≡ false → among es dir l ≡ false
      not_among o = elim (Bool-cases (among es dir l)) [
        | inl t ↦ absurd (true-false at (sym (among_within es dir l t) ∙ o))
        | inr f ↦ f
      ]

      below : (ys : List Text) → l ≡ ys ++ dir → same_place dir l ≡ false → at w' l ≡ none
      below [] e o = absurd (true-false at (sym ((same_place_iff dir l).1 (sym e)) ∙ o))
      below (y ∷ ys) e o =
          let (zs, n, p) = first_below y ys dir in
          ap (at w') (e ∙ p) ∙ inner_gone es dir w w' zs n r i g

      within : is_within dir l ≡ true → (if same_place dir l then none else at w' l) ≡ none
      within v = elim (Bool-cases (same_place dir l)) [
        | inl t ↦ rw t refl
        | inr o ↦ let (ys, e) = is_within-append dir l v in rw o (below ys e o)
      ]

      elsewhere : is_within dir l ≡ false → same_place dir l ≡ false
      elsewhere o = elim (Bool-cases (same_place dir l)) [
        | inl t ↦
            let same : is_within dir l ≡ true =
              ap (is_within dir) (sym ((same_place_iff dir l).0 t)) ∙ is_within_self dir in
            absurd (true-false at (sym same ∙ o))
        | inr f ↦ f
      ]
