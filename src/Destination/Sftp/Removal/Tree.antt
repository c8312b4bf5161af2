-- ===== src/Destination/Sftp/Removal/Tree.antt =====
-- What an SFTP server holds, as a tree of locations, and what a removal does to it.
use mathlib.Core.List.{append_assoc}
use supaback.Prelude.{
  ℕ, suc, ◌<◌, Text, List, [], ◌∷◌, ◌++◌, length, length-append, In, Bool, true, false, Option,
  none, some, ◌≡◌, ◌≢◌, ◌↔◌, refl, sym, ap, ◌∙◌, arith, if◌then◌else◌, Bool-cases, Option-cases,
  inl, inr,
}
use supaback.Path.{Location, is_name, locate}
use supaback.Disk.{done, same_place, is_within}
use supaback.Disk.Remove.{same_place_iff}
use supaback.Disk.Walk.{is_within-append, is_within_self}
use supaback.Destination.Sftp.{Ssh}

-- No two entries have one name.
abbrev pub Distinct : List (Text × Bool) → Type 0
Distinct [] = Unit
Distinct ((n, b) ∷ es) = ((c : Bool) → ¬ In (n, c) es) × Distinct es

-- What the server holds: a directory, a file or nothing at each location.
module _ {W : Type 0} (at : W → Location → Option Bool) where
  -- The entries of a directory.
  pub record IsListing (w : W) (dir : Location) (es : List (Text × Bool)) : Type 0 where
    pub named : (n : Text) (b : Bool) → In (n, b) es → is_name n ≡ true
    pub distinct : Distinct es
    pub listed : (n : Text) (b : Bool) → In (n, b) es ↔ (at w (n ∷ dir) ≡ some b)

  -- What lies within a location is gone, and nothing else.
  abbrev pub Gone : Location → W → W → Type 0
  Gone dir w w' = (l : Location) → at w' l ≡ (if is_within dir l then none else at w l)

  -- What holds something is a directory, at a location and below it.
  abbrev pub Rooted : Location → W → Type 0
  Rooted dir w =
      (x : Text) (ys : List Text) (b : Bool)
      → at w (x ∷ ys ++ dir) ≡ some b
      → at w (ys ++ dir) ≡ some true

-- What the client's calls do on the server: the calls on files and on directories that are there
-- succeed, those for the removal of a directory where it is empty.
pub record IsServer {W : Type 0} (ssh : Ssh W) (at : W → Location → Option Bool) (c : ℕ)
    : Type 0 where
  pub lists :
      (p : Text) (w : W)
      → at w (locate p) ≡ some true
      → (es : List (Text × Bool)) × (ssh.read_dir c p w ≡ (done es, w))
        × IsListing at w (locate p) es
  pub removes :
      (p : Text) (w : W)
      → at w (locate p) ≡ some false
      → ((ssh.remove c p w).0 ≡ none)
        × ((l : Location)
            → at (ssh.remove c p w).1 l ≡ (if same_place (locate p) l then none else at w l))
  pub removes_directory :
      (p : Text) (w : W)
      → at w (locate p) ≡ some true
      → ((n : Text) → at w (n ∷ locate p) ≡ none)
      → ((ssh.remove_directory c p w).0 ≡ none)
        × ((l : Location)
            → at (ssh.remove_directory c p w).1 l
              ≡ (if same_place (locate p) l then none else at w l))

module _ {W : Type 0} (at : W → Location → Option Bool) where
  pub within_cons :
      (dir : Location) (x : Text) (l : Location)
      → is_within dir l ≡ true
      → is_within dir (x ∷ l) ≡ true
  unfolding is_within
  within_cons dir x l h = ground arith

  pub within_append : (dir : Location) (ys : List Text) → is_within dir (ys ++ dir) ≡ true
  within_append dir [] = is_within_self dir
  within_append dir (y ∷ ys) = within_cons dir y (ys ++ dir) (within_append dir ys)

  pub true-false : true ≢ false
  true-false q = cc

  pub none-some : (b : Bool) → none ≢ some b
  none-some b q = cc

  pub apart :
      (dir l : Location) (w w' : W) → Gone at dir w w' → is_within dir l ≡ false → at w' l ≡ at w l
  apart dir l w w' g f = g l ∙ (rw f refl)

  pub stays :
      (dir l : Location) (b : Bool) (w w' : W)
      → Gone at dir w w'
      → at w' l ≡ some b
      → (is_within dir l ≡ false) × (at w l ≡ some b)
  stays dir l b w w' g h = elim (Bool-cases (is_within dir l)) [
    | inl t ↦ let gone : none ≡ some b = rw t at (sym (g l) ∙ h) in absurd (none-some b gone)
    | inr f ↦ (f, sym (apart dir l w w' g f) ∙ h)
  ]

  -- A removal leaves what holds something a directory.
  pub Gone-Rooted :
      (dir at_dir : Location) (w w' : W)
      → Gone at dir w w'
      → Rooted at at_dir w
      → Rooted at at_dir w'
  Gone-Rooted dir at_dir w w' g r x ys b h =
      let (f, i) = stays dir (x ∷ ys ++ at_dir) b w w' g h in
      elim (Bool-cases (is_within dir (ys ++ at_dir))) [
        | inl t ↦ absurd (true-false (sym (within_cons dir x (ys ++ at_dir) t) ∙ f))
        | inr o ↦ apart dir (ys ++ at_dir) w w' g o ∙ r x ys b i
      ]

  pub inner-Rooted : (dir : Location) (n : Text) (w : W) → Rooted at dir w → Rooted at (n ∷ dir) w
  inner-Rooted dir n w r x ys b h =
      let same = append_assoc ys (n ∷ []) dir in
      ap (at w) (sym same) ∙ r x (ys ++ (n ∷ [])) b (ap (λ l. at w (x ∷ l)) same ∙ h)

  -- Nothing lies below a file.
  pub below_file :
      (dir : Location) (w : W) (ys : List Text) (b : Bool)
      → Rooted at dir w
      → at w dir ≡ some false
      → at w (ys ++ dir) ≡ some b
      → ys ≡ []
  below_file dir w [] b r f h = refl
  below_file dir w (y ∷ ys) b r f h =
      let inner = r y ys b h in
      let top : at w ([] ++ dir) ≡ some true = rw (below_file dir w ys true r f inner) at inner in
      absurd (differ (sym f ∙ top))
    where
      differ : some false ≢ some true
      differ q = cc

  -- A file that is gone, with nothing below it.
  pub file_Gone :
      (dir : Location) (w w' : W)
      → Rooted at dir w
      → at w dir ≡ some false
      → ((l : Location) → at w' l ≡ (if same_place dir l then none else at w l))
      → Gone at dir w w'
  file_Gone dir w w' r f g l = elim (Bool-cases (same_place dir l)) [
    | inl t ↦
        let here : is_within dir l ≡ true =
          ap (is_within dir) (sym ((same_place_iff dir l).0 t)) ∙ is_within_self dir in
        rw here (g l ∙ (rw t refl))
    | inr o ↦ elim (Bool-cases (is_within dir l)) [
      | inr v ↦ rw v (g l ∙ (rw o refl))
      | inl v ↦ elim (Option-cases (at w l)) [
        | inl e ↦ rw v (g l ∙ (rw (o, e) refl))
        | inr (b, e) ↦
            let (ys, p) = is_within-append dir l v in
            let empty : ys ≡ [] = below_file dir w ys b r f (sym (ap (at w) p) ∙ e) in
            let same : dir ≡ l = sym (p ∙ ap (λ xs. xs ++ dir) empty) in
            absurd (true-false (sym ((same_place_iff dir l).1 same) ∙ o))
      ]
    ]
  ]

  -- What lies below a location is less than `depth` deep.
  abbrev pub Shallow : Location → ℕ → W → Type 0
  Shallow dir depth w = (ys : List Text) (b : Bool) → at w (ys ++ dir) ≡ some b → length ys < depth

  pub Gone-Shallow :
      (dir at_dir : Location) (depth : ℕ) (w w' : W)
      → Gone at dir w w'
      → Shallow at_dir depth w
      → Shallow at_dir depth w'
  Gone-Shallow dir at_dir depth w w' g h ys b i = h ys b (stays dir (ys ++ at_dir) b w w' g i).1

  pub inner-Shallow :
      (dir : Location) (n : Text) (depth : ℕ) (w : W)
      → Shallow dir (suc depth) w
      → Shallow (n ∷ dir) depth w
  inner-Shallow dir n depth w h ys b i =
      let deeper : length (ys ++ (n ∷ [])) < suc depth =
        h (ys ++ (n ∷ [])) b (ap (at w) (append_assoc ys (n ∷ []) dir) ∙ i) in
      omega (arith, deeper, length-append ys (n ∷ []))
