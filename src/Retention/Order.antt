-- ===== src/Retention/Order.antt =====
-- The dates sorted newest first.
use supaback.Prelude.{
  ℕ, zero, suc, ◌+◌, Text, List, [], ◌∷◌, All, take, true, false, ◌≡◌, refl, inl, inr, text_eq,
  text_eq_iff, text_ltb, ltb, if◌then◌else◌, arith, Bool-cases,
}
use supaback.Retention.{sort_desc, insert_desc, contains}

text_ltb_irrefl : (x : Text) → text_ltb x x ≡ false
unfolding text_ltb
text_ltb_irrefl [] = refl
text_ltb_irrefl (x ∷ xs) = ground (arith, text_ltb_irrefl xs)

text_ltb_asymm : (x y : Text) → text_ltb x y ≡ true → text_ltb y x ≡ false
unfolding text_ltb
text_ltb_asymm [] [] h = refl
text_ltb_asymm (x ∷ xs) [] h = ground arith
text_ltb_asymm [] (y ∷ ys) h = refl
text_ltb_asymm (x ∷ xs) (y ∷ ys) h = ground (arith, text_ltb_asymm xs ys)

text_ltb_total : (x y : Text) → text_ltb x y ≡ false → text_ltb y x ≡ false → x ≡ y
unfolding text_ltb
text_ltb_total [] [] h k = refl
text_ltb_total (x ∷ xs) [] h k = ground arith
text_ltb_total [] (y ∷ ys) h k = ground arith
text_ltb_total (x ∷ xs) (y ∷ ys) h k = ground (arith, text_ltb_total xs ys)

-- Where `y` is not below `z`, what is not below `y` is not below `z`.
text_ltb_trans : (x y z : Text) → text_ltb x y ≡ false → text_ltb y z ≡ false → text_ltb x z ≡ false
unfolding text_ltb
text_ltb_trans x y [] h k = refl
text_ltb_trans x [] (z ∷ zs) h k = ground arith
text_ltb_trans [] (y ∷ ys) (z ∷ zs) h k = ground arith
text_ltb_trans (x ∷ xs) (y ∷ ys) (z ∷ zs) h k = ground (arith, text_ltb_trans xs ys zs)

abbrev pub NotBelow : Text → List Text → Type 0
NotBelow x = All λ y. text_ltb x y ≡ false

abbrev pub IsDesc : List Text → Type 0
IsDesc [] = Unit
IsDesc (x ∷ xs) = NotBelow x xs × IsDesc xs

NotBelow-trans :
    (x y : Text) (ys : List Text) → text_ltb x y ≡ false → NotBelow y ys → NotBelow x ys
NotBelow-trans x y [] h k = tt
NotBelow-trans x y (z ∷ zs) h k = (text_ltb_trans x y z h k.0, NotBelow-trans x y zs h k.1)

NotBelow-insert :
    (x y : Text) (ys : List Text)
    → text_ltb y x ≡ false
    → NotBelow y ys
    → NotBelow y (insert_desc x ys)
unfolding insert_desc
NotBelow-insert x y [] h k = (h, tt)
NotBelow-insert x y (z ∷ zs) h k = ground (arith, NotBelow-insert x y zs h k.1)

insert_desc-IsDesc : (x : Text) (ys : List Text) → IsDesc ys → IsDesc (insert_desc x ys)
unfolding insert_desc
insert_desc-IsDesc x [] h = (tt, tt)
insert_desc-IsDesc x (y ∷ ys) h = elim (Bool-cases (text_ltb x y)) [
  | inl e ↦ rw e (NotBelow-insert x y ys (text_ltb_asymm x y e) h.0, insert_desc-IsDesc x ys h.1)
  | inr e ↦ rw e ((e, NotBelow-trans x y ys e h.0), h)
]

pub sort_desc-IsDesc : (xs : List Text) → IsDesc (sort_desc xs)
unfolding sort_desc
sort_desc-IsDesc [] = tt
sort_desc-IsDesc (x ∷ xs) = insert_desc-IsDesc x (sort_desc xs) (sort_desc-IsDesc xs)

-- How many entries of the list stand above `x`.
unfoldable pub above : Text → List Text → ℕ
above x [] = 0
above x (y ∷ ys) = (if text_ltb x y then 1 else 0) + above x ys

above-insert : (x y : Text) (ys : List Text) → above x (insert_desc y ys) ≡ above x (y ∷ ys)
unfolding above insert_desc
above-insert x y [] = refl
above-insert x y (z ∷ zs) = ground (arith, above-insert x y zs)

pub above-sort : (x : Text) (ys : List Text) → above x (sort_desc ys) ≡ above x ys
unfolding above sort_desc
above-sort x [] = refl
above-sort x (y ∷ ys) = ground (arith, above-insert x y (sort_desc ys), above-sort x ys)

-- Sorting changes no membership.
contains-insert :
    (x y : Text) (ys : List Text) → contains (insert_desc y ys) x ≡ contains (y ∷ ys) x
unfolding contains insert_desc
contains-insert x y [] = refl
contains-insert x y (z ∷ zs) = ground (arith, contains-insert x y zs)

pub contains-sort : (x : Text) (ys : List Text) → contains (sort_desc ys) x ≡ contains ys x
unfolding contains sort_desc
contains-sort x [] = refl
contains-sort x (y ∷ ys) = ground (arith, contains-insert x y (sort_desc ys), contains-sort x ys)

above-NotBelow : (x : Text) (ys : List Text) → NotBelow x ys → above x ys ≡ 0
unfolding above
above-NotBelow x [] h = refl
above-NotBelow x (y ∷ ys) h = ground (arith, above-NotBelow x ys h.1)

NotBelow-contains :
    (x y : Text) (ys : List Text) → NotBelow x ys → contains ys y ≡ true → text_ltb x y ≡ false
unfolding contains
NotBelow-contains x y [] h k = cc
NotBelow-contains x y (z ∷ zs) h k = ground (arith, text_eq_iff y z, NotBelow-contains x y zs h.1)

-- In a sorted list the first `n` entries are those with fewer than `n` entries above them.
pub contains-take :
    (n : ℕ) (x : Text) (ys : List Text)
    → IsDesc ys
    → contains ys x ≡ true
    → contains (take n ys) x ≡ ltb (above x ys) n
unfolding contains above
contains-take n x [] h k = cc
contains-take zero x (y ∷ ys) h k = ground arith
contains-take (suc n) x (y ∷ ys) h k = elim (Bool-cases (text_eq x y)) [
  | inl e ↦ ground (arith, text_eq_iff x y, text_ltb_irrefl x, above-NotBelow y ys h.0)
  | inr e ↦ ground (
    arith,
    text_eq_iff x y,
    text_ltb_total x y,
    NotBelow-contains y x ys h.0,
    contains-take n x ys h.1,
  )
]
