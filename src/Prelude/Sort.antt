-- ===== src/Prelude/Sort.antt =====
-- A list sorted by a number, largest first; equal ones stay in order.
use Prim.Native.Nat.{ℕ, ◌≤◌}
use mathlib.Core.Logic.{inl, inr}
use mathlib.Core.List.{List, [], ◌∷◌, Perm}
use mathlib.Core.List.Perm
use native.Mathlib.Omega.{arith}
use supaback.Prelude.Tests.{ltb, if◌then◌else◌, Bool-cases}
use supaback.Prelude.Lists.{All}

module _ {A : Type 0} (key : A → ℕ) where
  unfoldable pub insert_by : A → List A → List A
  insert_by x [] = x ∷ []
  insert_by x (y ∷ ys) =
      let rest = insert_by x ys in if ltb (key x) (key y) then y ∷ rest else x ∷ y ∷ ys

  unfoldable pub sort_by : List A → List A
  unfolding insert_by
  sort_by [] = []
  sort_by (x ∷ xs) = insert_by x (sort_by xs)

  -- No entry has a larger key than one before it.
  abbrev pub IsDescBy : List A → Type 0
  IsDescBy [] = Unit
  IsDescBy (x ∷ xs) = All (λ y. key y ≤ key x) xs × IsDescBy xs

  insert_by-All :
      (k : ℕ) (x : A) (ys : List A)
      → key x ≤ k
      → All (λ y. key y ≤ k) ys
      → All (λ y. key y ≤ k) (insert_by x ys)
  unfolding insert_by
  insert_by-All k x [] h a = (h, tt)
  insert_by-All k x (y ∷ ys) h a = ground (arith, insert_by-All k x ys h a.1)

  All-le : (k m : ℕ) (ys : List A) → k ≤ m → All (λ y. key y ≤ k) ys → All (λ y. key y ≤ m) ys
  All-le k m [] h a = tt
  All-le k m (y ∷ ys) h a = (omega arith, All-le k m ys h a.1)

  insert_by-IsDescBy : (x : A) (ys : List A) → IsDescBy ys → IsDescBy (insert_by x ys)
  unfolding insert_by
  insert_by-IsDescBy x [] h = (tt, tt)
  insert_by-IsDescBy x (y ∷ ys) h = elim (Bool-cases (ltb (key x) (key y))) [
    | inl e ↦ rw e (insert_by-All (key y) x ys (ground arith) h.0, insert_by-IsDescBy x ys h.1)
    | inr e ↦ rw e ((ground arith, All-le (key y) (key x) ys (ground arith) h.0), h)
  ]

  pub sort_by-IsDescBy : (xs : List A) → IsDescBy (sort_by xs)
  unfolding sort_by
  sort_by-IsDescBy [] = tt
  sort_by-IsDescBy (x ∷ xs) = insert_by-IsDescBy x (sort_by xs) (sort_by-IsDescBy xs)

  insert_by-perm : (x : A) (ys : List A) → Perm (insert_by x ys) (x ∷ ys)
  unfolding insert_by
  insert_by-perm x [] = Perm.refl (x ∷ [])
  insert_by-perm x (y ∷ ys) = elim (Bool-cases (ltb (key x) (key y))) [
    | inl e ↦ rw e (Perm.trans (Perm.cons y (insert_by-perm x ys)) (Perm.swap x y ys))
    | inr e ↦ rw e (Perm.refl (x ∷ y ∷ ys))
  ]

  pub sort_by-perm : (xs : List A) → Perm (sort_by xs) xs
  unfolding sort_by
  sort_by-perm [] = Perm.refl []
  sort_by-perm (x ∷ xs) = Perm.trans (insert_by-perm x (sort_by xs)) (Perm.cons x (sort_by-perm xs))
