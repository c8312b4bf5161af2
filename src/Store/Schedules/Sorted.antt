-- ===== src/Store/Schedules/Sorted.antt =====
-- Rows with distinct ids are found in the sorted table as in the table.
use supaback.Prelude.{
  ℕ, ◌≤◌, List, [], ◌∷◌, false, Option, none, some, ◌≡◌, refl, ap, ◌∙◌, arith, ltb, if◌then◌else◌,
  Bool-cases, inl, inr,
}
use supaback.Prelude.Int.{ℤ, pos, int_eq, int_eq_iff}
use supaback.Prelude.Sort.{insert_by, sort_by}
use supaback.Store.{Schedule}
use supaback.Store.Schedules.{find_row}
use supaback.Store.Ids.{Ascending, schedule_ids}

-- No two rows have the same id.
abbrev pub Distinct : List Schedule → Type 0
Distinct [] = Unit
Distinct (sc ∷ scs) = (find_row sc.id scs ≡ none) × Distinct scs

find_row-absent :
    (k lo hi : ℕ) (scs : List Schedule)
    → k ≤ lo
    → Ascending lo (schedule_ids scs) hi
    → find_row (pos k) scs ≡ none
unfolding find_row int_eq
find_row-absent k lo hi [] h a = refl
find_row-absent k lo hi (sc ∷ scs) h (n, p, l, a) =
    rw p (ground (arith, find_row-absent k n hi scs (omega arith) a))

pub Ascending-Distinct :
    (lo hi : ℕ) (scs : List Schedule) → Ascending lo (schedule_ids scs) hi → Distinct scs
Ascending-Distinct lo hi [] a = tt
Ascending-Distinct lo hi (sc ∷ scs) (n, p, l, a) = (
  ap (λ (z : ℤ). find_row z scs) p ∙ find_row-absent n n hi scs (omega arith) a,
  Ascending-Distinct n hi scs a,
)

find_row-cons :
    (x : ℤ) (y : Schedule) (ys : List Schedule)
    → find_row x (y ∷ ys) ≡ none
    → (int_eq y.id x ≡ false) × (find_row x ys ≡ none)
unfolding find_row
find_row-cons x y ys h = ground arith

module _ (key : Schedule → ℕ) where
  find_row-insert :
      (x : ℤ) (sc : Schedule) (scs : List Schedule)
      → find_row sc.id scs ≡ none
      → find_row x (insert_by key sc scs) ≡ find_row x (sc ∷ scs)
  unfolding find_row insert_by
  find_row-insert x sc [] h = refl
  find_row-insert x sc (y ∷ ys) h =
      ground (
        arith,
        find_row-insert x sc ys,
        int_eq_iff y.id x,
        int_eq_iff sc.id x,
        int_eq_iff y.id sc.id,
      )

  insert-Distinct :
      (sc : Schedule) (scs : List Schedule)
      → find_row sc.id scs ≡ none
      → Distinct scs
      → Distinct (insert_by key sc scs)
  unfolding find_row insert_by
  insert-Distinct sc [] h d = (refl, tt)
  insert-Distinct sc (y ∷ ys) h d = elim (Bool-cases (ltb (key sc) (key y))) [
    | inl e ↦ rw e (kept, insert-Distinct sc ys (find_row-cons sc.id y ys h).1 d.1)
    | inr e ↦ rw e (h, d)
  ]
    where
      kept : find_row y.id (insert_by key sc ys) ≡ none
      kept =
          find_row-insert y.id sc ys (find_row-cons sc.id y ys h).1
          ∙ ground (
            arith,
            (find_row-cons sc.id y ys h).0,
            int_eq_iff sc.id y.id,
            int_eq_iff y.id sc.id,
            d.0,
          )

  pub find_row-sort :
      (x : ℤ) (scs : List Schedule) → Distinct scs → find_row x (sort_by key scs) ≡ find_row x scs
  unfolding sort_by find_row
  find_row-sort x [] d = refl
  find_row-sort x (sc ∷ scs) d =
      find_row-insert x sc (sort_by key scs) (find_row-sort sc.id scs d.1 ∙ d.0)
      ∙ ap (λ (o : Option Schedule). if int_eq sc.id x then some sc else o)
          (find_row-sort x scs d.1)

  pub sort-Distinct : (scs : List Schedule) → Distinct scs → Distinct (sort_by key scs)
  unfolding sort_by
  sort-Distinct [] d = tt
  sort-Distinct (sc ∷ scs) d =
      insert-Distinct sc (sort_by key scs) (find_row-sort sc.id scs d.1 ∙ d.0)
        (sort-Distinct scs d.1)
