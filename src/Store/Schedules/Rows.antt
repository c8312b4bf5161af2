-- ===== src/Store/Schedules/Rows.antt =====
-- What SELECT finds after each statement on the table of schedules.
use mathlib.Core.Option
use supaback.Prelude.{List, [], ◌∷◌, ◌++◌, none, some, ◌≡◌, refl, arith, if◌then◌else◌}
use supaback.Prelude.Int.{ℤ, int_eq, int_eq_iff}
use supaback.Store.{Schedule}
use supaback.Store.Schedules.{find_row, delete_rows, update_rows}

pub find_row-id :
    (i : ℤ) (scs : List Schedule) {sc : Schedule} → find_row i scs ≡ some sc → sc.id ≡ i
unfolding find_row
find_row-id i [] h = cc
find_row-id i (x ∷ xs) {sc} h = ground (arith, int_eq_iff x.id i, find_row-id i xs {sc = sc})

pub find_row-delete :
    (id i : ℤ) (scs : List Schedule)
    → find_row i (delete_rows id scs) ≡ (if int_eq id i then none else find_row i scs)
unfolding find_row delete_rows
find_row-delete id i [] = ground arith
find_row-delete id i (x ∷ xs) =
    ground (arith, int_eq_iff x.id id, int_eq_iff x.id i, int_eq_iff id i, find_row-delete id i xs)

pub find_row-update :
    (f : Schedule → Schedule) (id i : ℤ) (scs : List Schedule)
    → ((sc : Schedule) → (f sc).id ≡ sc.id)
    → find_row i (update_rows f id scs)
      ≡ (if int_eq id i then Option.map f (find_row i scs) else find_row i scs)
unfolding find_row update_rows
find_row-update f id i [] h = ground arith
find_row-update f id i (x ∷ xs) h = ground (
  arith,
  h x,
  int_eq_iff x.id id,
  int_eq_iff x.id i,
  int_eq_iff id i,
  find_row-update f id i xs h,
)

pub find_row-append :
    (i : ℤ) (scs : List Schedule) (sc : Schedule)
    → find_row sc.id scs ≡ none
    → find_row i (scs ++ sc ∷ []) ≡ (if int_eq sc.id i then some sc else find_row i scs)
unfolding find_row
find_row-append i [] sc h = refl
find_row-append i (x ∷ xs) sc h =
    ground
      (arith, int_eq_iff x.id sc.id, int_eq_iff x.id i, int_eq_iff sc.id i, find_row-append i xs sc)
