-- ===== src/Scheduler/EntryMap.antt =====
-- The map `entries` of the scheduler.
use supaback.Prelude.{ℕ, List, [], ◌∷◌, Option, none, some, ◌≡◌, refl, arith, if◌then◌else◌}
use supaback.Prelude.Int.{ℤ, int_eq, int_eq_iff}

abbrev pub Entries : Type 0
Entries = List (ℤ × ℕ)

unfoldable pub entry_of : Entries → ℤ → Option ℕ
entry_of [] id = none
entry_of ((j, i) ∷ m) id = if int_eq j id then some i else entry_of m id

unfoldable pub set_entry : Entries → ℤ → ℕ → Entries
set_entry [] id i = (id, i) ∷ []
set_entry ((j, k) ∷ m) id i =
    let rest = set_entry m id i in if int_eq j id then (id, i) ∷ m else (j, k) ∷ rest

unfoldable pub delete_entry : Entries → ℤ → Entries
delete_entry [] id = []
delete_entry ((j, k) ∷ m) id =
    let rest = delete_entry m id in if int_eq j id then rest else (j, k) ∷ rest

pub entry_of-set :
    (m : Entries) (id j : ℤ) (i : ℕ)
    → entry_of (set_entry m id i) j ≡ (if int_eq id j then some i else entry_of m j)
unfolding entry_of set_entry
entry_of-set [] id j i = refl
entry_of-set ((x, k) ∷ m) id j i =
    ground (arith, int_eq_iff id j, int_eq_iff x id, int_eq_iff x j, entry_of-set m id j i)

pub entry_of-delete :
    (m : Entries) (id j : ℤ)
    → entry_of (delete_entry m id) j ≡ (if int_eq id j then none else entry_of m j)
unfolding entry_of delete_entry
entry_of-delete [] id j = ground arith
entry_of-delete ((x, k) ∷ m) id j =
    ground (arith, int_eq_iff id j, int_eq_iff x id, int_eq_iff x j, entry_of-delete m id j)
