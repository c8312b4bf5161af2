-- ===== src/Prelude/Results.antt =====
-- A Go function's `(value, error)`: the value, or the text of the error.
use mathlib.Core.Path.{◌≡◌, refl}
use mathlib.Core.Logic.{◌⊎◌, inl, inr}
use mathlib.Core.List.{◌++◌}
use supaback.Prelude.Strings.{Text}

pub data Result {ℓ} (A : Type ℓ) : Type ℓ where
  ok : A → Result A
  err : Text → Result A

infixl 5 ◌>>=◌
abbrev pub ◌>>=◌ {ℓ κ} : {A : Type ℓ} {B : Type κ} → Result A → (A → Result B) → Result B
ok a >>= f = f a
err e >>= f = err e

-- `fmt.Errorf("…: %w", err)`
abbrev pub wrap_err {ℓ} : {A : Type ℓ} → Text → Result A → Result A
wrap_err msg (ok a) = ok a
wrap_err msg (err e) = err (msg ++ e)

pub Result-cases {ℓ} :
    {A : Type ℓ} (r : Result A) → ((a : A) × (r ≡ ok a)) ⊎ ((e : Text) × (r ≡ err e))
Result-cases (ok a) = inl (a, refl)
Result-cases (err e) = inr (e, refl)
