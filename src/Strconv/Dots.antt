-- ===== src/Strconv/Dots.antt =====
-- The parts of a text that has no two dots in a row.
use supaback.Prelude.{
  ℕ, Text, List, [], ◌∷◌, ◌++◌, All, false, ◌==◌, ◌≡◌, refl, ap, inl, inr, arith, Bool-cases,
}
use supaback.Strconv.{split, with_head, starts_with_dots, has_dots}

has_dots-append : (a b : Text) → has_dots (a ++ b) ≡ false → has_dots a ≡ false
unfolding has_dots starts_with_dots
has_dots-append [] b h = refl
has_dots-append (c ∷ []) b h = refl
has_dots-append (c ∷ d ∷ a) b h = ground (arith, has_dots-append (d ∷ a) b)

-- The first part of a split text, and what follows it.
split_first :
    (sep : ℕ) (s : Text)
    → (x : Text) × (xs : List Text) × (rest : Text) × (split sep s ≡ x ∷ xs) × (s ≡ x ++ rest)
unfolding split with_head
split_first sep [] = ([], [], [], refl, refl)
split_first sep (c ∷ s) =
    let (x, xs, rest, e, f) = split_first sep s in
    elim (Bool-cases (c == sep)) [
      | inl t ↦ ([], split sep s, c ∷ s, rw t refl, refl)
      | inr g ↦ (c ∷ x, xs, rest, rw (g, e) refl, ap (◌∷◌ c) f)
    ]

abbrev pub NoDots : Text → Type 0
NoDots x = has_dots x ≡ false

tail_NoDots : (c : ℕ) (s : Text) → NoDots (c ∷ s) → NoDots s
unfolding has_dots
tail_NoDots c s h = ground arith

-- The parts of a text without `..` have none.
pub split-NoDots : (sep : ℕ) (s : Text) → NoDots s → All NoDots (split sep s)
unfolding split with_head has_dots
split-NoDots sep [] h = (refl, tt)
split-NoDots sep (c ∷ s) h =
    let (x, xs, rest, e, f) = split_first sep s in
    let later : All NoDots (split sep s) = split-NoDots sep s (tail_NoDots c s h) in
    elim (Bool-cases (c == sep)) [
      | inl t ↦ rw t (refl, later)
      | inr g ↦
          let parts : All NoDots (x ∷ xs) = rw e at later in
          let whole : NoDots (c ∷ (x ++ rest)) = rw f at h in
          rw (g, e) (has_dots-append (c ∷ x) rest whole, parts.1)
    ]
