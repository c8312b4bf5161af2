-- ===== src/Strconv/Split.antt =====
-- `strings.Split` after `strings.Join`.
use supaback.Prelude.{
  ℕ, Text, List, [], ◌∷◌, ◌++◌, All, ◌≡◌, ◌≢◌, refl, ◌==◌, Bool-cases, inl, inr, ap, ◌∙◌, arith,
}
use supaback.Strconv.{split, join, with_head}

-- `sep` does not stand in the text.
abbrev pub Lacks : ℕ → Text → Type 0
Lacks sep = All λ c. c ≢ sep

split-append : (sep : ℕ) (x s : Text) → Lacks sep x → split sep (x ++ (sep ∷ s)) ≡ x ∷ split sep s
unfolding split with_head
split-append sep [] s h = ground arith
split-append sep (c ∷ x) s h = ground (arith, split-append sep x s h.1)

pub split-Lacks : (sep : ℕ) (x : Text) → Lacks sep x → split sep x ≡ x ∷ []
unfolding split with_head
split-Lacks sep [] h = refl
split-Lacks sep (c ∷ x) h = ground (arith, split-Lacks sep x h.1)

-- A list with an entry, none of which holds the separator, is read back from its joined text.
pub split-join :
    (sep : ℕ) (x : Text) (xs : List Text)
    → All (Lacks sep) (x ∷ xs)
    → split sep (join sep (x ∷ xs)) ≡ x ∷ xs
unfolding join
split-join sep x [] h = split-Lacks sep x h.0
split-join sep x (y ∷ ys) h =
    split-append sep x (join sep (y ∷ ys)) h.0 ∙ ap (◌∷◌ x) (split-join sep y ys h.1)

split_cons : (sep : ℕ) (s : Text) → (x : Text) × (xs : List Text) × (split sep s ≡ x ∷ xs)
unfolding split with_head
split_cons sep [] = ([], [], refl)
split_cons sep (c ∷ s) =
    let (x, xs, e) = split_cons sep s in
    elim (Bool-cases (c == sep)) [
      | inl t ↦ ([], split sep s, rw t)
      | inr f ↦ (c ∷ x, xs, rw (f, e) refl)
    ]

with_head-append :
    (c : ℕ) {xs : List Text} (ys : List Text) {x : Text} {xs' : List Text}
    → xs ≡ x ∷ xs'
    → with_head c (xs ++ ys) ≡ with_head c xs ++ ys
unfolding with_head
with_head-append c ys e = rw e refl

-- A text around a separator is split into the parts on its two sides.
pub split-append_sep :
    (sep : ℕ) (a b : Text) → split sep (a ++ (sep ∷ b)) ≡ split sep a ++ split sep b
unfolding split
split-append_sep sep [] b = ground arith
split-append_sep sep (c ∷ a) b =
    let (x, xs, e) = split_cons sep a in
    elim (Bool-cases (c == sep)) [
      | inl t ↦ rw t (ap (◌∷◌ []) (split-append_sep sep a b))
      | inr f ↦
          rw f (ap (with_head c) (split-append_sep sep a b) ∙ with_head-append c (split sep b) e)
    ]

with_head-Lacks :
    (sep c : ℕ) (xs : List Text) → c ≢ sep → All (Lacks sep) xs → All (Lacks sep) (with_head c xs)
unfolding with_head
with_head-Lacks sep c [] h a = ((h, tt), tt)
with_head-Lacks sep c (x ∷ xs) h a = ((h, a.0), a.1)

-- No part of a split text holds the separator.
pub split-All : (sep : ℕ) (s : Text) → All (Lacks sep) (split sep s)
unfolding split
split-All sep [] = (tt, tt)
split-All sep (c ∷ s) = elim (Bool-cases (c == sep)) [
  | inl t ↦ rw t (tt, split-All sep s)
  | inr f ↦ rw f (with_head-Lacks sep c (split sep s) (λ e. ground arith) (split-All sep s))
]
