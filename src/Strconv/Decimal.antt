-- ===== src/Strconv/Decimal.antt =====
-- `Atoi` after `Itoa`.
use supaback.Prelude.{
  ℕ, zero, suc, ◌+◌, ◌*◌, ◌/◌, ◌%◌, ◌^◌, ◌<◌, ◌≤◌, Text, [], ◌∷◌, true, ◌≡◌, refl, ◌∙◌, ap, ltb,
  Bool-cases, inl, inr, arith,
}
use supaback.Prelude.Int.{ℤ, pos, negsuc, InInt64}
use supaback.Strconv.{
  number, print_digits, print_ℕ, itoa, parse_digits, parse_uint, as_pos, as_neg, parse_int,
}

-- One digit of a number in range is read.
parse_digits-digit :
    (m k : ℕ) (s : Text)
    → k < 10
    → m * 10 + k ≤ 2 ^ 63
    → parse_digits m ((b'0' + k) ∷ s) ≡ parse_digits (m * 10 + k) s
unfolding parse_digits
parse_digits-digit m k s h r = ground arith

parse_digits-print :
    (f n : ℕ) (s : Text)
    → n < f
    → n ≤ 2 ^ 63
    → parse_digits 0 (print_digits f n s) ≡ parse_digits n s
unfolding print_digits
parse_digits-print zero n s h r = absurd (omega arith)
parse_digits-print (suc f) n s h r = elim (Bool-cases (ltb n 10)) [
  | inl e ↦ rw e (ground (arith, parse_digits-digit 0 n s))
  | inr e ↦ rw e (
      parse_digits-print f (n / 10) ((b'0' + n % 10) ∷ s) (ground arith) (omega arith)
      ∙ parse_digits-digit (n / 10) (n % 10) s (omega arith) (omega arith)
      ∙ ap (λ m. parse_digits m s) (omega arith))
]

-- What is printed begins with a digit.
print_digits-head :
    (f n : ℕ) (s : Text) → (c : ℕ) × (t : Text) × (print_digits (suc f) n s ≡ c ∷ t) × (b'0' ≤ c)
unfolding print_digits
print_digits-head zero n s = elim (Bool-cases (ltb n 10)) [
  | inl e ↦ (b'0' + n, s, rw e, omega arith)
  | inr e ↦ (b'0' + n % 10, s, rw e, omega arith)
]
print_digits-head (suc f) n s = elim (Bool-cases (ltb n 10)) [
  | inl e ↦ (b'0' + n, s, rw e, omega arith)
  | inr e ↦
      let (c, t, p, h) = print_digits-head f (n / 10) ((b'0' + n % 10) ∷ s) in (c, t, rw e p, h)
]

print_ℕ-head : (n : ℕ) → (c : ℕ) × (t : Text) × (print_ℕ n ≡ c ∷ t) × (b'0' ≤ c)
unfolding print_ℕ
print_ℕ-head n = print_digits-head n n []

parse_uint-cons : (s : Text) {c : ℕ} {t : Text} → s ≡ c ∷ t → parse_uint s ≡ parse_digits 0 s
unfolding parse_uint
parse_uint-cons s p = rw p refl

parse_digits-nil : (n : ℕ) → parse_digits n [] ≡ number n
unfolding parse_digits
parse_digits-nil n = refl

print_ℕ_lem : (n : ℕ) → print_ℕ n ≡ print_digits (suc n) n []
unfolding print_ℕ
print_ℕ_lem n = refl

parse_uint-print : (n : ℕ) → n ≤ 2 ^ 63 → parse_uint (print_ℕ n) ≡ number n
parse_uint-print n h =
    let (c, t, p, _) = print_ℕ-head n in
    parse_uint-cons (print_ℕ n) p
    ∙ ap (parse_digits 0) (print_ℕ_lem n)
    ∙ parse_digits-print (suc n) n [] (omega arith) h
    ∙ parse_digits-nil n

-- A text that begins with a digit has no sign.
parse_int-unsigned :
    (s : Text) {c : ℕ} {t : Text} → s ≡ c ∷ t → b'0' ≤ c → parse_int s ≡ as_pos (parse_uint s)
unfolding parse_int
parse_int-unsigned s p h = rw p (ground arith)

-- Every `int64` is read back from its decimal text, with no error.
pub parse_int-itoa : (z : ℤ) → InInt64 z → parse_int (itoa z) ≡ (z, true)
unfolding itoa
parse_int-itoa (pos n) h =
    let (c, t, p, d) = print_ℕ-head n in
    parse_int-unsigned (print_ℕ n) p d
    ∙ ap as_pos (parse_uint-print n (omega arith))
    ∙ unfold as_pos in ground arith
parse_int-itoa (negsuc n) h =
    unfold parse_int in ap as_neg (parse_uint-print (suc n) h) ∙ unfold as_neg in ground arith
