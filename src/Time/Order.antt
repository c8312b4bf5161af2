-- ===== src/Time/Order.antt =====
-- Dates as text, in calendar order and as day numbers: the three orders agree.
use supaback.Prelude.{
  text_ltb, ℕ, zero, suc, ◌+◌, ◌*◌, ◌/◌, ◌%◌, ◌≤◌, ◌<◌, true, false, ◌&&◌, ◌||◌, Text, [], ◌∷◌,
  some, ◌≡◌, refl, ◌⊎◌, inl, inr, ltb, ◌==◌, arith,
}
use mathlib.Core.Path.{ap, ap₂}
use native.Mathlib.Decide.{dec_lt}
use native.Mathlib.Nat.{le_refl}
use supaback.Time.{
  Date, is_leap, days_in, is_digit, two_digits, pad2, format_date, in_calendar, has_layout, numbers,
  parse_date, before_month, before_year, day_number,
}

pub record IsDate (d : Date) : Type 0 where
  pub month_pos : 1 ≤ d.month
  pub month_le : d.month ≤ 12
  pub day_pos : 1 ≤ d.day
  pub day_le : d.day ≤ days_in d.year d.month

in_calendar-IsDate : (d : Date) {e : Date} → in_calendar d ≡ some e → IsDate e
unfolding in_calendar
in_calendar-IsDate d h = ground arith

parse_date_cases :
    (s : Text) {d : Date}
    → parse_date s ≡ some d
    → (has_layout s ≡ true) × (d ≡ numbers s) × IsDate d
unfolding parse_date in_calendar
parse_date_cases s h = ground (arith, in_calendar-IsDate (numbers s))

pub parse_date-IsDate : (s : Text) {d : Date} → parse_date s ≡ some d → IsDate d
parse_date-IsDate s h = (parse_date_cases s h).2

before_month_mono : (y m n : ℕ) → m < n → before_month y m + days_in y m ≤ before_month y n
unfolding before_month
before_month_mono y m zero h = omega arith
before_month_mono y m (suc n) h = elim (dec_lt m n) [
  | yes p ↦ omega (arith, before_month_mono y m n p)
  | no p ↦ rw (ends p) (le_refl (before_month y n + days_in y n))
]
  where
    ends : ¬ (m < n) → m ≡ n
    ends p = omega arith

before_month-year : (y : ℕ) → before_year y + before_month y 13 ≡ before_year (suc y)
unfolding before_month before_year days_in is_leap
before_month-year y = ground arith

-- A date lies before the end of its year.
day_number-lt-year : (d : Date) → IsDate d → day_number d < before_year (suc d.year)
unfolding day_number
day_number-lt-year d p =
    omega (arith, before_month_mono d.year d.month 13, before_month-year d.year)

before_year_mono : (y z : ℕ) → y ≤ z → before_year y ≤ before_year z
unfolding before_year
before_year_mono y z h = omega arith

before_year-le : (d : Date) → IsDate d → before_year d.year ≤ day_number d
unfolding day_number
before_year-le d p = omega arith

-- The calendar's order.
abbrev pub Earlier : Date → Date → Type 0
Earlier d e =
    (d.year < e.year)
    ⊎ (((d.year ≡ e.year) × (d.month < e.month))
        ⊎ ((d.year ≡ e.year) × (d.month ≡ e.month) × (d.day < e.day)))

-- Calendar dates have day numbers in the same order.
pub day_number_mono : (d e : Date) → IsDate d → IsDate e → Earlier d e → day_number d < day_number e
unfolding day_number
day_number_mono d e p q (inl y) =
    omega
      (arith, day_number-lt-year d p, before_year_mono (suc d.year) e.year y, before_year-le e q)
day_number_mono d e p q (inr (inl (y, m))) = omega (
  arith,
  ap before_year y,
  ap (λ (t : ℕ). before_month t e.month) y,
  before_month_mono d.year d.month e.month m,
)
day_number_mono d e p q (inr (inr (y, m, l))) =
    omega (arith, ap before_year y, ap₂ before_month y m)

-- Two digits are compared before what follows them.
text_ltb-pad2 :
    (a b : ℕ) (s t : Text)
    → text_ltb (pad2 a s) (pad2 b t) ≡ (ltb a b || ((a == b) && text_ltb s t))
unfolding text_ltb
text_ltb-pad2 a b s t = ground arith

text_ltb-dash : (s t : Text) → text_ltb (b'-' ∷ s) (b'-' ∷ t) ≡ text_ltb s t
unfolding text_ltb
text_ltb-dash s t = ground arith

text_ltb-nil : text_ltb [] [] ≡ false
unfolding text_ltb
text_ltb-nil = refl

-- A date in calendar order as one number.
ordinal : Date → ℕ
ordinal d = (d.year * 100 + d.month) * 100 + d.day

pub days_in-le : (y m : ℕ) → days_in y m ≤ 31
unfolding days_in
days_in-le y m = ground arith

text_ltb-format :
    (d e : Date)
    → IsDate d
    → IsDate e
    → text_ltb (format_date d) (format_date e) ≡ ltb (ordinal d) (ordinal e)
unfolding format_date ordinal
text_ltb-format d e p q =
    simp (text_ltb-pad2, text_ltb-dash, text_ltb-nil)
      (ground (arith, days_in-le d.year d.month, days_in-le e.year e.month))

pad2-digits :
    (a b : ℕ) (rest : Text)
    → is_digit a ≡ true
    → is_digit b ≡ true
    → pad2 (two_digits a b) rest ≡ a ∷ b ∷ rest
unfolding is_digit
pad2-digits a b rest h k = ground arith

year-digits :
    (a b c d : ℕ) (rest : Text)
    → is_digit a ≡ true
    → is_digit b ≡ true
    → is_digit c ≡ true
    → is_digit d ≡ true
    → (let y = two_digits a b * 100 + two_digits c d in pad2 (y / 100) (pad2 (y % 100) rest))
      ≡ a ∷ b ∷ c ∷ d ∷ rest
unfolding is_digit
year-digits a b c d rest h k l m = ground arith

format_date-numbers : (s : Text) → has_layout s ≡ true → s ≡ format_date (numbers s)
unfolding has_layout numbers format_date
format_date-numbers (y1 ∷ y2 ∷ y3 ∷ y4 ∷ s1 ∷ m1 ∷ m2 ∷ s2 ∷ d1 ∷ d2 ∷ []) h = ground (
  arith,
  year-digits y1 y2 y3 y4 (b'-' ∷ m1 ∷ m2 ∷ b'-' ∷ d1 ∷ d2 ∷ []),
  pad2-digits m1 m2 (b'-' ∷ d1 ∷ d2 ∷ []),
  pad2-digits d1 d2 [],
)
format_date-numbers _ h = cc

-- What parses is the text that its date is written as.
pub format_date-parse_date : (s : Text) {d : Date} → parse_date s ≡ some d → s ≡ format_date d
format_date-parse_date s h = let c = parse_date_cases s h in rw c.1 (format_date-numbers s c.0)

Earlier-total : (d e : Date) → Earlier d e ⊎ (Earlier e d ⊎ (d ≡ e))
Earlier-total d e = grind arith

ordinal_mono : (d e : Date) → IsDate d → IsDate e → Earlier d e → ordinal d < ordinal e
unfolding ordinal
ordinal_mono d e p q h = omega (arith, days_in-le d.year d.month, days_in-le e.year e.month)

ordinal-day_number :
    (d e : Date)
    → IsDate d
    → IsDate e
    → ltb (ordinal d) (ordinal e) ≡ ltb (day_number d) (day_number e)
ordinal-day_number d e p q = elim (Earlier-total d e) [
  | inl h ↦ ground (arith, ordinal_mono d e p q h, day_number_mono d e p q h)
  | inr (inl h) ↦ ground (arith, ordinal_mono e d q p h, day_number_mono e d q p h)
  | inr (inr h) ↦ ground arith
]

-- On valid dates the order of texts is that of the day numbers.
pub text_ltb-day_number :
    (s t : Text) {d e : Date}
    → parse_date s ≡ some d
    → parse_date t ≡ some e
    → text_ltb s t ≡ ltb (day_number d) (day_number e)
text_ltb-day_number s t {d} {e} h k =
    rw (format_date-parse_date s h, format_date-parse_date t k, text_ltb-format d e p q)
      (ordinal-day_number d e p q)
  where
    p : IsDate d
    p = parse_date-IsDate s h

    q : IsDate e
    q = parse_date-IsDate t k
