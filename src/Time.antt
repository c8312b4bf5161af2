-- ===== src/Time.antt =====
-- The parts of Go's package time that the program uses: an instant is a number of nanoseconds, and
-- a date is what `time.Parse("2006-01-02", s)` accepts. Everything is in UTC.
pub mod Order
pub mod Format
use supaback.Prelude.{
  ℕ, zero, suc, ◌+◌, ◌-◌, ◌*◌, ◌/◌, ◌%◌, Bool, true, false, ◌&&◌, ◌||◌, not, Text, List, [], ◌∷◌,
  Option, none, some, ◌≡◌, leb, ◌==◌, if◌then◌else◌,
}

pub record Date : Type 0 where
  pub year : ℕ
  pub month : ℕ
  pub day : ℕ

is_leap : ℕ → Bool
is_leap y = y % 4 == 0 && (not (y % 100 == 0) || y % 400 == 0)

-- Days in a month of a year; month 0 has none.
unfoldable pub days_in : ℕ → ℕ → ℕ
unfolding is_leap
days_in y m =
    if m == 0
    then 0
    else if m == 2
    then if is_leap y then 29 else 28
    else if m == 4 || m == 6 || m == 9 || m == 11
    then 30
    else 31

unfoldable pub is_digit : ℕ → Bool
is_digit c = leb 48 c && leb c 57

-- The number that two digits write.
abbrev pub two_digits : ℕ → ℕ → ℕ
two_digits a b = (a - 48) * 10 + (b - 48)

-- The range checks on month and day.
unfoldable pub in_calendar : Date → Option Date
in_calendar d =
    if leb 1 d.month && leb d.month 12 && leb 1 d.day && leb d.day (days_in d.year d.month)
    then some d
    else none

-- The layout `2006-01-02`: four, two and two digits between dashes, and nothing after them.
unfoldable pub has_layout : Text → Bool
has_layout (y1 ∷ y2 ∷ y3 ∷ y4 ∷ s1 ∷ m1 ∷ m2 ∷ s2 ∷ d1 ∷ d2 ∷ []) =
    is_digit y1
    && is_digit y2
    && is_digit y3
    && is_digit y4
    && s1 == b'-'
    && is_digit m1
    && is_digit m2
    && s2 == b'-'
    && is_digit d1
    && is_digit d2
has_layout _ = false

-- The numbers at the places of the layout.
unfoldable pub numbers : Text → Date
numbers (y1 ∷ y2 ∷ y3 ∷ y4 ∷ s1 ∷ m1 ∷ m2 ∷ s2 ∷ d1 ∷ d2 ∷ []) = record {
  year = two_digits y1 y2 * 100 + two_digits y3 y4;
  month = two_digits m1 m2;
  day = two_digits d1 d2;
}
numbers _ = record { year = 0; month = 0; day = 0 }

-- `time.Parse("2006-01-02", s)`; an error is `none`.
unfoldable pub parse_date : Text → Option Date
parse_date s = if has_layout s then in_calendar (numbers s) else none

-- `n` as two digits, before `rest`.
abbrev pub pad2 : ℕ → Text → Text
pad2 n rest = (b'0' + n / 10) ∷ (b'0' + n % 10) ∷ rest

-- `t.Format("2006-01-02")`, for a year of at most four digits.
unfoldable pub format_date : Date → Text
format_date d =
    pad2 (d.year / 100) (pad2 (d.year % 100) (b'-' ∷ pad2 d.month (b'-' ∷ pad2 d.day [])))

-- Days of the months before month `m` of year `y`.
before_month : ℕ → ℕ → ℕ
before_month y zero = 0
before_month y (suc m) = before_month y m + days_in y m

-- Days of the years before year `y`, from year 0.
before_year : ℕ → ℕ
before_year y = 365 * y + (y + 3) / 4 + (y + 399) / 400 - (y + 99) / 100

-- Days from the first day of year 0.
unfoldable pub day_number : Date → ℕ
unfolding before_year before_month
day_number d = before_year d.year + before_month d.year d.month + d.day - 1

-- Nanoseconds in a day, and the instant at which a date begins.
abbrev pub day_nanos : ℕ
day_nanos = 86400000000000

abbrev pub start_of : Date → ℕ
start_of d = day_number d * day_nanos
