-- ===== src/Time/Format.antt =====
-- A calendar date is read back from the text that it is written as.
use supaback.Prelude.{ℕ, ◌+◌, ◌/◌, ◌%◌, ◌<◌, some, true, ◌≡◌, arith}
use supaback.Time.{Date, format_date, parse_date, has_layout, numbers, in_calendar, is_digit}
use supaback.Time.Order.{IsDate, days_in-le}

digits-IsDigit :
    (n : ℕ) → n < 100 → (is_digit (b'0' + n / 10) ≡ true) × (is_digit (b'0' + n % 10) ≡ true)
unfolding is_digit
digits-IsDigit n h = ground arith

has_layout-format :
    (d : Date) → d.year < 10000 → d.month < 100 → d.day < 100 → has_layout (format_date d) ≡ true
unfolding has_layout format_date
has_layout-format d y m n = ground (
  arith,
  digits-IsDigit (d.year / 100),
  digits-IsDigit (d.year % 100),
  digits-IsDigit d.month,
  digits-IsDigit d.day,
)

numbers-format : (d : Date) → numbers (format_date d) ≡ d
unfolding numbers format_date
numbers-format d = ground arith

in_calendar-IsDate : (d : Date) → IsDate d → in_calendar d ≡ some d
unfolding in_calendar
in_calendar-IsDate d p = ground arith

-- Every calendar date of a four-digit year is read back from its text.
pub parse_date-format : (d : Date) → IsDate d → d.year < 10000 → parse_date (format_date d) ≡ some d
unfolding parse_date
parse_date-format d p y =
    rw
      (
        has_layout-format d y (omega arith) (omega (arith, days_in-le d.year d.month)),
        numbers-format d,
      )
      (in_calendar-IsDate d p)
