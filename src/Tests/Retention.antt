-- ===== src/Tests/Retention.antt =====
-- The retention policy on a shelf of four entries, three of them dates.
use supaback.Prelude.{
  ℕ, Text, codes, List, [], ◌∷◌, true, false, some, ok, ◌≡◌, refl, arith, text_eq, text_ltb, ◌+◌,
  ◌*◌, ◌<◌, ◌≤◌, In, inl, inr,
}
use supaback.Prelude.Int.{pos}
use supaback.Time.{
  parse_date, has_layout, numbers, in_calendar, day_number, start_of, day_nanos, days_in, is_digit,
}
use supaback.Retention.{
  Config, Event, removed, delete_failed, apply, sweep, build_keep_set, sort_desc, valid_dates,
  contains, is_date, is_recent,
}
use supaback.Retention.Keep.{survives, count_newer, build_keep_set-survives}
use supaback.Retention.Policy.{apply_protects, apply_removes}
use supaback.Retention.Window.{keep_days_window}
use supaback.Tests.{shelf, shelf-IsLawful, stuck, stuck-IsLawful, date_of, drop_name}

abbrev entries : List Text
entries = codes "2024-03-01" ∷ codes "notes" ∷ codes "2024-03-03" ∷ codes "2024-03-02" ∷ []

abbrev keep_one : Config
keep_one = record { keep_last = pos 1; keep_days = pos 0 }

abbrev midnight : ℕ
midnight = start_of (date_of 3)

parses_first : parse_date (codes "2024-03-01") ≡ some (date_of 1)
unfolding parse_date has_layout is_digit numbers in_calendar days_in
parses_first = refl

parses_third : parse_date (codes "2024-03-03") ≡ some (date_of 3)
unfolding parse_date has_layout is_digit numbers in_calendar days_in
parses_third = refl

third_survives : survives keep_one midnight (date_of 3) entries ≡ true
unfolding survives count_newer parse_date has_layout is_digit numbers in_calendar days_in is_recent
    day_number
third_survives = refl

apply_protects_example : In (codes "2024-03-03") (apply shelf keep_one midnight entries).1
apply_protects_example =
    apply_protects shelf (λ w. w) shelf-IsLawful keep_one midnight entries (codes "2024-03-03")
      (inr (date_of 3, parses_third, third_survives)) (inr (inr (inl refl)))

swept : apply shelf keep_one midnight entries ≡ (
  ok (removed (codes "2024-03-02") ∷ removed (codes "2024-03-01") ∷ []),
  codes "notes" ∷ codes "2024-03-03" ∷ [],
)
unfolding apply sweep sort_desc valid_dates is_date build_keep_set contains parse_date has_layout
    is_digit numbers in_calendar days_in text_ltb text_eq drop_name
swept = refl

-- Where no delete succeeds, the log says so.
abbrev stuck_log : List Event
stuck_log =
    delete_failed (codes "2024-03-02") (codes "denied")
    ∷ delete_failed (codes "2024-03-01") (codes "denied")
    ∷ []

stuck_sweep : apply stuck keep_one midnight entries ≡ (ok stuck_log, entries)
unfolding apply sweep sort_desc valid_dates is_date build_keep_set contains parse_date has_layout
    is_digit numbers in_calendar days_in text_ltb text_eq
stuck_sweep = refl

first_goes : survives keep_one midnight (date_of 1) entries ≡ false
unfolding survives count_newer parse_date has_layout is_digit numbers in_calendar days_in is_recent
    day_number
first_goes = refl

apply_removes_example : (msg : Text) × In (delete_failed (codes "2024-03-01") msg) stuck_log
apply_removes_example =
    (apply_removes stuck (λ w. w) stuck-IsLawful keep_one midnight entries entries stuck_log
        (codes "2024-03-01") refl stuck_sweep (inl refl)).1
      (date_of 1) parses_first first_goes

held : contains entries (codes "2024-03-01") ≡ true
unfolding contains text_eq
held = refl

build_keep_set-survives_example :
    contains
      (build_keep_set (sort_desc (valid_dates entries)) keep_one midnight)
      (codes "2024-03-01")
    ≡ survives keep_one midnight (date_of 1) entries
build_keep_set-survives_example =
    build_keep_set-survives keep_one midnight (codes "2024-03-01") entries parses_first held

abbrev next_noon : ℕ
next_noon = start_of (date_of 2) + 43200000000000

past : start_of (date_of 1) + 1 * day_nanos < next_noon
unfolding day_number
past = omega arith

within : next_noon + 1 < start_of (date_of 1) + 1 * day_nanos + day_nanos
unfolding day_number
within = omega arith

keep_days_window_example :
    (t : ℕ) × (start_of (date_of 1) ≤ t)
    × (t < start_of (date_of 1) + day_nanos)
    × (next_noon < t + 1 * day_nanos)
    × (contains
          (build_keep_set
            (sort_desc (valid_dates entries))
            (record { keep_last = pos 0; keep_days = pos 1 })
            next_noon)
          (codes "2024-03-01")
        ≡ false)
keep_days_window_example =
    keep_days_window 1 next_noon (codes "2024-03-01") entries parses_first held (omega arith) past
      within
