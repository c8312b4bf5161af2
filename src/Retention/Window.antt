-- ===== src/Retention/Window.antt =====
-- The window of `keep_days` begins at an hour of the day, and a date counts from its midnight.
use supaback.Prelude.{
  Bool-cases, inl, inr, ◌∙◌, some, ℕ, ◌+◌, ◌-◌, ◌*◌, ◌≤◌, ◌||◌, ◌<◌, Text, List, true, false, ◌≡◌,
  arith,
}
use supaback.Prelude.Int.{pos, ltb_ℤ}
use supaback.Time.{Date, parse_date, start_of, day_nanos}
use supaback.Retention.{Config, contains, build_keep_set, sort_desc, valid_dates}
use supaback.Retention.Keep.{survives, count_newer, build_keep_set-survives}

-- With `keep_days` alone set to `k`, a date goes as soon as its midnight is `k` days past, and so a
-- backup made at the end of that day goes before it is `k` days old: at every time `now` strictly
-- within the `k`-th day after `d`, there is an instant of the day `d` less than `k` days before
-- `now`, and yet the entry of `d` is not in the keep set.
pub keep_days_window :
    (k now : ℕ) (s : Text) {d : Date} (entries : List Text)
    → parse_date s ≡ some d
    → contains entries s ≡ true
    → 1 ≤ k
    → start_of d + k * day_nanos < now
    → now + 1 < start_of d + k * day_nanos + day_nanos
    → (t : ℕ) × (start_of d ≤ t)
      × (t < start_of d + day_nanos)
      × (now < t + k * day_nanos)
      × (contains
            (build_keep_set
              (sort_desc (valid_dates entries))
              (record { keep_last = pos 0; keep_days = pos k })
              now)
            s
          ≡ false)
unfolding survives
keep_days_window k now s {d} entries parsed held pos_k after before = (
  start_of d + (day_nanos - 1),
  omega arith,
  omega arith,
  omega arith,
  build_keep_set-survives (record { keep_last = pos 0; keep_days = pos k }) now s entries parsed
        held
      ∙ gone,
)
  where
    gone : survives (record { keep_last = pos 0; keep_days = pos k }) now d entries ≡ false
    gone = ground arith

-- The date of the current day survives wherever `keep_days` is set.
pub today_survives :
    (cfg : Config) (now : ℕ) (d : Date) (entries : List Text)
    → ltb_ℤ (pos 0) cfg.keep_days ≡ true
    → now ≤ start_of d + day_nanos
    → survives cfg now d entries ≡ true
unfolding survives
today_survives cfg now d entries on today = ground arith

-- A date with no newer one among the entries survives wherever `keep_last` is set.
pub newest_survives :
    (cfg : Config) (now : ℕ) (d : Date) (entries : List Text)
    → ltb_ℤ (pos 0) cfg.keep_last ≡ true
    → count_newer d entries ≡ 0
    → survives cfg now d entries ≡ true
unfolding survives
newest_survives cfg now d entries on none_newer = ground arith

-- The newest date, on its day, survives wherever a rule is set.
pub newest_today_survives :
    (cfg : Config) (now : ℕ) (d : Date) (entries : List Text)
    → (ltb_ℤ (pos 0) cfg.keep_last || ltb_ℤ (pos 0) cfg.keep_days) ≡ true
    → now ≤ start_of d + day_nanos
    → count_newer d entries ≡ 0
    → survives cfg now d entries ≡ true
newest_today_survives cfg now d entries on today none_newer =
    elim (Bool-cases (ltb_ℤ (pos 0) cfg.keep_last)) [
      | inl last ↦ newest_survives cfg now d entries last none_newer
      | inr other ↦ today_survives cfg now d entries (rw other at on) today
    ]
