-- ===== src/Retention.antt =====
-- internal/retention/retention.go: which backup dates are deleted after a backup.
pub mod Order
pub mod Keep
pub mod Sweep
pub mod Policy
pub mod Window
use supaback.Prelude.{
  ℕ, ◌*◌, Text, Result, ok, err, List, [], ◌∷◌, ◌++◌, take, Bool, true, false, ◌&&◌, ◌||◌, not,
  Option, none, some, text_eq, text_ltb, if◌then◌else◌,
}
use supaback.Prelude.Int.{ℤ, pos, pos_part, ◌-ℤ◌, ltb_ℤ, is_zero}
use supaback.Time.{Date, parse_date, start_of, day_nanos}
use supaback.Destination.{Destination}

-- 0 disables a rule.
pub record Config : Type 0 where
  pub keep_last : ℤ
  pub keep_days : ℤ

is_some {ℓ} : {A : Type ℓ} → Option A → Bool
is_some none = false
is_some (some a) = true

-- `_, err := time.Parse("2006-01-02", e); err == nil`
unfoldable pub is_date : Text → Bool
unfolding is_some
is_date e = is_some (parse_date e)

-- The loop that keeps only valid date directories.
unfoldable pub valid_dates : List Text → List Text
valid_dates [] = []
valid_dates (e ∷ es) = let rest = valid_dates es in if is_date e then e ∷ rest else rest

insert_desc : Text → List Text → List Text
insert_desc x [] = x ∷ []
insert_desc x (y ∷ ys) =
    let rest = insert_desc x ys in if text_ltb x y then y ∷ rest else x ∷ y ∷ ys

-- `sort.Sort(sort.Reverse(sort.StringSlice(dates)))`: newest first.
unfoldable pub sort_desc : List Text → List Text
unfolding insert_desc
sort_desc [] = []
sort_desc (x ∷ xs) = insert_desc x (sort_desc xs)

-- `keep[d]`, of a `map[string]bool` given by the keys that were set.
unfoldable pub contains : List Text → Text → Bool
contains [] d = false
contains (k ∷ ks) d = text_eq d k || contains ks d

-- `t, _ := time.Parse(…)`: the zero time, 0001-01-01, where the text does not parse.
parsed_or_zero : Option Date → Date
parsed_or_zero (some d) = d
parsed_or_zero none = record { year = 1; month = 1; day = 1 }

-- `!t.Before(cutoff)`, with `cutoff := time.Now().UTC().AddDate(0, 0, -cfg.KeepDays)`.
unfoldable pub is_recent : ℤ → ℕ → Text → Bool
unfolding parsed_or_zero ◌-ℤ◌
is_recent keep_days now d =
    let cutoff = pos now -ℤ pos (pos_part keep_days * day_nanos) in
    not (ltb_ℤ (pos (start_of (parsed_or_zero (parse_date d)))) cutoff)

-- The loop of rule 2.
recent : ℤ → ℕ → List Text → List Text
recent keep_days now [] = []
recent keep_days now (d ∷ ds) =
    let rest = recent keep_days now ds in if is_recent keep_days now d then d ∷ rest else rest

-- The keys of the map that `buildKeepSet` returns, for dates given newest first.
unfoldable pub build_keep_set : List Text → Config → ℕ → List Text
unfolding recent
build_keep_set dates cfg now =
    (if ltb_ℤ (pos 0) cfg.keep_last then take (pos_part cfg.keep_last) dates else [])
    ++ (if ltb_ℤ (pos 0) cfg.keep_days then recent cfg.keep_days now dates else [])

-- What became of one date: deleted, or a delete that failed and was logged.
pub data Event : Type 0 where
  removed : Text → Event
  delete_failed : Text → Text → Event

module _ {W : Type 0} (dest : Destination W) where
  log_delete : Text → Result (Unit {0}) → Event
  log_delete date (ok _) = removed date
  log_delete date (err e) = delete_failed date e

  -- The loop over the dates; the log has an entry for each delete that was tried.
  unfoldable pub sweep : List Text → List Text → W → List Event × W
  unfolding log_delete
  sweep keep [] w = ([], w)
  sweep keep (date ∷ dates) w = elim (contains keep date) [
    | true ↦ sweep keep dates w
    | false ↦
        let (outcome, w') = dest.delete date w in
        let (log, w'') = sweep keep dates w' in (log_delete date outcome ∷ log, w'')
  ]

  -- After the list call: dates, sorted, against the keep set.
  sweep_entries : Config → ℕ → Result (List Text) → W → Result (List Event) × W
  unfolding sweep
  sweep_entries cfg now (err e) w = (err e, w)
  sweep_entries cfg now (ok entries) w =
      let dates = sort_desc (valid_dates entries) in
      let (log, w') = sweep (build_keep_set dates cfg now) dates w in (ok log, w')

  -- `Apply`, at the time `now`.
  unfoldable pub apply : Config → ℕ → W → Result (List Event) × W
  unfolding sweep_entries
  apply cfg now w =
      if is_zero cfg.keep_last && is_zero cfg.keep_days
      then (ok [], w)
      else let (entries, w') = dest.list [] w in sweep_entries cfg now entries w'
