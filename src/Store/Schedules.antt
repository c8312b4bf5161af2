-- ===== src/Store/Schedules.antt =====
-- internal/store/schedules.go: the table of schedules.
pub mod Rows
pub mod Sorted
use supaback.Prelude.{
  ℕ, suc, Text, codes, List, [], ◌∷◌, ◌++◌, Option, none, some, Result, ok, err, Bool, true,
  if◌then◌else◌,
}
use supaback.Prelude.Int.{ℤ, pos, int_eq}
use supaback.Prelude.Sort.{sort_by}
use supaback.Store.{Store, Schedule, Fault}

unfoldable pub new_schedule : ℕ → Text → Text → Text → Store → Schedule
new_schedule now name cron_expr job_type s = record {
  id = pos (suc s.schedules_seq);
  name = name;
  cron_expr = cron_expr;
  type = job_type;
  enabled = true;
  created_at = now;
  last_run_at = none;
}

-- `CreateSchedule`: INSERT INTO schedules, and the new row.
unfoldable pub create_schedule : Fault → ℕ → Text → Text → Text → Store → Result Schedule × Store
unfolding new_schedule
create_schedule (some e) now name cron_expr job_type s = (err (codes "create schedule: " ++ e), s)
create_schedule none now name cron_expr job_type s =
    let sc = new_schedule now name cron_expr job_type s in
    (ok sc, record s { schedules = s.schedules ++ sc ∷ []; schedules_seq = suc s.schedules_seq })

-- `ListSchedules`: the latest first. SQL leaves the order of equal times open.
unfoldable pub list_schedules : Fault → Store → Result (List Schedule)
list_schedules (some e) s = err e
list_schedules none s = ok (sort_by (λ sc. sc.created_at) s.schedules)

-- SELECT … FROM schedules WHERE id=?
unfoldable pub find_row : ℤ → List Schedule → Option Schedule
find_row id [] = none
find_row id (sc ∷ scs) = if int_eq sc.id id then some sc else find_row id scs

-- `GetSchedule`: no row is no error.
unfoldable pub get_schedule : Fault → ℤ → Store → Result (Option Schedule)
get_schedule (some e) id s = err e
get_schedule none id s = ok (find_row id s.schedules)

-- DELETE FROM schedules WHERE id=?
unfoldable pub delete_rows : ℤ → List Schedule → List Schedule
delete_rows id [] = []
delete_rows id (sc ∷ scs) =
    let rest = delete_rows id scs in if int_eq sc.id id then rest else sc ∷ rest

-- `DeleteSchedule`.
unfoldable pub delete_schedule : Fault → ℤ → Store → Result (Unit {0}) × Store
delete_schedule (some e) id s = (err e, s)
delete_schedule none id s = (ok tt, record s { schedules = delete_rows id s.schedules })

-- UPDATE schedules SET … WHERE id=?
unfoldable pub update_rows : (Schedule → Schedule) → ℤ → List Schedule → List Schedule
update_rows f id [] = []
update_rows f id (sc ∷ scs) = (if int_eq sc.id id then f sc else sc) ∷ update_rows f id scs

-- SET enabled=?
abbrev pub set_enabled : Bool → Schedule → Schedule
set_enabled on sc = record sc { enabled = on }

-- `ToggleSchedule`.
unfoldable pub toggle_schedule : Fault → ℤ → Bool → Store → Result (Unit {0}) × Store
toggle_schedule (some e) id on s = (err e, s)
toggle_schedule none id on s =
    (ok tt, record s { schedules = update_rows (set_enabled on) id s.schedules })

-- SET last_run_at=?
abbrev pub set_last_run : ℕ → Schedule → Schedule
set_last_run now sc = record sc { last_run_at = some now }

-- `TouchSchedule`.
unfoldable pub touch_schedule : Fault → ℕ → ℤ → Store → Result (Unit {0}) × Store
touch_schedule (some e) now id s = (err e, s)
touch_schedule none now id s =
    (ok tt, record s { schedules = update_rows (set_last_run now) id s.schedules })
