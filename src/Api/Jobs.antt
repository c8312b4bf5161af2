-- ===== src/Api/Jobs.antt =====
-- internal/api/handlers.go: the handlers of the jobs.
use supaback.Prelude.{
  Text, codes, List, [], ◌∷◌, ◌++◌, Bool, true, false, not, ◌||◌, Option, none, some, Result, ok,
  err, if◌then◌else◌, text_eq,
}
use supaback.Prelude.Int.{ℤ, pos, ltb_ℤ}
use supaback.Strconv.{parse_int}
use supaback.Config.{Config, is_configured, for_type}
use supaback.Store.{Store, Job, Fault}
use supaback.Store.Jobs.{list_jobs}
use supaback.AppState.{State}
use supaback.Api.{Response, jobs, started, respond, fail}

-- `limit := 50`, unless the parameter is a positive number.
positive_or : ℤ → ℤ × Bool → ℤ
positive_or default (n, true) = if ltb_ℤ (pos 0) n then n else default
positive_or default (n, false) = default

unfoldable pub limit_of : Text → ℤ
unfolding positive_or
limit_of [] = pos 50
limit_of (c ∷ v) = positive_or (pos 50) (parse_int (c ∷ v))

list : Result (List Job) → Response
list (ok js) = respond 200 (jobs js)
list (err e) = fail 500 e

-- `ListJobs`, with the query parameter `limit`.
unfoldable pub list_handler : Fault → Text → Store → Response
unfolding list
list_handler fault limit s = list (list_jobs fault (limit_of limit) s)

unfoldable pub is_job_type : Text → Bool
is_job_type t =
    text_eq t (codes "full") || text_eq t (codes "database") || text_eq t (codes "storage")

-- `if req.Type == "" { req.Type = "full" }`
type_or_full : Text → Text
type_or_full [] = codes "full"
type_or_full (c ∷ t) = c ∷ t

-- `TriggerJob`, for the type that the body gives: the answer, and the configuration and destination
-- of the run that it starts in the background, if it starts one.
unfoldable pub trigger : {D : Type 0} → Text → State D → Response × Option (Config × D)
unfolding type_or_full
trigger t s =
    let job_type = type_or_full t in
    if not (is_job_type job_type)
    then (fail 400 (codes "type must be full, database, or storage"), none)
    else if not (is_configured s.cfg)
    then (
      fail 400 (
          codes "app is not configured "
          ++ (226 ∷ 128 ∷ 148 ∷ codes " set Supabase credentials in Settings first")),
      none,
    )
    else (respond 202 (started job_type), some (for_type job_type s.cfg, s.dest))
