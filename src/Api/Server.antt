-- ===== src/Api/Server.antt =====
-- internal/api/server.go: the server, from a request that the router has matched to the answer.
use supaback.Prelude.{
  Text, codes, is_empty, List, ◌++◌, Bool, Option, none, some, Result, if◌then◌else◌,
}
use supaback.Strconv.{itoa}
use supaback.Config.{Config, DestinationConfig, ServerConfig}
use supaback.Store.{Store, Fault}
use supaback.Cron.{Cron}
use supaback.Scheduler.{Scheduler}
use supaback.AppState.{State}
use supaback.Destination.{Destination}
use supaback.Api.{Response}
use supaback.Api.Jobs
use supaback.Api.Jobs.{trigger}
use supaback.Api.Schedules
use supaback.Api.Schedules.{CreateRequest, create, delete, toggle, parse_id}
use supaback.Api.Settings
use supaback.Api.Settings.{JsonValue, health_handler, get_settings, update_settings}
use supaback.Api.Backups.{list_backups}
use supaback.Api.Downloads.{Download, download_backup, download_backup_date}

-- `Handler`, and the world in which its destination acts.
pub record Handler (C W : Type 0) : Type 0 where
  pub state : State (Destination W)
  pub store : Store
  pub scheduler : Scheduler C
  pub world : W

-- A request by the route that the router takes it to, with what the handler reads of it: the
-- parameters of the path and the query, and what the decoder makes of the body.
pub data Request : Type 0 where
  gets_health : Request
  gets_settings : Request
  puts_settings : Option (List (Text × JsonValue)) → Request
  gets_jobs : Text → Request
  posts_job : Text → Request
  gets_schedules : Request
  posts_schedule : Option CreateRequest → Request
  deletes_schedule : Text → Request
  patches_schedule : Text → Option Bool → Request
  gets_backups : Request
  gets_backup : Text → Request
  gets_date : Text → Request
  gets_page : Text → Request

-- The method and the pattern of each route.
unfoldable pub route : Request → Text × Text
route gets_health = (codes "GET", codes "/api/health")
route gets_settings = (codes "GET", codes "/api/settings")
route (puts_settings raw) = (codes "PUT", codes "/api/settings")
route (gets_jobs limit) = (codes "GET", codes "/api/jobs")
route (posts_job type) = (codes "POST", codes "/api/jobs")
route gets_schedules = (codes "GET", codes "/api/schedules")
route (posts_schedule req) = (codes "POST", codes "/api/schedules")
route (deletes_schedule id) = (codes "DELETE", codes "/api/schedules/{id}")
route (patches_schedule id req) = (codes "PATCH", codes "/api/schedules/{id}/toggle")
route gets_backups = (codes "GET", codes "/api/backups")
route (gets_backup key) = (codes "GET", codes "/api/backups/download")
route (gets_date date) = (codes "GET", codes "/api/backups/{date}/download")
route (gets_page path) = (codes "GET", codes "/*")

-- What `os.Stat` says of a path.
pub data Stat : Type 0 where
  there not_exist failed : Stat

-- `NewServer`: the address, and the directory of the frontend if it is served.
pub record Server : Type 0 where
  pub addr : Text
  pub static_dir : Option Text

static_of : Text → Stat → Option Text
static_of dir there = some dir
static_of dir not_exist = none
static_of dir failed = none

unfoldable pub new_server : (Text → Stat) → ServerConfig → Server
unfolding static_of
new_server stat c = record {
  addr = c.host ++ (codes ":" ++ itoa c.port);
  static_dir = if is_empty c.static_dir then none else static_of c.static_dir (stat c.static_dir);
}

-- What the client gets; `serves_path` is what the file server of a directory answers to a path.
pub data Reply : Type 0 where
  answers : Response → Reply
  downloads : Download → Reply
  sends_file : Text → Reply
  serves_path : Text → Text → Reply
  sends_placeholder : Reply

-- The route `/*`: the file server, with the frontend's page for a path that does not exist.
of_stat : Text → Text → Stat → Reply
of_stat dir path there = serves_path dir path
of_stat dir path not_exist = sends_file (dir ++ codes "/index.html")
of_stat dir path failed = serves_path dir path

unfoldable pub page : (Text → Stat) → Option Text → Text → Reply
unfolding of_stat
page stat none path = sends_placeholder
page stat (some dir) path = of_stat dir path (stat (dir ++ path))

-- The driver's failures during one request and the time, what `os.Stat` says, and which names the
-- zip takes.
pub record Env : Type 0 where
  pub schedules : Schedules.Env
  pub settings : Settings.Env
  pub jobs_fault : Fault
  pub stat : Text → Stat
  pub creates : Text → Bool

-- The run that a request starts in the background, if it starts one.
abbrev pub Background : Type 0 → Type 0
Background W = Option (Config × Destination W)

module _ {C W : Type 0} (cron : Cron C)
    (new_dest : DestinationConfig → W → Result (Destination W) × W) where
  -- A handler that only looks at the state, and one that acts in the world of the destination.
  unfoldable pub answered : Response → Handler C W → Reply × Background W × Handler C W
  answered r h = (answers r, none, h)

  unfoldable pub with_world : Reply × W → Handler C W → Reply × Background W × Handler C W
  with_world (r, w) h = (r, none, record h { world = w })

  unfoldable pub with_schedules :
      Response × Schedules.App C → Handler C W → Reply × Background W × Handler C W
  with_schedules (r, a) h = (answers r, none, record h { store = a.store; scheduler = a.scheduler })

  unfoldable pub with_settings :
      Response × Settings.App (Destination W) W → Handler C W → Reply × Background W × Handler C W
  with_settings (r, a) h =
      (answers r, none, record h { state = a.state; store = a.store; world = a.world })

  unfoldable pub triggered :
      Response × Background W → Handler C W → Reply × Background W × Handler C W
  triggered (r, job) h = (answers r, job, h)

  abbrev pub schedules_app : Handler C W → Schedules.App C
  schedules_app h = record { store = h.store; scheduler = h.scheduler }

  abbrev pub settings_app : Handler C W → Settings.App (Destination W) W
  settings_app h = record { state = h.state; store = h.store; world = h.world }

  -- The handler that each route names, for a server whose frontend is in `static_dir`.
  unfoldable pub serve :
      Option Text → Env → Request → Handler C W → Reply × Background W × Handler C W
  unfolding answered with_world with_schedules with_settings triggered
  serve dir env gets_health h = answered (health_handler (settings_app h)) h
  serve dir env gets_settings h = answered (get_settings (settings_app h)) h
  serve dir env (puts_settings raw) h =
      with_settings (update_settings new_dest env.settings raw (settings_app h)) h
  serve dir env (gets_jobs limit) h = answered (Jobs.list_handler env.jobs_fault limit h.store) h
  serve dir env (posts_job type) h = triggered (trigger type h.state) h
  serve dir env gets_schedules h =
      answered (Schedules.list_handler cron env.schedules (schedules_app h)) h
  serve dir env (posts_schedule req) h =
      with_schedules (create cron env.schedules req (schedules_app h)) h
  serve dir env (deletes_schedule id) h =
      with_schedules (delete cron env.schedules (parse_id id) (schedules_app h)) h
  serve dir env (patches_schedule id req) h =
      with_schedules (toggle cron env.schedules (parse_id id) req (schedules_app h)) h
  serve dir env gets_backups h =
      let (r, w) = list_backups h.state.dest h.world in with_world (answers r, w) h
  serve dir env (gets_backup key) h =
      let (r, w) = download_backup h.state.dest key h.world in with_world (downloads r, w) h
  serve dir env (gets_date date) h =
      let (r, w) = download_backup_date h.state.dest env.creates date h.world in
      with_world (downloads r, w) h
  serve dir env (gets_page path) h = (page env.stat dir path, none, h)
