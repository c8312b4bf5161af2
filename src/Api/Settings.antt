-- ===== src/Api/Settings.antt =====
-- internal/api/handlers.go: the handlers of the settings, and the health check.
pub mod Update
use supaback.Prelude.{Text, codes, List, [], ◌∷◌, Option, none, some, Result, ok, err}
use supaback.Dict.{Dict, set, delete}
use supaback.Config.{Config, DestinationConfig, is_configured}
use supaback.Config.Settings.{merge_from_map, to_map}
use supaback.Store.{Store, Fault}
use supaback.Store.Settings.{TxFaults, set_settings, get_all_settings}
use supaback.AppState.{State, get, update}
use supaback.Api.{Response, Body, health, settings, saved, respond, fail}

-- A value of the request's object: a string, null, or any other value.
pub data JsonValue : Type 0 where
  str : Text → JsonValue
  null other : JsonValue

-- The loop that keeps the strings. `json.Unmarshal` of a null into a string is no error, and leaves
-- the string empty; any other value is an error, and is dropped.
unfoldable pub incoming : List (Text × JsonValue) → Dict → Dict
incoming [] m = m
incoming ((k, str s) ∷ raw) m = incoming raw (set m k s)
incoming ((k, null) ∷ raw) m = incoming raw (set m k [])
incoming ((k, other) ∷ raw) m = incoming raw m

-- `W` is the world in which `destination.New` makes directories and connections.
pub record App (D W : Type 0) : Type 0 where
  pub state : State D
  pub store : Store
  pub world : W

pub record Env : Type 0 where
  pub tx : TxFaults
  pub read_fault : Fault

module _ {D W : Type 0} where
  -- `Health`.
  unfoldable pub health_handler : App D W → Response
  health_handler a = respond 200 (health (is_configured a.state.cfg))

  -- `GetSettings`: the map of `ToMap`, beside the flag.
  unfoldable pub get_settings : App D W → Response
  get_settings a = respond 200 (settings (is_configured a.state.cfg) (to_map a.state.cfg))

  -- `h.state.Update`, with the old destination where the new one could not be made.
  unfoldable pub switch : Config → Result D × W → App D W → Response × App D W
  unfolding update get
  switch cfg (ok dest, w) a = (
    respond 200 (saved (is_configured cfg) none),
    record a { state = update cfg dest a.state; world = w },
  )
  switch cfg (err e, w) a = (
    respond 200 (saved (is_configured cfg) (some e)),
    record a { state = update cfg (get a.state).1 a.state; world = w },
  )

  module _ (new_dest : DestinationConfig → W → Result D × W) where
    unfoldable pub reload : Result Dict → App D W → Response × App D W
    reload (err e) a = (fail 500 e, a)
    reload (ok db) a =
        let cfg = merge_from_map a.state.cfg db in switch cfg (new_dest cfg.destination a.world) a

    unfoldable pub saved_to : Env → Result (Unit {0}) × Store → App D W → Response × App D W
    saved_to env (err e, store) a = (fail 500 e, record a { store = store })
    saved_to env (ok _, store) a =
        reload (get_all_settings env.read_fault store) (record a { store = store })

    -- `UpdateSettings`.
    unfoldable pub update_settings :
        Env → Option (List (Text × JsonValue)) → App D W → Response × App D W
    update_settings env none a = (fail 400 (codes "invalid JSON"), a)
    update_settings env (some raw) a =
        saved_to env (set_settings env.tx (delete (incoming raw []) (codes "configured")) a.store) a
