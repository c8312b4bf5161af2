-- ===== src/AppState.antt =====
-- internal/appstate/state.go: the configuration and the destination in use. `D` is a destination.
-- Each method holds the lock throughout, so it is one step.
use supaback.Config.{Config}

pub record State (D : Type 0) : Type 0 where
  pub cfg : Config
  pub dest : D

module _ {D : Type 0} where
  -- `New`.
  abbrev pub new : Config → D → State D
  new cfg dest = record { cfg = cfg; dest = dest }

  -- `Get`.
  unfoldable pub get : State D → Config × D
  get s = (s.cfg, s.dest)

  -- `Update`.
  unfoldable pub update : Config → D → State D → State D
  update cfg dest s = record s { cfg = cfg; dest = dest }
