-- ===== src/Backup/Storage/Survives.antt =====
-- What ends the backup of the files, and what does not.
use supaback.Prelude.{ℕ, Text, codes, List, [], ◌∷◌, ◌++◌, All, true, ◌≡◌}
use supaback.Prelude.Int.{ℤ}
use supaback.Config.{SupabaseConfig}
use supaback.Destination.{Destination}
use supaback.Backup.{Outcome, done, failed, panicked, exhausted}
use supaback.Backup.Storage.{Service}
use supaback.Backup.Storage.Listing.{list_objects}

-- A value or an error, neither a panic nor a lack of fuel.
abbrev Settled : {A : Type 0} → Outcome A → Type 0
Settled (done a) = Unit
Settled (failed e) = Unit
Settled panicked = ⊥
Settled exhausted = ⊥

module _ {W : Type 0} (service : Service W) (dest : Destination W) (cfg : SupabaseConfig) where
  -- `net/http` takes the URL that an object is downloaded from.
  abbrev pub Fetchable : Text → Text → Type 0
  Fetchable bucket obj =
      service.parses (cfg.url ++ (codes "/storage/v1/object/" ++ (bucket ++ (b'/' ∷ obj)))) ≡ true

  -- A run that goes on, from a total and a world.
  abbrev GoesOn : ℤ × Outcome (Unit {0}) × W → Type 0
  GoesOn p = (total : ℤ) × (w : W) × (p ≡ (total, done tt, w))

  module _ (most depth : ℕ) (date : Text) where
    -- In every world, the objects of a bucket are listed, and their URLs parse.
    abbrev pub Listed : Text → Type 0
    Listed bucket =
        (w : W)
        → (objs : List Text) × (w' : W) × (list_objects service cfg most depth bucket [] w
            ≡ (done objs, w'))
          × All (Fetchable bucket) objs
