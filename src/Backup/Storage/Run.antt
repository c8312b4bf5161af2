-- ===== src/Backup/Storage/Run.antt =====
-- internal/backup/storage.go: `Run`, the buckets and the objects of each.
use supaback.Prelude.{
  ℕ, Text, codes, List, [], ◌∷◌, ◌++◌, Bool, false, ◌||◌, Result, ok, err, text_eq, if◌then◌else◌,
}
use supaback.Prelude.Int.{ℤ, pos, add_int64}
use supaback.Config.{SupabaseConfig}
use supaback.Destination.{Destination, Reader}
use supaback.Backup.{Outcome, done, failed, panicked, exhausted}
use supaback.Backup.Storage.{Service, get, list_buckets}
use supaback.Backup.Storage.Listing.{list_objects}

unfoldable pub contains : List Text → Text → Bool
contains [] v = false
contains (k ∷ ks) v = text_eq k v || contains ks v

-- `filter`.
unfoldable pub filter : List Text → List Text → List Text
filter [] keep = []
filter (v ∷ vs) keep = let rest = filter vs keep in if contains keep v then v ∷ rest else rest

-- The names of the configuration, where it has any.
unfoldable pub chosen : List Text → List Text → List Text
chosen [] found = found
chosen (k ∷ ks) found = filter found (k ∷ ks)

module _ {W : Type 0} (service : Service W) (dest : Destination W) (cfg : SupabaseConfig) where
  unfoldable pub of_write : Result ℤ → Outcome ℤ
  of_write (ok n) = done n
  of_write (err e) = failed e

  unfoldable pub written : Text → Outcome Reader × W → Outcome ℤ × W
  unfolding of_write
  written key (done r, w) = let (n, w') = dest.write key r w in (of_write n, w')
  written key (failed e, w) = (failed e, w)
  written key (panicked, w) = (panicked, w)
  written key (exhausted, w) = (exhausted, w)

  -- `downloadObject`.
  unfoldable pub download_object : Text → Text → Text → W → Outcome ℤ × W
  unfolding written
  download_object bucket path key w =
      let what = codes "download " ++ (bucket ++ (b'/' ∷ path)) in
      written key
        (get service cfg what (codes "/storage/v1/object/" ++ (bucket ++ (b'/' ∷ path))) w)

  -- What `Run` returns with the world: the total, and whether an error ends it.
  abbrev pub Progress : Type 0
  Progress = ℤ × Outcome (Unit {0}) × W

  -- After a download: an object that fails is passed over.
  unfoldable pub counted : ℤ → Outcome ℤ × W → Progress
  counted total (done n, w) = (add_int64 total n, done tt, w)
  counted total (failed e, w) = (total, done tt, w)
  counted total (panicked, w) = (total, panicked, w)
  counted total (exhausted, w) = (total, exhausted, w)

  -- The objects of a bucket, in order.
  unfoldable pub download_all : Text → Text → List Text → Progress → Progress
  download_all date bucket [] p = p
  download_all date bucket (obj ∷ objs) (total, done u, w) =
      let key = date ++ (codes "/storage/" ++ (bucket ++ (b'/' ∷ obj))) in
      download_all date bucket objs (counted total (download_object bucket obj key w))
  download_all date bucket (obj ∷ objs) (total, failed e, w) = (total, failed e, w)
  download_all date bucket (obj ∷ objs) (total, panicked, w) = (total, panicked, w)
  download_all date bucket (obj ∷ objs) (total, exhausted, w) = (total, exhausted, w)

  -- One bucket, once its objects are listed.
  unfoldable pub listed : Text → Text → ℤ → Outcome (List Text) × W → Progress
  listed date bucket total (done objs, w) = download_all date bucket objs (total, done tt, w)
  listed date bucket total (failed e, w) =
      (total, failed (codes "list objects in " ++ (bucket ++ (codes ": " ++ e))), w)
  listed date bucket total (panicked, w) = (total, panicked, w)
  listed date bucket total (exhausted, w) = (total, exhausted, w)

  module _ (most depth : ℕ) (date : Text) where
    unfoldable pub back_up : List Text → Progress → Progress
    unfolding listed
    back_up [] p = p
    back_up (bucket ∷ buckets) (total, done u, w) =
        back_up buckets (listed date bucket total (list_objects service cfg most depth bucket [] w))
    back_up (bucket ∷ buckets) (total, failed e, w) = (total, failed e, w)
    back_up (bucket ∷ buckets) (total, panicked, w) = (total, panicked, w)
    back_up (bucket ∷ buckets) (total, exhausted, w) = (total, exhausted, w)

    unfoldable pub started : List Text → Outcome (List Text) × W → Progress
    started buckets (done found, w) = back_up (chosen buckets found) (pos 0, done tt, w)
    started buckets (failed e, w) = (pos 0, failed (codes "list buckets: " ++ e), w)
    started buckets (panicked, w) = (pos 0, panicked, w)
    started buckets (exhausted, w) = (pos 0, exhausted, w)

    -- `Run`: the buckets of the configuration, all of them if it names none.
    unfoldable pub run : List Text → W → Progress
    unfolding started
    run buckets w = started buckets (list_buckets service cfg w)
