-- ===== src/Backup/Storage/Listing.antt =====
-- internal/backup/storage.go: `listObjects`, the files of a bucket.
use supaback.Prelude.{
  ℕ, zero, suc, Text, List, [], ◌∷◌, ◌++◌, length, Option, none, some, ltb, if◌then◌else◌,
}
use supaback.Prelude.Int.{ℤ, pos, add_int64}
use supaback.Config.{SupabaseConfig}
use supaback.Backup.{Outcome, done, failed, panicked, exhausted}
use supaback.Backup.Storage.{StorageObject, Service, page_size, list_page}

-- `prefix + "/" + obj.Name`.
unfoldable pub path_of : Text → Text → Text
path_of [] name = name
path_of (c ∷ prefix) name = (c ∷ prefix) ++ (b'/' ∷ name)

-- After a sub-folder.
unfoldable pub joined : {W : Type 0} → List Text → Outcome (List Text) × W → Outcome (List Text) × W
joined all (done sub, w) = (done (all ++ sub), w)
joined all (failed e, w) = (failed e, w)
joined all (panicked, w) = (panicked, w)
joined all (exhausted, w) = (exhausted, w)

module _ {W : Type 0} (service : Service W) (cfg : SupabaseConfig) where
  module _ (sub : Text → W → Outcome (List Text) × W) (bucket prefix : Text) where
    -- An object: `sub` lists a folder.
    unfoldable pub visit : Option Text → Text → List Text → W → Outcome (List Text) × W
    unfolding joined
    visit (some i) path all w = (done (all ++ (path ∷ [])), w)
    visit none path all w = joined all (sub path w)

    -- The objects of a page.
    unfoldable pub collect : List StorageObject → Outcome (List Text) × W → Outcome (List Text) × W
    collect [] r = r
    collect (obj ∷ objs) (done all, w) = collect objs (visit obj.id (path_of prefix obj.name) all w)
    collect (obj ∷ objs) (failed e, w) = (failed e, w)
    collect (obj ∷ objs) (panicked, w) = (panicked, w)
    collect (obj ∷ objs) (exhausted, w) = (exhausted, w)

    -- After a page with `n` objects: the last one if it is not full.
    unfoldable pub next_page :
        ℕ
        → (List Text → W → Outcome (List Text) × W)
        → Outcome (List Text) × W
        → Outcome (List Text) × W
    next_page n more (done all, w) = if ltb n page_size then (done all, w) else more all w
    next_page n more (failed e, w) = (failed e, w)
    next_page n more (panicked, w) = (panicked, w)
    next_page n more (exhausted, w) = (exhausted, w)

    -- One turn of the loop, with its page.
    unfoldable pub turn :
        List Text
        → (List Text → W → Outcome (List Text) × W)
        → Outcome (List StorageObject) × W
        → Outcome (List Text) × W
    turn all more (done objs, w) = next_page (length objs) more (collect objs (done all, w))
    turn all more (failed e, w) = (failed e, w)
    turn all more (panicked, w) = (panicked, w)
    turn all more (exhausted, w) = (exhausted, w)

    -- The loop over the pages, `fuel` of them at most.
    unfoldable pub pages : ℕ → ℤ → List Text → W → Outcome (List Text) × W
    pages zero offset all w = (exhausted, w)
    pages (suc fuel) offset all w =
        turn all (pages fuel (add_int64 offset (pos page_size)))
          (list_page service cfg bucket prefix offset w)

  -- `listObjects`, of folders at most `depth` deep and of at most `most` pages each.
  unfoldable pub list_objects : ℕ → ℕ → Text → Text → W → Outcome (List Text) × W
  list_objects most zero bucket prefix w = (exhausted, w)
  list_objects most (suc depth) bucket prefix w =
      pages (list_objects most depth bucket) bucket prefix most (pos 0) [] w
