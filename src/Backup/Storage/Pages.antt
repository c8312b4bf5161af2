-- ===== src/Backup/Storage/Pages.antt =====
-- The loop over the pages of a folder.
use mathlib.Core.List.{append_assoc, append-nil}
use supaback.Prelude.{
  ℕ, zero, suc, ◌+◌, ◌*◌, ◌^◌, ◌≤◌, ◌<◌, Text, List, [], ◌∷◌, ◌++◌, length, take, drop,
  take-append-drop, length-take_full, length-drop, take_all, drop-drop, map-take, map-drop,
  length-map, All, All-take, All-drop, map, Option, none, some, ◌≡◌, refl, sym, ap, ◌∙◌, ◌⊎◌, inl,
  inr, arith, ltb, Bool-cases,
}
use supaback.Prelude.Int.{pos, add_int64, add_int64-pos}
use supaback.Config.{SupabaseConfig}
use supaback.Backup.{Outcome, done}
use supaback.Backup.Storage.{StorageObject, Service, page_size, list_page}
use supaback.Backup.Storage.Listing.{path_of, visit, joined, collect, next_page, turn, pages}

-- A file is listed as its path, and a folder as what `sub` finds in it.
abbrev pub Yields :
    {W : Type 0} → (Text → W → Outcome (List Text) × W) → Text → Option Text → List Text → Type 0
Yields sub path (some i) found = found ≡ path ∷ []
Yields {W} sub path none found = (w : W) → (w' : W) × (sub path w ≡ (done found, w'))

abbrev pub Good :
    {W : Type 0} → (Text → W → Outcome (List Text) × W) → Text → StorageObject × List Text → Type 0
Good sub prefix (o, found) = Yields sub (path_of prefix o.name) o.id found

abbrev pub found_in : List (StorageObject × List Text) → List Text
found_in [] = []
found_in ((o, found) ∷ items) = found ++ found_in items

found_in-append :
    (xs ys : List (StorageObject × List Text)) → found_in (xs ++ ys) ≡ found_in xs ++ found_in ys
found_in-append [] ys = refl
found_in-append ((o, found) ∷ xs) ys =
    ap (λ t. found ++ t) (found_in-append xs ys)
    ∙ sym (append_assoc found (found_in xs) (found_in ys))

abbrev pub object_of : StorageObject × List Text → StorageObject
object_of (o, found) = o

fewer_or_full : (n : ℕ) → (n < page_size) ⊎ (page_size ≤ n)
fewer_or_full n = elim (Bool-cases (ltb n page_size)) [
  | inl t ↦ inl (ground arith)
  | inr f ↦ inr (ground arith)
]

module _ {W : Type 0} (service : Service W) (cfg : SupabaseConfig) (bucket : Text) where
  -- The service pages the objects of a folder.
  abbrev pub Lists : Text → List StorageObject → Type 0
  Lists prefix objs =
      (w : W) (k : ℕ)
      → (w' : W) × (list_page service cfg bucket prefix (pos k) w
          ≡ (done (take page_size (drop k objs)), w'))

  module _ (sub : Text → W → Outcome (List Text) × W) (prefix : Text) where
    visit-Yields :
        (i : Option Text) (path : Text) (found all : List Text) (w : W)
        → Yields sub path i found
        → (w' : W) × (visit service cfg sub bucket prefix i path all w ≡ (done (all ++ found), w'))
    unfolding visit joined
    visit-Yields (some i) path found all w y = (w, rw y refl)
    visit-Yields none path found all w y = let (w', e) = y w in (w', rw e refl)

    collect-items :
        (items : List (StorageObject × List Text)) (all : List Text) (w : W)
        → All (Good sub prefix) items
        → (w' : W) × (collect service cfg sub bucket prefix (map object_of items) (done all, w)
            ≡ (done (all ++ found_in items), w'))
    unfolding collect
    collect-items [] all w g = (w, ap (λ t. (done t, w)) (sym (append-nil all)))
    collect-items ((o, found) ∷ items) all w g =
        let (w', e) = visit-Yields o.id (path_of prefix o.name) found all w g.0 in
        let (w'', f) = collect-items items (all ++ found) w' g.1 in
        (
          w'',
          ap (collect service cfg sub bucket prefix (map object_of items)) e
              ∙ (f ∙ ap (λ t. (done t, w'')) (append_assoc all found (found_in items))),
        )

    -- One turn of the loop, at the `k`-th object of a folder.
    pages-turn :
        (objs : List StorageObject) (items : List (StorageObject × List Text)) (fuel k : ℕ)
        (all : List Text) (w : W)
        → Lists prefix objs
        → map object_of items ≡ drop k objs
        → All (Good sub prefix) items
        → (w' : W) × (pages service cfg sub bucket prefix (suc fuel) (pos k) all w
            ≡ next_page service cfg sub bucket prefix
                (length (take page_size items))
                (pages service cfg sub bucket prefix fuel (add_int64 (pos k) (pos page_size)))
                (done (all ++ found_in (take page_size items)), w'))
    unfolding pages turn
    pages-turn objs items fuel k all w l m g =
        let now = take page_size items in
        let rest = pages service cfg sub bucket prefix fuel (add_int64 (pos k) (pos page_size)) in
        let (w', e) = l w k in
        let (w'', f) = collect-items now all w' (All-take (Good sub prefix) page_size items g) in
        let page : take page_size (drop k objs) ≡ map object_of now =
          ap (take page_size) (sym m) ∙ sym (map-take object_of page_size items) in
        (
          w'',
          ap (turn service cfg sub bucket prefix all rest) (e ∙ ap (λ t. (done t, w')) page)
              ∙ (ap
                    (λ n.
                      next_page service cfg sub bucket prefix n rest
                        (collect service cfg sub bucket prefix (map object_of now) (done all, w')))
                    (length-map object_of now)
                  ∙ ap (next_page service cfg sub bucket prefix (length now) rest) f),
        )

    next_page_last :
        (n : ℕ) (more : List Text → W → Outcome (List Text) × W) (all : List Text) (w : W)
        → n < page_size
        → next_page service cfg sub bucket prefix n more (done all, w) ≡ (done all, w)
    unfolding next_page
    next_page_last n more all w h = ground arith

    next_page_full :
        (n : ℕ) (more : List Text → W → Outcome (List Text) × W) (all : List Text) (w : W)
        → n ≡ page_size
        → next_page service cfg sub bucket prefix n more (done all, w) ≡ more all w
    unfolding next_page
    next_page_full n more all w h = rw h refl

    -- The rest of a folder, from its `k`-th object on.
    pub pages-items :
        (objs : List StorageObject) (items : List (StorageObject × List Text)) (fuel k : ℕ)
        (all : List Text) (w : W)
        → Lists prefix objs
        → map object_of items ≡ drop k objs
        → All (Good sub prefix) items
        → length items < page_size * fuel
        → k + page_size * fuel < 2 ^ 63
        → (w' : W) × (pages service cfg sub bucket prefix fuel (pos k) all w
            ≡ (done (all ++ found_in items), w'))
    pages-items objs items zero k all w l m g h b = absurd (omega arith)
    pages-items objs items (suc fuel) k all w l m g h b =
        let (w', e) = pages-turn objs items fuel k all w l m g in
        elim (fewer_or_full (length items)) [
          | inl few ↦
              let all_of : take page_size items ≡ items = take_all page_size items (omega arith) in
              (
                w',
                e
                    ∙ (next_page_last (length (take page_size items)) _
                          (all ++ found_in (take page_size items)) w' (rw all_of few)
                        ∙ ap (λ t. (done (all ++ found_in t), w')) all_of),
              )
          | inr full ↦
              let (w'', f) =
                pages-items objs (drop page_size items) fuel (k + page_size)
                  (all ++ found_in (take page_size items)) w' l
                  (map-drop object_of page_size items
                    ∙ (ap (drop page_size) m ∙ drop-drop k page_size (k + page_size) objs refl))
                  (All-drop (Good sub prefix) page_size items g)
                  (omega (arith, length-drop page_size items)) (omega arith) in
              (
                w'',
                e
                    ∙ (next_page_full (length (take page_size items)) _
                          (all ++ found_in (take page_size items)) w'
                          (length-take_full page_size items full)
                        ∙ (ap
                              (λ o.
                                pages service cfg sub bucket prefix fuel o
                                  (all ++ found_in (take page_size items)) w')
                              (add_int64-pos k page_size (omega arith))
                            ∙ (f
                                ∙ ap (λ t. (done t, w''))
                                    (append_assoc all (found_in (take page_size items))
                                        (found_in (drop page_size items))
                                      ∙ ap (λ t. all ++ t)
                                          (sym (
                                              found_in-append (take page_size items)
                                                (drop page_size items))
                                            ∙ ap found_in (take-append-drop page_size items)))))),
              )
        ]
