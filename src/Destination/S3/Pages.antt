-- ===== src/Destination/S3/Pages.antt =====
-- `Delete` goes through all the pages of a folder.
use mathlib.Core.Path.{subst}
use supaback.Prelude.{
  ℕ, zero, suc, ◌≤◌, Text, codes, List, [], ◌∷◌, ◌++◌, length, map, In, Bool, true, false, Option,
  none, some, Result, ok, err, ◌≡◌, ◌↔◌, ◌⊎◌, refl, sym, ap, ◌∙◌, inl, inr, arith,
}
use supaback.Backup.{Outcome, done}
use supaback.Destination.S3.{
  S3Dest, S3Object, Page, Sdk, s3_key, more_pages, all_under, cut_prefix, delete_page, after_delete,
  delete_turn, delete_from, delete,
}

-- Whether a text starts with another.
abbrev pub starts_with : Text → Text → Bool
starts_with prefix s = elim (cut_prefix prefix s) [ some rest ↦ true | none ↦ false ]

abbrev pub keys_of : List S3Object → List (Option Text)
keys_of objs = map (λ o. o.key) objs

-- A page of a listing, and the keys that the answer to its deletion reports.
abbrev pub Turn : Type 0
Turn = Page × List (Option Text)

-- The keys on all the pages of a listing.
abbrev pub on_pages : List Turn → List (Option Text)
on_pages [] = []
on_pages ((p, errs) ∷ ts) = keys_of p.contents ++ on_pages ts

-- The keys that the answers report, taken together.
abbrev pub reported : List Turn → List (Option Text)
reported [] = []
reported ((p, errs) ∷ ts) = errs ++ reported ts

In-append : {A : Type 0} (a : A) (xs ys : List A) → In a (xs ++ ys) ↔ (In a xs ⊎ In a ys)
In-append a [] ys = (λ i. inr i, λ i. elim i [ inl f ↦ absurd f | inr j ↦ j ])
In-append a (x ∷ xs) ys = ground (arith, In-append a xs ys)

module _ {W : Type 0} (sdk : Sdk W) (d : S3Dest) (keys : W → List Text) where
  -- A call of `DeleteObjects` that answers removes the keys that it names, but those that the
  -- answer reports, and no others.
  abbrev pub Deletes : Type 0
  Deletes =
      (ids errs : List (Option Text)) (w : W) (k : Text)
      → (sdk.delete_objects d.bucket ids w).0 ≡ ok errs
      → In k (keys (sdk.delete_objects d.bucket ids w).1)
        ↔ (In k (keys w) × ((¬ In (some k) ids) ⊎ In (some k) errs))

  -- The service lists these pages under a prefix, from a token on, and answers the deletion of
  -- each, with these reports, before it is asked for the next.
  abbrev pub Chain : Text → Option Text → List Turn → W → Type 0
  Chain prefix token [] w = ⊥
  Chain prefix token ((p, errs) ∷ []) w =
      (v : W) × (sdk.list_objects_v2 (all_under sdk d prefix) token w ≡ (ok p, v))
      × ((k : Text) → In k (keys v) ↔ In k (keys w))
      × ((delete_page sdk d p.contents v).0 ≡ ok errs)
      × (more_pages p.next ≡ none)
  Chain prefix token ((p, errs) ∷ t ∷ ts) w =
      (v : W) × (sdk.list_objects_v2 (all_under sdk d prefix) token w ≡ (ok p, v))
      × ((k : Text) → In k (keys v) ↔ In k (keys w))
      × ((delete_page sdk d p.contents v).0 ≡ ok errs)
      × (next : Text) × (more_pages p.next ≡ some next)
      × Chain prefix (some next) (t ∷ ts) (delete_page sdk d p.contents v).1

-- What a deletion of some keys, some of them reported, leaves: nothing new, every other key, and
-- of those only what is reported.
abbrev Left : List (Option Text) → List (Option Text) → List Text → List Text → Text → Type 0
Left ids errs before after k =
    (In k after → In k before)
    × (In k before → (¬ In (some k) ids) → In k after)
    × (In k after → In (some k) ids → In (some k) errs)

Left-append :
    (w u x : List Text) (k : Text) (ids errs more_ids more_errs : List (Option Text))
    → Left ids errs w u k
    → Left more_ids more_errs u x k
    → Left (ids ++ more_ids) (errs ++ more_errs) w x k
Left-append w u x k ids errs more_ids more_errs (a, b, c) (f, g, h) =
    let (split, join) = In-append (some k) ids more_ids in
    let (_, report) = In-append (some k) errs more_errs in
    (
      λ i. a (f i),
      λ i n. g (b i (λ j. n (join (inl j)))) (λ j. n (join (inr j))),
      λ i j. elim (split j) [ inl m ↦ report (inl (c (f i) m)) | inr m ↦ report (inr (h i m)) ],
    )

module _ {W : Type 0} (sdk : Sdk W) (d : S3Dest) (keys : W → List Text)
    (deletes : Deletes sdk d keys) where
  delete_page-Left :
      (objs : List S3Object) (errs : List (Option Text)) (w v : W) (k : Text)
      → In k (keys v) ↔ In k (keys w)
      → (delete_page sdk d objs v).0 ≡ ok errs
      → Left (keys_of objs) errs (keys w) (keys (delete_page sdk d objs v).1) k
  unfolding delete_page
  delete_page-Left [] errs w v k (f, g) h = (f, λ i n. g i, λ i m. absurd m)
  delete_page-Left (o ∷ objs) errs w v k (f, g) h =
      let (down, up) = deletes (keys_of (o ∷ objs)) errs v k h in
      (
        λ i. f (down i).0,
        λ i n. up (g i, inl n),
        λ i m. elim (down i).1 [ inl n ↦ absurd (n m) | inr r ↦ r ],
      )

  -- What a deletion leaves of the keys of a world.
  abbrev Leaves : List Turn → W → Outcome (Unit {0}) × W → Type 0
  Leaves ts w r =
      (r.0 ≡ done tt) × ((k : Text) → Left (on_pages ts) (reported ts) (keys w) (keys r.1) k)

  after_delete-last :
      (next : Option Text) (more : Option Text → W → Outcome (Unit {0}) × W)
      (errs : List (Option Text)) (r : Result (List (Option Text)) × W)
      → r.0 ≡ ok errs
      → more_pages next ≡ none
      → after_delete sdk d next more r ≡ (done tt, r.1)
  unfolding after_delete
  after_delete-last next more errs (ok x, w) h n = rw (n, after_delete)
  after_delete-last next more errs (err e, w) h n = cc

  after_delete-more :
      (next : Option Text) (more : Option Text → W → Outcome (Unit {0}) × W)
      (errs : List (Option Text)) (r : Result (List (Option Text)) × W) (token : Text)
      → r.0 ≡ ok errs
      → more_pages next ≡ some token
      → after_delete sdk d next more r ≡ more (some token) r.1
  unfolding after_delete
  after_delete-more next more errs (ok x, w) token h n = rw (n, after_delete)
  after_delete-more next more errs (err e, w) token h n = cc

  delete_from-Leaves :
      (prefix : Text) (turns : List Turn) (fuel : ℕ) (token : Option Text) (w : W)
      → Chain sdk d keys prefix token turns w
      → length turns ≤ fuel
      → Leaves turns w (delete_from sdk d fuel prefix token w)
  unfolding delete_from delete_turn
  delete_from-Leaves prefix [] fuel token w c l = absurd c
  delete_from-Leaves prefix (t ∷ ts) zero token w c l = absurd (omega arith)
  delete_from-Leaves prefix ((p, errs) ∷ []) (suc fuel) token w (v, e, s, o, n) l =
      let more = delete_from sdk d fuel prefix in
      let left = delete_page sdk d p.contents v in
      subst (Leaves ((p, errs) ∷ []) w)
        (sym (ap (delete_turn sdk d more) e ∙ after_delete-last p.next more errs left o n))
        (
          refl,
          λ k.
              Left-append (keys w) (keys left.1) (keys left.1) k (keys_of p.contents) errs [] []
                (delete_page-Left p.contents errs w v k (s k) o) (λ i. i, λ i m. i, λ i f. f),
        )
  delete_from-Leaves prefix ((p, errs) ∷ t ∷ ts) (suc fuel) token w (v, e, s, o, next, n, c) l =
      let more = delete_from sdk d fuel prefix in
      let left = delete_page sdk d p.contents v in
      let (fine, rest) =
        delete_from-Leaves prefix (t ∷ ts) fuel (some next) left.1 c (omega arith) in
      subst (Leaves ((p, errs) ∷ t ∷ ts) w)
        (sym (ap (delete_turn sdk d more) e ∙ after_delete-more p.next more errs left next o n))
        (
          fine,
          λ k.
              Left-append (keys w) (keys left.1) (keys (more (some next) left.1).1) k
                (keys_of p.contents) errs (on_pages (t ∷ ts)) (reported (t ∷ ts))
                (delete_page-Left p.contents errs w v k (s k) o) (rest k),
        )

  -- The deletion of a folder, where the service lists exactly the keys under it, on as many pages
  -- as there are turns or fewer, and answers the deletion of each page: it ends without an error
  -- even where the answers report keys that were not removed, it adds no key and keeps every key
  -- outside the folder, and a key under the folder that is left is one that an answer reports.
  pub delete_folder :
      (fuel : ℕ) (key : Text) (turns : List Turn) (w : W)
      → Chain sdk d keys (s3_key sdk d key ++ codes "/") none turns w
      → length turns ≤ fuel
      → ((k : Text)
          → In (some k) (on_pages turns)
            ↔ (In k (keys w) × (starts_with (s3_key sdk d key ++ codes "/") k ≡ true)))
      → ((delete sdk d fuel key w).0 ≡ done tt)
        × ((k : Text) → In k (keys (delete sdk d fuel key w).1) → In k (keys w))
        × ((k : Text)
            → starts_with (s3_key sdk d key ++ codes "/") k ≡ false
            → In k (keys w)
            → In k (keys (delete sdk d fuel key w).1))
        × ((k : Text)
            → starts_with (s3_key sdk d key ++ codes "/") k ≡ true
            → In k (keys (delete sdk d fuel key w).1)
            → In (some k) (reported turns))
  unfolding delete
  delete_folder fuel key turns w c l a =
      let folder = s3_key sdk d key ++ codes "/" in
      let (fine, left) = delete_from-Leaves folder turns fuel none w c l in
      (
        fine,
        λ k. (left k).0,
        λ k out i. (left k).1 i (λ m. clash (starts_with folder k) out ((a k).0 m).1),
        λ k under i. (left k).2 i ((a k).1 ((left k).0 i, under)),
      )
    where
      clash : (b : Bool) → b ≡ false → b ≡ true → ⊥
      clash b p q = cc
