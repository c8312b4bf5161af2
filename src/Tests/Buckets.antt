-- ===== src/Tests/Buckets.antt =====
-- A bucket of three objects, whose listing of a folder has two pages.
use mathlib.Core.Path.{subst}
use supaback.Prelude.{
  Text, codes, List, [], ◌∷◌, In, Bool, true, false, Option, none, some, Result, ok, err, ◌≡◌, ◌≢◌,
  ◌↔◌, refl, sym, ap, inl, inr, arith, text_eq, text_eq_iff, Bool-cases,
}
use supaback.Backup.{done}
use supaback.Destination.S3.{S3Dest, S3Object, Page, Sdk, s3_key, cut_prefix, delete, delete_page}
use supaback.Destination.S3.Pages.{starts_with, Deletes, Turn, reported, Chain, delete_folder}
use supaback.Tests.{drop_name, In-drop_name, drop_name_self}

removing : List (Option Text) → List Text → List Text
unfolding drop_name
removing [] w = w
removing (none ∷ ids) w = removing ids w
removing (some i ∷ ids) w = drop_name i (removing ids w)

abbrev object : Text → S3Object
object key = record { key = some key; size = none }

abbrev first_page : Page
first_page = record {
  contents = object (codes "d/a") ∷ [];
  common_prefixes = [];
  next = some (codes "t");
}

abbrev second_page : Page
second_page = record { contents = object (codes "d/b") ∷ []; common_prefixes = []; next = none }

abbrev page_at : Option Text → Page
page_at none = first_page
page_at (some token) = second_page

abbrev sdk : Sdk (List Text)
sdk = record {
  load_config = λ region. none;
  put_object = λ bucket key body w. (none, key ∷ w);
  list_objects_v2 = λ input token w. (ok (page_at token), w);
  get_object = λ bucket key w. (err (codes "closed"), w);
  delete_objects = λ bucket ids w. (ok [], removing ids w);
}

abbrev dest : S3Dest
dest = record {
  options = record {
    region = codes "r";
    access_key_id = [];
    secret_access_key = [];
    use_path_style = false;
    base_endpoint = none;
  };
  bucket = codes "bucket";
  prefix = [];
}

abbrev held : List Text
held = codes "d/a" ∷ codes "d/b" ∷ codes "e" ∷ []

not_none : (k : Text) (ids : List (Option Text)) → ¬ In (some k) ids → ¬ In (some k) (none ∷ ids)
not_none k ids h (inl e) = cc
not_none k ids h (inr i) = h i

not_this :
    (k j : Text) (ids : List (Option Text))
    → k ≢ j
    → ¬ In (some k) ids
    → ¬ In (some k) (some j ∷ ids)
not_this k j ids a h (inl e) = a (unwrap e)
  where
    unwrap : some k ≡ some j → k ≡ j
    unwrap q = cc
not_this k j ids a h (inr i) = h i

In-removing :
    (k : Text) (ids : List (Option Text)) (w : List Text)
    → In k (removing ids w) ↔ (In k w × ¬ In (some k) ids)
unfolding removing
In-removing k [] w = (λ i. (i, λ f. f), λ i. i.0)
In-removing k (none ∷ ids) w =
    let (down, up) = In-removing k ids w in
    ((λ i. ((down i).0, not_none k ids (down i).1)), λ i. up (i.0, λ f. i.1 (inr f)))
In-removing k (some j ∷ ids) w = elim (Bool-cases (text_eq k j)) [
  | inl t ↦
      let same : k ≡ j = (text_eq_iff k j).0 t in
      (
        (λ i. absurd (
            drop_name_self j (removing ids w)
              (subst (λ x. In x (drop_name j (removing ids w))) same i))),
        λ i. absurd (i.1 (inl (ap (λ x. some x) same))),
      )
  | inr f ↦
      let apart : k ≢ j = λ e. ground (arith, text_eq_iff k j) in
      let (there, back) = In-drop_name j k (removing ids w) apart in
      let (down, up) = In-removing k ids w in
      (
        (λ i. ((down (there i)).0, not_this k j ids apart (down (there i)).1)),
        λ i. back (up (i.0, λ g. i.1 (inr g))),
      )
]

removes : Deletes sdk dest (λ w. w)
removes ids errs w k h =
    let none_reported : ¬ In (some k) errs =
      subst (λ es. ¬ In (some k) es) (opened refl h) (λ f. f) in
    let (down, up) = In-removing k ids w in
    (
      λ i. let (held, free) = down i in (held, inl free),
      λ (held, free). up (held, elim free [ inl n ↦ n | inr r ↦ absurd (none_reported r) ]),
    )
  where
    opened :
        {r : Result (List (Option Text))} {es fs : List (Option Text)}
        → r ≡ ok es
        → r ≡ ok fs
        → es ≡ fs
    opened e f = cc

abbrev turns : List Turn
turns = (first_page, []) ∷ (second_page, []) ∷ []

two_pages : Chain sdk dest (λ w. w) (codes "d/") none turns held
unfolding delete_page
two_pages = (
  held,
  refl,
  (λ k. (λ i. i, λ i. i)),
  refl,
  codes "t",
  refl,
  (removing (some (codes "d/a") ∷ []) held, refl, (λ k. (λ i. i, λ i. i)), refl, refl),
)

some_same : (a b : Text) → some a ≡ some b → a ≡ b
some_same a b e = cc

abbrev Under : Text → Type 0
Under k = starts_with (codes "d/") k ≡ true

a-Under : Under (codes "d/a")
unfolding cut_prefix
a-Under = refl

b-Under : Under (codes "d/b")
unfolding cut_prefix
b-Under = refl

e_not_under : starts_with (codes "d/") (codes "e") ≡ false
unfolding cut_prefix
e_not_under = refl

not_both : (b : Bool) → b ≡ false → b ≢ true
not_both b p q = cc

in_folder :
    (k : Text) → In (some k) (some (codes "d/a") ∷ some (codes "d/b") ∷ []) ↔ (In k held × Under k)
in_folder k = (
  λ i. elim i [
    | inl p ↦ let q : k ≡ codes "d/a" = some_same k _ p in (inl q, subst Under (sym q) a-Under)
    | inr (inl p) ↦
        let q : k ≡ codes "d/b" = some_same k _ p in (inr (inl q), subst Under (sym q) b-Under)
    | inr (inr f) ↦ absurd f
  ],
  λ i. elim i.0 [
    | inl p ↦ inl (ap (λ x. some x) p)
    | inr (inl p) ↦ inr (inl (ap (λ x. some x) p))
    | inr (inr (inl p)) ↦ absurd (not_both _ e_not_under (subst Under p i.1))
    | inr (inr (inr f)) ↦ absurd f
  ],
)

delete_folder_example :
    ((delete sdk dest 2 (codes "d") held).0 ≡ done tt)
    × ((k : Text) → In k (delete sdk dest 2 (codes "d") held).1 → In k held)
    × ((k : Text)
        → starts_with (codes "d/") k ≡ false
        → In k held
        → In k (delete sdk dest 2 (codes "d") held).1)
    × ((k : Text)
        → starts_with (codes "d/") k ≡ true
        → In k (delete sdk dest 2 (codes "d") held).1
        → In (some k) (reported turns))
unfolding s3_key
delete_folder_example =
    delete_folder sdk dest (λ w. w) removes 2 (codes "d") turns held two_pages (omega arith)
      in_folder
