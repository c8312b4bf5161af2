-- ===== src/Api/Downloads/Archive.antt =====
-- The archive of a date, from a directory of the disk.
use mathlib.Core.List.{reverse, reverse-append, append_assoc}
use supaback.Prelude.{
  Text, codes, List, [], ◌∷◌, ◌++◌, map, All, All-append, In, Bool, true, false, none, some, ◌≡◌,
  ◌≢◌, ◌↔◌, refl, sym, ap, ◌∙◌, inl, inr, arith, ok, text_eq,
}
use supaback.Time.{has_layout, is_digit}
use supaback.Path.{Location, is_name, lacks_slash, locate, join_path, render}
use supaback.Path.Below.{Names, locate_name, locate-Names}
use supaback.Disk.{
  Disk, Node, file, directory, Nodes, stat, same_place, is_within, relative, names_below, open_file,
  open_place, walk_dir,
}
use supaback.Disk.Walk.{
  FilesOf, NoneDenied, Unique, walk_found, is_within-append, names_below-append, find_node-In,
}
use supaback.Destination.{Reader}
use supaback.Destination.Local
use supaback.Destination.Local.{dir_of, read, list_files, local}
use supaback.Api.Downloads
use supaback.Api.Downloads.{Download, archive_sent, archive, download_backup_date}

has_layout-is_name : (date : Text) → has_layout date ≡ true → is_name date ≡ true
unfolding has_layout is_digit is_name text_eq
has_layout-is_name (y1 ∷ y2 ∷ y3 ∷ y4 ∷ s1 ∷ m1 ∷ m2 ∷ s2 ∷ d1 ∷ d2 ∷ []) h = ground arith
has_layout-is_name _ h = cc

-- A file below a directory, as an entry of an archive.
abbrev entry : Text → Location × Text → Text × Reader
entry base_path f = (relative (locate base_path) f.0, record { body = f.1; failure = none })

-- The key that a location below the directory of a date is listed by leads back to it.
locate-relative :
    (base_path date : Text) (ys : List Text)
    → is_name date ≡ true
    → Names ys
    → locate (join_path base_path (relative (locate base_path) (ys ++ (date ∷ locate base_path))))
      ≡ ys ++ (date ∷ locate base_path)
unfolding relative
locate-relative base_path date ys n ns =
    let zs = ys ++ (date ∷ []) in
    let whole : ys ++ (date ∷ locate base_path) ≡ zs ++ locate base_path =
      sym (append_assoc ys (date ∷ []) (locate base_path)) in
    ap
      (λ l.
        locate (join_path base_path (render false (reverse (names_below (locate base_path) l)))))
      whole
    ∙ (ap (λ xs. locate (join_path base_path (render false (reverse xs))))
          (names_below-append (locate base_path) zs)
        ∙ (locate-Names base_path zs date (reverse ys)
              (All-append (λ x. is_name x ≡ true) ys (date ∷ []) ns (n, tt))
              (reverse-append ys (date ∷ []))
            ∙ sym whole))

not_root :
    (x : Text) (l : Location) → is_name x ≡ true → same_place (x ∷ l) (codes "/" ∷ []) ≡ false
unfolding same_place is_name text_eq lacks_slash
not_root x l h = ground arith

stat-In :
    (ns : Nodes) (x : Text) (l : Location) (n : Node)
    → is_name x ≡ true
    → Unique ns
    → In (x ∷ l, n) ns
    → stat ns (x ∷ l) ≡ some n
unfolding stat
stat-In ns x l n h u i = rw (not_root x l h) (find_node-In ns (x ∷ l) n u i)

stat_below :
    (ns : Nodes) (date : Text) (ys dir : List Text) (n : Node)
    → is_name date ≡ true
    → Names ys
    → Unique ns
    → In (ys ++ (date ∷ dir), n) ns
    → stat ns (ys ++ (date ∷ dir)) ≡ some n
stat_below ns date [] dir n h a u i = stat-In ns date dir n h u i
stat_below ns date (y ∷ ys) dir n h a u i = stat-In ns y (ys ++ (date ∷ dir)) n a.0 u i

-- A file below the directory of a date is read whole by the key that it is listed by.
read_listed :
    (base_path date : Text) (ys : List Text) (b : Text) (d : Disk)
    → is_name date ≡ true
    → Names ys
    → Unique d.nodes
    → d.denied (ys ++ (date ∷ locate base_path)) ≡ none
    → In (ys ++ (date ∷ locate base_path), file b) d.nodes
    → read base_path (relative (locate base_path) (ys ++ (date ∷ locate base_path))) d
      ≡ (ok (record { body = b; failure = none }), d)
unfolding read
read_listed base_path date ys b d n ns u a i =
    let l = ys ++ (date ∷ locate base_path) in
    ap (λ m. (Local.opened base_path (open_file m d), d)) (locate-relative base_path date ys n ns)
    ∙ (unfold open_file in
        ap (λ o. (Local.opened base_path (open_place o (stat d.nodes l)), d)) a
        ∙ (ap (λ o. (Local.opened base_path (open_place none o), d))
              (stat_below d.nodes date ys (locate base_path) (file b) n ns u i)
            ∙ unfold open_place Local.opened in refl))

module _ (base_path : Text) (d : Disk) where
  -- All the files of a list are read.
  abbrev Readable : List (Location × Text) → Type 0
  Readable = All λ f.
      read base_path (relative (locate base_path) f.0) d
      ≡ (ok (record { body = f.1; failure = none }), d)

  archive-Readable :
      (creates : Text → Bool) (fs : List (Location × Text))
      → ((key : Text) → creates key ≡ true)
      → Readable fs
      → archive (local base_path) creates (map (Local.file_info base_path) fs) d
        ≡ (map (entry base_path) fs, d)
  unfolding archive Local.file_info Downloads.with_file
  archive-Readable creates [] c r = refl
  archive-Readable creates (f ∷ fs) c r =
      rw (r.0, archive-Readable creates fs c r.1, c (relative (locate base_path) f.0)) refl

All-In : {A : Type 0} {P : A → Type 0} (xs : List A) → ((x : A) → In x xs → P x) → All P xs
All-In [] h = tt
All-In (x ∷ xs) h = (h x (inl refl), All-In xs λ y i. h y (inr i))

In-map :
    {A B : Type 0} (g : A → B) (xs : List A) (b : B)
    → In b (map g xs) ↔ ((a : A) × (b ≡ g a) × In a xs)
In-map g [] b = (λ i. absurd i, λ i. i.2)
In-map g (x ∷ xs) b = (
  λ i. elim i [
    | inl e ↦ (x, e, inl refl)
    | inr j ↦ let (a, e, k) = (In-map g xs b).0 j in (a, e, inr k)
  ],
  λ i. elim i.2 [ inl e ↦ inl (i.1 ∙ ap g e) | inr j ↦ inr ((In-map g xs b).1 (i.0, i.1, j)) ],
)

-- A directory that is there, with nothing within it denied, on a disk that has one node at most at
-- each location, where what lies below the directory is reached by names.
abbrev pub Tidy : Location → Disk → Type 0
Tidy dir d =
    (stat d.nodes dir ≡ some directory)
    × NoneDenied dir d
    × Unique d.nodes
    × ((ys : List Text) (n : Node) → In (ys ++ dir, n) d.nodes → Names ys)

-- An entry of the archive of a directory: a file within it, by its path below the base path.
abbrev pub IsEntry : Text → Location → Disk → Text × Reader → Type 0
IsEntry base_path dir d e =
    (f : Location × Text) × (e ≡ entry base_path f)
    × (In (f.0, file f.1) d.nodes)
    × (is_within dir f.0 ≡ true)

all-Readable :
    (base_path date : Text) (d : Disk) (fs : List (Location × Text))
    → is_name date ≡ true
    → Tidy (date ∷ locate base_path) d
    → FilesOf (date ∷ locate base_path) d.nodes fs
    → Readable base_path d fs
all-Readable base_path date d fs n t g = All-In fs λ f i.
    let (j, w) = (g f.0 f.1).0 i in
    let (ys, e) = is_within-append (date ∷ locate base_path) f.0 w in
    let dir = date ∷ locate base_path in
    let here : In (ys ++ dir, file f.1) d.nodes = rw e at j in
    let within : is_within dir (ys ++ dir) ≡ true = rw e at w in
    ap (λ l. read base_path (relative (locate base_path) l) d) e
    ∙ read_listed base_path date ys f.1 d n (t.3 ys (file f.1) here) t.2 (t.1 (ys ++ dir) within)
        here

blank : is_name [] ≢ true
unfolding is_name
blank e = cc

locate-dir_of :
    (base_path date : Text)
    → is_name date ≡ true
    → locate (dir_of base_path date) ≡ date ∷ locate base_path
locate-dir_of base_path [] n = absurd (blank n)
locate-dir_of base_path (c ∷ date) n = unfold dir_of in locate_name base_path (c ∷ date) n

-- What is sent, where a file is found.
zipped_sent :
    (creates : Text → Bool) (base_path date : Text) (d : Disk) (f : Location × Text)
    (fs : List (Location × Text))
    → ((key : Text) → creates key ≡ true)
    → In f fs
    → Readable base_path d fs
    → Downloads.zipped (local base_path) creates date (ok (map (Local.file_info base_path) fs), d)
      ≡ (archive_sent (codes "backup-" ++ (date ++ codes ".zip")) (map (entry base_path) fs), d)
zipped_sent creates base_path date d f [] c i r = absurd i
zipped_sent creates base_path date d f (g ∷ gs) c i r =
    unfold Downloads.zipped in
    ap (λ p. (archive_sent (codes "backup-" ++ (date ++ codes ".zip")) p.0, p.1))
      (archive-Readable base_path d creates (g ∷ gs) c r)

-- For a date in its layout, the archive that `DownloadBackupDate` sends from a directory of the
-- disk holds exactly the files below the directory of the date, each whole and under its path below
-- the base path. It is so where the directory of the date is there with at least one file within,
-- nothing within it is denied, the disk has one node at most at each location, what lies below is
-- reached by names, and the zip takes every name.
pub archive-IsEntry :
    (creates : Text → Bool) (base_path date : Text) (d : Disk) (f : Location × Text)
    → ((key : Text) → creates key ≡ true)
    → has_layout date ≡ true
    → Tidy (date ∷ locate base_path) d
    → In (f.0, file f.1) d.nodes
    → is_within (date ∷ locate base_path) f.0 ≡ true
    → (entries : List (Text × Reader)) × (download_backup_date (local base_path) creates date d
        ≡ (archive_sent (codes "backup-" ++ (date ++ codes ".zip")) entries, d))
      × ((e : Text × Reader) → In e entries ↔ IsEntry base_path (date ∷ locate base_path) d e)
archive-IsEntry creates base_path date d f c h t i w =
    let dir = date ∷ locate base_path in
    let n = has_layout-is_name date h in
    let (fs, q, g) = walk_found dir d t.1 t.0 in
    let r = all-Readable base_path date d fs n t g in
    (
      map (entry base_path) fs,
      unfold download_backup_date list_files in
          rw h (
            ap
              (λ l.
                Downloads.zipped (local base_path) creates date
                  (Local.found base_path (walk_dir l d), d))
              (locate-dir_of base_path date n)
            ∙ (ap
                  (λ o.
                    Downloads.zipped (local base_path) creates date (Local.found base_path o, d))
                  q
                ∙ unfold Local.found in
                  zipped_sent creates base_path date d f fs c ((g f.0 f.1).1 (i, w)) r)),
      λ e. (
        λ j.
            let (a, v, k) = (In-map (entry base_path) fs e).0 j in
            let (k', w') = (g a.0 a.1).0 k in (a, v, k', w'),
        λ j. (In-map (entry base_path) fs e).1 (j.0, j.1, (g j.0.0 j.0.1).1 (j.2, j.3)),
      ),
    )
