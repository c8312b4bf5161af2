-- ===== src/Disk/Write.antt =====
-- What `os.MkdirAll` and `os.Create` change: the place they write, and nothing that was there.
use supaback.Prelude.{
  ◌<◌, length, Text, [], ◌∷◌, Option, none, some, Result, ok, err, ◌≡◌, ◌≢◌, inl, inr, refl, sym,
  ap, ◌∙◌, arith, Bool-cases, Option-cases, if◌then◌else◌,
}
use supaback.Path.{Location}
use supaback.Disk.{
  Disk, Node, file, directory, Nodes, same_place, stat, find_node, put_node, made, make_in,
  mkdir_all, parent, create_file,
}
use supaback.Disk.Remove.{same_place_iff}

find-put :
    (ns : Nodes) (l m : Location) (n : Node)
    → find_node (put_node ns l n) m ≡ (if same_place l m then some n else find_node ns m)
unfolding find_node put_node
find-put [] l m n = ground arith
find-put ((k, j) ∷ ns) l m n =
    ground (arith, find-put ns l m n, same_place_iff k l, same_place_iff l m, same_place_iff k m)

stat_other : (ns : Nodes) (l m : Location) (n : Node) → m ≢ l → stat (put_node ns l n) m ≡ stat ns m
unfolding stat
stat_other ns l [] n h = refl
stat_other ns l (x ∷ m) n h = ground (arith, find-put ns l (x ∷ m) n, same_place_iff l (x ∷ m))

stat_same :
    (ns : Nodes) (l : Location) (n : Node)
    → stat ns l ≢ some directory
    → stat (put_node ns l n) l ≡ some n
unfolding stat
stat_same ns [] n h = absurd (h refl)
stat_same ns (x ∷ l) n h =
    ground (arith, find-put ns (x ∷ l) (x ∷ l) n, same_place_iff (x ∷ l) (x ∷ l))

-- What is found on a disk is found on another, which denies the same.
abbrev pub Keeps : Disk → Disk → Type 0
Keeps d d' =
    (d'.denied ≡ d.denied)
    × ((m : Location) (n : Node) → stat d.nodes m ≡ some n → stat d'.nodes m ≡ some n)

put-Keeps :
    (d : Disk) (l : Location) (n : Node)
    → stat d.nodes l ≡ none
    → Keeps d (record d { nodes = put_node d.nodes l n })
put-Keeps d l n h = (
  refl,
  λ m k e. elim (Bool-cases (same_place m l)) [
    | inl t ↦ absurd (none_not_some k (sym (rw (sym ((same_place_iff m l).0 t)) at h) ∙ e))
    | inr f ↦ stat_other d.nodes l m n (λ q. ground (arith, same_place_iff m l)) ∙ e
  ],
)
  where
    none_not_some : (k : Node) → none ≢ some k
    none_not_some k q = cc

made-Keeps :
    (o : Option Text) (l : Location) (d : Disk) → stat d.nodes l ≡ none → Keeps d (made o l d).1
unfolding made
made-Keeps none l d h = put-Keeps d l directory h
made-Keeps (some e) l d h = (refl, λ m n q. q)

Keeps-trans : (d e f : Disk) → Keeps d e → Keeps e f → Keeps d f
Keeps-trans d e f p q = (q.0 ∙ p.0, λ m n h. q.1 m n (p.1 m n h))

made_longer :
    (o : Option Text) (l m : Location) (d : Disk)
    → length l < length m
    → stat (made o l d).1.nodes m ≡ stat d.nodes m
unfolding made
made_longer none l m d h = stat_other d.nodes l m directory (λ e. omega (arith, ap length e))
made_longer (some e) l m d h = refl

make_in_longer :
    (r : Result (Unit {0}) × Disk) (l m : Location)
    → length l < length m
    → stat (make_in l r).1.nodes m ≡ stat r.1.nodes m
unfolding make_in
make_in_longer (err e, d) l m h = refl
make_in_longer (ok u, d) l m h = made_longer (d.denied l) l m d h

-- Only places as short as the new directory's change.
mkdir_all_longer :
    (l m : Location) (d : Disk)
    → length l < length m
    → stat (mkdir_all l d).1.nodes m ≡ stat d.nodes m
unfolding mkdir_all
mkdir_all_longer [] m d h = refl
mkdir_all_longer (x ∷ l) m d h = elim (Option-cases (stat d.nodes (x ∷ l))) [
  | inl s ↦
      rw (s, mkdir_all)
        (make_in_longer (mkdir_all l d) (x ∷ l) m h ∙ mkdir_all_longer l m d (omega arith))
  | inr (file b, s) ↦ rw (s, mkdir_all) refl
  | inr (directory, s) ↦ rw (s, mkdir_all) refl
]

make_in-Keeps :
    (r : Result (Unit {0}) × Disk) (l : Location)
    → stat r.1.nodes l ≡ none
    → Keeps r.1 (make_in l r).1
unfolding make_in
make_in-Keeps (err e, d) l h = (refl, λ m n q. q)
make_in-Keeps (ok u, d) l h = made-Keeps (d.denied l) l d h

pub mkdir_all-Keeps : (l : Location) (d : Disk) → Keeps d (mkdir_all l d).1
unfolding mkdir_all
mkdir_all-Keeps [] d = (refl, λ m n q. q)
mkdir_all-Keeps (x ∷ l) d = elim (Option-cases (stat d.nodes (x ∷ l))) [
  | inl s ↦
      rw (s, mkdir_all)
        (Keeps-trans d (mkdir_all l d).1 (make_in (x ∷ l) (mkdir_all l d)).1 (mkdir_all-Keeps l d)
          (make_in-Keeps (mkdir_all l d) (x ∷ l) (mkdir_all_longer l (x ∷ l) d (omega arith) ∙ s)))
  | inr (file b, s) ↦ rw (s, mkdir_all) (refl, λ m n q. q)
  | inr (directory, s) ↦ rw (s, mkdir_all) (refl, λ m n q. q)
]

-- What `os.Create` leaves: the body at its place if it succeeds, and every other place as it was.
abbrev pub Created : Location → Text → Disk → Result (Unit {0}) × Disk → Type 0
Created l body d r =
    (r.1.denied ≡ d.denied)
    × ((m : Location) → m ≢ l → stat r.1.nodes m ≡ stat d.nodes m)
    × (r.0 ≡ ok tt → (d.denied l ≡ none) × (stat r.1.nodes l ≡ some (file body)))

pub create_file-Created :
    (l : Location) (body : Text) (d : Disk) → Created l body d (create_file l body d)
unfolding create_file
create_file-Created l body d = elim (Option-cases (d.denied l)) [
  | inr (e, a) ↦ rw (a, create_file) (refl, (λ m h. refl), λ h. cc)
  | inl a ↦ elim (Option-cases (stat d.nodes l)) [
    | inr (directory, s) ↦ rw (a, s, create_file) (refl, (λ m h. refl), λ h. cc)
    | inr (file b, s) ↦
        rw (a, s, create_file)
          (
            refl,
            (λ m h. stat_other d.nodes l m (file body) h),
            λ h. (refl, stat_same d.nodes l (file body) (λ q. cc)),
          )
    | inl s ↦ elim (Option-cases (stat d.nodes (parent l))) [
      | inl p ↦ rw (a, s, p, create_file) (refl, (λ m h. refl), λ h. cc)
      | inr (file b, p) ↦ rw (a, s, p, create_file) (refl, (λ m h. refl), λ h. cc)
      | inr (directory, p) ↦
          rw (a, s, p, create_file)
            (
              refl,
              (λ m h. stat_other d.nodes l m (file body) h),
              λ h. (refl, stat_same d.nodes l (file body) (λ q. cc)),
            )
    ]
  ]
]
