-- ===== src/Disk/Walk.antt =====
-- What a walk over a directory finds, and how it names what it finds.
use supaback.Prelude.{
  Text, List, [], ◌∷◌, ◌++◌, length, length-append, In, Bool, true, false, none, some, ok, ◌≡◌, ◌≢◌,
  ◌↔◌, ◌⊎◌, inl, inr, refl, sym, ap, ◌∙◌, arith, Bool-cases,
}
use supaback.Path.{Location}
use supaback.Disk.{
  Disk, Node, file, directory, Nodes, same_place, is_within, insert_node, sort_nodes, with_file,
  find_node, stat, walk_dir, files_within, names_below,
}
use supaback.Disk.Remove.{same_place_iff}

In-insert_node :
    (a e : Location × Node) (ns : Nodes) → In a (insert_node e ns) ↔ ((a ≡ e) ⊎ In a ns)
unfolding insert_node
In-insert_node a e [] = (λ i. i, λ i. i)
In-insert_node a e (f ∷ ns) = ground (arith, In-insert_node a e ns)

In-sort_nodes : (a : Location × Node) (ns : Nodes) → In a (sort_nodes ns) ↔ In a ns
unfolding sort_nodes
In-sort_nodes a [] = (λ i. i, λ i. i)
In-sort_nodes a (e ∷ ns) = ground (arith, In-insert_node a e (sort_nodes ns), In-sort_nodes a ns)

-- The files within a directory, of a list of nodes.
abbrev pub FilesOf : Location → Nodes → List (Location × Text) → Type 0
FilesOf dir ns fs =
    (l : Location) (b : Text) → In (l, b) fs ↔ (In (l, file b) ns × (is_within dir l ≡ true))

-- What a node holds, a directory nothing.
body_of : Node → Text
body_of (file b) = b
body_of directory = []

one_more_file :
    (dir l : Location) (b : Text) (ns : Nodes) (fs : List (Location × Text))
    → is_within dir l ≡ true
    → FilesOf dir ns fs
    → FilesOf dir ((l, file b) ∷ ns) ((l, b) ∷ fs)
unfolding body_of
one_more_file dir l b ns fs w f m c = (
  λ i. elim i [
    | inl e ↦ (inl (ap (λ p. (p.0, file p.1)) e), ap (λ p. is_within dir p.0) e ∙ w)
    | inr j ↦ let (k, v) = (f m c).0 j in (inr k, v)
  ],
  λ i. elim i.0 [ inl e ↦ inl (ap (λ p. (p.0, body_of p.1)) e) | inr j ↦ inr ((f m c).1 (j, i.1)) ],
)

not_a_file :
    (dir l m : Location) (c : Text) (n : Node)
    → (n ≡ directory) ⊎ (is_within dir l ≡ false)
    → is_within dir m ≡ true
    → ◌≢◌ {A = Location × Node} (m, file c) (l, n)
not_a_file dir l m c n (inl d) w e = file_directory (ap (λ p. p.1) e ∙ d)
  where
    file_directory : file c ≢ directory
    file_directory q = cc
not_a_file dir l m c n (inr f) w e = true_false (sym w ∙ (ap (λ p. is_within dir p.0) e ∙ f))
  where
    true_false : true ≢ false
    true_false q = cc

-- A directory adds no file, and neither does what lies elsewhere.
no_more_files :
    (dir l : Location) (n : Node) (ns : Nodes) (fs : List (Location × Text))
    → (n ≡ directory) ⊎ (is_within dir l ≡ false)
    → FilesOf dir ns fs
    → FilesOf dir ((l, n) ∷ ns) fs
no_more_files dir l n ns fs h f m c = (
  λ i. let (k, v) = (f m c).0 i in (inr k, v),
  λ i. elim i.0 [ inl e ↦ absurd (not_a_file dir l m c n h i.1 e) | inr j ↦ (f m c).1 (j, i.1) ],
)

-- Nothing within the directory is denied.
abbrev pub NoneDenied : Location → Disk → Type 0
NoneDenied dir d = (l : Location) → is_within dir l ≡ true → d.denied l ≡ none

node_found :
    (dir l : Location) (n : Node) (ns : Nodes) (fs : List (Location × Text))
    → is_within dir l ≡ true
    → FilesOf dir ns fs
    → (gs : List (Location × Text)) × (with_file l n (ok fs) ≡ ok gs) × FilesOf dir ((l, n) ∷ ns) gs
unfolding with_file
node_found dir l (file b) ns fs w f = ((l, b) ∷ fs, refl, one_more_file dir l b ns fs w f)
node_found dir l directory ns fs w f = (fs, refl, no_more_files dir l directory ns fs (inl refl) f)

files_found :
    (dir : Location) (d : Disk) (ns : Nodes)
    → NoneDenied dir d
    → (fs : List (Location × Text)) × (files_within dir d ns ≡ ok fs) × FilesOf dir ns fs
unfolding files_within
files_found dir d [] h = ([], refl, λ m c. (λ i. absurd i, λ i. absurd i.0))
files_found dir d ((l, n) ∷ ns) h =
    let (fs, e, f) = files_found dir d ns h in
    elim (Bool-cases (is_within dir l)) [
      | inr o ↦ (fs, rw o e, no_more_files dir l n ns fs (inr o) f)
      | inl w ↦ let (gs, q, g) = node_found dir l n ns fs w f in (gs, rw (w, h l w, e) q, g)
    ]

pub is_within_self : (dir : Location) → is_within dir dir ≡ true
unfolding is_within
is_within_self [] = (same_place_iff [] []).1 refl
is_within_self (x ∷ dir) = ground (arith, same_place_iff (x ∷ dir) (x ∷ dir))

-- A walk over a directory in which nothing is denied finds exactly the files below it.
pub walk_found :
    (dir : Location) (d : Disk)
    → NoneDenied dir d
    → stat d.nodes dir ≡ some directory
    → (fs : List (Location × Text)) × (walk_dir dir d ≡ ok fs) × FilesOf dir d.nodes fs
unfolding walk_dir
walk_found dir d h s =
    let (fs, e, f) = files_found dir d (sort_nodes d.nodes) h in
    (
      fs,
      rw (h dir (is_within_self dir), s, walk_dir) e,
      λ m c. (
        λ i. let (k, v) = (f m c).0 i in ((In-sort_nodes (m, file c) d.nodes).0 k, v),
        λ i. (f m c).1 ((In-sort_nodes (m, file c) d.nodes).1 i.0, i.1),
      ),
    )

-- What lies within a directory is named by the elements below it.
pub is_within-append :
    (dir l : Location) → is_within dir l ≡ true → (ys : List Text) × (l ≡ ys ++ dir)
unfolding is_within
is_within-append dir [] h = ([], (same_place_iff [] dir).0 h)
is_within-append dir (x ∷ l) h = elim (Bool-cases (same_place (x ∷ l) dir)) [
  | inl t ↦ ([], (same_place_iff (x ∷ l) dir).0 t)
  | inr f ↦ let (ys, e) = is_within-append dir l (ground arith) in (x ∷ ys, ap (λ m. x ∷ m) e)
]

longer : (x : Text) (ys : List Text) (dir : Location) → same_place (x ∷ ys ++ dir) dir ≡ false
longer x ys dir = elim (Bool-cases (same_place (x ∷ ys ++ dir) dir)) [
  | inr f ↦ f
  | inl t ↦
      let e : length (x ∷ ys ++ dir) ≡ length dir =
        ap length ((same_place_iff (x ∷ ys ++ dir) dir).0 t) in
      absurd (omega (arith, e, length-append ys dir))
]

pub names_below-append : (dir : Location) (ys : List Text) → names_below dir (ys ++ dir) ≡ ys
unfolding names_below
names_below-append [] [] = refl
names_below-append (x ∷ dir) [] = rw ((same_place_iff (x ∷ dir) (x ∷ dir)).1 refl) refl
names_below-append dir (x ∷ ys) = rw (longer x ys dir, names_below-append dir ys) refl

-- No location holds two different nodes.
abbrev pub Unique : Nodes → Type 0
Unique ns = (l : Location) (m n : Node) → In (l, m) ns → In (l, n) ns → m ≡ n

pub find_node-In :
    (ns : Nodes) (l : Location) (n : Node) → Unique ns → In (l, n) ns → find_node ns l ≡ some n
unfolding find_node
find_node-In [] l n u i = absurd i
find_node-In ((m, k) ∷ ns) l n u i = elim (Bool-cases (same_place m l)) [
  | inl t ↦
      let here : In (l, k) ((m, k) ∷ ns) =
        inl (ap (λ x. (x, k)) (sym ((same_place_iff m l).0 t))) in
      rw t (ap some (u l k n here i))
  | inr f ↦ rw f (elim i [
    | inl e ↦ absurd (apart ((same_place_iff m l).1 (sym (ap (λ p. p.0) e))) f)
    | inr j ↦ find_node-In ns l n (λ x a b p q. u x a b (inr p) (inr q)) j
  ])
]
  where
    apart : {b : Bool} → b ≡ true → b ≢ false
    apart p q = cc
