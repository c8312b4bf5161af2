-- ===== src/Tests/Removals.antt =====
-- The removal of a directory with one file, on an SFTP server.
use supaback.Prelude.{
  Text, codes, List, [], ◌∷◌, ◌++◌, In, Bool, true, false, Option, none, some, ok, ◌≡◌, ◌≢◌, ◌↔◌,
  refl, sym, ap, ◌∙◌, arith, inl, inr, Bool-cases, if◌then◌else◌, text_eq, length, length-append,
}
use supaback.Prelude.Int.{pos}
use supaback.Config.{SftpConfig}
use supaback.Strconv.{split, join}
use supaback.Path.{
  Location, is_name, lacks_slash, locate, elements, walk, push, is_rooted, clean, join_path,
}
use supaback.Disk.{done, failed, same_place}
use supaback.Disk.Remove.{same_place_iff}
use supaback.Backup
use supaback.Destination.Sftp.{Ssh, Session, client}
use supaback.Destination.Sftp.Removal.{delete}
use supaback.Destination.Sftp.Removal.Tree.{IsServer, Distinct, Rooted, Shallow, Gone}
use supaback.Destination.Sftp.Removal.Gone.{delete-Gone}

-- Whether the directory and its file are there.
record Tree : Type 0 where
  folder : Bool
  leaf : Bool

abbrev folder_place : Location
folder_place = codes "d" ∷ codes "b" ∷ codes "/" ∷ []

abbrev leaf_place : Location
leaf_place = codes "f" ∷ folder_place

abbrev at : Tree → Location → Option Bool
at t l =
    if same_place l folder_place
    then (if t.folder then some true else none)
    else if same_place l leaf_place
    then (if t.leaf then some false else none)
    else none

abbrev entries : Bool → List (Text × Bool)
entries true = (codes "f", false) ∷ []
entries false = []

abbrev ssh : Ssh Tree
ssh = record {
  read_file = λ path w. ok [];
  parse_private_key = λ key. ok key;
  dial = λ addr c w. (ok 1, w);
  new_client = λ n w. (ok n, w);
  close_connection = λ n w. w;
  close_client = λ n w. w;
  answers = λ n w. (true, w);
  mkdir_all = λ n path w. (none, w);
  create_file = λ n path w. (none, w);
  copy = λ n path r w. (ok (pos 0), w);
  read_dir = λ n path w. (
    if same_place (locate path) folder_place then done (entries w.leaf) else failed (codes "no"),
    w,
  );
  walk = λ n path w. ([], w);
  open_file = λ n path w. (ok (record { body = []; failure = none }), w);
  remove = λ n path w.
      (none, record w { leaf = if same_place (locate path) leaf_place then false else w.leaf });
  remove_directory = λ n path w. (
    none,
    record w { folder = if same_place (locate path) folder_place then false else w.folder },
  );
}

at_folder : (t : Tree) (l : Location) → at t l ≡ some true → same_place l folder_place ≡ true
at_folder t l h = ground arith

at_leaf : (t : Tree) (l : Location) → at t l ≡ some false → same_place l leaf_place ≡ true
at_leaf t l h = ground arith

same_place_sym : (l m : Location) → same_place l m ≡ same_place m l
same_place_sym l m = ground (arith, same_place_iff l m, same_place_iff m l)

after_leaf :
    (t : Tree) (l : Location)
    → at (record t { leaf = false }) l ≡ (if same_place leaf_place l then none else at t l)
after_leaf t l = elim (Bool-cases (same_place l leaf_place)) [
  | inl e ↦ rw ((same_place_iff l leaf_place).0 e) (unfold same_place text_eq in refl)
  | inr f ↦ rw (same_place_sym leaf_place l, f) refl
]

after_folder :
    (t : Tree) (l : Location)
    → at (record t { folder = false }) l ≡ (if same_place folder_place l then none else at t l)
after_folder t l = elim (Bool-cases (same_place l folder_place)) [
  | inl e ↦ rw ((same_place_iff l folder_place).0 e) (unfold same_place text_eq in refl)
  | inr f ↦ rw (same_place_sym folder_place l, f) refl
]

names_named : (leaf : Bool) (n : Text) (b : Bool) → In (n, b) (entries leaf) → is_name n ≡ true
unfolding is_name lacks_slash text_eq
names_named true n b (inl e) = ap (λ p. is_name p.0) e
names_named true n b (inr e) = absurd e
names_named false n b e = absurd e

not_folder : (n : Text) → same_place (n ∷ folder_place) folder_place ≡ false
unfolding same_place
not_folder n = elim (Bool-cases (same_place (n ∷ folder_place) folder_place)) [
  | inl t ↦
      let e : 4 ≡ 3 = ap length ((same_place_iff (n ∷ folder_place) folder_place).0 t) in
      absurd (omega (arith, e))
  | inr f ↦ f
]

child_at :
    (folder leaf : Bool) (n : Text)
    → let t : Tree = record { folder = folder; leaf = leaf } in
      at t (n ∷ folder_place) ≡ (
        if same_place (n ∷ folder_place) leaf_place
        then (if leaf then some false else none)
        else none)
child_at folder leaf n = rw (not_folder n) refl

its_name : (n : Text) → same_place (n ∷ folder_place) leaf_place ≡ true → n ≡ codes "f"
its_name n h = ap first ((same_place_iff (n ∷ folder_place) leaf_place).0 h)
  where
    first : Location → Text
    first [] = []
    first (x ∷ l) = x

if_some : (c b : Bool) → (if c then some false else none) ≡ some b → (c ≡ true) × (b ≡ false)
if_some true true h = cc
if_some true false h = (refl, refl)
if_some false b h = cc

if_none : (c b : Bool) → ◌≢◌ {A = Option Bool} (if c then none else none) (some b)
if_none true b h = cc
if_none false b h = cc

entries_listed :
    (folder leaf : Bool) (n : Text) (b : Bool)
    → let t : Tree = record { folder = folder; leaf = leaf } in
      In (n, b) (entries leaf) ↔ (at t (n ∷ folder_place) ≡ some b)
entries_listed folder true n b = (
  λ i. elim i [
    | inl e ↦
        rw
          (
            child_at folder true n,
            (same_place_iff (n ∷ folder_place) leaf_place).1 (ap (λ p. p.0 ∷ folder_place) e),
          )
          (ap (λ p. some p.1) (sym e))
    | inr e ↦ absurd e
  ],
  λ h.
      let (c, e) =
        if_some (same_place (n ∷ folder_place) leaf_place) b (sym (child_at folder true n) ∙ h) in
      inl (rw (its_name n c, e) refl),
)
entries_listed folder false n b =
    (λ i. absurd i, λ h. if_none _ b (sym (child_at folder false n) ∙ h))

entries-Distinct : (leaf : Bool) → Distinct (entries leaf)
entries-Distinct true = ((λ c e. e), tt)
entries-Distinct false = tt

ssh-IsServer : IsServer ssh at 1
ssh-IsServer = record {
  lists = λ p w h.
      let e = (same_place_iff (locate p) folder_place).0 (at_folder w (locate p) h) in
      (
        entries w.leaf,
        rw (at_folder w (locate p) h) refl,
        rw e (record {
          named = names_named w.leaf;
          distinct = entries-Distinct w.leaf;
          listed = entries_listed w.folder w.leaf;
        }),
      );
  removes = λ p w h. (
    refl,
    λ l.
        let e = (same_place_iff (locate p) leaf_place).0 (at_leaf w (locate p) h) in
        rw (at_leaf w (locate p) h, e) (after_leaf w l),
  );
  removes_directory = λ p w h x. (
    refl,
    λ l.
        let e = (same_place_iff (locate p) folder_place).0 (at_folder w (locate p) h) in
        rw (at_folder w (locate p) h, e) (after_folder w l),
  );
}

abbrev cfg : SftpConfig
cfg = record {
  host = codes "h";
  port = pos 22;
  user = codes "u";
  password = codes "p";
  key_path = [];
  remote_path = codes "/b";
}

abbrev session : Session Tree
session = record {
  ssh_conn = some 1;
  sftp_client = some 1;
  world = record { folder = true; leaf = true };
}

answered : client ssh cfg session ≡ (ok 1, session)
unfolding client
answered = refl

folder_there : locate (join_path cfg.remote_path (codes "d")) ≡ folder_place
unfolding locate elements walk push is_rooted split join clean join_path text_eq
folder_there = refl

shallow : (t : Tree) → Shallow at folder_place 2 t
shallow t ys b i = elim (Bool-cases (same_place (ys ++ folder_place) folder_place)) [
  | inl e ↦
      let same : length (ys ++ folder_place) ≡ 3 =
        ap length ((same_place_iff (ys ++ folder_place) folder_place).0 e) in
      omega (arith, same, length-append ys folder_place)
  | inr f ↦ elim (Bool-cases (same_place (ys ++ folder_place) leaf_place)) [
    | inl e ↦
        let same : length (ys ++ folder_place) ≡ 4 =
          ap length ((same_place_iff (ys ++ folder_place) leaf_place).0 e) in
        omega (arith, same, length-append ys folder_place)
    | inr g ↦ absurd (nothing (rw (f, g) at i))
  ]
]
  where
    nothing : none ≢ some b
    nothing q = cc

folder_held : (leaf : Bool) → at (record { folder = true; leaf = leaf }) folder_place ≡ some true
unfolding same_place text_eq
folder_held leaf = refl

rooted : (leaf : Bool) → Rooted at folder_place (record { folder = true; leaf = leaf })
rooted leaf x [] b i = folder_held leaf
rooted leaf x (y ∷ ys) b i =
    absurd (omega (arith, shallow (record { folder = true; leaf = leaf }) (x ∷ y ∷ ys) b i))

delete-Gone_example :
    ((delete ssh cfg 2 (codes "d") session).0 ≡ Backup.done tt)
    × Gone at
        (locate (join_path cfg.remote_path (codes "d")))
        session.world
        (delete ssh cfg 2 (codes "d") session).1.world
delete-Gone_example =
    delete-Gone ssh cfg at 1 ssh-IsServer 2 (codes "d") session session answered
      (rw folder_there (folder_held true)) (rw folder_there (rooted true))
      (rw folder_there (shallow session.world))
