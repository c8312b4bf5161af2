-- ===== src/Destination/Local/RoundTrip.antt =====
-- What a local destination gives back: the body that was written, and the other files as they were.
use supaback.Prelude.{
  Text, length, none, some, Result, ok, err, ◌≡◌, ◌≢◌, inl, inr, refl, sym, ap, ◌∙◌, Option-cases,
}
use supaback.Prelude.Int.{ℤ, pos}
use supaback.Path.{Location, locate, join_path}
use supaback.Disk.{Disk, Node, file, stat, mkdir_all, parent, create_file, open_place, open_file}
use supaback.Disk.Write.{Keeps, Created, mkdir_all-Keeps, create_file-Created}
use supaback.Destination.{Reader}
use supaback.Destination.Local.{copied, created, in_directory, write, opened, read}

-- Opening a place depends on what is denied and on what is there.
open_file_same :
    (l : Location) (d d' : Disk)
    → d'.denied ≡ d.denied
    → stat d'.nodes l ≡ stat d.nodes l
    → open_file l d' ≡ open_file l d
unfolding open_file
open_file_same l d d' a s =
    ap (λ o. open_place o (stat d'.nodes l)) (ap (λ g. g l) a) ∙ ap (open_place (d.denied l)) s

opened_found :
    (base_path : Text) (l : Location) (f : Reader) (d : Disk)
    → opened base_path (open_file l d) ≡ ok f
    → (n : Node) × (stat d.nodes l ≡ some n)
unfolding open_file open_place opened
opened_found base_path l f d h = elim (Option-cases (d.denied l)) [
  | inr (e, a) ↦ absurd (not_opened e f (rw (a, open_file) at h))
  | inl a ↦ elim (Option-cases (stat d.nodes l)) [
    | inl s ↦ absurd (not_opened _ f (rw (a, s, open_file) at h))
    | inr (n, s) ↦ (n, s)
  ]
]
  where
    not_opened : (e : Text) (f : Reader) → opened base_path (err e) ≢ ok f
    not_opened e f q = cc

-- What `Write` does to a disk, by the place that its key names.
abbrev Written : Location → Reader → Disk → Result ℤ × Disk → Type 0
Written l r d (out, d') =
    (d'.denied ≡ d.denied)
    × ((m : Location) (n : Node) → m ≢ l → stat d.nodes m ≡ some n → stat d'.nodes m ≡ some n)
    × ((k : ℤ)
        → out ≡ ok k
        → (d.denied l ≡ none) × (stat d'.nodes l ≡ some (file r.body)) × (copied r ≡ ok k))

created-Written :
    (l : Location) (dest : Text) (r : Reader) (d e : Disk) (c : Result (Unit {0}) × Disk)
    → Keeps d e
    → Created l r.body e c
    → Written l r d (created dest r c)
unfolding created
created-Written l dest r d e (err m, d') k c =
    (c.0 ∙ k.0, (λ p n h s. c.1 p h ∙ k.1 p n s), λ q h. absurd (no_ok h))
  where
    no_ok : {m : Text} {q : ℤ} → err m ≢ ok q
    no_ok h = cc
created-Written l dest r d e (ok u, d') k c = (
  c.0 ∙ k.0,
  (λ p n h s. c.1 p h ∙ k.1 p n s),
  λ q h. (sym (ap (λ g. g l) k.0) ∙ (c.2 refl).0, (c.2 refl).1, h),
)

in_directory-Written :
    (l : Location) (dest : Text) (r : Reader) (d : Disk) (c : Result (Unit {0}) × Disk)
    → l ≡ locate dest
    → Keeps d c.1
    → Written l r d (in_directory dest r c)
unfolding in_directory
in_directory-Written l dest r d (err m, e) q k = (k.0, (λ p n h s. k.1 p n s), λ z h. cc)
in_directory-Written l dest r d (ok u, e) q k = rw q (
    created-Written (locate dest) dest r d e (create_file (locate dest) r.body e) k
      (create_file-Created (locate dest) r.body e))

write-Written :
    (base_path key : Text) (r : Reader) (d : Disk)
    → Written (locate (join_path base_path key)) r d (write base_path key r d)
unfolding write
write-Written base_path key r d =
    let l = locate (join_path base_path key) in
    in_directory-Written l (join_path base_path key) r d (mkdir_all (parent l) d) refl
      (mkdir_all-Keeps (parent l) d)

copied_ok : (r : Reader) (k : ℤ) → copied r ≡ ok k → (r.failure ≡ none) × (k ≡ pos (length r.body))
unfolding copied
copied_ok r k h = elim (Option-cases r.failure) [
  | inl f ↦ (f, counted (rw (f, copied) at h))
  | inr (e, f) ↦ absurd (failing e (rw (f, copied) at h))
]
  where
    counted : ok (pos (length r.body)) ≡ ok k → k ≡ pos (length r.body)
    counted q = cc

    failing : (e : Text) → err e ≢ ok k
    failing e q = cc

-- A `Write` that returns a count has written all that the reader gave, the reader has ended
-- without an error, and a `Read` of the key returns the body that was written.
pub write-read :
    (base_path key : Text) (r : Reader) (d : Disk) (k : ℤ)
    → (write base_path key r d).0 ≡ ok k
    → ((read base_path key (write base_path key r d).1).0
        ≡ ok (record { body = r.body; failure = none }))
      × (k ≡ pos (length r.body))
      × (r.failure ≡ none)
write-read base_path key r d k h =
    let l = locate (join_path base_path key) in
    let d' = (write base_path key r d).1 in
    let done = write-Written base_path key r d in
    let (a, s, c) = done.2 k h in
    let free : d'.denied l ≡ none = ap (λ g. g l) done.0 ∙ a in
    let (fine, count) = copied_ok r k c in
    ((unfold read opened open_file open_place in rw (free, s, open_file)), count, fine)

-- Whatever a `Write` returns, a `Read` of another place returns what it returned before, where
-- that was no error.
pub write_elsewhere :
    (base_path key other : Text) (r f : Reader) (d : Disk)
    → locate (join_path base_path other) ≢ locate (join_path base_path key)
    → (read base_path other d).0 ≡ ok f
    → (read base_path other (write base_path key r d).1).0 ≡ ok f
unfolding read
write_elsewhere base_path key other r f d n h =
    let m = locate (join_path base_path other) in
    let d' = (write base_path key r d).1 in
    let done = write-Written base_path key r d in
    let (node, s) = opened_found base_path m f d h in
    ap (opened base_path) (open_file_same m d d' done.0 (done.1 m node n s ∙ sym s)) ∙ h
