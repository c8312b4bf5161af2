-- ===== src/Destination/Sftp/Removal/Gone.antt =====
-- What the removal of a directory on an SFTP server leaves.
use mathlib.Core.Path.{subst}
use supaback.Prelude.{
  ℕ, zero, suc, Text, List, [], ◌∷◌, In, Bool, true, false, ◌||◌, Option, none, some, ok, ◌≡◌, refl,
  ap, ◌∙◌, arith, if◌then◌else◌, Bool-cases, inl, inr, text_eq, text_eq_iff,
}
use supaback.Config.{SftpConfig}
use supaback.Path.{Location, is_name, locate, join_path}
use supaback.Path.Below.{locate_name}
use supaback.Disk.{is_within}
use supaback.Disk.Remove.{sibling}
use supaback.Backup.{Outcome}
use supaback.Backup
use supaback.Destination.Sftp.{Ssh, Session, client}
use supaback.Destination.Sftp.Removal
use supaback.Destination.Sftp.Removal.{remove_entries, remove_at, remove_all, delete}
use supaback.Destination.Sftp.Removal.Tree.{
  Distinct, Gone, Rooted, IsServer, Shallow, apart, Gone-Rooted, inner-Rooted, file_Gone,
  Gone-Shallow, inner-Shallow,
}
use supaback.Destination.Sftp.Removal.Among.{among, among_self, inner_gone, emptied-Gone}

-- The calls of the removal, on a server.
module _ {W : Type 0} (ssh : Ssh W) (cfg : SftpConfig) (at : W → Location → Option Bool) (c : ℕ)
    (server : IsServer ssh at c) where
  -- A call that returns no error and removes what lies within a location.
  abbrev Removes : Location → W → Outcome (Unit {0}) × W → Type 0
  Removes dir w r = (r.0 ≡ Backup.done tt) × Gone at dir w r.1

  whole : (r : Outcome (Unit {0}) × W) → r.0 ≡ Backup.done tt → r ≡ (Backup.done tt, r.1)
  whole r h = ap (λ o. (o, r.1)) h

  of_error-done :
      (r : Option Text × W) → r.0 ≡ none → Removal.of_error ssh cfg r ≡ (Backup.done tt, r.1)
  unfolding Removal.of_error
  of_error-done (none, w) h = refl
  of_error-done (some e, w) h = cc

  module _ (sub : Text → W → Outcome (Unit {0}) × W) (depth : ℕ)
      (subs : (p : Text) (w : W)
        → at w (locate p) ≡ some true
        → Rooted at (locate p) w
        → Shallow at (locate p) depth w
        → Removes (locate p) w (sub p w))
      (path : Text) where
    abbrev entry_removed : Text × Bool → W → Outcome (Unit {0}) × W
    entry_removed (n, b) w =
        if b
        then sub (join_path path n) w
        else Removal.of_error ssh cfg (ssh.remove c (join_path path n) w)

    entry_Removes :
        (n : Text) (b : Bool) (w : W)
        → is_name n ≡ true
        → at w (n ∷ locate path) ≡ some b
        → Rooted at (locate path) w
        → Shallow at (locate path) (suc depth) w
        → Removes (n ∷ locate path) w (entry_removed (n, b) w)
    entry_Removes n true w m i r h =
        let place = locate_name path n m in
        subst (λ l. Removes l w (sub (join_path path n) w)) place
          (subs (join_path path n) w (ap (at w) place ∙ i)
            (rw place (inner-Rooted at (locate path) n w r))
            (rw place (inner-Shallow at (locate path) n depth w h)))
    entry_Removes n false w m i r h =
        let place = locate_name path n m in
        let (fine, gone) = server.removes (join_path path n) w (ap (at w) place ∙ i) in
        rw (of_error-done (ssh.remove c (join_path path n) w) fine) (
          refl,
          file_Gone at (n ∷ locate path) w _ (inner-Rooted at (locate path) n w r) i
              (rw place at gone),
        )

    other_name :
        (n k : Text) (e : Bool) (es : List (Text × Bool))
        → ((b : Bool) → ¬ In (n, b) es)
        → In (k, e) es
        → text_eq k n ≡ false
    other_name n k e es d j = elim (Bool-cases (text_eq k n)) [
      | inl t ↦ let there : In (n, e) es = rw ((text_eq_iff k n).0 t) at j in absurd (d e there)
      | inr f ↦ f
    ]

    gone_or :
        (a b : Bool) (x y : Option Bool)
        → y ≡ (if a then none else x)
        → (if b then none else y) ≡ (if a || b then none else x)
    gone_or a true x y h = ground arith
    gone_or true false x y h = h
    gone_or false false x y h = h

    -- The loop over the entries removes what lies within each of them.
    entries_removed :
        (es : List (Text × Bool)) (w : W)
        → Rooted at (locate path) w
        → Shallow at (locate path) (suc depth) w
        → ((n : Text) (b : Bool)
            → In (n, b) es
            → (is_name n ≡ true) × (at w (n ∷ locate path) ≡ some b))
        → Distinct es
        → let r = remove_entries ssh cfg c sub path es (Backup.done tt, w) in
          (r.0 ≡ Backup.done tt)
          × ((l : Location) → at r.1 l ≡ (if among at es (locate path) l then none else at w l))
    unfolding remove_entries among
    entries_removed [] w r h i d = (refl, λ l. refl)
    entries_removed ((n, b) ∷ es) w r h i d =
        let dir = locate path in
        let (m, a) = i n b (inl refl) in
        let (fine, gone) = entry_Removes n b w m a r h in
        let w' = (entry_removed (n, b) w).1 in
        let (ok', rest) =
          entries_removed es w' (Gone-Rooted at (n ∷ dir) dir w w' gone r)
            (Gone-Shallow at (n ∷ dir) dir (suc depth) w w' gone h)
            (λ k e j. (
              (i k e (inr j)).0,
              apart at (n ∷ dir) (k ∷ dir) w w' gone (sibling n k dir ∙ other_name n k e es d.0 j)
                  ∙ (i k e (inr j)).1,
            ))
            d.1 in
        rw (whole (entry_removed (n, b) w) fine, remove_entries)
          (
            ok',
            λ l.
                rest l
                ∙ gone_or (is_within (n ∷ dir) l) (among at es dir l) (at w l) (at w' l) (gone l),
          )

  -- The last call, after the loop.
  emptied-done :
      (sub : Text → W → Outcome (Unit {0}) × W) (p : Text) (r : Outcome (Unit {0}) × W)
      → r.0 ≡ Backup.done tt
      → (ssh.remove_directory c p r.1).0 ≡ none
      → Removal.emptied ssh cfg c sub p r ≡ (Backup.done tt, (ssh.remove_directory c p r.1).1)
  unfolding Removal.emptied
  emptied-done sub p r h last =
      rw (whole r h, Removal.emptied) (of_error-done (ssh.remove_directory c p r.1) last)

  -- A directory on the server that is less than `depth` deep, where what holds something is a
  -- directory, is removed without an error, with all that lies within it and nothing else.
  remove_all-Gone :
      (depth : ℕ) (p : Text) (w : W)
      → at w (locate p) ≡ some true
      → Rooted at (locate p) w
      → Shallow at (locate p) depth w
      → Removes (locate p) w (remove_all ssh cfg depth c p w)
  unfolding remove_all remove_at
  remove_all-Gone zero p w d r h = absurd (omega (arith, h [] true d))
  remove_all-Gone (suc depth) p w d r h =
      let (es, q, i) = server.lists p w d in
      let sub = remove_all ssh cfg depth c in
      let held : (n : Text) (b : Bool)
          → In (n, b) es
          → (is_name n ≡ true) × (at w (n ∷ locate p) ≡ some b) =
        λ n b j. (i.named n b j, (i.listed n b).0 j) in
      let (fine, rest) =
        entries_removed sub depth (remove_all-Gone depth) p es w r h held i.distinct in
      let w' = (remove_entries ssh cfg c sub p es (Backup.done tt, w)).1 in
      let (last, gone) =
        server.removes_directory p w' (rest (locate p) ∙ (rw (among_self at es (locate p)) d))
          (λ n. inner_gone at es (locate p) w w' [] n r i rest) in
      rw (q, emptied-done sub p (remove_entries ssh cfg c sub p es (Backup.done tt, w)) fine last)
        (refl, emptied-Gone at es (locate p) w w' _ r i rest gone)

  -- `Delete` of a directory on the server that is less than `depth` deep, by a session whose client
  -- answers or is renewed, returns no error and removes all that lies within the directory, and
  -- nothing else.
  pub delete-Gone :
      (depth : ℕ) (key : Text) (s s' : Session W)
      → client ssh cfg s ≡ (ok c, s')
      → at s'.world (locate (join_path cfg.remote_path key)) ≡ some true
      → Rooted at (locate (join_path cfg.remote_path key)) s'.world
      → Shallow at (locate (join_path cfg.remote_path key)) depth s'.world
      → let r = delete ssh cfg depth key s in
        (r.0 ≡ Backup.done tt) × Gone at (locate (join_path cfg.remote_path key)) s'.world r.1.world
  unfolding delete Removal.deleted_at
  delete-Gone depth key s s' q d r h =
      rw q (remove_all-Gone depth (join_path cfg.remote_path key) s'.world d r h)
