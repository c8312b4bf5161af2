-- ===== src/Api/Downloads/Below.antt =====
-- A download from a directory of the disk stays below it.
use supaback.Prelude.{
  Option, Text, codes, List, [], ◌∷◌, ◌++◌, All, true, false, ◌||◌, is_empty, ◌≡◌, ◌≢◌, sym, inl,
  inr, arith, Result, ok, err, Bool-cases,
}
use supaback.Strconv.{split, starts_with_dots, has_dots}
use supaback.Strconv.Dots.{NoDots, split-NoDots}
use supaback.Path.{locate, join_path, is_rooted, clean, base}
use supaback.Path.Below.{NoUp, locate_below}
use supaback.Disk.{Disk, open_file}
use supaback.Destination.{Reader}
use supaback.Destination.Local
use supaback.Destination.Local.{read, local}
use supaback.Api.{Response}
use supaback.Api.Downloads
use supaback.Api.Downloads.{Download, answered, file_sent, fetch, download_backup}

dots_found : (x : Text) → NoDots x → x ≢ codes ".."
unfolding has_dots starts_with_dots
dots_found x h e = true_not_false (rw e at h)
  where
    true_not_false : true ≢ false
    true_not_false q = cc

NoDots-NoUp : (xs : List Text) → All NoDots xs → NoUp xs
NoDots-NoUp [] h = tt
NoDots-NoUp (x ∷ xs) h = (dots_found x h.0, NoDots-NoUp xs h.1)

opened_sent :
    (base_path cleaned name : Text) (r : Result Reader × Disk) (f : Reader)
    → (Downloads.opened (local base_path) cleaned r).0 ≡ file_sent name f
    → (r.0 ≡ ok f) × (name ≡ base cleaned)
unfolding Downloads.opened
opened_sent base_path cleaned name (ok g, d) f h = (cc, cc)
opened_sent base_path cleaned name (err e, d) f h = cc

opened_read :
    (base_path : Text) (r : Result (Text × Option Text)) (f : Reader)
    → Local.opened base_path r ≡ ok f
    → r ≡ ok (f.body, f.failure)
unfolding Local.opened
opened_read base_path (ok (body, failure)) f h = cc
opened_read base_path (err e) f h = cc

answered_sent : (r : Response) (name : Text) (f : Reader) → answered r ≢ file_sent name f
answered_sent r name f h = cc

fetch_below :
    (base_path cleaned name : Text) (f : Reader) (d : Disk)
    → (fetch (local base_path) cleaned d).0 ≡ file_sent name f
    → (ys : List Text) × (open_file (ys ++ locate base_path) d ≡ ok (f.body, f.failure))
unfolding fetch read
fetch_below base_path cleaned name f d h =
    elim (Bool-cases (has_dots cleaned || is_rooted cleaned)) [
      | inl t ↦ absurd (answered_sent _ name f (rw (t, fetch) at h))
      | inr g ↦
          let (ys, e) =
            locate_below base_path cleaned (ground arith)
              (NoDots-NoUp (split b'/' cleaned) (split-NoDots b'/' cleaned (ground arith))) in
          let sent =
            opened_sent base_path cleaned name (read base_path cleaned d) f (rw (g, fetch) at h) in
          (
            ys,
            rw (sym e) (
                opened_read base_path (open_file (locate (join_path base_path cleaned)) d) f
                  sent.0),
          )
    ]

-- A file that `DownloadBackup` sends from a directory of the disk lies below that directory,
-- whatever the key: it is what opening a location below the base path gives.
pub download_below :
    (base_path key name : Text) (f : Reader) (d : Disk)
    → (download_backup (local base_path) key d).0 ≡ file_sent name f
    → (ys : List Text) × (open_file (ys ++ locate base_path) d ≡ ok (f.body, f.failure))
unfolding download_backup
download_below base_path key name f d h = elim (Bool-cases (is_empty key)) [
  | inl t ↦ absurd (answered_sent _ name f (rw (t, download_backup) at h))
  | inr g ↦ fetch_below base_path (clean key) name f d (rw (g, download_backup) at h)
]
