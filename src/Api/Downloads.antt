-- ===== src/Api/Downloads.antt =====
-- internal/api/handlers.go: the downloads, of one file and of the archive of a date.
pub mod Below
pub mod Archive
use supaback.Prelude.{
  ℕ, Text, codes, is_empty, List, [], ◌∷◌, ◌++◌, Bool, true, false, not, ◌&&◌, ◌||◌, ◌==◌, Result,
  ok, err, if◌then◌else◌,
}
use supaback.Strconv.{has_dots}
use supaback.Time.{has_layout}
use supaback.Path.{is_rooted, clean, base}
use supaback.Destination.{Destination, FileInfo, Reader}
use supaback.Api.{Response, fail}

-- What the client gets: an answer, a file, or an archive of files, and the name it is saved under.
pub data Download : Type 0 where
  answered : Response → Download
  file_sent : Text → Reader → Download
  archive_sent : Text → List (Text × Reader) → Download

module _ {W : Type 0} (dest : Destination W) where
  unfoldable pub opened : Text → Result Reader × W → Download × W
  opened cleaned (err e, w) = (answered (fail 404 (codes "backup not found: " ++ e)), w)
  opened cleaned (ok r, w) = (file_sent (base cleaned) r, w)

  unfoldable pub fetch : Text → W → Download × W
  unfolding opened
  fetch cleaned w =
      if has_dots cleaned || is_rooted cleaned
      then (answered (fail 400 (codes "invalid key")), w)
      else opened cleaned (dest.read cleaned w)

  -- `DownloadBackup`, with the query's `key`.
  unfoldable pub download_backup : Text → W → Download × W
  unfolding fetch
  download_backup key w =
      if is_empty key
      then (answered (fail 400 (codes "key is required")), w)
      else fetch (clean key) w

  module _ (creates : Text → Bool) where
    -- One file of the archive: it is left out if it cannot be read, or if `zw.Create` fails.
    unfoldable pub with_file : Text → Result Reader → List (Text × Reader) → List (Text × Reader)
    with_file key (err e) rest = rest
    with_file key (ok r) rest = if creates key then (key, r) ∷ rest else rest

    unfoldable pub archive : List FileInfo → W → List (Text × Reader) × W
    unfolding with_file
    archive [] w = ([], w)
    archive (f ∷ fs) w =
        let (r, w') = dest.read f.key w in
        let (rest, w'') = archive fs w' in (with_file f.key r rest, w'')

    unfoldable pub zipped : Text → Result (List FileInfo) × W → Download × W
    zipped date (err e, w) = (answered (fail 500 e), w)
    zipped date (ok [], w) = (answered (fail 404 (codes "no files found for " ++ date)), w)
    zipped date (ok (f ∷ fs), w) =
        let (entries, w') = archive (f ∷ fs) w in
        (archive_sent (codes "backup-" ++ (date ++ codes ".zip")) entries, w')

    -- `DownloadBackupDate`, with the route's `date`.
    unfoldable pub download_backup_date : Text → W → Download × W
    unfolding zipped
    download_backup_date date w =
        if has_layout date
        then zipped date (dest.list_files date w)
        else (answered (fail 400 (codes "invalid date")), w)
