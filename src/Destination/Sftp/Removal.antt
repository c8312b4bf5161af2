-- ===== src/Destination/Sftp/Removal.antt =====
-- internal/destination/sftp.go: `Delete`, and the removal of a directory with all that it holds.
pub mod Tree
pub mod Among
pub mod Gone
use supaback.Prelude.{
  ℕ, zero, suc, Text, List, [], ◌∷◌, Bool, Option, none, some, Result, ok, err, if◌then◌else◌,
}
use supaback.Config.{SftpConfig}
use supaback.Path.{join_path}
use supaback.Disk.{Sys, done, missing, failed}
use supaback.Backup.{Outcome}
use supaback.Backup
use supaback.Destination.Sftp.{Ssh, Session, client}

module _ {W : Type 0} (ssh : Ssh W) (cfg : SftpConfig) where
  of_error : Option Text × W → Outcome (Unit {0}) × W
  of_error (none, w) = (Backup.done tt, w)
  of_error (some e, w) = (Backup.failed e, w)

  module _ (c : ℕ) (sub : Text → W → Outcome (Unit {0}) × W) where
    -- The entries of a directory, up to the first error: `sub` removes a directory.
    unfoldable pub remove_entries :
        Text → List (Text × Bool) → Outcome (Unit {0}) × W → Outcome (Unit {0}) × W
    unfolding of_error
    remove_entries path [] r = r
    remove_entries path ((name, is_dir) ∷ es) (Backup.done u, w) =
        let full = join_path path name in
        remove_entries path es (if is_dir then sub full w else of_error (ssh.remove c full w))
    remove_entries path (e ∷ es) (Backup.failed m, w) = (Backup.failed m, w)
    remove_entries path (e ∷ es) (Backup.panicked, w) = (Backup.panicked, w)
    remove_entries path (e ∷ es) (Backup.exhausted, w) = (Backup.exhausted, w)

    emptied : Text → Outcome (Unit {0}) × W → Outcome (Unit {0}) × W
    unfolding of_error
    emptied path (Backup.done u, w) = of_error (ssh.remove_directory c path w)
    emptied path (Backup.failed m, w) = (Backup.failed m, w)
    emptied path (Backup.panicked, w) = (Backup.panicked, w)
    emptied path (Backup.exhausted, w) = (Backup.exhausted, w)

    unfoldable pub remove_at : Text → Sys (List (Text × Bool)) × W → Outcome (Unit {0}) × W
    unfolding emptied of_error
    remove_at path (done es, w) = emptied path (remove_entries path es (Backup.done tt, w))
    remove_at path (missing e, w) = of_error (ssh.remove c path w)
    remove_at path (failed e, w) = of_error (ssh.remove c path w)

  -- `removeAllSFTP`, of directories at most `depth` deep.
  unfoldable pub remove_all : ℕ → ℕ → Text → W → Outcome (Unit {0}) × W
  remove_all zero c path w = (Backup.exhausted, w)
  remove_all (suc depth) c path w = remove_at c (remove_all depth c) path (ssh.read_dir c path w)

  deleted_at : ℕ → Text → Result ℕ × Session W → Outcome (Unit {0}) × Session W
  deleted_at depth path (err e, s) = (Backup.failed e, s)
  deleted_at depth path (ok c, s) =
      let (r, w) = remove_all depth c path s.world in (r, record s { world = w })

  -- `Delete`.
  unfoldable pub delete : ℕ → Text → Session W → Outcome (Unit {0}) × Session W
  unfolding deleted_at
  delete depth key s = deleted_at depth (join_path cfg.remote_path key) (client ssh cfg s)
