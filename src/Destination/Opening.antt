-- ===== src/Destination/Opening.antt =====
-- internal/destination/destination.go: `New`, the choice among the destinations. fmt's verb `%q` is a
-- parameter.
use supaback.Prelude.{ℕ, Text, codes, [], ◌∷◌, ◌++◌, Result, ok, err, text_eq, if◌then◌else◌}
use supaback.Config.{DestinationConfig}
use supaback.Disk.{Disk}
use supaback.Destination.Local.{new_local}
use supaback.Destination.S3.{S3Dest, Sdk, new_s3}
use supaback.Destination.Sftp.{Ssh, Session, new_sftp}

-- A destination that was opened: the base path of a local one, a bucket, or an SFTP session.
pub data Opened (W : Type 0) : Type 0 where
  local_dest : Text → Opened W
  s3_dest : S3Dest → Opened W
  sftp_dest : Session W → Opened W

abbrev pub or_local : Text → Text
or_local [] = codes "local"
or_local (c ∷ t) = c ∷ t

module _ {V W : Type 0} (quote : Text → Text) (sdk : Sdk V) (ssh : Ssh W) where
  of_local : W → Result Text × Disk → Result (Opened W) × Disk × W
  of_local w (ok base_path, disk) = (ok (local_dest base_path), disk, w)
  of_local w (err e, disk) = (err e, disk, w)

  of_s3 : Disk → W → Result S3Dest → Result (Opened W) × Disk × W
  of_s3 disk w (ok d) = (ok (s3_dest d), disk, w)
  of_s3 disk w (err e) = (err e, disk, w)

  of_sftp : Disk → Result ℕ × Session W → Result (Opened W) × Disk × W
  of_sftp disk (ok c, s) = (ok (sftp_dest s), disk, s.world)
  of_sftp disk (err e, s) = (err e, disk, s.world)

  -- `New`.
  unfoldable pub new : DestinationConfig → Disk → W → Result (Opened W) × Disk × W
  unfolding of_local of_s3 of_sftp
  new cfg disk w =
      let t = or_local cfg.type in
      if text_eq t (codes "local")
      then of_local w (new_local cfg.local_path disk)
      else if text_eq t (codes "s3")
      then of_s3 disk w (new_s3 sdk cfg.s3)
      else if text_eq t (codes "sftp")
      then of_sftp disk (new_sftp ssh cfg.sftp w)
      else (err (codes "unknown destination type: " ++ quote t), disk, w)
