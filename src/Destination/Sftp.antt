-- ===== src/Destination/Sftp.antt =====
-- internal/destination/sftp.go: a destination on an SFTP server. The SSH and SFTP libraries are a
-- parameter; a connection and a client are numbers that they give out.
pub mod Removal
pub mod Connection
use supaback.Prelude.{
  ℕ, Text, codes, is_empty, List, [], ◌∷◌, ◌++◌, Bool, true, false, ◌||◌, ◌==◌, Option, none, some,
  Result, ok, err, if◌then◌else◌,
}
use supaback.Prelude.Int.{ℤ, pos, is_zero}
use supaback.Strconv.{itoa}
use supaback.Config.{SftpConfig}
use supaback.Path.{join_path}
use supaback.Path.Relative.{dir, rel}
use supaback.Disk.{Sys, done, missing, failed}
use supaback.Destination.{FileInfo, Reader}

pub data Auth : Type 0 where
  by_password : Text → Auth
  by_key : Text → Auth

-- `ssh.ClientConfig`, less the callback that takes every host key and the timeout.
pub record ClientConfig : Type 0 where
  pub user : Text
  pub auth : List Auth

-- A step of a walk.
pub data Step : Type 0 where
  unread : Step
  on_directory : Step
  on_file : Text → ℤ → Step

pub record Ssh (W : Type 0) : Type 0 where
  pub read_file : Text → W → Result Text
  pub parse_private_key : Text → Result Text
  pub dial : Text → ClientConfig → W → Result ℕ × W
  pub new_client : ℕ → W → Result ℕ × W
  pub close_connection : ℕ → W → W
  pub close_client : ℕ → W → W
  pub answers : ℕ → W → Bool × W
  pub mkdir_all : ℕ → Text → W → Option Text × W
  pub create_file : ℕ → Text → W → Option Text × W
  pub copy : ℕ → Text → Reader → W → Result ℤ × W
  pub read_dir : ℕ → Text → W → Sys (List (Text × Bool)) × W
  pub walk : ℕ → Text → W → List Step × W
  pub open_file : ℕ → Text → W → Result Reader × W
  pub remove : ℕ → Text → W → Option Text × W
  pub remove_directory : ℕ → Text → W → Option Text × W

-- What `sftpDest` keeps, and the world.
pub record Session (W : Type 0) : Type 0 where
  pub ssh_conn : Option ℕ
  pub sftp_client : Option ℕ
  pub world : W

abbrev pub or_port : ℤ → ℤ
or_port port = if is_zero port then pos 22 else port

-- `net.JoinHostPort`: a host with a colon or a percent sign stands in brackets.
unfoldable pub is_literal : Text → Bool
is_literal [] = false
is_literal (c ∷ s) = c == b':' || c == 37 || is_literal s

unfoldable pub join_host_port : Text → Text → Text
join_host_port host port =
    if is_literal host then b'[' ∷ (host ++ (codes "]:" ++ port)) else host ++ (b':' ∷ port)

module _ {W : Type 0} (ssh : Ssh W) (cfg : SftpConfig) where
  abbrev pub with_password : List Auth
  with_password = if is_empty cfg.password then [] else by_password cfg.password ∷ []

  signer_of : Result Text → Result (List Auth)
  signer_of (err e) = err (codes "parse ssh key: " ++ e)
  signer_of (ok signer) = ok (with_password ++ (by_key signer ∷ []))

  with_key : Result Text → Result (List Auth)
  unfolding signer_of
  with_key (err e) = err (codes "read ssh key: " ++ e)
  with_key (ok key) = signer_of (ssh.parse_private_key key)

  checked : Result (List Auth) → Result (List Auth)
  checked (err e) = err e
  checked (ok []) = err (codes "sftp: no auth method configured (set password or key_path)")
  checked (ok (a ∷ auths)) = ok (a ∷ auths)

  -- `authMethods`, or the error that ends `connect`.
  unfoldable pub auth_methods : W → Result (List Auth)
  unfolding checked with_key
  auth_methods w =
      if is_empty cfg.key_path
      then checked (ok with_password)
      else checked (with_key (ssh.read_file cfg.key_path w))

  abbrev pub close_old : (ℕ → W → W) → Option ℕ → W → W
  close_old close none w = w
  close_old close (some c) w = close c w

  -- The new connection and client take the place of the old ones, which are closed.
  connected : Session W → ℕ → Result ℕ × W → Result ℕ × Session W
  connected s conn (err e, w) =
      (err (codes "sftp client: " ++ e), record s { world = ssh.close_connection conn w })
  connected s conn (ok client, w) = (
    ok client,
    record {
      ssh_conn = some conn;
      sftp_client = some client;
      world =
          close_old ssh.close_connection s.ssh_conn (close_old ssh.close_client s.sftp_client w);
    },
  )

  dialled : Session W → Text → Result ℕ × W → Result ℕ × Session W
  unfolding connected
  dialled s port (err e, w) = (
    err (codes "ssh dial " ++ (cfg.host ++ (b':' ∷ (port ++ (codes ": " ++ e))))),
    record s { world = w },
  )
  dialled s port (ok conn, w) = connected s conn (ssh.new_client conn w)

  dial_with : Session W → Result (List Auth) → Result ℕ × Session W
  unfolding dialled
  dial_with s (err e) = (err e, s)
  dial_with s (ok auths) =
      let port = itoa (or_port cfg.port) in
      dialled s port
        (ssh.dial (join_host_port cfg.host port) (record { user = cfg.user; auth = auths }) s.world)

  -- `connect`: the client, on success.
  unfoldable pub connect : Session W → Result ℕ × Session W
  unfolding dial_with
  connect s = dial_with s (auth_methods s.world)

  pinged : Session W → ℕ → Bool × W → Result ℕ × Session W
  pinged s c (true, w) = (ok c, record s { world = w })
  pinged s c (false, w) = connect (record s { world = w })

  client_of : Session W → Option ℕ → Result ℕ × Session W
  unfolding pinged
  client_of s none = connect s
  client_of s (some c) = pinged s c (ssh.answers c s.world)

  -- `client`: the client that there is, if it answers, or a new one. The lock is held throughout.
  unfoldable pub client : Session W → Result ℕ × Session W
  unfolding client_of
  client s = client_of s s.sftp_client

  -- A call with the client.
  unfoldable pub with_client :
      {A : Type 0} → (ℕ → W → Result A × W) → Result ℕ × Session W → Result A × Session W
  with_client call (err e, s) = (err e, s)
  with_client call (ok c, s) = let (r, w) = call c s.world in (r, record s { world = w })

  copied : ℕ → Text → Reader → Option Text × W → Result ℤ × W
  copied c remote r (some e, w) = (err (codes "sftp create " ++ (remote ++ (codes ": " ++ e))), w)
  copied c remote r (none, w) = ssh.copy c remote r w

  created : ℕ → Text → Reader → Option Text × W → Result ℤ × W
  unfolding copied
  created c remote r (some e, w) = (err (codes "sftp mkdir: " ++ e), w)
  created c remote r (none, w) = copied c remote r (ssh.create_file c remote w)

  -- `Write`.
  unfoldable pub write : Text → Reader → Session W → Result ℤ × Session W
  unfolding created
  write key r s =
      let remote = join_path cfg.remote_path key in
      with_client (λ c w. created c remote r (ssh.mkdir_all c (dir remote) w)) (client s)

  unfoldable pub dir_of : Text → Text
  dir_of [] = cfg.remote_path
  dir_of (c ∷ prefix) = join_path cfg.remote_path (c ∷ prefix)

  directories : List (Text × Bool) → List Text
  directories [] = []
  directories ((name, is_dir) ∷ es) =
      let rest = directories es in if is_dir then name ∷ rest else rest

  listed : Sys (List (Text × Bool)) × W → Result (List Text) × W
  unfolding directories
  listed (done es, w) = (ok (directories es), w)
  listed (missing e, w) = (ok [], w)
  listed (failed e, w) = (err e, w)

  -- `List`.
  unfoldable pub list : Text → Session W → Result (List Text) × Session W
  unfolding listed
  list prefix s = with_client (λ c w. listed (ssh.read_dir c (dir_of prefix) w)) (client s)

  -- The files of a walk; what cannot be read is passed over.
  files_of : List Step → List FileInfo
  files_of [] = []
  files_of (unread ∷ steps) = files_of steps
  files_of (on_directory ∷ steps) = files_of steps
  files_of (on_file path size ∷ steps) =
      record { key = rel cfg.remote_path path; size = size } ∷ files_of steps

  walked : List Step × W → Result (List FileInfo) × W
  unfolding files_of
  walked (steps, w) = (ok (files_of steps), w)

  -- `ListFiles`.
  unfoldable pub list_files : Text → Session W → Result (List FileInfo) × Session W
  unfolding walked
  list_files prefix s = with_client (λ c w. walked (ssh.walk c (dir_of prefix) w)) (client s)

  -- `Read`.
  unfoldable pub read : Text → Session W → Result Reader × Session W
  read key s = with_client (λ c w. ssh.open_file c (join_path cfg.remote_path key) w) (client s)

  -- `String`.
  unfoldable pub to_text : Text
  to_text = codes "sftp://" ++ (cfg.user ++ (b'@' ∷ (cfg.host ++ cfg.remote_path)))

  -- `newSFTP`.
  unfoldable pub new_sftp : W → Result ℕ × Session W
  new_sftp w = connect (record { ssh_conn = none; sftp_client = none; world = w })
