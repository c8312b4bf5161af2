-- ===== src/Config.antt =====
-- internal/config/config.go: the configuration, its defaults, environment and validation.
pub mod Key
pub mod Settings
pub mod Validity
pub mod Merge
pub mod Environment
use supaback.Prelude.{
  ℕ, Text, codes, is_empty, Result, ok, err, wrap_err, ◌>>=◌, List, [], ◌∷◌, ◌++◌, Bool, true,
  false, not, ◌&&◌, ◌||◌, Option, none, some, text_eq, if◌then◌else◌,
}
use supaback.Prelude.Int.{ℤ, pos}

pub record SupabaseConfig : Type 0 where
  pub url : Text
  pub service_key : Text
  pub database_url : Text

pub record RetentionConfig : Type 0 where
  pub keep_last : ℤ
  pub keep_days : ℤ

pub record BackupConfig : Type 0 where
  pub include_database : Bool
  pub include_storage : Bool
  pub buckets : List Text
  pub compress : Bool
  pub retention : RetentionConfig

pub record S3Config : Type 0 where
  pub endpoint : Text
  pub region : Text
  pub bucket : Text
  pub prefix : Text
  pub access_key_id : Text
  pub secret_access_key : Text
  pub force_path_style : Bool

pub record SftpConfig : Type 0 where
  pub host : Text
  pub port : ℤ
  pub user : Text
  pub password : Text
  pub key_path : Text
  pub remote_path : Text

pub record DestinationConfig : Type 0 where
  pub type : Text
  pub local_path : Text
  pub s3 : S3Config
  pub sftp : SftpConfig

pub record StoreConfig : Type 0 where
  pub path : Text

pub record ServerConfig : Type 0 where
  pub port : ℤ
  pub host : Text
  pub static_dir : Text

pub record Config : Type 0 where
  pub supabase : SupabaseConfig
  pub backup : BackupConfig
  pub destination : DestinationConfig
  pub store : StoreConfig
  pub server : ServerConfig

-- `ForType`: a copy for one type of backup. A type that it does not know leaves both halves as they are.
unfoldable pub for_type : Text → Config → Config
for_type job_type c =
    if text_eq job_type (codes "database")
    then record c { backup = record c.backup { include_storage = false } }
    else if text_eq job_type (codes "storage")
    then record c { backup = record c.backup { include_database = false } }
    else c

abbrev pub no_s3 : S3Config
no_s3 = record {
  endpoint = [];
  region = [];
  bucket = [];
  prefix = [];
  access_key_id = [];
  secret_access_key = [];
  force_path_style = false;
}

abbrev pub no_sftp : SftpConfig
no_sftp = record {
  host = [];
  port = pos 0;
  user = [];
  password = [];
  key_path = [];
  remote_path = [];
}

abbrev pub defaults : Config
defaults = record {
  supabase = record { url = []; service_key = []; database_url = [] };
  backup = record {
    include_database = true;
    include_storage = true;
    buckets = [];
    compress = true;
    retention = record { keep_last = pos 0; keep_days = pos 0 };
  };
  destination = record {
    type = codes "local";
    local_path = codes "./backups";
    s3 = no_s3;
    sftp = no_sftp;
  };
  store = record { path = codes "./supaback.db" };
  server = record { port = pos 8080; host = codes "0.0.0.0"; static_dir = [] };
}

-- An environment: `os.Getenv`, which is empty for a variable that is not set.
abbrev pub Env : Type 0
Env = Text → Text

-- `if v := os.Getenv(k); v != "" { x = v }`
abbrev pub or_env : Text → Text → Text
or_env [] old = old
or_env (c ∷ v) old = c ∷ v

-- `applyEnv`. `scan` is `fmt.Sscanf(v, "%d", …)`: the number that the text begins with, if any;
-- only then is the port assigned.
or_port : (Text → Option ℤ) → Text → ℤ → ℤ
or_port scan [] old = old
or_port scan (c ∷ v) old = elim (scan (c ∷ v)) [ some n ↦ n | none ↦ old ]

unfoldable pub apply_env : (Text → Option ℤ) → Env → Config → Config
unfolding or_port
apply_env scan env c = record c {
  supabase = record {
    url = or_env (env (codes "SUPABASE_URL")) c.supabase.url;
    service_key = or_env (env (codes "SUPABASE_SERVICE_KEY")) c.supabase.service_key;
    database_url = or_env (env (codes "SUPABASE_DB_URL")) c.supabase.database_url;
  };
  destination = record c.destination {
    local_path = or_env (env (codes "LOCAL_BACKUP_PATH")) c.destination.local_path;
    s3 = record c.destination.s3 {
      endpoint = or_env (env (codes "S3_ENDPOINT")) c.destination.s3.endpoint;
      region = or_env (env (codes "S3_REGION")) c.destination.s3.region;
      bucket = or_env (env (codes "S3_BUCKET")) c.destination.s3.bucket;
      access_key_id = or_env (env (codes "S3_ACCESS_KEY_ID")) c.destination.s3.access_key_id;
      secret_access_key =
          or_env (env (codes "S3_SECRET_ACCESS_KEY")) c.destination.s3.secret_access_key;
    };
  };
  store = record { path = or_env (env (codes "STORE_PATH")) c.store.path };
  server = record c.server {
    port = or_port scan (env (codes "PORT")) c.server.port;
    static_dir = or_env (env (codes "STATIC_DIR")) c.server.static_dir;
  };
}

-- How `os.ReadFile` ends.
pub data FileRead : Type 0 where
  contents : Text → FileRead
  missing : FileRead
  failed : Text → FileRead

-- `Load`, with what the read of its path returns: no file is read where the path is empty.
-- `unmarshal` is `yaml.Unmarshal` into the configuration that it is given.
unfoldable pub load :
    (Text → Config → Result Config) → (Text → Option ℤ) → Env → Text → FileRead → Result Config
load unmarshal scan env [] file = ok (apply_env scan env defaults)
load unmarshal scan env (c ∷ path) (contents d) = do
  cfg ← wrap_err (codes "parse config: ") (unmarshal d defaults)
  ok (apply_env scan env cfg)
load unmarshal scan env (c ∷ path) missing = ok (apply_env scan env defaults)
load unmarshal scan env (c ∷ path) (failed e) = err (codes "read config: " ++ e)

-- `Validate`: the first message that applies.
validate_s3 : S3Config → Option Text
validate_s3 s3 =
    if is_empty s3.bucket
    then some (codes "S3 bucket is required")
    else if is_empty s3.access_key_id || is_empty s3.secret_access_key
    then some (codes "S3 credentials are required")
    else none

unfoldable pub validate : Config → Option Text
unfolding validate_s3
validate c =
    if is_empty c.supabase.url
    then some (codes "Supabase URL is required")
    else if is_empty c.supabase.service_key
    then some (codes "Supabase service key is required")
    else if c.backup.include_database && is_empty c.supabase.database_url
    then some (codes "database URL is required when database backup is enabled")
    else if text_eq c.destination.type (codes "s3")
    then validate_s3 c.destination.s3
    else none

-- `IsConfigured`, of settings.go.
unfoldable pub is_configured : Config → Bool
is_configured c = not (is_empty c.supabase.url) && not (is_empty c.supabase.service_key)
