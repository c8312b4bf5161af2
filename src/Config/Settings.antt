-- ===== src/Config/Settings.antt =====
-- internal/config/settings.go: the configuration as a map of settings, and the map that the
-- environment gives.
use supaback.Prelude.{
  Text, codes, is_empty, List, [], ◌∷◌, Bool, Option, none, some, text_eq, if◌then◌else◌,
}
use supaback.Prelude.Int.{ℤ}
use supaback.Strconv.{format_bool, parse_bool, itoa, parse_int, split, join}
use supaback.Dict.{Dict, get, set}
use supaback.Config.{
  Config, Env, SupabaseConfig, BackupConfig, S3Config, SftpConfig, RetentionConfig,
}
use supaback.Config.Key

-- `if v, ok := m[k]; ok && v != "" { x = f(v) }`
unfoldable pub if_set {ℓ} : {A : Type ℓ} → Option Text → (Text → A) → A → A
if_set none f old = old
if_set (some []) f old = old
if_set (some (c ∷ v)) f old = f (c ∷ v)

-- `if v, ok := m[k]; ok { x = f(v) }`
unfoldable pub if_present {ℓ} : {A : Type ℓ} → Option Text → (Text → A) → A → A
if_present none f old = old
if_present (some v) f old = f v

-- `v == "true"`
unfoldable pub is_true : Text → Bool
is_true v = text_eq v (codes "true")

-- `if v == "" { nil } else { strings.Split(v, ",") }`
unfoldable pub split_buckets : Text → List Text
split_buckets v = if is_empty v then [] else split b',' v

-- `n, _ := strconv.Atoi(v)`
unfoldable pub atoi : Text → ℤ
atoi v = (parse_int v).0

abbrev pub id : Text → Text
id v = v

unfoldable pub merge_supabase : Dict → SupabaseConfig → SupabaseConfig
merge_supabase m c = record {
  url = if_set (get m Key.supabase_url) id c.url;
  service_key = if_set (get m Key.supabase_service_key) id c.service_key;
  database_url = if_set (get m Key.supabase_db_url) id c.database_url;
}

unfoldable pub merge_retention : Dict → RetentionConfig → RetentionConfig
merge_retention m c = record {
  keep_last = if_set (get m Key.retention_keep_last) atoi c.keep_last;
  keep_days = if_set (get m Key.retention_keep_days) atoi c.keep_days;
}

unfoldable pub merge_backup : Dict → BackupConfig → BackupConfig
merge_backup m c = record {
  include_database = if_set (get m Key.include_database) is_true c.include_database;
  include_storage = if_set (get m Key.include_storage) is_true c.include_storage;
  buckets = if_present (get m Key.buckets) split_buckets c.buckets;
  compress = if_set (get m Key.compress) is_true c.compress;
  retention = merge_retention m c.retention;
}

unfoldable pub merge_s3 : Dict → S3Config → S3Config
merge_s3 m c = record {
  endpoint = if_present (get m Key.s3_endpoint) id c.endpoint;
  region = if_set (get m Key.s3_region) id c.region;
  bucket = if_set (get m Key.s3_bucket) id c.bucket;
  prefix = if_present (get m Key.s3_prefix) id c.prefix;
  access_key_id = if_set (get m Key.s3_access_key_id) id c.access_key_id;
  secret_access_key = if_set (get m Key.s3_secret_access_key) id c.secret_access_key;
  force_path_style = if_set (get m Key.s3_force_path_style) parse_bool c.force_path_style;
}

unfoldable pub merge_sftp : Dict → SftpConfig → SftpConfig
merge_sftp m c = record {
  host = if_set (get m Key.sftp_host) id c.host;
  port = if_set (get m Key.sftp_port) atoi c.port;
  user = if_set (get m Key.sftp_user) id c.user;
  password = if_set (get m Key.sftp_password) id c.password;
  key_path = if_present (get m Key.sftp_key_path) id c.key_path;
  remote_path = if_set (get m Key.sftp_remote_path) id c.remote_path;
}

-- `MergeFromMap`.
unfoldable pub merge_from_map : Config → Dict → Config
merge_from_map c m = record c {
  supabase = merge_supabase m c.supabase;
  backup = merge_backup m c.backup;
  destination = record {
    type = if_set (get m Key.dest_type) id c.destination.type;
    local_path = if_set (get m Key.local_path) id c.destination.local_path;
    s3 = merge_s3 m c.destination.s3;
    sftp = merge_sftp m c.destination.sftp;
  };
}

-- `ToMap`. The empty text is what `Join` gives of no bucket.
unfoldable pub to_map : Config → Dict
to_map c =
    (Key.supabase_url, c.supabase.url)
    ∷ (Key.supabase_service_key, c.supabase.service_key)
    ∷ (Key.supabase_db_url, c.supabase.database_url)
    ∷ (Key.include_database, format_bool c.backup.include_database)
    ∷ (Key.include_storage, format_bool c.backup.include_storage)
    ∷ (Key.compress, format_bool c.backup.compress)
    ∷ (Key.buckets, join b',' c.backup.buckets)
    ∷ (Key.dest_type, c.destination.type)
    ∷ (Key.local_path, c.destination.local_path)
    ∷ (Key.s3_endpoint, c.destination.s3.endpoint)
    ∷ (Key.s3_region, c.destination.s3.region)
    ∷ (Key.s3_bucket, c.destination.s3.bucket)
    ∷ (Key.s3_prefix, c.destination.s3.prefix)
    ∷ (Key.s3_access_key_id, c.destination.s3.access_key_id)
    ∷ (Key.s3_secret_access_key, c.destination.s3.secret_access_key)
    ∷ (Key.s3_force_path_style, format_bool c.destination.s3.force_path_style)
    ∷ (Key.sftp_host, c.destination.sftp.host)
    ∷ (Key.sftp_port, itoa c.destination.sftp.port)
    ∷ (Key.sftp_user, c.destination.sftp.user)
    ∷ (Key.sftp_password, c.destination.sftp.password)
    ∷ (Key.sftp_key_path, c.destination.sftp.key_path)
    ∷ (Key.sftp_remote_path, c.destination.sftp.remote_path)
    ∷ (Key.retention_keep_last, itoa c.backup.retention.keep_last)
    ∷ (Key.retention_keep_days, itoa c.backup.retention.keep_days)
    ∷ []

-- `if v := os.Getenv(e); v != "" { out[k] = v }`
unfoldable pub with_env : Env → Text → Text → Dict → Dict
with_env env name key out = elim (env name) [ [] ↦ out | (c ∷ v) ↦ set out key (c ∷ v) ]

-- The table of `EnvOverrides`.
abbrev pub env_pairs : List (Text × Text)
env_pairs =
    (codes "SUPABASE_URL", Key.supabase_url)
    ∷ (codes "SUPABASE_SERVICE_KEY", Key.supabase_service_key)
    ∷ (codes "SUPABASE_DB_URL", Key.supabase_db_url)
    ∷ (codes "S3_ENDPOINT", Key.s3_endpoint)
    ∷ (codes "S3_REGION", Key.s3_region)
    ∷ (codes "S3_BUCKET", Key.s3_bucket)
    ∷ (codes "S3_ACCESS_KEY_ID", Key.s3_access_key_id)
    ∷ (codes "S3_SECRET_ACCESS_KEY", Key.s3_secret_access_key)
    ∷ (codes "LOCAL_BACKUP_PATH", Key.local_path)
    ∷ []

unfoldable pub override : Env → List (Text × Text) → Dict → Dict
override env [] out = out
override env ((name, key) ∷ pairs) out = override env pairs (with_env env name key out)

-- `EnvOverrides`.
unfoldable pub env_overrides : Env → Dict
env_overrides env = override env env_pairs []
