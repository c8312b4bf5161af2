-- ===== src/Config/Key.antt =====
-- The keys of the settings table (internal/config/settings.go).
use supaback.Prelude.{Text, codes}

abbrev pub supabase_url : Text
supabase_url = codes "supabase_url"

abbrev pub supabase_service_key : Text
supabase_service_key = codes "supabase_service_key"

abbrev pub supabase_db_url : Text
supabase_db_url = codes "supabase_db_url"

abbrev pub include_database : Text
include_database = codes "backup_include_database"

abbrev pub include_storage : Text
include_storage = codes "backup_include_storage"

abbrev pub compress : Text
compress = codes "backup_compress"

abbrev pub buckets : Text
buckets = codes "backup_buckets"

abbrev pub dest_type : Text
dest_type = codes "destination_type"

abbrev pub local_path : Text
local_path = codes "destination_local_path"

abbrev pub s3_endpoint : Text
s3_endpoint = codes "destination_s3_endpoint"

abbrev pub s3_region : Text
s3_region = codes "destination_s3_region"

abbrev pub s3_bucket : Text
s3_bucket = codes "destination_s3_bucket"

abbrev pub s3_prefix : Text
s3_prefix = codes "destination_s3_prefix"

abbrev pub s3_access_key_id : Text
s3_access_key_id = codes "destination_s3_access_key_id"

abbrev pub s3_secret_access_key : Text
s3_secret_access_key = codes "destination_s3_secret_access_key"

abbrev pub s3_force_path_style : Text
s3_force_path_style = codes "destination_s3_force_path_style"

abbrev pub sftp_host : Text
sftp_host = codes "destination_sftp_host"

abbrev pub sftp_port : Text
sftp_port = codes "destination_sftp_port"

abbrev pub sftp_user : Text
sftp_user = codes "destination_sftp_user"

abbrev pub sftp_password : Text
sftp_password = codes "destination_sftp_password"

abbrev pub sftp_key_path : Text
sftp_key_path = codes "destination_sftp_key_path"

abbrev pub sftp_remote_path : Text
sftp_remote_path = codes "destination_sftp_remote_path"

abbrev pub retention_keep_last : Text
retention_keep_last = codes "retention_keep_last"

abbrev pub retention_keep_days : Text
retention_keep_days = codes "retention_keep_days"
