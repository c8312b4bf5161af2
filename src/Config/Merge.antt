-- ===== src/Config/Merge.antt =====
-- Laws of `MergeFromMap`: what a saved configuration gives to another, and merging twice.
use supaback.Prelude.{Text, [], ◌∷◌, All, Option, none, some, ◌≡◌, ◌≢◌, refl}
use supaback.Prelude.Int.{InInt64}
use supaback.Strconv.Split.{Lacks}
use supaback.Dict.{Dict}
use supaback.Config.{Config}
use supaback.Config.Settings.{
  if_set, if_present, merge_supabase, merge_backup, merge_retention, merge_s3, merge_sftp,
  merge_from_map,
}

if_set_idem {ℓ} :
    {A : Type ℓ} (o : Option Text) (f : Text → A) (old : A)
    → if_set o f (if_set o f old) ≡ if_set o f old
unfolding if_set
if_set_idem none f old = refl
if_set_idem (some []) f old = refl
if_set_idem (some (c ∷ v)) f old = refl

if_present_idem {ℓ} :
    {A : Type ℓ} (o : Option Text) (f : Text → A) (old : A)
    → if_present o f (if_present o f old) ≡ if_present o f old
unfolding if_present
if_present_idem none f old = refl
if_present_idem (some v) f old = refl

-- Merging the same settings again changes nothing.
merge_from_map_idem :
    (c : Config) (m : Dict) → merge_from_map (merge_from_map c m) m ≡ merge_from_map c m
unfolding merge_from_map merge_supabase merge_backup merge_retention merge_s3 merge_sftp
merge_from_map_idem c m = simp (if_set_idem, if_present_idem)

-- What the settings map can hold: numbers of 64 bits, and bucket names without a comma, other than
-- one empty name.
pub record IsStorable (c : Config) : Type 0 where
  pub port : InInt64 c.destination.sftp.port
  pub keep_last : InInt64 c.backup.retention.keep_last
  pub keep_days : InInt64 c.backup.retention.keep_days
  pub buckets : All (Lacks b',') c.backup.buckets
  pub not_blank : c.backup.buckets ≢ [] ∷ []

-- A text, or the old one in place of an empty text.
abbrev pub or_old : Text → Text → Text
or_old [] old = old
or_old (c ∷ v) old = c ∷ v

-- One configuration over another: its flags, its numbers and its buckets, its texts where they are
-- not empty, and always its S3 endpoint, S3 prefix and SFTP key path.
pub overlay : Config → Config → Config
overlay base c = record base {
  supabase = record {
    url = or_old c.supabase.url base.supabase.url;
    service_key = or_old c.supabase.service_key base.supabase.service_key;
    database_url = or_old c.supabase.database_url base.supabase.database_url;
  };
  backup = c.backup;
  destination = record {
    type = or_old c.destination.type base.destination.type;
    local_path = or_old c.destination.local_path base.destination.local_path;
    s3 = record {
      endpoint = c.destination.s3.endpoint;
      region = or_old c.destination.s3.region base.destination.s3.region;
      bucket = or_old c.destination.s3.bucket base.destination.s3.bucket;
      prefix = c.destination.s3.prefix;
      access_key_id = or_old c.destination.s3.access_key_id base.destination.s3.access_key_id;
      secret_access_key =
          or_old c.destination.s3.secret_access_key base.destination.s3.secret_access_key;
      force_path_style = c.destination.s3.force_path_style;
    };
    sftp = record {
      host = or_old c.destination.sftp.host base.destination.sftp.host;
      port = c.destination.sftp.port;
      user = or_old c.destination.sftp.user base.destination.sftp.user;
      password = or_old c.destination.sftp.password base.destination.sftp.password;
      key_path = c.destination.sftp.key_path;
      remote_path = or_old c.destination.sftp.remote_path base.destination.sftp.remote_path;
    };
  };
}
