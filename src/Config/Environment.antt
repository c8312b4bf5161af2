-- ===== src/Config/Environment.antt =====
-- The environment wins for the keys that it covers.
use supaback.Prelude.{
  Text, codes, [], ◌∷◌, Option, none, some, ◌≡◌, ◌≢◌, refl, text_eq, arith, if◌then◌else◌,
}
use supaback.Dict.{Dict, get, get-set}
use supaback.Config.{Config, Env}
use supaback.Config.Settings.{
  if_set, if_present, id, with_env, override, env_overrides, merge_from_map, merge_supabase,
  merge_s3,
}

-- The value of a variable, if it is set.
abbrev pub pick : Text → Option Text → Option Text
pick [] old = old
pick (c ∷ v) old = some (c ∷ v)

get-with_env :
    (env : Env) (name key j : Text) (out : Dict)
    → get (with_env env name key out) j
      ≡ (if text_eq key j then pick (env name) (get out j) else get out j)
unfolding with_env
get-with_env env name key j out = go (env name) refl
  where
    go :
        (v : Text)
        → env name ≡ v
        → get (with_env env name key out) j
          ≡ (if text_eq key j then pick (env name) (get out j) else get out j)
    go [] e = rw (e, with_env) (ground arith)
    go (c ∷ v) e = rw (e, with_env) (get-set out key j (c ∷ v))

-- Each variable of the table that is set gives the field that its key stands for.
pub record FollowsEnv (env : Env) (c : Config) : Type 0 where
  pub url : env (codes "SUPABASE_URL") ≢ [] → c.supabase.url ≡ env (codes "SUPABASE_URL")
  pub service_key :
      env (codes "SUPABASE_SERVICE_KEY") ≢ []
      → c.supabase.service_key ≡ env (codes "SUPABASE_SERVICE_KEY")
  pub database_url :
      env (codes "SUPABASE_DB_URL") ≢ [] → c.supabase.database_url ≡ env (codes "SUPABASE_DB_URL")
  pub endpoint :
      env (codes "S3_ENDPOINT") ≢ [] → c.destination.s3.endpoint ≡ env (codes "S3_ENDPOINT")
  pub region : env (codes "S3_REGION") ≢ [] → c.destination.s3.region ≡ env (codes "S3_REGION")
  pub bucket : env (codes "S3_BUCKET") ≢ [] → c.destination.s3.bucket ≡ env (codes "S3_BUCKET")
  pub access_key_id :
      env (codes "S3_ACCESS_KEY_ID") ≢ []
      → c.destination.s3.access_key_id ≡ env (codes "S3_ACCESS_KEY_ID")
  pub secret_access_key :
      env (codes "S3_SECRET_ACCESS_KEY") ≢ []
      → c.destination.s3.secret_access_key ≡ env (codes "S3_SECRET_ACCESS_KEY")
  pub local_path :
      env (codes "LOCAL_BACKUP_PATH") ≢ []
      → c.destination.local_path ≡ env (codes "LOCAL_BACKUP_PATH")

if_set-pick : (v old : Text) → v ≢ [] → if_set (pick v none) id old ≡ v
unfolding if_set
if_set-pick [] old h = absurd (h refl)
if_set-pick (c ∷ v) old h = refl

if_present-pick : (v old : Text) → v ≢ [] → if_present (pick v none) id old ≡ v
unfolding if_present
if_present-pick [] old h = absurd (h refl)
if_present-pick (c ∷ v) old h = refl

-- Merging the overrides of the environment last makes every variable that is set win.
pub merge-env_overrides :
    (env : Env) (c : Config) → FollowsEnv env (merge_from_map c (env_overrides env))
unfolding merge_from_map merge_supabase merge_s3 env_overrides override text_eq
merge-env_overrides env c = record {
  url = λ h. simp get-with_env (unfold get in if_set-pick _ _ h);
  service_key = λ h. simp get-with_env (unfold get in if_set-pick _ _ h);
  database_url = λ h. simp get-with_env (unfold get in if_set-pick _ _ h);
  endpoint = λ h. simp get-with_env (unfold get in if_present-pick _ _ h);
  region = λ h. simp get-with_env (unfold get in if_set-pick _ _ h);
  bucket = λ h. simp get-with_env (unfold get in if_set-pick _ _ h);
  access_key_id = λ h. simp get-with_env (unfold get in if_set-pick _ _ h);
  secret_access_key = λ h. simp get-with_env (unfold get in if_set-pick _ _ h);
  local_path = λ h. simp get-with_env (unfold get in if_set-pick _ _ h);
}
