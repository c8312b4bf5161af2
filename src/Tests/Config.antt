-- ===== src/Tests/Config.antt =====
-- A configuration of an S3 bucket, its settings and an environment.
use supaback.Prelude.{codes, [], ◌∷◌, none, ◌≡◌, ◌↔◌, refl, text_eq, if◌then◌else◌}
use supaback.Dict.{Dict}
use supaback.Config.{Config, Env, defaults, validate}
use supaback.Config.Key
use supaback.Config.Validity.{IsRunnable, validate_iff}

abbrev pub settled : Config
settled = record defaults {
  supabase = record {
    url = codes "https://a.supabase.co";
    service_key = codes "key";
    database_url = codes "postgres://db";
  };
  backup = record defaults.backup { buckets = codes "photos" ∷ codes "docs" ∷ [] };
}

abbrev some_settings : Dict
some_settings =
    (Key.retention_keep_last, codes "7") ∷ (Key.s3_prefix, []) ∷ (Key.supabase_url, codes "u") ∷ []

abbrev one_variable : Env
one_variable name = if text_eq name (codes "SUPABASE_URL") then codes "env" else []

validate_iff_example : (validate settled ≡ none) ↔ IsRunnable settled
validate_iff_example = validate_iff settled

settled_valid : validate settled ≡ none
unfolding validate text_eq
settled_valid = refl
