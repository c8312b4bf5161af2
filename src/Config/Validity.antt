-- ===== src/Config/Validity.antt =====
-- `Validate` decides what a backup needs, and `ForType` scopes what it backs up.
use supaback.Prelude.{
  Text, codes, is_empty, [], ◌∷◌, true, false, ◌&&◌, none, ◌≡◌, ◌≢◌, ◌↔◌, refl, arith,
  if◌then◌else◌, text_eq, text_eq_iff, Bool-cases, inl, inr,
}
use supaback.Config.{Config, validate, validate_s3, is_configured}

-- A configuration that can run a backup.
pub record IsRunnable (c : Config) : Type 0 where
  pub url : c.supabase.url ≢ []
  pub service_key : c.supabase.service_key ≢ []
  pub database_url : c.backup.include_database ≡ true → c.supabase.database_url ≢ []
  pub bucket : c.destination.type ≡ codes "s3" → c.destination.s3.bucket ≢ []
  pub access_key_id : c.destination.type ≡ codes "s3" → c.destination.s3.access_key_id ≢ []
  pub secret_access_key : c.destination.type ≡ codes "s3" → c.destination.s3.secret_access_key ≢ []

is_empty_iff : (s : Text) → (is_empty s ≡ false) ↔ (s ≢ [])
is_empty_iff [] = (λ h. cc, λ h. absurd (h refl))
is_empty_iff (c ∷ s) = (λ h e. cc, λ h. refl)

-- `Validate` returns no error exactly on the runnable configurations.
pub validate_iff : (c : Config) → (validate c ≡ none) ↔ IsRunnable c
unfolding validate
validate_iff c = (
  λ h. record {
    url = (is_empty_iff c.supabase.url).0 (ground arith);
    service_key = (is_empty_iff c.supabase.service_key).0 (ground arith);
    database_url = λ on. (is_empty_iff c.supabase.database_url).0 (ground arith);
    bucket = λ s3. (is_empty_iff c.destination.s3.bucket).0 (ground (arith, is_s3 s3));
    access_key_id =
        λ s3. (is_empty_iff c.destination.s3.access_key_id).0 (ground (arith, is_s3 s3));
    secret_access_key =
        λ s3. (is_empty_iff c.destination.s3.secret_access_key).0 (ground (arith, is_s3 s3));
  },
  λ r. ground (
    arith,
    (is_empty_iff c.supabase.url).1 r.url,
    (is_empty_iff c.supabase.service_key).1 r.service_key,
    database r,
    s3 r,
  ),
)
  where
    is_s3 : c.destination.type ≡ codes "s3" → text_eq c.destination.type (codes "s3") ≡ true
    is_s3 = (text_eq_iff c.destination.type (codes "s3")).1

    database :
        IsRunnable c → (c.backup.include_database && is_empty c.supabase.database_url) ≡ false
    database r = elim (Bool-cases c.backup.include_database) [
      | inl on ↦ rw on ((is_empty_iff c.supabase.database_url).1 (r.database_url on))
      | inr off ↦ rw off refl
    ]

    s3 :
        IsRunnable c
        → (if text_eq c.destination.type (codes "s3") then validate_s3 c.destination.s3 else none)
          ≡ none
    s3 r = elim (Bool-cases (text_eq c.destination.type (codes "s3"))) [
      | inl on ↦
          let t : c.destination.type ≡ codes "s3" =
            (text_eq_iff c.destination.type (codes "s3")).0 on in
          rw
            (
              on,
              (is_empty_iff c.destination.s3.bucket).1 (r.bucket t),
              (is_empty_iff c.destination.s3.access_key_id).1 (r.access_key_id t),
              (is_empty_iff c.destination.s3.secret_access_key).1 (r.secret_access_key t),
            )
            refl
      | inr off ↦ rw off refl
    ]

-- A runnable configuration is a configured one.
validate-is_configured : (c : Config) → validate c ≡ none → is_configured c ≡ true
unfolding is_configured
validate-is_configured c h =
    let r = (validate_iff c).0 h in
    rw
      ((is_empty_iff c.supabase.url).1 r.url, (is_empty_iff c.supabase.service_key).1 r.service_key)
      refl
