-- ===== src/Api/Settings/Update.antt =====
-- What `UpdateSettings` saves and applies.
use supaback.Prelude.{
  Text, codes, List, [], ◌∷◌, Option, none, some, Result, ok, err, ◌≡◌, ◌≢◌, refl, sym, ap, ◌∙◌,
  arith, Bool-cases, Result-cases, inl, inr, text_eq, text_eq_iff, ℕ,
}
use supaback.Dict.{Dict, get, set, delete, get-set, get-delete, IsMap}
use supaback.Strconv.{split}
use supaback.Config.{Config, DestinationConfig}
use supaback.Config.Key
use supaback.Config.Settings.{
  merge_from_map, merge_backup, merge_s3, merge_sftp, if_present, split_buckets,
}
use supaback.Store.{Store, Fault}
use supaback.Store.Settings.{set_settings, get_all_settings}
use supaback.Store.Settings.Transaction.{stored, set_settings-get}
use supaback.Api.{Response}
use supaback.Api.Settings.{
  JsonValue, str, null, other, incoming, App, Env, switch, reload, saved_to, update_settings,
}

-- Writing and deleting keep a map's keys distinct.
set-IsMap : (m : Dict) (k v : Text) → IsMap m → IsMap (set m k v)
unfolding set
set-IsMap [] k v p = (unfold get in refl, tt)
set-IsMap ((j, w) ∷ m) k v p = elim (Bool-cases (text_eq j k)) [
  | inl t ↦ rw (t, ← (text_eq_iff j k).0 t) p
  | inr f ↦
      rw f (ground (arith, get-set m k j v, text_eq_iff k j, text_eq_iff j k), set-IsMap m k v p.1)
]

delete-IsMap : (m : Dict) (k : Text) → IsMap m → IsMap (delete m k)
unfolding delete
delete-IsMap [] k p = tt
delete-IsMap ((j, w) ∷ m) k p = elim (Bool-cases (text_eq j k)) [
  | inl t ↦ rw t (delete-IsMap m k p.1)
  | inr f ↦
      rw f
        (ground (arith, get-delete m k j, text_eq_iff k j, text_eq_iff j k), delete-IsMap m k p.1)
]

incoming-IsMap : (raw : List (Text × JsonValue)) (m : Dict) → IsMap m → IsMap (incoming raw m)
unfolding incoming
incoming-IsMap [] m p = p
incoming-IsMap ((k, str s) ∷ raw) m p = incoming-IsMap raw (set m k s) (set-IsMap m k s p)
incoming-IsMap ((k, null) ∷ raw) m p = incoming-IsMap raw (set m k []) (set-IsMap m k [] p)
incoming-IsMap ((k, other) ∷ raw) m p = incoming-IsMap raw m p

-- The map that a request has saved.
abbrev pub sent : List (Text × JsonValue) → Dict
sent raw = delete (incoming raw []) (codes "configured")

fails_500 : ◌≢◌ {A = ℕ} 500 200
fails_500 = omega arith

-- The four settings for which `MergeFromMap` takes what the map holds, empty or not.
uses_held :
    (cfg : Config) (m : Dict) (key : Text) (c : ℕ) (v : Text)
    → get m key ≡ some (c ∷ v)
    → (key ≡ Key.buckets → (merge_from_map cfg m).backup.buckets ≡ split b',' (c ∷ v))
      × (key ≡ Key.s3_endpoint → (merge_from_map cfg m).destination.s3.endpoint ≡ c ∷ v)
      × (key ≡ Key.s3_prefix → (merge_from_map cfg m).destination.s3.prefix ≡ c ∷ v)
      × (key ≡ Key.sftp_key_path → (merge_from_map cfg m).destination.sftp.key_path ≡ c ∷ v)
unfolding merge_from_map merge_backup merge_s3 merge_sftp if_present split_buckets
uses_held cfg m key c v h = (
  λ t. rw (ap (get m) (sym t) ∙ h) refl,
  λ t. rw (ap (get m) (sym t) ∙ h) refl,
  λ t. rw (ap (get m) (sym t) ∙ h) refl,
  λ t. rw (ap (get m) (sym t) ∙ h) refl,
)

module _ {D W : Type 0} (new_dest : DestinationConfig → W → Result D × W) where
  -- What a request does to the configuration in use, by its answer.
  abbrev Applied : App D W → Response × App D W → Type 0
  Applied a r =
      (r.0.status ≢ 200 → r.1.state ≡ a.state)
      × (r.0.status ≡ 200 → r.1.state.cfg ≡ merge_from_map a.state.cfg r.1.store.settings)

  switch-Applied :
      (r : Result D × W) (a : App D W)
      → Applied a (switch (merge_from_map a.state.cfg a.store.settings) r a)
  unfolding switch
  switch-Applied (ok dest, w) a = (λ h. absurd (h refl), λ h. refl)
  switch-Applied (err e, w) a = (λ h. absurd (h refl), λ h. refl)

  saved_to-Applied :
      (fault : Fault) (store : Store) (a : App D W)
      → Applied a (reload new_dest (get_all_settings fault store) (record a { store = store }))
  unfolding reload get_all_settings
  saved_to-Applied (some e) store a = (λ h. refl, λ h. absurd (omega arith))
  saved_to-Applied none store a =
      switch-Applied (new_dest (merge_from_map a.state.cfg store.settings).destination a.world)
        (record a { store = store })

  -- A request that does not answer 200 changes neither the configuration nor the destination in
  -- use; one that does has merged the whole table of settings into the configuration.
  pub update_settings-cfg :
      (env : Env) (raw : Option (List (Text × JsonValue))) (a : App D W)
      → let r = update_settings new_dest env raw a in
        (r.0.status ≢ 200 → r.1.state ≡ a.state)
        × (r.0.status ≡ 200 → r.1.state.cfg ≡ merge_from_map a.state.cfg r.1.store.settings)
  unfolding update_settings saved_to reload
  update_settings-cfg env none a = (λ h. refl, λ h. absurd (omega arith))
  update_settings-cfg env (some raw) a =
      elim (Result-cases (set_settings env.tx (sent raw) a.store).0) [
        | inl (u, e) ↦
            rw (e, saved_to)
              (saved_to-Applied env.read_fault (set_settings env.tx (sent raw) a.store).1 a)
        | inr (m, e) ↦ rw (e, saved_to) (λ h. refl, λ h. absurd (omega arith))
      ]

  switch-store : (c : Config) (r : Result D × W) (a : App D W) → (switch c r a).1.store ≡ a.store
  unfolding switch
  switch-store c (ok dest, w) a = refl
  switch-store c (err e, w) a = refl

  reload-store : (db : Result Dict) (a : App D W) → (reload new_dest db a).1.store ≡ a.store
  unfolding reload
  reload-store (err e) a = refl
  reload-store (ok db) a =
      let cfg = merge_from_map a.state.cfg db in
      switch-store cfg (new_dest cfg.destination a.world) a

  -- The store after a request that answers 200 is that of its transaction.
  saved_store :
      (env : Env) (raw : List (Text × JsonValue)) (a : App D W)
      → (update_settings new_dest env (some raw) a).0.status ≡ 200
      → ((set_settings env.tx (sent raw) a.store).0 ≡ ok tt)
        × ((update_settings new_dest env (some raw) a).1.store
            ≡ (set_settings env.tx (sent raw) a.store).1)
  unfolding update_settings saved_to
  saved_store env raw a h = elim (Result-cases (set_settings env.tx (sent raw) a.store).0) [
    | inl (u, e) ↦ (
      e,
      rw (e, saved_to)
          (reload-store (get_all_settings env.read_fault (set_settings env.tx (sent raw) a.store).1)
            (record a { store = (set_settings env.tx (sent raw) a.store).1 })),
    )
    | inr (m, e) ↦ absurd (fails_500 (rw (e, saved_to) at h))
  ]

  -- A setting that the table holds cannot be cleared: a request that sends the empty text for it,
  -- and answers 200, leaves the value in the table; and of the four settings that `MergeFromMap`
  -- would let be cleared, the configuration in use has that value.
  pub clearing_ignored :
      (env : Env) (raw : List (Text × JsonValue)) (a : App D W) (key : Text) (c : ℕ) (v : Text)
      → get (sent raw) key ≡ some []
      → get a.store.settings key ≡ some (c ∷ v)
      → let r = update_settings new_dest env (some raw) a in
        r.0.status ≡ 200
        → (get r.1.store.settings key ≡ some (c ∷ v))
          × (key ≡ Key.buckets → r.1.state.cfg.backup.buckets ≡ split b',' (c ∷ v))
          × (key ≡ Key.s3_endpoint → r.1.state.cfg.destination.s3.endpoint ≡ c ∷ v)
          × (key ≡ Key.s3_prefix → r.1.state.cfg.destination.s3.prefix ≡ c ∷ v)
          × (key ≡ Key.sftp_key_path → r.1.state.cfg.destination.sftp.key_path ≡ c ∷ v)
  clearing_ignored env raw a key c v empty held h =
      let (saved, same) = saved_store env raw a h in
      let unchanged =
        (set_settings-get env.tx (sent raw) a.store key
          (delete-IsMap (incoming raw []) (codes "configured") (incoming-IsMap raw [] tt)) saved).0
        ∙ (ap (λ o. stored o (get a.store.settings key)) empty ∙ held) in
      let kept = ap (λ s. get s.settings key) same ∙ unchanged in
      let used = (update_settings-cfg env (some raw) a).1 h in
      let (buckets, endpoint, prefix, key_path) = uses_held a.state.cfg _ key c v kept in
      (
        kept,
        λ t. ap (λ g. g.backup.buckets) used ∙ buckets t,
        λ t. ap (λ g. g.destination.s3.endpoint) used ∙ endpoint t,
        λ t. ap (λ g. g.destination.s3.prefix) used ∙ prefix t,
        λ t. ap (λ g. g.destination.sftp.key_path) used ∙ key_path t,
      )
