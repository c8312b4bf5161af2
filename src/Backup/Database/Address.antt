-- ===== src/Backup/Database/Address.antt =====
-- What pg_dump is told of the connection: an address to dial, and no password.
use mathlib.Core.Path.{subst}
use supaback.Prelude.{
  All, Result, err, ◌⊎◌, ◌↔◌, Text, codes, is_empty, List, [], ◌∷◌, ◌++◌, Bool, true, false, Option,
  none, some, ok, ◌≡◌, ◌≢◌, refl, ap, ◌∙◌, inl, inr, Bool-cases,
}
use supaback.Strconv.{join}
use supaback.Destination.{Destination}
use supaback.Backup.Database.{
  Url, Network, first_ipv4, dsn_parts, with_address, address_of, resolve, dsn_of, build_conn_dsn,
  verdict, reachable, check_ipv4_reachable, Tools, Clock, key_of, dumped, dump, dump_if, run,
}

module _ {W : Type 0} (net : Network W) where
  -- Two URLs that differ in the password alone are checked alike, and give one DSN.
  check_hides :
      (raw raw' password : Text) (u : Url) (w : W)
      → net.parse_url raw ≡ some u
      → net.parse_url raw' ≡ some (record u { password = password })
      → check_ipv4_reachable net raw' w ≡ check_ipv4_reachable net raw w
  unfolding check_ipv4_reachable reachable
  check_hides raw raw' password u w p q = rw (p, q)

  dsn_hides :
      (raw raw' password : Text) (u : Url) (w : W)
      → net.parse_url raw ≡ some u
      → net.parse_url raw' ≡ some (record u { password = password })
      → is_empty u.hostname ≡ false
      → build_conn_dsn net raw' w
        ≡ (((build_conn_dsn net raw w).0.0, password), (build_conn_dsn net raw w).1)
  unfolding build_conn_dsn dsn_of dsn_parts
  dsn_hides raw raw' password u w p q h = rw (p, q, h) refl

  -- What the resolver's answer makes of a DSN: it ends in the first IPv4 address of the answer, and
  -- has no address where the answer has none or is an error.
  pub data Dialling (u : Url) : Result (List Text) → Text → Type 0 where
    unresolved : (e : Text) → Dialling u (err e) (join b' ' (dsn_parts u))
    without_ipv4 :
        (addrs : List Text)
        → All (λ a. net.is_ipv4 a ≡ false) addrs
        → Dialling u (ok addrs) (join b' ' (dsn_parts u))
    with_ipv4 :
        (before after : List Text) (a : Text)
        → All (λ b. net.is_ipv4 b ≡ false) before
        → net.is_ipv4 a ≡ true
        → Dialling u
            (ok (before ++ a ∷ after))
            (join b' ' (dsn_parts u ++ ((codes "hostaddr=" ++ a) ∷ [])))

  -- An answer that has no IPv4 address.
  abbrev pub NoIpv4 : Result (List Text) → Type 0
  NoIpv4 (ok addrs) = All (λ a. net.is_ipv4 a ≡ false) addrs
  NoIpv4 (err e) = ⊥

  -- The first IPv4 address of a list, and what is before it.
  abbrev First : List Text → Type 0
  First addrs =
      (before : List Text) × (after : List Text) × (a : Text) × (addrs ≡ before ++ a ∷ after)
      × All (λ b. net.is_ipv4 b ≡ false) before
      × (net.is_ipv4 a ≡ true)
      × (first_ipv4 net.is_ipv4 addrs ≡ some a)

  first_ipv4-cases :
      (addrs : List Text)
      → ((first_ipv4 net.is_ipv4 addrs ≡ none) × All (λ a. net.is_ipv4 a ≡ false) addrs)
        ⊎ First addrs
  unfolding first_ipv4
  first_ipv4-cases [] = inl (refl, tt)
  first_ipv4-cases (b ∷ addrs) = elim (Bool-cases (net.is_ipv4 b)) [
    | inl t ↦ inr ([], addrs, b, refl, tt, t, rw (t, first_ipv4) refl)
    | inr f ↦ elim (first_ipv4-cases addrs) [
      | inl (e, h) ↦ inl (rw (f, first_ipv4) e, (f, h))
      | inr (before, after, a, e, h, t, g) ↦
          inr (b ∷ before, after, a, ap (◌∷◌ b) e, (f, h), t, rw (f, first_ipv4) g)
    ]
  ]

  with_address-some :
      (a : Text) (parts : List Text)
      → is_empty a ≡ false
      → with_address (some a) parts ≡ parts ++ ((codes "hostaddr=" ++ a) ∷ [])
  unfolding with_address
  with_address-some [] parts h = cc
  with_address-some (c ∷ a) parts h = refl

  address_not_empty :
      (a : Text) → net.is_ipv4 [] ≡ false → net.is_ipv4 a ≡ true → is_empty a ≡ false
  address_not_empty [] e h = cc
  address_not_empty (c ∷ a) e h = refl

  address_of-Dialling :
      (u : Url) (r : Result (List Text))
      → net.is_ipv4 [] ≡ false
      → Dialling u r (join b' ' (with_address (address_of net r) (dsn_parts u)))
  unfolding address_of
  address_of-Dialling u (err e) h = unfold with_address in unresolved e
  address_of-Dialling u (ok addrs) h = elim (first_ipv4-cases addrs) [
    | inl (e, n) ↦ rw e (unfold with_address in without_ipv4 addrs n)
    | inr (before, after, a, e, n, t, g) ↦
        rw (g, with_address-some a (dsn_parts u) (address_not_empty a h t), e)
          (with_ipv4 before after a n t)
  ]

  verdict_iff : (host : Text) (r : Result (List Text)) → (verdict net host r ≡ none) ↔ (¬ NoIpv4 r)
  unfolding verdict
  verdict_iff host (err e) = (λ p f. f, λ n. refl)
  verdict_iff host (ok addrs) = elim (first_ipv4-cases addrs) [
    | inl (e, n) ↦ rw (e, verdict) ((λ p. absurd (refused _ p)), λ k. absurd (k n))
    | inr (before, after, a, e, n, t, g) ↦
        rw (g, verdict)
          (
            (λ p k. clash before after a t (subst (All (λ b. net.is_ipv4 b ≡ false)) e k)),
            λ k. refl,
          )
  ]
    where
      refused : (m : Text) → some m ≢ none
      refused m q = cc

      clash :
          (before after : List Text) (a : Text)
          → net.is_ipv4 a ≡ true
          → All (λ b. net.is_ipv4 b ≡ false) (before ++ a ∷ after)
          → ⊥
      clash [] after a t (f, k) = cc
      clash (b ∷ before) after a t (f, k) = clash before after a t k

  -- For a URL that parses and names a host that is no IPv4 address, and with an empty text being no
  -- address: the DSN ends in the first IPv4 address of the resolver's answer, and has no address
  -- where the answer has none or is an error; and `checkIPv4Reachable` returns no error exactly
  -- where the answer that it gets itself is an error or has an IPv4 address.
  pub dsn_dials_ipv4 :
      (raw : Text) (u : Url) (w : W)
      → net.parse_url raw ≡ some u
      → is_empty u.hostname ≡ false
      → net.is_ipv4 u.hostname ≡ false
      → net.is_ipv4 [] ≡ false
      → Dialling u (net.lookup_host u.hostname w).0 (build_conn_dsn net raw w).0.0
        × (((check_ipv4_reachable net raw w).0 ≡ none)
            ↔ (¬ NoIpv4 (net.lookup_host u.hostname w).0))
  dsn_dials_ipv4 raw u w p h l e = (
    unfold build_conn_dsn dsn_of resolve in
        rw (p, dsn_of, h, resolve, l) (address_of-Dialling u (net.lookup_host u.hostname w).0 e),
    unfold check_ipv4_reachable reachable in
        rw (p, reachable, h, l) (verdict_iff u.hostname (net.lookup_host u.hostname w).0),
  )

  module _ (tools : Tools W) (dest : Destination W) where
    dump_if_hides :
        (raw raw' password key : Text) (compress : Bool) (u : Url) (c : Option Text × W)
        → net.parse_url raw ≡ some u
        → net.parse_url raw' ≡ some (record u { password = password })
        → is_empty u.hostname ≡ false
        → ((args : List Text) (s s' : Text) (v : W)
            → tools.pg_dump args s v ≡ tools.pg_dump args s' v)
        → dump_if net tools dest raw' key compress c ≡ dump_if net tools dest raw key compress c
    unfolding dump_if dump
    dump_if_hides raw raw' password key compress u (some e, w) p q h s = refl
    dump_if_hides raw raw' password key compress u (none, w) p q h s =
        ap (dump net tools dest key compress) (dsn_hides raw raw' password u w p q h)
        ∙ ap (dumped net tools dest key compress) (s _ password _ _)

    -- The password of a URL that parses and names a host reaches pg_dump's environment alone: for
    -- a pg_dump that makes nothing of its environment's password, `Run` does and returns the same
    -- for two URLs that differ in the password.
    pub run_hides_password :
        (clock : Clock) (raw raw' password : Text) (compress : Bool) (u : Url) (w : W)
        → net.parse_url raw ≡ some u
        → net.parse_url raw' ≡ some (record u { password = password })
        → is_empty u.hostname ≡ false
        → ((args : List Text) (s s' : Text) (v : W)
            → tools.pg_dump args s v ≡ tools.pg_dump args s' v)
        → run net tools dest clock raw' compress w ≡ run net tools dest clock raw compress w
    unfolding run
    run_hides_password clock raw raw' password compress u w p q h s =
        elim (Bool-cases (tools.look_path w)) [
          | inl t ↦
              let key = key_of clock compress in
              rw (t, run)
                (ap (dump_if net tools dest raw' key compress)
                    (check_hides raw raw' password u w p q)
                  ∙ dump_if_hides raw raw' password key compress u (check_ipv4_reachable net raw w)
                      p q h s)
          | inr f ↦ rw (f, run) refl
        ]
