-- ===== src/Retention/Policy.antt =====
-- `Apply` as a whole: what it deletes, and what it never touches.
use supaback.Prelude.{
  ℕ, Text, List, [], In, true, false, ◌&&◌, ◌≡◌, ◌≢◌, refl, ap, sym, ◌∙◌, ◌⊎◌, inl, inr, none, some,
  Result, ok, err, Bool-cases,
}
use supaback.Prelude.Int.{is_zero}
use supaback.Time.{Date, parse_date}
use supaback.Path.{is_name}
use supaback.Destination.{Destination, IsLawful}
use supaback.Retention.{
  Config, Event, delete_failed, valid_dates, sort_desc, contains, build_keep_set, sweep,
  sweep_entries, apply,
}
use supaback.Retention.Order.{contains-sort}
use supaback.Retention.Keep.{survives, build_keep_set-survives, contains-valid}
use supaback.Retention.Sweep.{
  contains-In, In-contains, valid_dates-is_date, valid_dates-is_name, sweep_preserves,
  sweep_adds_nothing, sweep_removes,
}

-- What the policy keeps, and what is no date, is out of a sweep's reach.
out_of_reach :
    (cfg : Config) (now : ℕ) (names : List Text) (e : Text)
    → (parse_date e ≡ none)
      ⊎ ((d : Date) × (parse_date e ≡ some d) × (survives cfg now d names ≡ true))
    → (contains (build_keep_set (sort_desc (valid_dates names)) cfg now) e ≡ true)
      ⊎ (contains (sort_desc (valid_dates names)) e ≡ false)
out_of_reach cfg now names e (inl p) =
    inr (contains-sort e (valid_dates names) ∙ valid_dates-is_date names e p)
out_of_reach cfg now names e (inr (d, p, s)) = elim (Bool-cases (contains names e)) [
  | inl t ↦ inl (build_keep_set-survives cfg now e names p t ∙ s)
  | inr f ↦ inr (contains-sort e (valid_dates names) ∙ (contains-valid e names p ∙ f))
]

module _ {W : Type 0} (dest : Destination W) where
  sweep_entries_preserves :
      (P : W → Type 0) (e : Text)
      → ((d : Text) (w : W) → is_name d ≡ true → e ≢ d → P w → P (dest.delete d w).1)
      → (cfg : Config) (now : ℕ) (w : W) (listing : Result (List Text))
      → ((names : List Text)
          → listing ≡ ok names
          → (parse_date e ≡ none)
            ⊎ ((d : Date) × (parse_date e ≡ some d) × (survives cfg now d names ≡ true)))
      → P w
      → P (sweep_entries dest cfg now listing w).1
  unfolding sweep_entries
  sweep_entries_preserves P e s cfg now w (err m) h p = p
  sweep_entries_preserves P e s cfg now w (ok names) h p =
      sweep_preserves dest P e s _ _ w (valid_dates-is_name names)
        (out_of_reach cfg now names e (h names refl)) p

  -- `Apply` is a sweep over the sorted dates of the listing, once a rule is enabled.
  apply_lem :
      (cfg : Config) (now : ℕ) (w : W)
      → (is_zero cfg.keep_last && is_zero cfg.keep_days) ≡ false
      → apply dest cfg now w ≡ sweep_entries dest cfg now (dest.list [] w).0 (dest.list [] w).1
  unfolding apply
  apply_lem cfg now w h = rw h

  -- What a listing and every delete of another name preserve, `Apply` preserves, where the policy
  -- keeps `e` among the names that are listed, or `e` is no date.
  pub apply_preserves :
      (P : W → Type 0) (e : Text)
      → ((d : Text) (w : W) → is_name d ≡ true → e ≢ d → P w → P (dest.delete d w).1)
      → (cfg : Config) (now : ℕ) (w : W)
      → ((names : List Text)
          → (dest.list [] w).0 ≡ ok names
          → (parse_date e ≡ none)
            ⊎ ((d : Date) × (parse_date e ≡ some d) × (survives cfg now d names ≡ true)))
      → P w
      → P (dest.list [] w).1
      → P (apply dest cfg now w).1
  unfolding apply
  apply_preserves P e s cfg now w h p q =
      elim (Bool-cases (is_zero cfg.keep_last && is_zero cfg.keep_days)) [
        | inl off ↦ rw (off, apply) p
        | inr on ↦
            rw (apply_lem cfg now w on)
              (sweep_entries_preserves P e s cfg now _ (dest.list [] w).0 h q)
      ]

module _ {W : Type 0} (dest : Destination W) (entries : W → List Text)
    (lawful : IsLawful dest entries) where
  -- At a lawful destination, what survives the policy, and what is no date at all, is there after
  -- `Apply` if it was there before, whatever the listing and the deletes return.
  pub apply_protects :
      (cfg : Config) (now : ℕ) (w : W) (e : Text)
      → (parse_date e ≡ none)
        ⊎ ((d : Date) × (parse_date e ≡ some d) × (survives cfg now d (entries w) ≡ true))
      → In e (entries w)
      → In e (entries (apply dest cfg now w).1)
  apply_protects cfg now w e h i =
      apply_preserves dest (λ v. In e (entries v)) e
        (λ d v n differ p. (lawful.delete_other d e v n differ).1 p) cfg now w
        (λ names l. rw (lawful.list_entries w names l) h) i (rw lawful.entries-list i)

  sweep_entries_removes :
      (cfg : Config) (now : ℕ) (w w' : W) (listing : Result (List Text)) (log : List Event)
      (e : Text)
      → sweep_entries dest cfg now listing w ≡ (ok log, w')
      → In e (entries w')
      → (names : List Text) × (listing ≡ ok names)
        × In e (entries w)
        × ((d : Date)
            → parse_date e ≡ some d
            → survives cfg now d names ≡ false
            → In e names
            → (msg : Text) × In (delete_failed e msg) log)
  unfolding sweep_entries
  sweep_entries_removes cfg now w w' (err m) log e run i = cc
  sweep_entries_removes cfg now w w' (ok names) log e run i = (
    names,
    refl,
    sweep_adds_nothing dest entries lawful keep dates w e there,
    λ d p s n. rw logs (
        sweep_removes dest entries lawful keep dates w e (valid_dates-is_name names)
          (build_keep_set-survives cfg now e names p (In-contains names e n) ∙ s)
          (contains-In dates e (
            contains-sort e (valid_dates names) ∙ contains-valid e names p ∙ In-contains names e n))
          there),
  )
    where
      dates : List Text
      dates = sort_desc (valid_dates names)

      keep : List Text
      keep = build_keep_set dates cfg now

      there : In e (entries (sweep dest keep dates w).1)
      there = rw (sym (ap (λ (r : Result (List Event) × W). r.1) run)) at i

      logs : log ≡ (sweep dest keep dates w).0
      logs = cc (ap (λ (r : Result (List Event) × W). r.0) run)

  -- At a lawful destination and with a rule that is not zero, after an `Apply` that returns no
  -- error, a date that the policy does not keep is there only if its delete failed and was logged;
  -- and each entry that is there was there before.
  pub apply_removes :
      (cfg : Config) (now : ℕ) (w w' : W) (log : List Event) (e : Text)
      → (is_zero cfg.keep_last && is_zero cfg.keep_days) ≡ false
      → apply dest cfg now w ≡ (ok log, w')
      → In e (entries w')
      → In e (entries w)
        × ((d : Date)
            → parse_date e ≡ some d
            → survives cfg now d (entries w) ≡ false
            → (msg : Text) × In (delete_failed e msg) log)
  apply_removes cfg now w w' log e on run i =
      let (names, l, old, gone) =
        sweep_entries_removes cfg now _ w' (dest.list [] w).0 log e
          (rw (apply_lem dest cfg now w on) at run) i in
      let known : names ≡ entries w = lawful.list_entries w names l in
      let there : In e (entries w) = rw lawful.entries-list at old in
      (there, λ d p s. gone d p (rw known s) (rw known there))
