-- ===== src/Retention/Sweep.antt =====
-- The sweep over the dates: what it deletes, and what it never touches.
use supaback.Prelude.{
  Text, List, [], ◌∷◌, In, true, false, ◌≡◌, ◌≢◌, refl, sym, ◌∙◌, ◌⊎◌, inl, inr, none, some,
  text_eq, text_eq_iff, arith, Bool-cases, Option-cases, Result-cases,
}
use supaback.Time.{Date, parse_date, format_date}
use supaback.Time.Order.{format_date-parse_date}
use supaback.Destination.{Destination, IsLawful}
use supaback.Path.{is_name}
use supaback.Retention.{delete_failed, log_delete, is_date, valid_dates, sort_desc, contains, sweep}
use supaback.Retention.Order.{contains-sort}

pub contains-In : (xs : List Text) (s : Text) → contains xs s ≡ true → In s xs
unfolding contains
contains-In [] s h = cc
contains-In (x ∷ xs) s h = ground (arith, text_eq_iff s x, contains-In xs s)

pub In-contains : (xs : List Text) (s : Text) → In s xs → contains xs s ≡ true
unfolding contains
In-contains [] s h = absurd h
In-contains (x ∷ xs) s h = ground (arith, text_eq_iff s x, In-contains xs s)

-- What does not parse is no date of the list.
pub valid_dates-is_date :
    (names : List Text) (e : Text) → parse_date e ≡ none → contains (valid_dates names) e ≡ false
unfolding contains valid_dates is_date
valid_dates-is_date [] e p = refl
valid_dates-is_date (n ∷ ns) e p = elim (Option-cases (parse_date n)) [
  | inl q ↦ rw q (valid_dates-is_date ns e p)
  | inr (d, q) ↦ rw q (ground (arith, text_eq_iff e n, valid_dates-is_date ns e p))
]

pub format_date-is_name : (d : Date) → is_name (format_date d) ≡ true
unfolding format_date is_name text_eq
format_date-is_name d = ground arith

date-is_name : (e : Text) {d : Date} → parse_date e ≡ some d → is_name e ≡ true
date-is_name e {d} h = rw (format_date-parse_date e h) (format_date-is_name d)

-- The dates of a listing are names.
pub valid_dates-is_name :
    (names : List Text) (e : Text) → In e (sort_desc (valid_dates names)) → is_name e ≡ true
valid_dates-is_name names e i = elim (Option-cases (parse_date e)) [
  | inl q ↦ absurd (
      differ (
        sym (In-contains _ e i)
        ∙ (contains-sort e (valid_dates names) ∙ valid_dates-is_date names e q)))
  | inr (d, q) ↦ date-is_name e q
]
  where
    differ : true ≡ false → ⊥
    differ h = cc

later_dates :
    (keep ds : List Text) (d e : Text)
    → (contains keep e ≡ true) ⊎ (contains (d ∷ ds) e ≡ false)
    → (contains keep e ≡ true) ⊎ (contains ds e ≡ false)
unfolding contains
later_dates keep ds d e h = ground arith

spared :
    (keep ds : List Text) (d e : Text)
    → (contains keep e ≡ true) ⊎ (contains (d ∷ ds) e ≡ false)
    → contains keep d ≡ false
    → e ≢ d
unfolding contains
spared keep ds d e h k p = ground (arith, text_eq_iff e d)

module _ {W : Type 0} (dest : Destination W) where
  sweep_kept :
      (keep ds : List Text) (d : Text) (w : W)
      → contains keep d ≡ true
      → sweep dest keep (d ∷ ds) w ≡ sweep dest keep ds w
  unfolding sweep
  sweep_kept keep ds d w h = rw (h, sweep)

  sweep_tried :
      (keep ds : List Text) (d : Text) (w : W)
      → contains keep d ≡ false
      → sweep dest keep (d ∷ ds) w ≡ (
        log_delete dest d (dest.delete d w).0 ∷ (sweep dest keep ds (dest.delete d w).1).0,
        (sweep dest keep ds (dest.delete d w).1).1,
      )
  unfolding sweep
  sweep_tried keep ds d w h = rw (h, sweep)

  -- What every delete of another name preserves, a sweep preserves, where it does not reach `e`.
  pub sweep_preserves :
      (P : W → Type 0) (e : Text)
      → ((d : Text) (w : W) → is_name d ≡ true → e ≢ d → P w → P (dest.delete d w).1)
      → (keep dates : List Text) (w : W) → ((x : Text) → In x dates → is_name x ≡ true)
      → (contains keep e ≡ true) ⊎ (contains dates e ≡ false)
      → P w
      → P (sweep dest keep dates w).1
  sweep_preserves P e s keep [] w n h p = unfold sweep in p
  sweep_preserves P e s keep (d ∷ ds) w n h p = elim (Bool-cases (contains keep d)) [
    | inl k ↦
        rw (sweep_kept keep ds d w k)
          (sweep_preserves P e s keep ds w (λ x m. n x (inr m)) (later_dates keep ds d e h) p)
    | inr k ↦ rw (sweep_tried keep ds d w k) (
        sweep_preserves P e s keep ds (dest.delete d w).1 (λ x m. n x (inr m))
          (later_dates keep ds d e h) (s d w (n d (inl refl)) (spared keep ds d e h k) p))
  ]

module _ {W : Type 0} (dest : Destination W) (entries : W → List Text)
    (lawful : IsLawful dest entries) where
  pub sweep_adds_nothing :
      (keep dates : List Text) (w : W) (e : Text)
      → In e (entries (sweep dest keep dates w).1)
      → In e (entries w)
  sweep_adds_nothing keep [] w e i = unfold sweep in i
  sweep_adds_nothing keep (d ∷ ds) w e i = elim (Bool-cases (contains keep d)) [
    | inl k ↦ sweep_adds_nothing keep ds w e (rw (sweep_kept dest keep ds d w k) at i)
    | inr k ↦ lawful.delete_adds_nothing d e w (
        sweep_adds_nothing keep ds (dest.delete d w).1 e (rw (sweep_tried dest keep ds d w k) at i))
  ]

  -- A date that is still there after its delete had that delete fail.
  delete_logged :
      (d : Text) (w : W)
      → is_name d ≡ true
      → In d (entries (dest.delete d w).1)
      → (msg : Text) × (delete_failed d msg ≡ log_delete dest d (dest.delete d w).0)
  unfolding log_delete
  delete_logged d w n i = elim (Result-cases (dest.delete d w).0) [
    | inl (u, e) ↦ absurd (lawful.delete_self d w n e i)
    | inr (msg, e) ↦ (msg, rw e)
  ]

  -- A date outside the keep set is there after the sweep only if its delete failed.
  pub sweep_removes :
      (keep dates : List Text) (w : W) (e : Text)
      → ((x : Text) → In x dates → is_name x ≡ true)
      → contains keep e ≡ false
      → In e dates
      → In e (entries (sweep dest keep dates w).1)
      → (msg : Text) × In (delete_failed e msg) (sweep dest keep dates w).0
  sweep_removes keep [] w e n h m i = absurd m
  sweep_removes keep (d ∷ ds) w e n h (inl m) i = rw (sweep_tried dest keep ds d w k) (
      let (msg, x) = delete_logged d w (n d (inl refl)) (
        rw m at (
          sweep_adds_nothing keep ds (dest.delete d w).1 e
            (rw (sweep_tried dest keep ds d w k) at i))) in
      (msg, inl (rw m x)))
    where
      k : contains keep d ≡ false
      k = rw m at h
  sweep_removes keep (d ∷ ds) w e n h (inr m) i = elim (Bool-cases (contains keep d)) [
    | inl k ↦ rw (sweep_kept dest keep ds d w k) (
        sweep_removes keep ds w e (λ x m'. n x (inr m')) h m
          (rw (sweep_kept dest keep ds d w k) at i))
    | inr k ↦ rw (sweep_tried dest keep ds d w k) (
        let (msg, x) =
          sweep_removes keep ds (dest.delete d w).1 e (λ x m'. n x (inr m')) h m
            (rw (sweep_tried dest keep ds d w k) at i) in
        (msg, inr x))
  ]
