-- ===== src/Retention/Keep.antt =====
-- The keep set, against an account of the policy that counts dates and mentions no order of texts.
use mathlib.Core.Path.{ap₂}
use supaback.Prelude.{
  ℕ, ◌+◌, ◌*◌, Text, List, [], ◌∷◌, ◌++◌, take, Bool, true, false, ◌&&◌, ◌||◌, not, ◌≡◌, refl, ◌∙◌,
  Option, none, some, ltb, leb, text_eq_iff, if◌then◌else◌, arith, Bool-cases, Option-cases, inl,
  inr,
}
use supaback.Prelude.Int.{ℤ, pos, negsuc, pos_part, ltb_ℤ, ◌-ℤ◌}
use supaback.Time.{Date, parse_date, day_number, start_of, day_nanos}
use supaback.Time.Order.{text_ltb-day_number}
use supaback.Retention.{
  Config, is_date, valid_dates, sort_desc, contains, is_recent, recent, build_keep_set,
}
use supaback.Retention.Order.{above, above-sort, contains-sort, contains-take, sort_desc-IsDesc}

-- Is the entry a backup date after `d`?
newer : Date → Option Date → Bool
newer d none = false
newer d (some e) = ltb (day_number d) (day_number e)

-- How many of the entries are backup dates after `d`.
unfoldable pub count_newer : Date → List Text → ℕ
unfolding newer
count_newer d [] = 0
count_newer d (e ∷ es) = (if newer d (parse_date e) then 1 else 0) + count_newer d es

-- The policy for the date `d` among the entries, at the time `now`: fewer than `keep_last` newer
-- dates, or begun within the last `keep_days` days.
unfoldable pub survives : Config → ℕ → Date → List Text → Bool
survives cfg now d entries =
    ltb_ℤ (pos (count_newer d entries)) cfg.keep_last
    || (ltb_ℤ (pos 0) cfg.keep_days && leb now (start_of d + pos_part cfg.keep_days * day_nanos))

above-valid :
    (s : Text) {d : Date} (entries : List Text)
    → parse_date s ≡ some d
    → above s (valid_dates entries) ≡ count_newer d entries
unfolding above valid_dates count_newer is_date
above-valid s [] p = refl
above-valid s {d} (e ∷ es) p = elim (Option-cases (parse_date e)) [
  | inl n ↦ rw n (ground (arith, above-valid s {d = d} es p))
  | inr (f, q) ↦ ground (arith, text_ltb-day_number s e p q, above-valid s {d = d} es p)
]

pub contains-valid :
    (s : Text) {d : Date} (entries : List Text)
    → parse_date s ≡ some d
    → contains (valid_dates entries) s ≡ contains entries s
unfolding contains valid_dates is_date
contains-valid s [] p = refl
contains-valid s {d} (e ∷ es) p = elim (Option-cases (parse_date e)) [
  | inl n ↦ rw n (ground (arith, contains-valid s {d = d} es p, text_eq_iff s e))
  | inr (f, q) ↦ ground (arith, contains-valid s {d = d} es p)
]

contains-append :
    (xs ys : List Text) (s : Text) → contains (xs ++ ys) s ≡ (contains xs s || contains ys s)
unfolding contains
contains-append [] ys s = refl
contains-append (x ∷ xs) ys s = ground (arith, contains-append xs ys s)

contains-recent :
    (k : ℤ) (now : ℕ) (s : Text) (ds : List Text)
    → contains (recent k now ds) s ≡ (contains ds s && is_recent k now s)
unfolding contains recent
contains-recent k now s [] = refl
contains-recent k now s (d ∷ ds) = ground (arith, contains-recent k now s ds, text_eq_iff s d)

not-before-cutoff : (t now age : ℕ) → not (ltb_ℤ (pos t) (pos now -ℤ pos age)) ≡ leb now (t + age)
unfolding ◌-ℤ◌
not-before-cutoff t now age = ground arith

is_recent_lem :
    (k : ℤ) (now : ℕ) (s : Text) {d : Date}
    → parse_date s ≡ some d
    → is_recent k now s ≡ leb now (start_of d + pos_part k * day_nanos)
unfolding is_recent
is_recent_lem k now s {d} p = rw p (not-before-cutoff (start_of d) now (pos_part k * day_nanos))

rule_1 :
    (k : ℤ) (s : Text) {d : Date} (entries : List Text)
    → parse_date s ≡ some d
    → contains entries s ≡ true
    → contains
        (if ltb_ℤ (pos 0) k then take (pos_part k) (sort_desc (valid_dates entries)) else [])
        s
      ≡ ltb_ℤ (pos (count_newer d entries)) k
unfolding contains
rule_1 (negsuc k) s entries p h = ground arith
rule_1 (pos k) s {d} entries p h = ground (
  arith,
  contains-take k s (sort_desc (valid_dates entries)) (sort_desc-IsDesc (valid_dates entries)),
  contains-sort s (valid_dates entries),
  contains-valid s {d = d} entries p,
  above-sort s (valid_dates entries),
  above-valid s {d = d} entries p,
)

rule_2 :
    (k : ℤ) (now : ℕ) (s : Text) {d : Date} (entries : List Text)
    → parse_date s ≡ some d
    → contains entries s ≡ true
    → contains (if ltb_ℤ (pos 0) k then recent k now (sort_desc (valid_dates entries)) else []) s
      ≡ (ltb_ℤ (pos 0) k && leb now (start_of d + pos_part k * day_nanos))
unfolding contains
rule_2 k now s {d} entries p h = elim (Bool-cases (ltb_ℤ (pos 0) k)) [
  | inl e ↦ rw e (
      contains-recent k now s (sort_desc (valid_dates entries))
      ∙ ap₂ ◌&&◌ held (is_recent_lem k now s p))
  | inr e ↦ rw e refl
]
  where
    held : contains (sort_desc (valid_dates entries)) s ≡ true
    held = contains-sort s (valid_dates entries) ∙ contains-valid s entries p ∙ h

-- The keep set that the code builds holds exactly the entries that the policy keeps.
pub build_keep_set-survives :
    (cfg : Config) (now : ℕ) (s : Text) {d : Date} (entries : List Text)
    → parse_date s ≡ some d
    → contains entries s ≡ true
    → contains (build_keep_set (sort_desc (valid_dates entries)) cfg now) s
      ≡ survives cfg now d entries
unfolding build_keep_set survives
build_keep_set-survives cfg now s {d} entries p h =
    contains-append _ _ s
    ∙ ap₂ ◌||◌ (rule_1 cfg.keep_last s entries p h) (rule_2 cfg.keep_days now s entries p h)
