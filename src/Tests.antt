-- ===== src/Tests.antt =====
-- Small implementations of the interfaces, on which the theorems are run: a destination that is a
-- list of names, a cron table that is a function, and a backup that writes nothing.
pub mod Retention
pub mod Runner
pub mod Scheduler
pub mod Api
pub mod Config
pub mod Store
pub mod Startup
pub mod Disks
pub mod Buckets
pub mod Failures
pub mod Restores
pub mod Archives
pub mod Removals
pub mod Sessions
pub mod Programs
pub mod Backup
use supaback.Prelude.{
  ℕ, suc, Text, codes, List, [], ◌∷◌, Bool, true, false, Option, none, some, Result, ok, err, ◌≡◌,
  ◌≢◌, ◌↔◌, ◌==◌, refl, arith, if◌then◌else◌, text_eq, text_eq_iff, In, inl, inr, Bool-cases,
}
use supaback.Prelude.Int.{ℤ, pos}
use supaback.Destination.{Destination, FileInfo, IsLawful}
use supaback.Cron.{Cron, CronJob, IsCron}
use supaback.Runner.{Backups}
use supaback.Time.{Date}

unfoldable pub drop_name : Text → List Text → List Text
drop_name k [] = []
drop_name k (e ∷ es) = let rest = drop_name k es in if text_eq e k then rest else e ∷ rest

In-drop_name : (k e : Text) (es : List Text) → e ≢ k → In e (drop_name k es) ↔ In e es
unfolding drop_name
In-drop_name k e [] h = (λ p. p, λ p. p)
In-drop_name k e (x ∷ es) h = elim (Bool-cases (text_eq x k)) [
  | inl t ↦
      let (down, up) = In-drop_name k e es h in
      rw t (λ p. inr (down p), λ p. ground (arith, up, (text_eq_iff x k).0 t, h))
  | inr f ↦
      let (down, up) = In-drop_name k e es h in
      rw f (
        λ p. elim p [ inl q ↦ inl q | inr q ↦ inr (down q) ],
        λ p. elim p [ inl q ↦ inl q | inr q ↦ inr (up q) ],
      )
]

drop_name_self : (k : Text) (es : List Text) → ¬ In k (drop_name k es)
unfolding drop_name
drop_name_self k [] p = p
drop_name_self k (x ∷ es) p = elim (Bool-cases (text_eq x k)) [
  | inl t ↦ drop_name_self k es (rw t at p)
  | inr f ↦ ground (arith, drop_name_self k es, (text_eq_iff x k).1, rw f at p)
]

drop_name-In : (k e : Text) (es : List Text) → In e (drop_name k es) → In e es
unfolding drop_name
drop_name-In k e [] p = p
drop_name-In k e (x ∷ es) p = elim (Bool-cases (text_eq x k)) [
  | inl t ↦ inr (drop_name-In k e es (rw t at p))
  | inr f ↦ ground (arith, drop_name-In k e es, rw f at p)
]

abbrev pub shelf : Destination (List Text)
shelf = record {
  write = λ key r w. (ok (pos 0), w);
  list = λ prefix w. (ok w, w);
  list_files = λ prefix w. (ok [], w);
  read = λ key w. (ok (record { body = []; failure = none }), w);
  delete = λ key w. (ok tt, drop_name key w);
  name = codes "shelf";
}

pub shelf-IsLawful : IsLawful shelf (λ w. w)
shelf-IsLawful = record {
  list_entries = λ w names h. cc;
  entries-list = λ w. refl;
  delete_other = λ key e w n h. In-drop_name key e w h;
  delete_self = λ key w n h. drop_name_self key w;
  delete_adds_nothing = λ key e w p. drop_name-In key e w p;
}

-- A shelf from which nothing can be taken.
abbrev pub stuck : Destination (List Text)
stuck = record shelf { delete = λ key w. (err (codes "denied"), w); name = codes "stuck" }

pub stuck-IsLawful : IsLawful stuck (λ w. w)
stuck-IsLawful = record {
  list_entries = λ w names h. cc;
  entries-list = λ w. refl;
  delete_other = λ key e w n h. (λ p. p, λ p. p);
  delete_self = λ key w n h. absurd (never h);
  delete_adds_nothing = λ key e w p. p;
}
  where
    never : ◌≢◌ {A = Result (Unit {0})} (err (codes "denied")) (ok tt)
    never h = cc

-- A cron table: the jobs by their ids, and the last id.
pub record Table : Type 0 where
  pub jobs : ℕ → Option CronJob
  pub last : ℕ

-- The expressions that this cron takes.
abbrev pub is_hourly : Text → Bool
is_hourly e = text_eq e (codes "@hourly")

abbrev pub put : Bool → CronJob → Table → Result ℕ × Table
put true j c = (
  ok (suc c.last),
  record { jobs = λ k. if suc c.last == k then some j else c.jobs k; last = suc c.last },
)
put false j c = (err (codes "bad expression"), c)

abbrev pub ticker : Cron Table
ticker = record {
  empty = record { jobs = λ k. none; last = 0 };
  add_func = λ j c. put (is_hourly j.expr) j c;
  remove = λ i c. record c { jobs = λ k. if i == k then none else c.jobs k };
  start = λ c. c;
  stop = λ c. c;
  entry = λ c i. c.jobs i;
  issued = λ c. c.last;
}

put-parses :
    (b : Bool) (j : CronJob) (c : Table) (i : ℕ)
    → (put b j c).0 ≡ ok i
    → (b ≡ true) × (i ≡ suc c.last)
put-parses true j c i h = (refl, cc)
put-parses false j c i h = absurd (never h)
  where
    never : ◌≢◌ {A = Result ℕ} (err (codes "bad expression")) (ok i)
    never h = cc

pub ticker-IsCron : IsCron ticker is_hourly
ticker-IsCron = record {
  entry-empty = λ i. refl;
  add_parses = λ j c i h. (put-parses (is_hourly j.expr) j c i h).0;
  parses_add = λ j c h. rw h (suc c.last, refl);
  add_above = λ j c i h. omega (arith, (put-parses (is_hourly j.expr) j c i h).1);
  issued-add = λ j c i h. let (t, e) = put-parses (is_hourly j.expr) j c i h in rw (t, e) refl;
  entry-add = λ j c i k h. let (t, e) = put-parses (is_hourly j.expr) j c i h in rw (t, e) refl;
  add_err = λ j c e h. put-err (is_hourly j.expr) j c e h;
  entry-remove = λ i k c. refl;
  issued-remove = λ i c. refl;
  entry-start = λ c k. refl;
  issued-start = λ c. refl;
  entry-stop = λ c k. refl;
  issued-stop = λ c. refl;
}
  where
    put-err :
        (b : Bool) (j : CronJob) (c : Table) (e : Text) → (put b j c).0 ≡ err e → (put b j c).1 ≡ c
    put-err true j c e h = absurd (never (suc c.last) e h)
      where
        never : (n : ℕ) (e : Text) → ◌≢◌ {A = Result ℕ} (ok n) (err e)
        never n e h = cc
    put-err false j c e h = refl

-- A backup of 7 bytes of the database and 5 of the storage, which puts a name on the shelf.
abbrev pub halves : Text → Backups (List Text)
halves name = record {
  database = λ c compress w. (ok (pos 7), name ∷ w);
  storage = λ c buckets w. (ok (pos 5), w);
}

abbrev pub date_of : ℕ → Date
date_of day = record { year = 2024; month = 3; day = day }
