-- ===== src/Runner/Restorable.antt =====
-- A database job to a directory of the disk, from the dump to the end of its retention.
use mathlib.Core.Path.{subst}
use supaback.Prelude.{
  ℕ, ◌+◌, ◌≤◌, ◌<◌, Text, codes, List, ◌∷◌, ◌++◌, true, false, ◌||◌, Option, none, some, Result, ok,
  err, ◌≡◌, refl, sym, ap, ◌∙◌, inl, inr, Bool-cases, Option-cases, if◌then◌else◌,
}
use supaback.Prelude.Int.{ℤ, pos, ltb_ℤ}
use supaback.Path.{locate, join_path, lacks_slash}
use supaback.Disk.{Disk}
use supaback.Destination.Local.{read, list, local}
use supaback.Destination.Local.Lawful.{entries, local-IsLawful}
use supaback.Destination.Local.Spared.{Holds, delete-Holds}
use supaback.Backup.Database.{Clock, Network, Tools, key_of}
use supaback.Backup.Database
use supaback.Backup.Database.Restore.{dump_of, whole_of, run-read}
use supaback.Config.{Config, SupabaseConfig, RetentionConfig, validate}
use supaback.Time.{Date, format_date, start_of, day_nanos}
use supaback.Time.Order.{IsDate}
use supaback.Time.Format.{parse_date-format}
use supaback.Retention
use supaback.Retention.Keep.{count_newer}
use supaback.Retention.Sweep.{format_date-is_name}
use supaback.Retention.Policy.{apply_preserves}
use supaback.Retention.Window.{newest_today_survives}
use supaback.Store.{Store}
use supaback.Store.Jobs.{create_job}
use supaback.Runner.{
  Backups, Run, Progress, advance, result_of, run_database, run_storage, back_up, retain, run_job,
  run_created, run_validated, run, untouched,
}
use supaback.Backup.Database.Place.{dump_place}
use supaback.Destination.Local.Held.{read-Holds, Holds-read}

module _ (net : Network Disk) (tools : Tools Disk) (base_path : Text) (clock : Clock)
    (storage : SupabaseConfig → List Text → Disk → Result ℤ × Disk) where
  -- The two halves of a backup: the database one as the program runs it, to the local destination.
  abbrev pub halves : Backups Disk
  halves = record {
    database = λ cfg compress d.
        Database.run net tools (local base_path) clock cfg.database_url compress d;
    storage = storage;
  }

  pub only_database :
      (c : Config) (p : Progress) (d : Disk)
      → c.backup.include_storage ≡ false
      → run_storage halves (local base_path) c p.run_err p d ≡ (p, d)
  only_database c p d b =
      unfold run_storage in
      elim (Option-cases p.run_err) [
        | inl e ↦ rw (e, run_storage, b) refl
        | inr (m, e) ↦ rw (e, run_storage) refl
      ]

  backed_up :
      (c : Config) (d : Disk)
      → c.backup.include_database ≡ true
      → c.backup.include_storage ≡ false
      → back_up halves (local base_path) c d ≡ (
        advance
            (codes "database backup: ")
            (halves.database c.supabase c.backup.compress d).0
            untouched,
        (halves.database c.supabase c.backup.compress d).1,
      )
  unfolding back_up run_database
  backed_up c d a b =
      let (r, d') = halves.database c.supabase c.backup.compress d in
      let ran : Progress × Disk = (advance (codes "database backup: ") r untouched, d') in
      ap (λ q. run_storage halves (local base_path) c q.0.run_err q.0 q.1)
        (ap (λ on. if on then ran else (untouched, d)) a)
      ∙ only_database c ran.0 d' b

  advance_ok :
      (prefix : Text) (r : Result ℤ)
      → (advance prefix r untouched).run_err ≡ none
      → (n : ℤ) × (r ≡ ok n)
  unfolding advance
  advance_ok prefix (ok n) h = (n, refl)
  advance_ok prefix (err e) h = cc

  -- Retention leaves a file under a date that is the newest and whose day has not ended.
  retain-Holds :
      (ret : RetentionConfig) (now : ℕ) (today : Date) (ys : List Text) (body : Text) (d : Disk)
      → IsDate today
      → today.year < 10000
      → now ≤ start_of today + day_nanos
      → count_newer today (entries base_path d) ≡ 0
      → Holds (ys ++ (format_date today ∷ locate base_path)) body d
      → Holds
          (ys ++ (format_date today ∷ locate base_path))
          body
          (retain halves (local base_path) none ret now d)
  unfolding retain
  retain-Holds ret now today ys body d p y t n h =
      elim (Bool-cases (ltb_ℤ (pos 0) ret.keep_last || ltb_ℤ (pos 0) ret.keep_days)) [
        | inl on ↦ rw on (
            apply_preserves (local base_path)
              (Holds (ys ++ (format_date today ∷ locate base_path)) body) (format_date today)
              (λ x v k differ g.
                delete-Holds base_path x (format_date today) body ys v k (λ e. differ (sym e)) g)
              policy now d
              (λ names l. inr (
                today,
                parse_date-format today p y,
                rw (sym ((local-IsLawful base_path).list_entries d names l)) at
                    (newest_today_survives policy now today (entries base_path d) on t n),
              ))
              h (unfold list in h))
        | inr off ↦ rw off h
      ]
    where
      policy : Retention.Config
      policy = record { keep_last = ret.keep_last; keep_days = ret.keep_days }

  -- What a run answers and leaves, once its job record is there.
  run_lem :
      (r : Run) (c : Config) (s : Store) (d : Disk)
      → validate c ≡ none
      → r.create_fault ≡ none
      → let (p, d') = back_up halves (local base_path) c d in
        ((run halves (local base_path) r c s d).0 ≡ result_of p.run_err)
        × ((run halves (local base_path) r c s d).2
            ≡ retain halves (local base_path) p.run_err c.backup.retention r.swept d')
  unfolding run run_validated run_created run_job create_job
  run_lem r c s d v f = rw (v, f) (refl, refl)

  no_error : (o : Option Text) → result_of o ≡ ok tt → o ≡ none
  unfolding result_of
  no_error none h = refl
  no_error (some e) h = cc

  -- A database job that returns no error, to a directory of the disk, leaves a dump that can be read
  -- back whole when the job is over, its retention included: the pg_dump of the job ended without an
  -- error, and reading the dump's key gives all of its output, through gzip to the end if backups
  -- are compressed. It is so for a valid configuration with the database alone, where the job record
  -- is created, the clock gives a date of a four-digit year and a stamp without a slash, the date is
  -- the newest at the destination after the backup, and its day has not ended when retention starts.
  pub job_restorable :
      (r : Run) (c : Config) (s : Store) (d : Disk) (today : Date)
      → validate c ≡ none
      → c.backup.include_database ≡ true
      → c.backup.include_storage ≡ false
      → r.create_fault ≡ none
      → IsDate today
      → today.year < 10000
      → clock.date ≡ format_date today
      → lacks_slash clock.stamp ≡ true
      → r.swept ≤ start_of today + day_nanos
      → count_newer today (entries base_path (back_up halves (local base_path) c d).1) ≡ 0
      → (run halves (local base_path) r c s d).0 ≡ ok tt
      → let dump = (dump_of net tools (local base_path) c.supabase.database_url d).0 in
        (dump.failure ≡ none)
        × ((read base_path
              (key_of clock c.backup.compress)
              (run halves (local base_path) r c s d).2).0
            ≡ ok (record { body = whole_of tools.gzip c.backup.compress dump; failure = none }))
  job_restorable r c s d today v a b f p y q k t n h =
      let key = key_of clock c.backup.compress in
      let (out, d') = halves.database c.supabase c.backup.compress d in
      let both = backed_up c d a b in
      let (answer, world) = run_lem r c s d v f in
      let fine : (back_up halves (local base_path) c d).0.run_err ≡ none =
        no_error _ (sym answer ∙ h) in
      let (m, o) =
        advance_ok (codes "database backup: ") out (sym (ap (λ x. x.0.run_err) both) ∙ fine) in
      let (whole, back, _) =
        run-read net tools base_path clock c.supabase.database_url c.backup.compress d d' m
          (ap (λ x. (x, d')) o) in
      let (ys, place) =
        dump_place base_path clock c.backup.compress (rw q (format_date-is_name today)) k in
      let there = place ∙ ap (λ x. ys ++ (x ∷ locate base_path)) q in
      let body =
        whole_of tools.gzip c.backup.compress
          (dump_of net tools (local base_path) c.supabase.database_url d).0 in
      let held : Holds (ys ++ (format_date today ∷ locate base_path)) body d' =
        subst (λ l. Holds l body d') there (read-Holds base_path key body d' back) in
      let kept =
        retain-Holds c.backup.retention r.swept today ys body d' p y t (rw both at n) held in
      let same : (run halves (local base_path) r c s d).2
          ≡ retain halves (local base_path) none c.backup.retention r.swept d' =
        world
        ∙ (ap
              (λ o.
                retain halves (local base_path) o c.backup.retention r.swept
                  (back_up halves (local base_path) c d).1)
              fine
            ∙ ap (λ x. retain halves (local base_path) none c.backup.retention r.swept x.1) both) in
      (
        whole,
        Holds-read base_path key body (run halves (local base_path) r c s d).2 (
            subst (Holds (locate (join_path base_path key)) body) (sym same) (
              subst
                (λ l.
                  Holds l body (retain halves (local base_path) none c.backup.retention r.swept d'))
                (sym there) kept)),
      )
