-- ===== src/Backup/Database/Restore.antt =====
-- A database backup that succeeds can be read back whole.
use supaback.Prelude.{
  Text, length, Bool, true, Option, none, some, Result, ok, err, ◌≡◌, ◌≢◌, refl, sym, ap, ◌∙◌, inl,
  inr, Bool-cases, Option-cases, if◌then◌else◌,
}
use supaback.Prelude.Int.{ℤ, pos}
use supaback.Disk.{Disk}
use supaback.Destination.{Destination}
use supaback.Destination.Local.{read, local}
use supaback.Destination.Local.RoundTrip.{write-read}
use supaback.Backup.Database.{
  Network, Tools, Dump, Clock, arguments, build_conn_dsn, check_ipv4_reachable, cmd_err, stream,
  key_of, outcome, dumped, dump, dump_if, run,
}

cmd_err-none : (d : Dump) → cmd_err d ≡ none → d.failure ≡ none
unfolding cmd_err
cmd_err-none d h = elim (Option-cases d.failure) [
  | inl e ↦ e
  | inr (e, f) ↦ absurd (failing (rw (f, cmd_err) at h))
]
  where
    failing : {t : Text} → some t ≢ none
    failing q = cc

module _ {W : Type 0} (net : Network W) (tools : Tools W) (dest : Destination W) where
  outcome_ok :
      (failure : Option Text) (r : Result ℤ) (n : ℤ)
      → outcome net tools dest failure r ≡ ok n
      → (failure ≡ none) × (r ≡ ok n)
  unfolding outcome
  outcome_ok none (ok m) n h = (refl, h)
  outcome_ok (some e) (ok m) n h = cc
  outcome_ok none (err e) n h = cc
  outcome_ok (some f) (err e) n h = cc

  -- What pg_dump does in a run, after the check of the host.
  abbrev pub dump_of : Text → W → Dump × W
  dump_of raw w =
      let ((dsn, password), v) = build_conn_dsn net raw (check_ipv4_reachable net raw w).1 in
      tools.pg_dump (arguments dsn) password v

  -- A dump without an error was written, and the write returned the count.
  abbrev Wrote : Text → Bool → ℤ → W → Dump × W → Type 0
  Wrote key compress n w' (d, w) =
      (d.failure ≡ none)
      × ((stream tools.gzip compress d).failure ≡ none)
      × (cmd_err d ≡ none)
      × (dest.write key (stream tools.gzip compress d) w ≡ (ok n, w'))

  dumped_ok :
      (key : Text) (compress : Bool) (r : Dump × W) (n : ℤ) (w' : W)
      → dumped net tools dest key compress r ≡ (ok n, w')
      → Wrote key compress n w' r
  unfolding dumped stream
  dumped_ok key compress (d, w) n w' h =
      let written = dest.write key (stream tools.gzip compress d) w in
      let (fine, same) = outcome_ok (cmd_err d) written.0 n (ap (λ p. p.0) h) in
      (
        cmd_err-none d fine,
        fine,
        fine,
        ap (λ p. (p, written.1)) same ∙ ap (λ v. (ok n, v)) (ap (λ p. p.1) h),
      )

  dump_if_ok :
      (raw key : Text) (compress : Bool) (c : Option Text × W) (n : ℤ) (w' : W)
      → dump_if net tools dest raw key compress c ≡ (ok n, w')
      → dump_if net tools dest raw key compress c
        ≡ dump net tools dest key compress (build_conn_dsn net raw c.1)
  unfolding dump_if
  dump_if_ok raw key compress (some e, w) n w' h = absurd (no_count (ap (λ p. p.0) h))
    where
      no_count : err e ≢ ok n
      no_count q = cc
  dump_if_ok raw key compress (none, w) n w' h = refl

  missing : (m : Text) (v w' : W) (n : ℤ) → ◌≢◌ {A = Result ℤ × W} (err m, v) (ok n, w')
  missing m v w' n q = no_count (ap (λ p. p.0) q)
    where
      no_count : err m ≢ ok n
      no_count h = cc

  run_ok :
      (clock : Clock) (raw : Text) (compress : Bool) (w w' : W) (n : ℤ)
      → run net tools dest clock raw compress w ≡ (ok n, w')
      → Wrote (key_of clock compress) compress n w' (dump_of raw w)
  unfolding run dump
  run_ok clock raw compress w w' n h = elim (Bool-cases (tools.look_path w)) [
    | inl t ↦
        let key = key_of clock compress in
        let ran : dump_if net tools dest raw key compress (check_ipv4_reachable net raw w)
            ≡ (ok n, w') =
          rw (t, run) at h in
        dumped_ok key compress (dump_of raw w) n w'
          (sym (dump_if_ok raw key compress (check_ipv4_reachable net raw w) n w' ran) ∙ ran)
    | inr f ↦ absurd (missing _ w w' n (rw (f, run) at h))
  ]

-- The whole of a dump, through gzip to its end if the backup is compressed.
abbrev pub whole_of : (Text → Bool → Text) → Bool → Dump → Text
whole_of gzip compress d = if compress then gzip d.output true else d.output

stream_whole :
    (gzip : Text → Bool → Text) (compress : Bool) (d : Dump)
    → cmd_err d ≡ none
    → (stream gzip compress d).body ≡ whole_of gzip compress d
unfolding stream
stream_whole gzip compress d h = rw h refl

-- After a `Run` of the database backup that returns a count, to a directory of the disk: the
-- pg_dump of that run ended without an error, reading the backup's key gives the whole of its
-- output, put through gzip to the end if the backup is compressed, and the count is the length of
-- what is read.
pub run-read :
    (net : Network Disk) (tools : Tools Disk) (base_path : Text) (clock : Clock) (raw : Text)
    (compress : Bool) (d d' : Disk) (n : ℤ)
    → run net tools (local base_path) clock raw compress d ≡ (ok n, d')
    → ((dump_of net tools (local base_path) raw d).0.failure ≡ none)
      × ((read base_path (key_of clock compress) d').0
          ≡ ok (record {
            body = whole_of tools.gzip compress (dump_of net tools (local base_path) raw d).0;
            failure = none;
          }))
      × (n
          ≡ pos
              (length (whole_of tools.gzip compress (dump_of net tools (local base_path) raw d).0)))
run-read net tools base_path clock raw compress d d' n h =
    let key = key_of clock compress in
    let (dump, v) = dump_of net tools (local base_path) raw d in
    let (fine, ended, quiet, done) =
      run_ok net tools (local base_path) clock raw compress d d' n h in
    let r = stream tools.gzip compress dump in
    let (back, count, _) = write-read base_path key r v n (ap (λ p. p.0) done) in
    let whole : r.body ≡ whole_of tools.gzip compress dump =
      stream_whole tools.gzip compress dump quiet in
    (
      fine,
      ap (λ w. (read base_path key w).0) (sym (ap (λ p. p.1) done))
          ∙ (back ∙ ap (λ b. ok (record { body = b; failure = none })) whole),
      count ∙ ap (λ b. pos (length b)) whole,
    )
