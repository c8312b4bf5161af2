-- ===== src/Runner/Failing.antt =====
-- What a database job that fails leaves of the other backups in a directory of the disk.
use mathlib.Core.Path.{subst}
use supaback.Prelude.{
  Text, is_empty, List, Bool, ◌||◌, false, Option, none, some, Result, ok, err, ◌≡◌, ◌≢◌, ◌⊎◌, inl,
  inr, refl, sym, ap, arith, Bool-cases,
}
use supaback.Prelude.Int.{ℤ}
use supaback.Path.{locate, join_path}
use supaback.Disk.{Disk}
use supaback.Destination.{Destination, Reader}
use supaback.Destination.Local.{read, local}
use supaback.Destination.Local.RoundTrip.{write_elsewhere}
use supaback.Backup.Database.{
  Url, Clock, Network, Tools, Dump, key_of, resolve, dsn_of, build_conn_dsn, reachable,
  check_ipv4_reachable, dumped, dump, dump_if,
}
use supaback.Backup.Database
use supaback.Config.{Config, SupabaseConfig}
use supaback.Store.{Store}
use supaback.Store.Jobs.{create_job}
use supaback.Runner.{
  Backups, Run, result_of, run_database, back_up, retain, run_job, run_created, run_validated, run,
}
use supaback.Runner.Restorable.{halves, only_database}

module _ {W : Type 0} (backups : Backups W) (dest : Destination W) where
  -- Retention is left out of a run that returns an error.
  run_unretained :
      (r : Run) (c : Config) (s : Store) (w : W) {e : Text}
      → (run backups dest r c s w).0 ≡ err e
      → ((run backups dest r c s w).2 ≡ w)
        ⊎ ((run backups dest r c s w).2 ≡ (back_up backups dest c w).1)
  unfolding run run_validated run_created run_job retain result_of create_job
  run_unretained r c s w h = ground arith

module _ (net : Network Disk) (tools : Tools Disk) (base_path : Text)
    (lookups : (host : Text) (d : Disk) → (net.lookup_host host d).1 ≡ d)
    (dumps : (args : List Text) (password : Text) (d : Disk)
      → (tools.pg_dump args password d).1 ≡ d) where
  resolve-disk : (host : Text) (d : Disk) → (resolve net host d).1 ≡ d
  unfolding resolve
  resolve-disk host d = elim (Bool-cases (net.is_ipv4 host)) [
    | inl t ↦ rw t refl
    | inr f ↦ rw f (lookups host d)
  ]

  dsn_of-disk : (raw : Text) (u : Option Url) (d : Disk) → (dsn_of net raw u d).1 ≡ d
  unfolding dsn_of
  dsn_of-disk raw none d = refl
  dsn_of-disk raw (some u) d = elim (Bool-cases (is_empty u.hostname)) [
    | inl t ↦ rw t refl
    | inr f ↦ rw f (resolve-disk u.hostname d)
  ]

  reachable-disk : (u : Option Url) (d : Disk) → (reachable net u d).1 ≡ d
  unfolding reachable
  reachable-disk none d = refl
  reachable-disk (some u) d = elim (Bool-cases (is_empty u.hostname || net.is_ipv4 u.hostname)) [
    | inl t ↦ rw t refl
    | inr f ↦ rw f (lookups u.hostname d)
  ]

  module _ (other : Text) (f : Reader) where
    abbrev Reads : Disk → Type 0
    Reads d = (read base_path other d).0 ≡ ok f

    module _ (key : Text)
        (elsewhere : locate (join_path base_path other) ≢ locate (join_path base_path key)) where
      dumped-Reads :
          (compress : Bool) (r : Dump × Disk)
          → Reads r.1
          → Reads (dumped net tools (local base_path) key compress r).1
      unfolding dumped
      dumped-Reads compress (x, d) h = write_elsewhere base_path key other _ f d elsewhere h

      dump-Reads :
          (compress : Bool) (c : (Text × Text) × Disk)
          → Reads c.1
          → Reads (dump net tools (local base_path) key compress c).1
      unfolding dump
      dump-Reads compress ((dsn, password), d) h =
          dumped-Reads compress _ (subst Reads (sym (dumps _ password d)) h)

      dump_if-Reads :
          (raw : Text) (compress : Bool) (c : Option Text × Disk)
          → Reads c.1
          → Reads (dump_if net tools (local base_path) raw key compress c).1
      unfolding dump_if build_conn_dsn
      dump_if-Reads raw compress (some e, d) h = h
      dump_if-Reads raw compress (none, d) h =
          dump-Reads compress _ (subst Reads (sym (dsn_of-disk raw (net.parse_url raw) d)) h)

    module _ (clock : Clock) (compress : Bool)
        (elsewhere : locate (join_path base_path other)
          ≢ locate (join_path base_path (key_of clock compress))) where
      run-Reads :
          (raw : Text) (d : Disk)
          → Reads d
          → Reads (Database.run net tools (local base_path) clock raw compress d).1
      unfolding Database.run check_ipv4_reachable
      run-Reads raw d h = elim (Bool-cases (tools.look_path d)) [
        | inl t ↦ rw t (
            dump_if-Reads (key_of clock compress) elsewhere raw compress _
              (subst Reads (sym (reachable-disk (net.parse_url raw) d)) h))
        | inr n ↦ rw n h
      ]

  module _ (clock : Clock) (storage : SupabaseConfig → List Text → Disk → Result ℤ × Disk) where
    run_database-Reads :
        (c : Config) (d : Disk) (other : Text) (f : Reader)
        → locate (join_path base_path other)
          ≢ locate (join_path base_path (key_of clock c.backup.compress))
        → Reads other f d
        → Reads other f
            (run_database (halves net tools base_path clock storage) (local base_path) c d).1
    unfolding run_database
    run_database-Reads c d other f elsewhere h = elim (Bool-cases c.backup.include_database) [
      | inr off ↦ simp off h
      | inl on ↦
          simp on (run-Reads other f clock c.backup.compress elsewhere c.supabase.database_url d h)
    ]

    back_up-Reads :
        (c : Config) (d : Disk) (other : Text) (f : Reader)
        → c.backup.include_storage ≡ false
        → locate (join_path base_path other)
          ≢ locate (join_path base_path (key_of clock c.backup.compress))
        → Reads other f d
        → Reads other f (back_up (halves net tools base_path clock storage) (local base_path) c d).1
    unfolding back_up
    back_up-Reads c d other f b elsewhere h =
        let (p, d') =
          run_database (halves net tools base_path clock storage) (local base_path) c d in
        subst (Reads other f)
          (sym (ap (λ x. x.1) (only_database net tools base_path clock storage c p d' b)))
          (run_database-Reads c d other f elsewhere h)

    -- A job without the storage half, to a directory of the disk, that returns an error leaves what
    -- a read gives of every place but that of the dump's own key, where that was no error: nothing
    -- is deleted or overwritten there, whatever the retention settings. It is so for a resolver and
    -- a pg_dump that leave the disk as it is.
    pub failed_job_spares :
        (r : Run) (c : Config) (s : Store) (d : Disk) (other : Text) (f : Reader) {e : Text}
        → c.backup.include_storage ≡ false
        → locate (join_path base_path other)
          ≢ locate (join_path base_path (key_of clock c.backup.compress))
        → (run (halves net tools base_path clock storage) (local base_path) r c s d).0 ≡ err e
        → (read base_path other d).0 ≡ ok f
        → (read base_path other
            (run (halves net tools base_path clock storage) (local base_path) r c s d).2).0
          ≡ ok f
    failed_job_spares r c s d other f b elsewhere failing h =
        elim (run_unretained (halves net tools base_path clock storage) (local base_path) r c s d
          failing) [
            | inl same ↦ subst (Reads other f) (sym same) h
            | inr same ↦ subst (Reads other f) (sym same) (back_up-Reads c d other f b elsewhere h)
          ]
