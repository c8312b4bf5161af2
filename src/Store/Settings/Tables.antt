-- ===== src/Store/Settings/Tables.antt =====
-- `SetSettings` writes to no table but that of the settings.
use supaback.Prelude.{Text, Option, none, some, ◌≡◌, refl, ap}
use supaback.Dict.{Dict}
use supaback.Store.{Store, Fault}
use supaback.Store.Settings.{
  TxFaults, Conn, begin_tx, committed, commit_tx, rollback, upsert_all, after_upserts, prepared,
  begun, transact, set_settings,
}
use supaback.Store.Settings.Transaction.{open_tx, closed_tx, upsert_all-open}

-- Only the settings of a store may differ.
abbrev SameTables : Store → Store → Type 0
SameTables s t =
    (t.jobs ≡ s.jobs)
    × (t.jobs_seq ≡ s.jobs_seq)
    × (t.schedules ≡ s.schedules)
    × (t.schedules_seq ≡ s.schedules_seq)

of_store : (c : Conn) (s : Store) → c.store ≡ s → SameTables s c.store
of_store c s e = rw e (refl, refl, refl, refl)

after_upserts-SameTables :
    (fault : Fault) (r : Option Text × Conn) (s : Store) (t : Dict)
    → r.1 ≡ open_tx s t
    → SameTables s (after_upserts fault r).1.store
unfolding after_upserts commit_tx committed
after_upserts-SameTables none (none, c) s t o = (
  ap (λ (c' : Conn). (committed c'.pending c'.store).jobs) o,
  ap (λ (c' : Conn). (committed c'.pending c'.store).jobs_seq) o,
  ap (λ (c' : Conn). (committed c'.pending c'.store).schedules) o,
  ap (λ (c' : Conn). (committed c'.pending c'.store).schedules_seq) o,
)
after_upserts-SameTables (some x) (none, c) s t o = of_store c s (ap (λ (c' : Conn). c'.store) o)
after_upserts-SameTables fault (some x, c) s t o = of_store c s (ap (λ (c' : Conn). c'.store) o)

prepare-SameTables :
    (p : Fault) (f : TxFaults) (m : Dict) (s : Store)
    → SameTables s (prepared p f m (open_tx s s.settings)).1.store
unfolding prepared
prepare-SameTables (some x) f m s = (refl, refl, refl, refl)
prepare-SameTables none f m s =
    let (t, o) = upsert_all-open f.exec m s s.settings in
    after_upserts-SameTables f.commit (upsert_all f.exec m (open_tx s s.settings)) s t o

begun-SameTables :
    (b : Fault) (f : TxFaults) (m : Dict) (s : Store)
    → SameTables s (begun f m (begin_tx b (closed_tx s))).1.store
unfolding begun begin_tx rollback
begun-SameTables (some x) f m s = (refl, refl, refl, refl)
begun-SameTables none f m s = prepare-SameTables f.prepare f m s

-- No statement of the transaction writes to another table.
pub set_settings_tables :
    (f : TxFaults) (m : Dict) (s : Store)
    → ((set_settings f m s).1.jobs ≡ s.jobs)
      × ((set_settings f m s).1.jobs_seq ≡ s.jobs_seq)
      × ((set_settings f m s).1.schedules ≡ s.schedules)
      × ((set_settings f m s).1.schedules_seq ≡ s.schedules_seq)
unfolding set_settings transact
set_settings_tables f m s = begun-SameTables f.begin f m s
