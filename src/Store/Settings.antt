-- ===== src/Store/Settings.antt =====
-- internal/store/settings.go: the table of settings.
pub mod Tables
pub mod Transaction
use supaback.Prelude.{Text, codes, List, [], ◌∷◌, ◌++◌, Option, none, some, Result, ok, err}
use supaback.Dict.{Dict, get, set}
use supaback.Store.{Store, Fault}

-- `GetAllSettings`.
unfoldable pub get_all_settings : Fault → Store → Result Dict
get_all_settings (some e) s = err e
get_all_settings none s = ok s.settings

or_blank : Option Text → Text
or_blank none = []
or_blank (some v) = v

-- `GetSetting`: empty where there is no row.
unfoldable pub get_setting : Fault → Text → Store → Result Text
unfolding or_blank
get_setting (some e) key s = err e
get_setting none key s = ok (or_blank (get s.settings key))

-- The driver's failures in one transaction; a statement fails by its key.
pub record TxFaults : Type 0 where
  pub begin : Fault
  pub prepare : Fault
  pub exec : Text → Fault
  pub commit : Fault

-- What the calls of the driver see: the store, and the table of settings as the open transaction
-- has it, if one is open.
pub record Conn : Type 0 where
  pub store : Store
  pub pending : Option Dict

-- `BeginTx`.
unfoldable pub begin_tx : Fault → Conn → Option Text × Conn
begin_tx (some e) c = (some e, c)
begin_tx none c = (none, record c { pending = some c.store.settings })

-- The upsert, in the open transaction; without one it would write at once.
unfoldable pub upsert : Text → Text → Conn → Conn
upsert k v c = elim c.pending [
  | some table ↦ record c { pending = some (set table k v) }
  | none ↦ record c { store = record c.store { settings = set c.store.settings k v } }
]

-- `tx.Commit()`; a transaction whose commit fails is over too, and nothing of it is kept.
committed : Option Dict → Store → Store
committed none s = s
committed (some table) s = record s { settings = table }

unfoldable pub commit_tx : Fault → Conn → Option Text × Conn
unfolding committed
commit_tx (some e) c = (some e, record c { pending = none })
commit_tx none c = (none, record { store = committed c.pending c.store; pending = none })

-- The deferred `tx.Rollback()`, which does nothing after a commit.
unfoldable pub rollback : Conn → Conn
rollback c = record c { pending = none }

-- The loop of upserts. An empty value is passed over.
unfoldable pub upsert_all : (Text → Fault) → Dict → Conn → Option Text × Conn
upsert_all exec [] c = (none, c)
upsert_all exec ((k, []) ∷ m) c = upsert_all exec m c
upsert_all exec ((k, x ∷ v) ∷ m) c = elim (exec k) [
  | none ↦ upsert_all exec m (upsert k (x ∷ v) c)
  | some e ↦ (some (codes "set " ++ (k ++ (codes ": " ++ e))), c)
]

-- After the loop.
unfoldable pub after_upserts : Fault → Option Text × Conn → Option Text × Conn
after_upserts fault (some e, c) = (some e, c)
after_upserts fault (none, c) = commit_tx fault c

-- `tx.PrepareContext` and what follows.
unfoldable pub prepared : Fault → TxFaults → Dict → Conn → Option Text × Conn
prepared (some e) f m c = (some (codes "prepare: " ++ e), c)
prepared none f m c = after_upserts f.commit (upsert_all f.exec m c)

-- After `BeginTx`: the rollback is deferred, so it comes last on every way out.
unfoldable pub begun : TxFaults → Dict → Option Text × Conn → Option Text × Conn
begun f m (some e, c) = (some (codes "begin tx: " ++ e), c)
begun f m (none, c) = let (r, c') = prepared f.prepare f m c in (r, rollback c')

unfoldable pub transact : TxFaults → Dict → Conn → Option Text × Conn
transact f m c = begun f m (begin_tx f.begin c)

as_result : Option Text → Result (Unit {0})
as_result none = ok tt
as_result (some e) = err e

-- `SetSettings`.
unfoldable pub set_settings : TxFaults → Dict → Store → Result (Unit {0}) × Store
unfolding as_result
set_settings f m s =
    let (r, c) = transact f m (record { store = s; pending = none }) in (as_result r, c.store)
