-- ===== src/Store/Settings/Transaction.antt =====
-- `SetSettings` is one transaction: all of its values are written, or none.
use supaback.Prelude.{
  ℕ, Text, [], ◌∷◌, Option, none, some, ok, inl, inr, ◌≡◌, refl, ap, ◌∙◌, text_eq, text_eq_iff,
  Bool-cases, Option-cases,
}
use supaback.Dict.{Dict, get, set, get-set, IsMap}
use supaback.Store.{Store, Fault}
use supaback.Store.Settings.{
  TxFaults, Conn, begin_tx, upsert, committed, commit_tx, rollback, upsert_all, after_upserts,
  prepared, begun, transact, as_result, set_settings,
}

-- What a key holds after its value was sent: an empty value changes nothing.
abbrev pub stored : Option Text → Option Text → Option Text
stored none old = old
stored (some []) old = old
stored (some (c ∷ v)) old = some (c ∷ v)

passed_over :
    (old : Option Text) (m : Dict) (j k : Text)
    → get m j ≡ none
    → stored (get m k) old ≡ stored (get ((j, []) ∷ m) k) old
unfolding get
passed_over old m j k p = elim (Bool-cases (text_eq j k)) [
  | inl e ↦ rw (e, ← (text_eq_iff j k).0 e, p) refl
  | inr e ↦ rw e refl
]

written :
    (table m : Dict) (j : Text) (c : ℕ) (v : Text) (k : Text)
    → get m j ≡ none
    → stored (get m k) (get (set table j (c ∷ v)) k) ≡ stored (get ((j, c ∷ v) ∷ m) k) (get table k)
unfolding get
written table m j c v k p = elim (Bool-cases (text_eq j k)) [
  | inl e ↦ rw (get-set table j k (c ∷ v), e, ← (text_eq_iff j k).0 e, p) refl
  | inr e ↦ rw (get-set table j k (c ∷ v), e) refl
]

-- In the middle of a transaction.
abbrev pub open_tx : Store → Dict → Conn
open_tx s table = record { store = s; pending = some table }

-- Before it and after it.
abbrev pub closed_tx : Store → Conn
closed_tx s = record { store = s; pending = none }

-- Failing or not, the loop writes to the transaction alone.
pub upsert_all-open :
    (exec : Text → Fault) (m : Dict) (s : Store) (table : Dict)
    → (table' : Dict) × ((upsert_all exec m (open_tx s table)).1 ≡ open_tx s table')
unfolding upsert_all upsert
upsert_all-open exec [] s table = (table, refl)
upsert_all-open exec ((j, []) ∷ m) s table = upsert_all-open exec m s table
upsert_all-open exec ((j, c ∷ v) ∷ m) s table = elim (Option-cases (exec j)) [
  | inl e ↦ rw (e, upsert_all) (upsert_all-open exec m s (set table j (c ∷ v)))
  | inr (x, e) ↦ rw (e, upsert_all) (table, refl)
]

upsert_all-get :
    (exec : Text → Fault) (m : Dict) (s : Store) (table : Dict) (k : Text)
    → IsMap m
    → (upsert_all exec m (open_tx s table)).0 ≡ none
    → (table' : Dict) × ((upsert_all exec m (open_tx s table)).1 ≡ open_tx s table')
      × (get table' k ≡ stored (get m k) (get table k))
unfolding upsert_all upsert
upsert_all-get exec [] s table k p h = (table, refl, unfold get in refl)
upsert_all-get exec ((j, []) ∷ m) s table k p h =
    let (t, e, g) = upsert_all-get exec m s table k p.1 h in
    (t, e, g ∙ passed_over (get table k) m j k p.0)
upsert_all-get exec ((j, c ∷ v) ∷ m) s table k p h = elim (Option-cases (exec j)) [
  | inl e ↦
      let (t, a, g) =
        upsert_all-get exec m s (set table j (c ∷ v)) k p.1 (rw (e, upsert_all) at h) in
      rw (e, upsert_all) (t, a, g ∙ written table m j c v k p.0)
  | inr (x, e) ↦ absurd (never (rw (e, upsert_all) at h))
]
  where
    never : {x : Text} → some x ≡ none → ⊥
    never q = cc

upsert_all-ok :
    (exec : Text → Fault) (m : Dict) (c : Conn)
    → ((k : Text) → exec k ≡ none)
    → (upsert_all exec m c).0 ≡ none
unfolding upsert_all
upsert_all-ok exec [] c h = refl
upsert_all-ok exec ((j, []) ∷ m) c h = upsert_all-ok exec m c h
upsert_all-ok exec ((j, x ∷ v) ∷ m) c h =
    rw (h j, upsert_all) (upsert_all-ok exec m (upsert j (x ∷ v) c) h)

as_result-ok : (r : Option Text) → as_result r ≡ ok tt → r ≡ none
unfolding as_result
as_result-ok none h = refl
as_result-ok (some x) h = cc

after_upserts-kept :
    (fault : Fault) (r : Option Text × Conn) (s : Store) (table : Dict)
    → r.1 ≡ open_tx s table
    → (after_upserts fault r).0 ≡ none
    → (r.0 ≡ none) × ((after_upserts fault r).1.store ≡ record s { settings = table })
unfolding after_upserts commit_tx committed
after_upserts-kept none (none, c) s table o h =
    (refl, ap (λ (c' : Conn). committed c'.pending c'.store) o)
after_upserts-kept (some x) (none, c) s table o h = cc
after_upserts-kept fault (some x, c) s table o h = cc

prepared-get :
    (p : Fault) (f : TxFaults) (m : Dict) (s : Store) (k : Text)
    → IsMap m
    → (prepared p f m (open_tx s s.settings)).0 ≡ none
    → (table : Dict) × ((prepared p f m (open_tx s s.settings)).1.store
        ≡ record s { settings = table })
      × (get table k ≡ stored (get m k) (get s.settings k))
unfolding prepared
prepared-get (some x) f m s k i h = cc
prepared-get none f m s k i h =
    let loop : Option Text × Conn = upsert_all f.exec m (open_tx s s.settings) in
    let (t, o) = upsert_all-open f.exec m s s.settings in
    let (fine, _) = after_upserts-kept f.commit loop s t o h in
    let (table, e, g) = upsert_all-get f.exec m s s.settings k i fine in
    (table, (after_upserts-kept f.commit loop s table e h).1, g)

begun-get :
    (b : Fault) (f : TxFaults) (m : Dict) (s : Store) (k : Text)
    → IsMap m
    → (begun f m (begin_tx b (closed_tx s))).0 ≡ none
    → (table : Dict) × ((begun f m (begin_tx b (closed_tx s))).1.store
        ≡ record s { settings = table })
      × (get table k ≡ stored (get m k) (get s.settings k))
unfolding begun begin_tx rollback
begun-get (some x) f m s k i h = cc
begun-get none f m s k i h = prepared-get f.prepare f m s k i h

-- A `SetSettings` that returns no error has given each key of its map the value that the map holds
-- for it, unless that is empty; the other keys, the jobs and the schedules are as before.
pub set_settings-get :
    (f : TxFaults) (m : Dict) (s : Store) (k : Text)
    → IsMap m
    → (set_settings f m s).0 ≡ ok tt
    → (get (set_settings f m s).1.settings k ≡ stored (get m k) (get s.settings k))
      × ((set_settings f m s).1.schedules ≡ s.schedules)
      × ((set_settings f m s).1.jobs ≡ s.jobs)
unfolding set_settings transact
set_settings-get f m s k i h =
    let (table, e, g) = begun-get f.begin f m s k i (as_result-ok _ h) in
    (
      ap (λ (t : Store). get t.settings k) e ∙ g,
      ap (λ (t : Store). t.schedules) e,
      ap (λ (t : Store). t.jobs) e,
    )
