-- ===== src/Upload/Again.antt =====
-- What the two writes of an upload do when they are made again.

use db_app.Base.{
  ℕ, String, ◌≡◌, refl, sym, ap, ◌∙◌, true, ◌||◌, Option, none, some, List, [], ◌∷◌, arith, Dict,
  Eq, nat_eq, string_eq, ◌==◌, keys, lookup, lookup-insert, lookup-insert_self, insert, contains,
  contains-append, foldl, All, All-map, All-contains-keys, Bool-cases, inl, inr,
}
use mathlib.Core.List.{map-append}
use db_app.Layer0.{Record}
use db_app.Layer0.Records.{register_record}
use db_app.Tables.Kept.{ids}
use db_app.Upload.Rows.{insert_row}

module _ {V : Type 0} where
  contains-insert_row :
      (rows : Dict String (Dict String V)) (row : String × Dict String V) (id : String)
      → contains (keys (insert_row rows row)) id ≡ (contains (keys rows) id || id == row.0)
  contains-insert_row rows row id = elim (Bool-cases (contains (keys rows) row.0)) [
    | inl old ↦ rw old (ground (arith, string_eq.test_iff id row.0, old))
    | inr new ↦ rw new (
        ap (λ names. contains names id)
          (map-append (λ (e : String × Dict String V). e.0) rows (row ∷ []))
        ∙ contains-append (keys rows) (row.0 ∷ []) id
        ∙ ground arith)
  ]

  pub contains-foldl :
      (rows : Dict String (Dict String V)) (new : List (String × Dict String V)) (id : String)
      → contains (keys (foldl insert_row rows new)) id
        ≡ (contains (keys rows) id || contains (keys new) id)
  contains-foldl rows [] id = ground arith
  contains-foldl rows (row ∷ new) id =
      contains-foldl (insert_row rows row) new id ∙ ground (arith, contains-insert_row rows row id)

  -- Rows whose ids are there are left out.
  foldl_old :
      (rows : Dict String (Dict String V)) (new : List (String × Dict String V))
      → All (λ row. contains (keys rows) row.0 ≡ true) new
      → foldl insert_row rows new ≡ rows
  foldl_old rows [] h = refl
  foldl_old rows (row ∷ new) h = rw h.0 (foldl_old rows new h.1)

  pub insert_row_again :
      (rows : Dict String (Dict String V)) (new : List (String × Dict String V))
      → foldl insert_row (foldl insert_row rows new) new ≡ foldl insert_row rows new
  insert_row_again rows new = foldl_old (foldl insert_row rows new) new (
      All-map _ _ (λ row h. rw (contains-foldl rows new row.0, h) (ground arith)) new
        (All-contains-keys new))

-- A record that is registered with the table is registered again as it is.
pub insert_same {ℓ κ} :
    {K : Type ℓ} {V : Type κ} ⦃e : Eq K⦄ (k : K) (v : V) (d : Dict K V)
    → lookup k d ≡ some v
    → insert k v d ≡ d
insert_same k v [] h = absurd (cc h)
insert_same k v ((j, w) ∷ d) h = elim (Bool-cases (j == k)) [
  | inl same ↦
      let here : some w ≡ some v = rw same at h in
      let value : w ≡ v = cc here in rw (same, value) refl
  | inr other ↦ rw other (ap (λ rest. (j, w) ∷ rest) (insert_same k v d (rw other at h)))
]

abbrev pub IsRegistered : ℕ → Dict String Record → String → Type 0
IsRegistered table_id records id =
    (r : Record) × (lookup id records ≡ some r) × (r.table_id ≡ table_id)

-- the row that is written
abbrev written_record : ℕ → Option Record → Record
written_record table_id old = record {
  table_id = table_id;
  pgc = elim old [ none ↦ none | some r ↦ r.pgc ];
}

written_old :
    (table_id : ℕ) (old : Option Record) (r : Record)
    → old ≡ some r
    → r.table_id ≡ table_id
    → old ≡ some (written_record table_id old)
written_old table_id none r found table = absurd (cc found)
written_old table_id (some old) r found table =
    let same : old ≡ r = cc found in ap some (rw (sym table, sym same) refl)

register_record_old :
    (table_id : ℕ) (records : Dict String Record) (id : String)
    → IsRegistered table_id records id
    → register_record table_id records id ≡ records
register_record_old table_id records id (r, found, table) =
    insert_same id (written_record table_id (lookup id records)) records
      (written_old table_id (lookup id records) r found table)

IsRegistered-register :
    (table_id : ℕ) (records : Dict String Record) (id other : String)
    → IsRegistered table_id records other
    → IsRegistered table_id (register_record table_id records id) other
IsRegistered-register table_id records id other (r, found, table) =
    elim (Bool-cases (id == other)) [
      | inl same ↦ (
        written_record table_id (lookup id records),
        lookup-insert id other (written_record table_id (lookup id records)) records ∙ rw same refl,
        refl,
      )
      | inr different ↦ (
        r,
        lookup-insert id other (written_record table_id (lookup id records)) records
            ∙ rw different found,
        table,
      )
    ]

IsRegistered-foldl :
    (table_id : ℕ) (records : Dict String Record) (ids : List String) (other : String)
    → IsRegistered table_id records other
    → IsRegistered table_id (foldl (register_record table_id) records ids) other
IsRegistered-foldl table_id records [] other h = h
IsRegistered-foldl table_id records (id ∷ ids) other h =
    IsRegistered-foldl table_id (register_record table_id records id) ids other
      (IsRegistered-register table_id records id other h)

-- all the records that are registered
pub IsRegistered-all :
    (table_id : ℕ) (records : Dict String Record) (ids : List String)
    → All (IsRegistered table_id (foldl (register_record table_id) records ids)) ids
IsRegistered-all table_id records [] = tt
IsRegistered-all table_id records (id ∷ ids) = (
  IsRegistered-foldl table_id (register_record table_id records id) ids id
      (written_record table_id (lookup id records), lookup-insert_self id _ records, refl),
  IsRegistered-all table_id (register_record table_id records id) ids,
)

register_all_old :
    (table_id : ℕ) (records : Dict String Record) (ids : List String)
    → All (IsRegistered table_id records) ids
    → foldl (register_record table_id) records ids ≡ records
register_all_old table_id records [] h = refl
register_all_old table_id records (id ∷ ids) h =
    rw (register_record_old table_id records id h.0) (register_all_old table_id records ids h.1)

pub register_again :
    (table_id : ℕ) (records : Dict String Record) (ids : List String)
    → foldl (register_record table_id) (foldl (register_record table_id) records ids) ids
      ≡ foldl (register_record table_id) records ids
register_again table_id records ids =
    register_all_old table_id (foldl (register_record table_id) records ids) ids
      (IsRegistered-all table_id records ids)
