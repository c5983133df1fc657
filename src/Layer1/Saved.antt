-- ===== src/Layer1/Saved.antt =====
-- What saving measurements leaves for the import.

use mathlib.Core.List.{map-append}
use db_app.Base.{
  ℕ, String, ◌<◌, ◌≡◌, refl, sym, ap, ◌∙◌, Bool, length, true, false, ◌||◌, not, Option, none, some,
  List, [], ◌∷◌, map, arith, Dict, Eq, nat_eq, string_eq, ◌==◌, ==_refl, ==_comm, eq_of_beq, keys,
  lookup, contains, contains-append, contains-filter, any, All, All-map, All-contains-keys,
  Bool-cases, inl, inr,
}
use db_app.Layer0.{Db, Record}
use db_app.Layer0.Records.{touch, has_duplicates}
use db_app.Layer0.Merge.{previous_pgcs}
use db_app.Layer0.Assigned.{lookup-touch}
use db_app.Layer1.{joined, join_row, no_join, modified_since}
use db_app.Layer1.Pages.{updated_pgcs, contains-sort_distinct}
use db_app.Layer1.Saving.{
  Rules, is_part, is_arbiter, completed, replaced, place, upsert_rows, Row, Saved, refused, saved,
  ◌>>=◌, cells, rows_of, conflicts, updated_row, upsert_row, update_columns_of,
  save_structured_data,
}

always : (b : Bool) → (b || true) ≡ true
always true = refl
always false = refl

-- A record with a number is among those whose number was asked for.
contains-previous :
    (ids : List String) (db : Db) (id : String) (r : Record) (p : ℕ) (records : Dict String Record)
    → contains ids id ≡ true
    → lookup id records ≡ some r
    → r.pgc ≡ some p
    → contains (previous_pgcs ids (record db { records = records })) p ≡ true
unfolding previous_pgcs
contains-previous ids db id r p [] asked found numbered = absurd (cc found)
contains-previous ids db id r p ((other, row) ∷ records) asked found numbered =
    elim (Bool-cases (other == id)) [
      | inl same ↦
          let is_row : some row ≡ some r = rw same at found in
          let row_number : row.pgc ≡ some p =
            ap (λ (o : Option Record). elim o [ none ↦ none | some x ↦ x.pgc ]) is_row ∙ numbered in
          let asked_row : contains ids other ≡ true =
            ap (contains ids) (eq_of_beq other id same) ∙ asked in
          rw (asked_row, row_number, ==_refl p) refl
      | inr different ↦
          contains-append _ (previous_pgcs ids (record db { records = records })) p
          ∙ rw (contains-previous ids db id r p records asked (rw different at found) numbered)
              (ground arith)
    ]

-- A row of a record with a number is joined under the number.
contains-joined_row :
    {V : Type 0} (db : Db) (table : List (String × V)) (id : String) (r : Record) (p : ℕ)
    → contains (map (λ row. row.0) table) id ≡ true
    → lookup id db.records ≡ some r
    → r.pgc ≡ some p
    → contains (map (λ row. row.0) (joined no_join db table)) p ≡ true
contains-joined_row db [] id r p listed found numbered = absurd (cc listed)
contains-joined_row db (row ∷ table) id r p listed found numbered =
    ap (λ pgcs. contains pgcs p)
      (map-append (λ (x : ℕ × _). x.0) (join_row no_join db row) (joined no_join db table))
    ∙ contains-append (map (λ x. x.0) (join_row no_join db row))
        (map (λ x. x.0) (joined no_join db table)) p
    ∙ elim (Bool-cases (id == row.0)) [
      | inl same ↦
          let row_found : lookup row.0 db.records ≡ some r =
            ap (λ n. lookup n db.records) (sym (eq_of_beq id row.0 same)) ∙ found in
          ground (arith, row_found, numbered, ==_refl p)
      | inr different ↦
          rw
            (contains-joined_row db table id r p (ground (arith, listed, different)) found numbered)
            (ground arith)
    ]

id_is_kept :
    (conflict_keys columns : List String)
    → contains conflict_keys "record_id" ≡ true
    → contains (update_columns_of conflict_keys columns) "record_id" ≡ false
id_is_kept conflict_keys columns there =
    contains-filter (λ c. not (contains conflict_keys c)) ("record_id" ∷ columns) "record_id"
    ∙ ground (arith, there)

module _ {C : Type 0} ⦃e : Eq C⦄ (rules : Rules C) where
  -- A row that replaces another one is taken if both are, as constraints of single columns do.
  abbrev pub AcceptsUpdates : List String → Type 0
  AcceptsUpdates update_columns =
      (new old : Row C)
      → rules.accepts new ≡ true
      → rules.accepts old ≡ true
      → rules.accepts (updated_row update_columns new old) ≡ true

  abbrev pub AllAccepted : List (Row C) → Type 0
  AllAccepted = All (λ row. rules.accepts row ≡ true)

  -- The rows give columns of the table only, and the table takes them.
  abbrev pub AllGood : List (Row C) → Type 0
  AllGood = All (λ row.
      (is_part (keys row.1) (keys rules.defaults) ≡ true)
      × (rules.accepts (completed rules row) ≡ true))

  conflicts_id :
      (conflict_keys : List String) (new old : Row C)
      → contains conflict_keys "record_id" ≡ true
      → conflicts rules conflict_keys new old ≡ true
      → old.0 ≡ new.0
  unfolding conflicts
  conflicts_id [] new old there h = absurd (cc there)
  conflicts_id (k ∷ conflict_keys) new old there h = elim (Bool-cases (k == "record_id")) [
    | inl same ↦ eq_of_beq old.0 new.0 (ground (arith, h, same))
    | inr other ↦
        conflicts_id conflict_keys new old (ground (arith, there, ==_comm k "record_id", other))
          (ground (arith, h))
  ]

  -- A row with the ids of these rows and of one more.
  abbrev HasIds : List (Row C) → Row C → List (Row C) → Type 0
  HasIds table new changed =
      (id : String)
      → contains (map (λ row. row.0) changed) id
        ≡ (contains (map (λ row. row.0) table) id || id == new.0)

  replaced-saved :
      (update_columns : List String) (rows : List (Row C)) (new old : Row C)
      → AcceptsUpdates update_columns
      → contains update_columns "record_id" ≡ false
      → old.0 ≡ new.0
      → rules.accepts new ≡ true
      → AllAccepted (old ∷ rows)
      → (changed : List (Row C)) × (replaced rules update_columns rows new old ≡ saved changed)
        × AllAccepted changed
        × HasIds (old ∷ rows) new changed
  unfolding replaced updated_row
  replaced-saved [] rows new old updates kept same good table =
      (old ∷ rows, refl, table, λ id. ground (arith, ap (λ n. id == n) same))
  replaced-saved (c ∷ update_columns) rows new old updates kept same good table =
      let taken = updates new old good table.0 in
      (
        updated_row (c ∷ update_columns) new old ∷ rows,
        rw taken refl,
        (taken, table.1),
        λ id. rw kept (ground (arith, ap (λ n. id == n) same)),
      )

  place-saved :
      (conflict_keys update_columns : List String) (table : List (Row C)) (new : Row C)
      → AcceptsUpdates update_columns
      → contains conflict_keys "record_id" ≡ true
      → contains update_columns "record_id" ≡ false
      → rules.accepts new ≡ true
      → AllAccepted table
      → (changed : List (Row C)) × (place rules conflict_keys update_columns table new
          ≡ saved changed)
        × AllAccepted changed
        × HasIds table new changed
  unfolding place
  place-saved conflict_keys update_columns [] new updates there kept good table =
      (new ∷ [], refl, (good, tt), λ id. ground arith)
  place-saved conflict_keys update_columns (old ∷ rows) new updates there kept good table =
      elim (Bool-cases (conflicts rules conflict_keys new old)) [
        | inl same ↦
            let (changed, e, taken, has) =
              replaced-saved update_columns rows new old updates kept
                (conflicts_id conflict_keys new old there same) good table in
            (changed, rw same e, taken, has)
        | inr different ↦
            let (changed, e, taken, has) =
              place-saved conflict_keys update_columns rows new updates there kept good table.1 in
            (old ∷ changed, rw (different, e) refl, (table.0, taken), λ id. ground (arith, has id))
      ]

  upsert_rows-saved :
      (conflict_keys update_columns : List String) (table rows : List (Row C))
      → AcceptsUpdates update_columns
      → contains conflict_keys "record_id" ≡ true
      → contains update_columns "record_id" ≡ false
      → AllGood rows
      → AllAccepted table
      → (changed : List (Row C)) × (upsert_rows rules conflict_keys update_columns table rows
          ≡ saved changed)
        × AllAccepted changed
        × ((id : String)
            → contains (map (λ row. row.0) changed) id
              ≡ (contains (map (λ row. row.0) table) id || contains (map (λ row. row.0) rows) id))
  unfolding upsert_rows upsert_row
  upsert_rows-saved conflict_keys update_columns table [] updates there kept good taken =
      (table, refl, taken, λ id. ground arith)
  upsert_rows-saved conflict_keys update_columns table (row ∷ rows) updates there kept good taken =
      let (placed, e, accepted, has) =
        place-saved conflict_keys update_columns table (completed rules row) updates there kept
          good.0.1 taken in
      let (changed, e', accepted', has') =
        upsert_rows-saved conflict_keys update_columns placed rows updates there kept good.1
          accepted in
      (changed, rw (good.0.0, good.0.1, e) e', accepted', λ id. ground (arith, has' id, has id))

module _ {C : Type 0} where
  rows_of-ids :
      (columns ids : List String) (data_rows : List (List (Option C))) (rows : List (Row C))
      → rows_of columns ids data_rows ≡ saved rows
      → map (λ row. row.0) rows ≡ ids
  unfolding rows_of
  rows_of-ids columns [] [] rows h =
      let none_left : [] ≡ rows = cc h in ap (map (λ row. row.0)) (sym none_left)
  rows_of-ids columns [] (vals ∷ data_rows) rows h = absurd (cc h)
  rows_of-ids columns (id ∷ ids) [] rows h = absurd (cc h)
  rows_of-ids columns (id ∷ ids) (vals ∷ data_rows) rows h =
      go (cells columns vals) (rows_of columns ids data_rows)
        (λ others e. rows_of-ids columns ids data_rows others e) h
    where
      go :
          (row : Saved (Dict String (Option C))) (rest : Saved (List (Row C)))
          → ((others : List (Row C)) → rest ≡ saved others → map (λ row. row.0) others ≡ ids)
          → (row >>= λ first. rest >>= λ others. saved ((id, first) ∷ others)) ≡ saved rows
          → map (λ row. row.0) rows ≡ id ∷ ids
      go (refused error) rest e k = absurd (cc k)
      go (saved row) (refused error) e k = absurd (cc k)
      go (saved row) (saved others) e k =
          let same : (id, row) ∷ others ≡ rows = cc k in
          ap (map (λ row. row.0)) (sym same) ∙ ap (λ names. id ∷ names) (e others refl)

module _ {C : Type 0} ⦃e : Eq C⦄ (rules : Rules C) where
  -- Measurements with as many cells as columns, of records that are there, which the table takes by
  -- its constraints, also in the place of its rows, are saved, if no column is given twice and the
  -- keys of the conflict are the unique key of the table and have the record. The table then has a
  -- row of every one of these records, and the number of the record is among those that have changed
  -- after any earlier time, which an import reads.
  pub save_structured_data-updated_pgcs :
      (columns ids conflict_keys : List String) (data_rows : List (List (Option C)))
      (table rows : List (Row C)) (db : Db) (id : String) (r : Record) (p dt : ℕ)
      → rows_of columns ids data_rows ≡ saved rows
      → any (λ row. not (contains (keys db.records) row.0)) rows ≡ false
      → AllGood rules rows
      → AllAccepted rules table
      → AcceptsUpdates rules (update_columns_of conflict_keys columns)
      → is_arbiter rules conflict_keys ≡ true
      → has_duplicates ("record_id" ∷ columns) ≡ false
      → contains conflict_keys "record_id" ≡ true
      → contains ids id ≡ true
      → lookup id db.records ≡ some r
      → r.pgc ≡ some p
      → contains (keys db.pgcs) p ≡ true
      → dt < db.now
      → (table' : List (Row C)) × (db' : Db) × (save_structured_data rules columns ids data_rows
            conflict_keys table db
          ≡ saved (table', db'))
        × All (λ row. contains (map (λ row'. row'.0) table') row.0 ≡ true) rows
        × (contains (updated_pgcs db' table' dt) p ≡ true)
  unfolding updated_pgcs save_structured_data
  save_structured_data-updated_pgcs columns ids conflict_keys data_rows table rows db id r p dt made
        known good taken updates arbiter distinct keyed asked found numbered there late =
      let update_columns = update_columns_of conflict_keys columns in
      let (table', e, _, has) =
        upsert_rows-saved rules conflict_keys update_columns table rows updates keyed
          (id_is_kept conflict_keys columns keyed) good taken in
      let db' = record db { pgcs = touch db.now (previous_pgcs ids db) db.pgcs } in
      let listed : contains (map (λ row. row.0) table') id ≡ true =
        has id
        ∙ ground (
          arith,
          ap (λ names. contains names id) (rows_of-ids columns ids data_rows rows made) ∙ asked,
        ) in
      let newer : modified_since db' dt p ≡ true = ground (
        arith,
        late,
        lookup-touch db.now (previous_pgcs ids db) db.pgcs p
            (contains-previous ids db id r p db.records asked found numbered) there,
      ) in
      (
        table',
        db',
        rw (made, known, arbiter, distinct, always (length rows == 0), e) refl,
        All-map _ _ (λ row listed'. has row.0 ∙ ground (arith, listed')) rows
            (All-contains-keys rows),
        contains-sort_distinct p _
            ∙ contains-filter (modified_since db' dt) _ p
            ∙ rw (contains-joined_row db' table' id r p listed found numbered, newer) refl,
      )
