-- ===== src/Tables/Statuses.antt =====
-- The filters of `fetch_records` by status, and the status that a record shows.

use db_app.Base.{
  ℕ, zero, suc, ◌<◌, String, ◌≡◌, refl, sym, ap, ◌∙◌, true, Option, none, some, List, [], ◌∷◌,
  arith, nat_eq, string_eq, ◌==◌, keys, lookup, filter, take, length,
}
use db_app.Layer0.{Db}
use db_app.Tables.{Result, ok, RawTable, State}
use db_app.Tables.Fetch.{
  RecordsQuery, TableRecord, Reading, page, table_id_of, joined_rows, fetch_records,
}
use db_app.Tables.Filtered.{IsApart, Reads, Reads-take, Reads-drop, to_records-Reads}
use db_app.Tables.Triage.{is_status, IsReadable, all_records, rows-everything, rows-status}

take_all {ℓ} : {A : Type ℓ} (n : ℕ) (xs : List A) → length (take n xs) < n → take n xs ≡ xs
take_all zero xs h = absurd (omega arith)
take_all (suc n) [] h = refl
take_all (suc n) (x ∷ xs) h = ap (λ rest. x ∷ rest) (take_all n xs (omega (arith, h)))

module _ {V : Type 0} (reading : Reading V) where
  unfoldable all_of : RawTable V → Db → RecordsQuery → Option ℕ → List (TableRecord V)
  all_of raw_table db query none = []
  all_of raw_table db query (some table_id) =
      all_records reading (keys raw_table.columns) db table_id query
        (reading.order (query.order_direction == "desc") raw_table.rows)

  joined-everything :
      (raw_table : RawTable V) (db : Db) (query : RecordsQuery) (n : ℕ) (table_id : Option ℕ)
      → IsReadable db
      → Reads reading
          (joined_rows reading raw_table table_id
            (record query { limit = n; row_offset = 0; triage_status = none })
            db)
          (all_of raw_table db query table_id)
  unfolding joined_rows all_of
  joined-everything raw_table db query n none h = tt
  joined-everything raw_table db query n (some table_id) h =
      rows-everything reading (keys raw_table.columns) db table_id query _ h

  joined-status :
      (raw_table : RawTable V) (db : Db) (query : RecordsQuery) (s : String) (table_id : Option ℕ)
      → is_status s ≡ true
      → IsApart (keys raw_table.columns)
      → IsReadable db
      → Reads reading
          (joined_rows reading raw_table table_id (record query { triage_status = some s }) db)
          (filter (λ rec. rec.triage_status == s) (all_of raw_table db query table_id))
  unfolding joined_rows all_of
  joined-status raw_table db query s none h apart reads = tt
  joined-status raw_table db query s (some table_id) h apart reads =
      rows-status reading (keys raw_table.columns) db table_id query s _ h apart reads

  -- Of a table that is there and has no column named as one that the statements add, with metadata
  -- that can be read, suppose that a page from the start, without a filter by status, is not full, so
  -- that it has all the records. Then a page with a filter by status is that page of those records
  -- that are shown with the status.
  pub fetch_records-status :
      (tables : State V) (db : Db) (table_name s : String) (query : RecordsQuery) (n : ℕ)
      (raw_table : RawTable V) (all : List (TableRecord V))
      → lookup table_name tables.raw ≡ some raw_table
      → IsApart (keys raw_table.columns)
      → IsReadable db
      → is_status s ≡ true
      → fetch_records reading tables db table_name
          (record query { limit = n; row_offset = 0; triage_status = none })
        ≡ ok all
      → length all < n
      → fetch_records reading tables db table_name (record query { triage_status = some s })
        ≡ ok (page query.limit query.row_offset (filter (λ rec. rec.triage_status == s) all))
  unfolding fetch_records
  fetch_records-status tables db table_name s query n raw_table all found apart reads h fetched
        short =
      let table_id = table_id_of table_name tables.registry in
      let records = all_of raw_table db query table_id in
      let query' : RecordsQuery = record query {
        limit = n;
        row_offset = 0;
        triage_status = none;
      } in
      let first_page : ◌≡◌ {A = Result (List (TableRecord V))} (ok (take n records)) (ok all) =
        sym (
          rw (found, fetch_records)
            (to_records-Reads reading _ _
              (Reads-take reading n _ _ (joined-everything raw_table db query n table_id reads))))
        ∙ fetched in
      let same : take n records ≡ all = cc first_page in
      let whole : records ≡ all = sym (take_all n records (rw same short)) ∙ same in
      rw (found, fetch_records, sym whole)
        (to_records-Reads reading _ _ (
          Reads-take reading query.limit _ _ (
            Reads-drop reading query.row_offset _ _
              (joined-status raw_table db query s table_id h apart reads))))
