-- ===== src/Tables/Triage.antt =====
-- The rows that the statements of `fetch_records` have, by status.

use db_app.Base.{
  ℕ, String, ◌≡◌, refl, subst, Bool, true, false, ◌&&◌, ◌||◌, Option, none, some, List, [], ◌∷◌,
  arith, Dict, nat_eq, string_eq, ◌==◌, ==_comm, is_some, or_else, lookup, insert, contains,
  eq_of_beq, filter, filter-append, flat_map, if◌then◌else◌, All, All-lookup, Bool-cases,
  Option-cases, inl, inr,
}
use db_app.Layer0.{
  Db, Record, Crossmatch, RecordTriageStatus, pending, resolved, metadata_to_candidates,
}
use db_app.Crossmatch.Processed.{triage_value}
use db_app.Tables.{ok}
use db_app.Tables.Fetch.{
  Field, unprocessed, everything, triaged, variant_of, RecordsQuery, TableRecord, Reading,
  pgc_matches, pgc_field, raw_fields, added_fields, with_fields, join_found, join_record, to_record,
}
use db_app.Tables.Filtered.{
  IsApart, shown_candidates, Reads, record_of, Reads-append, to_record-everything,
  to_record-unprocessed,
}

-- the three statuses
abbrev pub is_status : String → Bool
is_status s = s == "unprocessed" || (s == "pending" || s == "resolved")

-- Every crossmatch result has metadata that the program can read.
abbrev pub IsReadable : Db → Type 0
IsReadable db = All (λ e. is_some (metadata_to_candidates (some e.1.metadata)) ≡ true) db.crossmatch

or_else-some : (o : Option (List ℕ)) → is_some o ≡ true → o ≡ some (or_else o [])
or_else-some none h = absurd (cc h)
or_else-some (some candidates) h = refl

readable :
    (db : Db) (id : String)
    → IsReadable db
    → shown_candidates (lookup id db.crossmatch)
      ≡ some (or_else (shown_candidates (lookup id db.crossmatch)) [])
readable db id h = elim (Option-cases (lookup id db.crossmatch)) [
  | inl missing ↦ rw missing refl
  | inr (c, found) ↦
      let known : is_some (metadata_to_candidates (some c.metadata)) ≡ true =
        All-lookup _ id c db.crossmatch h found in
      rw found (or_else-some (metadata_to_candidates (some c.metadata)) known)
]

module _ {V : Type 0} where
  lookup-raw_fields :
      (columns : List String) (id : String) (row : Dict String V) (k : String)
      → contains columns k ≡ false
      → lookup k (raw_fields columns id row) ≡ none
  lookup-raw_fields [] id row k h = refl
  lookup-raw_fields (column ∷ columns) id row k h =
      ground (arith, ==_comm k column, lookup-raw_fields columns id row k)

is_not_unprocessed : (t : RecordTriageStatus) → (triage_value t == "unprocessed") ≡ false
is_not_unprocessed pending = refl
is_not_unprocessed resolved = refl

triaged_of :
    (s : String)
    → is_status s ≡ true
    → (s == "unprocessed") ≡ false
    → (s == "pending" || s == "resolved") ≡ true
triaged_of s h k = ground (arith, h, k)

module _ {V : Type 0} (reading : Reading V) where
  added-everything :
      (id : String) (raw : Dict String (Field V)) (pgc : Option ℕ) (c : Option Crossmatch)
      (candidates : List ℕ)
      → shown_candidates c ≡ some candidates
      → Reads reading
          (with_fields raw id (added_fields everything pgc c))
          (record_of reading id raw pgc c candidates ∷ [])
  unfolding added_fields
  added-everything id raw pgc c candidates h =
      (to_record-everything reading id raw pgc c candidates h, tt)

  added-status :
      (s : String) (id : String) (raw : Dict String (Field V)) (pgc : Option ℕ)
      (c : Option Crossmatch) (candidates : List ℕ)
      → is_status s ≡ true
      → shown_candidates c ≡ some candidates
      → lookup "triage_status" raw ≡ none
      → lookup "crossmatch_metadata" raw ≡ none
      → Reads reading
          (with_fields raw id (added_fields (variant_of (some s)) pgc c))
          (filter (λ rec. rec.triage_status == s) (record_of reading id raw pgc c candidates ∷ []))
  unfolding added_fields
  added-status s id raw pgc c candidates h k no_status no_metadata =
      elim (Bool-cases (s == "unprocessed")) [
        | inl same ↦ rw (eq_of_beq s "unprocessed" same) (of_unprocessed c k)
        | inr other ↦ rw (other, triaged_of s h other) (of_triaged c k other)
      ]
    where
      of_unprocessed :
          (c : Option Crossmatch)
          → shown_candidates c ≡ some candidates
          → Reads reading (with_fields raw id (added_fields unprocessed pgc c)) (
              filter
                (λ rec. rec.triage_status == "unprocessed")
                (record_of reading id raw pgc c candidates ∷ []))
      of_unprocessed none k = (
        let empty : [] ≡ candidates = cc k in
            subst
              (λ shown.
                to_record reading (id, insert "pgc" (pgc_field pgc) raw)
                ≡ ok (record_of reading id raw pgc none shown))
              empty (to_record-unprocessed reading id raw pgc no_status no_metadata),
        tt,
      )
      of_unprocessed (some c) k = rw (is_not_unprocessed c.triage_status) tt

      of_triaged :
          (c : Option Crossmatch)
          → shown_candidates c ≡ some candidates
          → (s == "unprocessed") ≡ false
          → Reads reading (with_fields raw id (added_fields (triaged s) pgc c)) (
              filter
                (λ rec. rec.triage_status == s)
                (record_of reading id raw pgc c candidates ∷ []))
      of_triaged none k other = rw (==_comm "unprocessed" s, other) tt
      of_triaged (some c) k other = elim (Bool-cases (triage_value c.triage_status == s)) [
        | inl same ↦ rw same (to_record-everything reading id raw pgc (some c) candidates k, tt)
        | inr different ↦ rw different tt
      ]

module _ {V : Type 0} (reading : Reading V) (columns : List String) (db : Db) (table_id : ℕ)
    (query : RecordsQuery) where
  abbrev is_found : Record → Bool
  is_found r = r.table_id == table_id && pgc_matches query.has_pgc query.pgc_value r.pgc

  -- the record of a raw row, with all its statuses
  abbrev row_record : String × Dict String V → Option Record → List (TableRecord V)
  row_record (id, row) none = []
  row_record (id, row) (some r) =
      if is_found r
      then record_of reading id (raw_fields columns id row) r.pgc (lookup id db.crossmatch)
          (or_else (shown_candidates (lookup id db.crossmatch)) [])
        ∷ []
      else []

  join-everything :
      (e : String × Dict String V) (o : Option Record)
      → IsReadable db
      → Reads reading (join_found columns db table_id query everything e o) (row_record e o)
  unfolding join_found
  join-everything (id, row) none h = tt
  join-everything (id, row) (some r) h = elim (Bool-cases (is_found r)) [
    | inl found ↦ rw found (
        added-everything reading id (raw_fields columns id row) r.pgc (lookup id db.crossmatch) _
          (readable db id h))
    | inr other ↦ rw other tt
  ]

  join-status :
      (s : String) (e : String × Dict String V) (o : Option Record)
      → is_status s ≡ true
      → IsApart columns
      → IsReadable db
      → Reads reading
          (join_found columns db table_id query (variant_of (some s)) e o)
          (filter (λ rec. rec.triage_status == s) (row_record e o))
  unfolding join_found
  join-status s (id, row) none h apart reads = tt
  join-status s (id, row) (some r) h apart reads = elim (Bool-cases (is_found r)) [
    | inl found ↦ rw found (
        added-status reading s id (raw_fields columns id row) r.pgc (lookup id db.crossmatch) _ h
          (readable db id reads) (lookup-raw_fields columns id row "triage_status" apart.0)
          (lookup-raw_fields columns id row "crossmatch_metadata" apart.1))
    | inr other ↦ rw other tt
  ]

  -- the records of all rows
  abbrev pub all_records : Dict String (Dict String V) → List (TableRecord V)
  all_records = flat_map (λ e. row_record e (lookup e.0 db.records))

  pub rows-everything :
      (rows : Dict String (Dict String V))
      → IsReadable db
      → Reads reading
          (flat_map (join_record columns db table_id query everything) rows)
          (all_records rows)
  rows-everything [] h = tt
  rows-everything (e ∷ rows) h =
      Reads-append reading _ _ _ _ (join-everything e (lookup e.0 db.records) h)
        (rows-everything rows h)

  pub rows-status :
      (s : String) (rows : Dict String (Dict String V))
      → is_status s ≡ true
      → IsApart columns
      → IsReadable db
      → Reads reading
          (flat_map (join_record columns db table_id query (variant_of (some s))) rows)
          (filter (λ rec. rec.triage_status == s) (all_records rows))
  rows-status s [] h apart reads = tt
  rows-status s (e ∷ rows) h apart reads =
      rw
        (filter-append (λ (rec : TableRecord V). rec.triage_status == s)
          (row_record e (lookup e.0 db.records)) (all_records rows))
        (Reads-append reading _ _ _ _ (join-status s e (lookup e.0 db.records) h apart reads)
          (rows-status s rows h apart reads))
