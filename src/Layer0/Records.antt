-- ===== src/Layer0/Records.antt =====
-- app/data/repositories/layer0/records.py: the operations on records, their crossmatch results and
-- their numbers. An operation that raises is rolled back, so it has no state to return. What a
-- rollback leaves of the sequence of numbers is not modelled.
use mathlib.Core.Option
use db_app.Base.{
  ℕ, zero, suc, String, Bool, true, false, ◌&&◌, ◌||◌, not, Option, none, some, List, [], ◌∷◌, ◌++◌,
  ◌≡◌, refl, arith, ==_comm, contains-append, Dict, nat_eq, string_eq, length, lookup, insert,
  update, keys, values, or_else, is_some, contains, filter, take, foldl, if◌then◌else◌,
}
use db_app.Layer0.{
  Db, Record, Crossmatch, RecordTriageStatus, pending, resolved, Value, int, Metadata,
  candidates_to_metadata,
}

pub data Failure : Type 0 where
  no_records : Failure
  no_table : Failure
  -- a primary key, a foreign key or a cast that the database refuses
  rejected : Failure
  precondition : (sample : List String) → (count : ℕ) → Failure
  not_found : (entity : ℕ) → Failure
  no_record : (entity : String) → Failure

pub data Outcome {ℓ} (A : Type ℓ) : Type ℓ where
  raised : Failure → Outcome A
  done : A → Outcome A

abbrev pub and_then {ℓ κ} : {A : Type ℓ} {B : Type κ} → Outcome A → (A → Outcome B) → Outcome B
and_then (raised failure) next = raised failure
and_then (done a) next = next a

-- `INSERT … ON CONFLICT (id) DO UPDATE SET table_id`
abbrev pub register_record : ℕ → Dict String Record → String → Dict String Record
register_record table_id records record_id =
    insert record_id
      (record {
        table_id = table_id;
        pgc = elim (lookup record_id records) [ none ↦ none | some old ↦ old.pgc ];
      })
      records

-- `registry` is the table `layer0.tables`, by name.
unfoldable pub register_records : Dict String ℕ → String → List String → Db → Outcome Db
register_records registry table_name [] db = raised no_records
register_records registry table_name (record_id ∷ record_ids) db =
    elim (lookup table_name registry) [
      | none ↦ raised no_table
      | some table_id ↦ done (record db {
        records = foldl (register_record table_id) db.records (record_id ∷ record_ids);
      })
    ]

-- `executemany` of the upsert; the foreign key wants the record.
unfoldable pub set_crossmatch_results :
    List (String × RecordTriageStatus × List ℕ) → Db → Outcome Db
set_crossmatch_results [] db = done db
set_crossmatch_results ((record_id, triage, candidates) ∷ rows) db =
    let row : Crossmatch = record {
      triage_status = triage;
      metadata = candidates_to_metadata candidates;
    } in
    let rest =
      set_crossmatch_results rows (record db { crossmatch = insert record_id row db.crossmatch }) in
    if contains (keys db.records) record_id then rest else raised rejected

-- `_mint_pgc_ids`: the next values of the sequence, as long as no row has them.
unfoldable pub mint_pgc_ids : ℕ → Db → Outcome (List ℕ × Db)
mint_pgc_ids zero db = done ([], db)
mint_pgc_ids (suc count) db =
    let rest =
      mint_pgc_ids count
        (record db { pgcs = insert db.pgc_seq db.now db.pgcs; pgc_seq = suc db.pgc_seq }) in
    let minted = and_then rest (λ result. done (db.pgc_seq ∷ result.0, result.1)) in
    if contains (keys db.pgcs) db.pgc_seq then raised rejected else minted

abbrev pub touch : ℕ → List ℕ → Dict ℕ ℕ → Dict ℕ ℕ
touch now pgc_ids [] = []
touch now pgc_ids ((pgc, time) ∷ pgcs) =
    (pgc, if contains pgc_ids pgc then now else time) ∷ touch now pgc_ids pgcs

-- common.py, `touch_pgcs`
unfoldable pub touch_pgcs : List ℕ → Db → Db
touch_pgcs pgc_ids db = record db { pgcs = touch db.now pgc_ids db.pgcs }

abbrev pub is_resolved : RecordTriageStatus → Bool
is_resolved pending = false
is_resolved resolved = true

-- the condition of `invalid_rows`, for a staged record
unfoldable pub is_invalid : Db → String → Bool
is_invalid db record_id = elim (lookup record_id db.crossmatch) [
  | none ↦ true
  | some c ↦ not (is_resolved c.triage_status) || contains (keys c.metadata) "possible_matches"
]

-- `COPY` into a table with a primary key
abbrev pub has_duplicates : List String → Bool
has_duplicates [] = false
has_duplicates (x ∷ xs) = contains xs x || has_duplicates xs

-- `JOIN layer0.records … r.pgc IS NULL`
unfoldable pub is_unassigned : Db → String → Bool
is_unassigned db record_id = elim (lookup record_id db.records) [
  | none ↦ false
  | some r ↦ not (is_some r.pgc)
]

unfoldable pub metadata_of : Db → String → Option Metadata
metadata_of db record_id = Option.map (λ c. c.metadata) (lookup record_id db.crossmatch)

-- `c.metadata->>'pgc'`, if the key is there
abbrev pub candidate_of : Option Metadata → Option Value
candidate_of none = none
candidate_of (some metadata) = lookup "pgc" metadata

-- `c.metadata = '{}'`
abbrev pub is_empty_object : Option Metadata → Bool
is_empty_object none = false
is_empty_object (some []) = true
is_empty_object (some (entry ∷ metadata)) = false

-- `(…)::int`; null and lists have no integer, and a missing key is not asked for
abbrev pub cast_int : Option Value → Outcome ℕ
cast_int (some (int n)) = done n
cast_int value = raised rejected

-- `{row["record_id"]: int(row["pgc"]) for row in existing_rows}`
unfoldable pub existing_pgcs : Db → List String → Outcome (Dict String ℕ)
existing_pgcs db [] = done []
existing_pgcs db (record_id ∷ record_ids) =
    and_then (cast_int (candidate_of (metadata_of db record_id)))
      λ pgc. and_then (existing_pgcs db record_ids) λ rest. done ((record_id, pgc) ∷ rest)

abbrev pub zip : List String → List ℕ → Dict String ℕ
zip (x ∷ xs) (n ∷ ns) = (x, n) ∷ zip xs ns
zip xs ns = []

-- `SET pgc = v.pgc … WHERE … pgc IS NULL`, on the rows in turn
abbrev pub set_if_null : ℕ → Record → Record
set_if_null pgc r = record r { pgc = some (or_else r.pgc pgc) }

-- a row of the update with its condition; the foreign key wants the number
unfoldable pub update_unassigned : Dict String ℕ → Db → Outcome Db
update_unassigned [] db = done db
update_unassigned ((record_id, pgc) ∷ rows) db = elim (lookup record_id db.records) [
  | none ↦ update_unassigned rows db
  | some r ↦
      let changed = record db { records = insert record_id (set_if_null pgc r) db.records } in
      let rest = update_unassigned rows changed in
      if contains (keys db.pgcs) pgc || is_some r.pgc then rest else raised rejected
]

abbrev pub any_row : {A : Type 0} → List A → Bool
any_row [] = false
any_row (x ∷ xs) = true

-- `collate` is the database's order of texts, which `ORDER BY` brings a list to.
module _ (collate : List String → List String) where
  unfoldable pub existing_rows : Db → List String → List String
  unfolding is_unassigned metadata_of
  existing_rows db staged =
      collate
        (filter (λ id. is_some (candidate_of (metadata_of db id)) && is_unassigned db id) staged)

  unfoldable pub new_rows : Db → List String → List String
  unfolding is_unassigned metadata_of
  new_rows db staged =
      collate (filter (λ id. is_empty_object (metadata_of db id) && is_unassigned db id) staged)

  unfoldable pub assign_valid : List String → Db → Outcome Db
  unfolding existing_pgcs mint_pgc_ids update_unassigned touch_pgcs existing_rows new_rows
  assign_valid record_ids db = and_then (existing_pgcs db (existing_rows db record_ids)) λ existing.
      and_then (mint_pgc_ids (length (new_rows db record_ids)) db) λ minted.
        let pgcs_to_insert = update existing (zip (new_rows db record_ids) minted.0) in
        and_then (update_unassigned pgcs_to_insert minted.1)
          λ updated. done (touch_pgcs (values pgcs_to_insert) updated)

  -- `scan` is the order in which the first statement happens to return its rows.
  unfoldable pub assign_record_pgcs : (List String → List String) → List String → Db → Outcome Db
  unfolding assign_valid is_invalid
  assign_record_pgcs scan [] db = done db
  assign_record_pgcs scan (record_id ∷ rest) db =
      let record_ids = record_id ∷ rest in
      let invalid = scan (filter (is_invalid db) record_ids) in
      let error = raised (precondition (take 100 (take 101 invalid)) (length invalid)) in
      let assigned = assign_valid record_ids db in
      if has_duplicates record_ids
      then raised rejected
      else if any_row invalid
      then error
      else assigned

pub has_duplicates-append :
    (xs : List String) (y : String) (ys : List String)
    → has_duplicates (xs ++ y ∷ ys) ≡ false
    → contains xs y ≡ false
has_duplicates-append [] y ys h = refl
has_duplicates-append (x ∷ xs) y ys h =
    ground (arith, ==_comm x y, contains-append xs (y ∷ ys) x, has_duplicates-append xs y ys)
