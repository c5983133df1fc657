-- ===== src/Layer0/Merge.antt =====
-- Numbers of records that are set by hand (app/data/repositories/layer0/records.py, `upsert_pgc` and
-- `merge_pgcs`; app/data/repositories/common.py, `get_existing_pgcs`; app/adminapi/domain/pgc.py).

use db_app.Base.{
  ℕ, String, Bool, false, ◌||◌, not, Option, none, some, List, [], ◌∷◌, ◌++◌, Dict, nat_eq,
  string_eq, ◌==◌, length, lookup, insert, update, keys, values, contains, filter, flat_map,
  if◌then◌else◌,
}
use db_app.Layer0.{Db, Record}
use db_app.Layer0.Records.{
  Outcome, raised, done, rejected, not_found, and_then, mint_pgc_ids, zip, touch_pgcs,
}

-- the ids without a number, and the entries with one, of the argument of `upsert_pgc`
abbrev pub without_pgc : Dict String (Option ℕ) → List String
without_pgc [] = []
without_pgc ((id, none) ∷ pgcs) = id ∷ without_pgc pgcs
without_pgc ((id, some pgc) ∷ pgcs) = without_pgc pgcs

abbrev pub with_pgc : Dict String (Option ℕ) → List (String × ℕ)
with_pgc [] = []
with_pgc ((id, none) ∷ pgcs) = with_pgc pgcs
with_pgc ((id, some pgc) ∷ pgcs) = (id, pgc) ∷ with_pgc pgcs

-- `UPDATE layer0.records SET pgc = v.pgc`, row by row, with the foreign key
unfoldable pub update_pgcs : Dict String ℕ → Db → Outcome Db
update_pgcs [] db = done db
update_pgcs ((record_id, pgc) ∷ rows) db = elim (lookup record_id db.records) [
  | none ↦ update_pgcs rows db
  | some r ↦
      let changed = record db {
        records = insert record_id (record r { pgc = some pgc }) db.records;
      } in
      let rest = update_pgcs rows changed in
      if contains (keys db.pgcs) pgc then rest else raised rejected
]

-- `SELECT pgc FROM layer0.records WHERE id = ANY(ids) AND pgc IS NOT NULL`
unfoldable pub previous_pgcs : List String → Db → List ℕ
previous_pgcs ids db =
    flat_map
      (λ row. if contains ids row.0 then elim row.1.pgc [ none ↦ [] | some p ↦ p ∷ [] ] else [])
      db.records

unfoldable pub upsert_pgc : Dict String (Option ℕ) → Db → Outcome Db
unfolding mint_pgc_ids update_pgcs previous_pgcs touch_pgcs
upsert_pgc pgcs db = and_then (mint_pgc_ids (length (without_pgc pgcs)) db) λ minted.
    let pgcs_to_insert = update (zip (without_pgc pgcs) minted.0) (with_pgc pgcs) in
    and_then (update_pgcs pgcs_to_insert minted.1) λ updated.
      done
        (touch_pgcs (previous_pgcs (keys pgcs_to_insert) minted.1 ++ values pgcs_to_insert) updated)

abbrev pub is_source : List ℕ → Option ℕ → Bool
is_source source_pgcs none = false
is_source source_pgcs (some pgc) = contains source_pgcs pgc

abbrev pub merge_record : ℕ → List ℕ → Record → Record
merge_record target_pgc source_pgcs r =
    if is_source source_pgcs r.pgc then record r { pgc = some target_pgc } else r

abbrev pub merge_rows : ℕ → List ℕ → Dict String Record → Dict String Record
merge_rows target_pgc source_pgcs [] = []
merge_rows target_pgc source_pgcs ((id, r) ∷ records) =
    (id, merge_record target_pgc source_pgcs r) ∷ merge_rows target_pgc source_pgcs records

abbrev pub merged_records : List ℕ → Db → Dict String Record
merged_records source_pgcs db = filter (λ row. is_source source_pgcs row.1.pgc) db.records

-- The update fails on its foreign key, if it has a row and the target does not exist.
unfoldable pub merge_pgcs : ℕ → List ℕ → Db → Outcome (Db × ℕ)
unfolding touch_pgcs
merge_pgcs target_pgc source_pgcs db =
    let updated =
      touch_pgcs (target_pgc ∷ source_pgcs)
        (record db { records = merge_rows target_pgc source_pgcs db.records }) in
    if contains (keys db.pgcs) target_pgc || length (merged_records source_pgcs db) == 0
    then done (updated, length (merged_records source_pgcs db))
    else raised rejected

-- `get_existing_pgcs`, a set
unfoldable pub get_existing_pgcs : List ℕ → Db → List ℕ
get_existing_pgcs pgcs db = filter (contains pgcs) (keys db.pgcs)

-- the loop over `source_pgcs`
unfoldable pub check_sources : List ℕ → List ℕ → Outcome {0} Unit
check_sources existing [] = done tt
check_sources existing (source_pgc ∷ source_pgcs) =
    let rest = check_sources existing source_pgcs in
    if not (contains existing source_pgc) then raised (not_found source_pgc) else rest

-- `PgcManager.merge_pgcs`: the tables and the response's count
unfoldable pub merge : ℕ → List ℕ → Db → Outcome (Db × ℕ)
unfolding get_existing_pgcs check_sources merge_pgcs
merge target_pgc source_pgcs db =
    let existing = get_existing_pgcs (target_pgc ∷ source_pgcs) db in
    let checked =
      and_then (check_sources existing source_pgcs) λ unit. merge_pgcs target_pgc source_pgcs db in
    if not (contains existing target_pgc) then raised (not_found target_pgc) else checked
