-- ===== src/Layer0/Merged.antt =====
-- What a merge of numbers leaves in the tables, and what the import and the orphan cleanup of layer
-- 2 then find.
use mathlib.Core.Option
use mathlib.Core.List.{map-append}
use db_app.Base.{
  ℕ, String, ◌<◌, ◌≡◌, ◌≢◌, refl, sym, ap, ◌∙◌, true, false, Option, none, some, List, [], ◌∷◌, map,
  arith, Dict, nat_eq, string_eq, ◌==◌, ==_refl, eq_of_beq, beq_of_ne, Bool-cases, inl, inr, length,
  lookup, keys, contains, contains-append, contains-filter, All, All-of_contains, if◌then◌else◌,
}
use db_app.Layer0.{Db, Record}
use db_app.Layer0.Records.{Outcome, raised, done, not_found, and_then, touch, touch_pgcs}
use db_app.Layer0.Assigned.{lookup-touch}
use db_app.Layer0.Merge.{
  is_source, merge_record, merge_rows, merged_records, merge_pgcs, get_existing_pgcs, check_sources,
  merge,
}
use db_app.Layer1.{joined, join_row, no_join, modified_since}
use db_app.Layer1.Pages.{updated_pgcs, contains-sort_distinct}
use db_app.Tasks.{is_number, owns, has_source}

lookup-merge_rows :
    (target : ℕ) (sources : List ℕ) (id : String) (records : Dict String Record)
    → lookup id (merge_rows target sources records)
      ≡ Option.map (merge_record target sources) (lookup id records)
lookup-merge_rows target sources id [] = refl
lookup-merge_rows target sources id ((j, r) ∷ records) = elim (Bool-cases (j == id)) [
  | inl same ↦ rw same refl
  | inr other ↦ rw other (lookup-merge_rows target sources id records)
]

-- the first of the numbers that has no row
abbrev pub first_missing : Db → List ℕ → Option ℕ
first_missing db [] = none
first_missing db (pgc ∷ pgcs) =
    let rest = first_missing db pgcs in if contains (keys db.pgcs) pgc then rest else some pgc

contains-get_existing :
    (db : Db) (pgcs : List ℕ) (p : ℕ)
    → contains pgcs p ≡ true
    → contains (get_existing_pgcs pgcs db) p ≡ contains (keys db.pgcs) p
unfolding get_existing_pgcs
contains-get_existing db pgcs p h =
    contains-filter (contains pgcs) (keys db.pgcs) p ∙ rw h (ground arith)

-- the check of a list of numbers: it passes, or names the first that is missing
abbrev pub checked {ℓ} : {A : Type ℓ} → Option ℕ → A → Outcome A
checked none a = done a
checked (some p) a = raised (not_found p)

check_sources-first :
    (db : Db) (existing sources : List ℕ)
    → All (λ p. contains existing p ≡ contains (keys db.pgcs) p) sources
    → check_sources existing sources ≡ checked {0} (first_missing db sources) tt
unfolding check_sources
check_sources-first db existing [] h = refl
check_sources-first db existing (p ∷ sources) h = elim (Bool-cases (contains (keys db.pgcs) p)) [
  | inl known ↦ rw (h.0, known) (check_sources-first db existing sources h.1)
  | inr unknown ↦ rw (h.0, unknown) refl
]

-- the tables after a merge
abbrev pub after_merge : ℕ → List ℕ → Db → Db
after_merge target sources db = record db {
  records = merge_rows target sources db.records;
  pgcs = touch db.now (target ∷ sources) db.pgcs;
}

passed :
    {A : Type 0} (missing : Option ℕ) (a : A)
    → and_then (checked {0} missing tt) (λ unit. done a) ≡ checked missing a
passed none a = refl
passed (some p) a = refl

-- A merge either fails with the first number of the target and the sources that does not exist, in
-- this order, or gives the target to every record that had a source, counts these records, and
-- dates the target and the sources to the transaction.
pub merge_result :
    (target : ℕ) (sources : List ℕ) (db : Db)
    → merge target sources db
      ≡ checked
          (first_missing db (target ∷ sources))
          (after_merge target sources db, length (merged_records sources db))
unfolding merge merge_pgcs touch_pgcs
merge_result target sources db =
    let same : All
        (λ p. contains (get_existing_pgcs (target ∷ sources) db) p ≡ contains (keys db.pgcs) p)
        sources =
      All-of_contains _ sources
        λ p h. contains-get_existing db (target ∷ sources) p (rw h (ground arith)) in
    let same_target =
      contains-get_existing db (target ∷ sources) target (rw (==_refl target) refl) in
    elim (Bool-cases (contains (keys db.pgcs) target)) [
      | inl known ↦
          rw
            (
              same_target,
              known,
              check_sources-first db (get_existing_pgcs (target ∷ sources) db) sources same,
            )
            (passed (first_missing db sources) _)
      | inr unknown ↦ rw (same_target, unknown) refl
    ]

merged_number :
    (target : ℕ) (sources : List ℕ) (r : Record)
    → (merge_record target sources r).pgc ≡ (if is_source sources r.pgc then some target else r.pgc)
merged_number target sources r = elim (Bool-cases (is_source sources r.pgc)) [
  | inl e ↦ rw e refl
  | inr e ↦ rw e refl
]

not_source :
    (target : ℕ) (sources : List ℕ) (p : ℕ) (number : Option ℕ)
    → contains sources p ≡ true
    → p ≢ target
    → is_number p (if is_source sources number then some target else number) ≡ false
not_source target sources p none h other = refl
not_source target sources p (some q) h other = elim (Bool-cases (contains sources q)) [
  | inl e ↦ rw e (beq_of_ne target p (λ same. other (sym same)))
  | inr e ↦ rw e (beq_of_ne q p (λ same. cc (h, e, ap (contains sources) same)))
]

owns-merge :
    (target : ℕ) (sources : List ℕ) (p : ℕ) (found : Option Record)
    → contains sources p ≡ true
    → p ≢ target
    → owns p (Option.map (merge_record target sources) found) ≡ false
owns-merge target sources p none h other = refl
owns-merge target sources p (some r) h other =
    ap (is_number p) (merged_number target sources r) ∙ not_source target sources p r.pgc h other

-- A source that is not the target has no row of layer 1 after a merge, so that its row of layer 2
-- is an orphan.
pub merge_orphans :
    {V : Type 0} (target : ℕ) (sources : List ℕ) (db : Db) (layer1_table : List (String × V))
    (p : ℕ)
    → contains sources p ≡ true
    → p ≢ target
    → has_source (after_merge target sources db) layer1_table p ≡ false
unfolding has_source
merge_orphans target sources db [] p h other = refl
merge_orphans target sources db ((id, v) ∷ rows) p h other =
    rw
      (
        lookup-merge_rows target sources id db.records,
        owns-merge target sources p (lookup id db.records) h other,
      )
      (merge_orphans target sources db rows p h other)

-- one row that has the target
numbered_row :
    {V : Type 0} (target : ℕ) (sources : List ℕ) (db : Db) (id : String) (v : V) (r : Record)
    → lookup id db.records ≡ some r
    → is_source sources r.pgc ≡ true
    → join_row no_join (after_merge target sources db) (id, v) ≡ (target, v) ∷ []
numbered_row target sources db id v r found source =
    let merged : lookup id (after_merge target sources db).records
        ≡ some (record r { pgc = some target }) =
      lookup-merge_rows target sources id db.records
      ∙ ap (Option.map (merge_record target sources)) found
      ∙ rw source refl in
    rw (merged, join_row) refl

contains-joined :
    {V : Type 0} (target : ℕ) (sources : List ℕ) (db : Db) (layer1_table : List (String × V))
    (id : String) (r : Record)
    → contains (map (λ row. row.0) layer1_table) id ≡ true
    → lookup id db.records ≡ some r
    → is_source sources r.pgc ≡ true
    → contains
        (map (λ row. row.0) (joined no_join (after_merge target sources db) layer1_table))
        target
      ≡ true
contains-joined target sources db [] id r listed found source = absurd (cc)
contains-joined target sources db ((id', v) ∷ rows) id r listed found source =
    elim (Bool-cases (id == id')) [
      | inl same ↦
          rw
            (
              numbered_row target sources db id' v r
                  (ap (λ k. lookup k db.records) (sym (eq_of_beq id id' same)) ∙ found) source,
              ==_refl target,
            )
            refl
      | inr other ↦ rw map-append (
          contains-append
            (map (λ row. row.0) (join_row no_join (after_merge target sources db) (id', v))) _
            target
          ∙ rw (contains-joined target sources db rows id r (rw other at listed) found source)
              (ground arith))
    ]

existing_target :
    (target : ℕ) (sources : List ℕ) (db : Db)
    → first_missing db (target ∷ sources) ≡ none
    → contains (keys db.pgcs) target ≡ true
existing_target target sources db known = elim (Bool-cases (contains (keys db.pgcs) target)) [
  | inl e ↦ e
  | inr e ↦ let missing : some target ≡ none = rw e at known in absurd (cc missing)
]

-- When a record of a source has a row of layer 1 and all the numbers exist, the target is one of the
-- numbers that have changed after any time before the merge, which an import reads.
pub merge_imports :
    {V : Type 0} (target : ℕ) (sources : List ℕ) (db : Db) (layer1_table : List (String × V))
    (id : String) (r : Record) (dt : ℕ)
    → first_missing db (target ∷ sources) ≡ none
    → contains (map (λ row. row.0) layer1_table) id ≡ true
    → lookup id db.records ≡ some r
    → is_source sources r.pgc ≡ true
    → dt < db.now
    → contains (updated_pgcs (after_merge target sources db) layer1_table dt) target ≡ true
unfolding updated_pgcs
merge_imports target sources db layer1_table id r dt known listed found source late =
    let there : contains (keys db.pgcs) target ≡ true = existing_target target sources db known in
    let newer : modified_since (after_merge target sources db) dt target ≡ true = ground (
      arith,
      late,
      lookup-touch db.now (target ∷ sources) db.pgcs target (rw (==_refl target) refl) there,
    ) in
    contains-sort_distinct target _
    ∙ contains-filter (modified_since (after_merge target sources db) dt) _ target
    ∙ rw (contains-joined target sources db layer1_table id r listed found source, newer) refl
