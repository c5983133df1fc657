-- ===== src/Layer0/Assign.antt =====
-- `assign_record_pgcs`: which records get a number, and which number.
use mathlib.Core.Option
use db_app.Base.{
  ℕ, zero, suc, String, ◌+◌, ◌≤◌, ◌<◌, ◌≡◌, refl, sym, ap, ◌∙◌, inl, inr, true, false, ◌||◌, Option,
  none, some, List, [], ◌∷◌, arith, Dict, nat_eq, string_eq, ◌==◌, eq_of_beq, Bool-cases,
  Option-cases, length, lookup, insert, keys, contains, All, All-map, contains-keys-insert,
  lookup-insert,
}
use db_app.Layer0.{Db, Record}
use db_app.Layer0.Records.{done, mint_pgc_ids, set_if_null, update_unassigned}

-- no row of `common.pgc` has a number that the sequence is still to give
abbrev pub IsFresh : Db → Type 0
IsFresh db = (p : ℕ) → contains (keys db.pgcs) p ≡ true → p < db.pgc_seq

abbrev numbers_from : ℕ → ℕ → List ℕ
numbers_from start zero = []
numbers_from start (suc count) = start ∷ numbers_from (suc start) count

-- what minting gives: new numbers with their rows, and nothing else changes
pub record Minted (count : ℕ) (db : Db) (result : List ℕ × Db) : Type 0 where
  pub amount : length result.0 ≡ count
  pub range : All (λ p. (db.pgc_seq ≤ p) × (p < result.1.pgc_seq)) result.0
  pub rows : All (λ p. contains (keys result.1.pgcs) p ≡ true) result.0
  pub kept : (p : ℕ) → contains (keys db.pgcs) p ≡ true → contains (keys result.1.pgcs) p ≡ true
  pub records_same : result.1.records ≡ db.records
  pub now_same : result.1.now ≡ db.now
  pub sequence : result.1.pgc_seq ≡ db.pgc_seq + count

pub mint_pgc_ids-Minted :
    (count : ℕ) (db : Db)
    → IsFresh db
    → (result : List ℕ × Db) × (mint_pgc_ids count db ≡ done result) × Minted count db result
unfolding mint_pgc_ids
mint_pgc_ids-Minted zero db fresh = (
  ([], db),
  refl,
  record {
    amount = refl;
    range = tt;
    rows = tt;
    kept = λ p h. h;
    records_same = refl;
    now_same = refl;
    sequence = omega arith;
  },
)
mint_pgc_ids-Minted (suc count) db fresh =
    let step : Db = record db {
      pgcs = insert db.pgc_seq db.now db.pgcs;
      pgc_seq = suc db.pgc_seq;
    } in
    let added : (p : ℕ)
        → contains (keys step.pgcs) p ≡ (contains (keys db.pgcs) p || p == db.pgc_seq) =
      λ p. contains-keys-insert db.pgc_seq p db.now db.pgcs in
    let fresh' : IsFresh step = λ p h. ground (arith, added p, h, fresh p) in
    let (result, ran, m) = mint_pgc_ids-Minted count step fresh' in
    let unused : contains (keys db.pgcs) db.pgc_seq ≡ false = ground (arith, fresh db.pgc_seq) in
    (
      (db.pgc_seq ∷ result.0, result.1),
      rw (unused, ran),
      record {
        amount = ap suc m.amount;
        range = (
          (omega arith, omega (arith, m.sequence)),
          All-map _ _ (λ p h. (omega (arith, h.0), h.1)) result.0 m.range,
        );
        rows = (m.kept db.pgc_seq (added db.pgc_seq ∙ ground arith), m.rows);
        kept = λ p h. m.kept p (added p ∙ ground (arith, h));
        records_same = m.records_same;
        now_same = m.now_same;
        sequence = omega (arith, m.sequence);
      },
    )

-- a record with the number that a row of the update has for it
abbrev pub fill : Option ℕ → Record → Record
fill none r = r
fill (some pgc) r = set_if_null pgc r

fill-fill :
    (id rid : String) (pgc : ℕ) (rows : Dict String ℕ) (r : Record)
    → (rid == id) ≡ true
    → fill (lookup id rows) (set_if_null pgc r) ≡ fill (lookup id ((rid, pgc) ∷ rows)) r
fill-fill id rid pgc rows r same = elim (Option-cases (lookup id rows)) [
  | inl e ↦ rw (e, same) refl
  | inr (p, e) ↦ rw (e, same) refl
]

pub record Updated (rows : Dict String ℕ) (db db' : Db) : Type 0 where
  pub records_filled :
      (id : String)
      → lookup id db'.records ≡ Option.map (fill (lookup id rows)) (lookup id db.records)
  pub pgcs_same : db'.pgcs ≡ db.pgcs
  pub sequence_same : db'.pgc_seq ≡ db.pgc_seq
  pub now_same : db'.now ≡ db.now

pub option_map_id : (o : Option Record) → o ≡ Option.map (fill none) o
option_map_id none = refl
option_map_id (some r) = refl

filled_missing :
    (id rid : String) (pgc : ℕ) (rows : Dict String ℕ) (records : Dict String Record)
    → lookup rid records ≡ none
    → Option.map (fill (lookup id rows)) (lookup id records)
      ≡ Option.map (fill (lookup id ((rid, pgc) ∷ rows))) (lookup id records)
filled_missing id rid pgc rows records missing = elim (Bool-cases (rid == id)) [
  | inl same ↦ rw (sym (eq_of_beq rid id same), missing) refl
  | inr other ↦ rw other refl
]

filled_found :
    (id rid : String) (pgc : ℕ) (rows : Dict String ℕ) (records : Dict String Record) (r : Record)
    → lookup rid records ≡ some r
    → Option.map (fill (lookup id rows)) (lookup id (insert rid (set_if_null pgc r) records))
      ≡ Option.map (fill (lookup id ((rid, pgc) ∷ rows))) (lookup id records)
filled_found id rid pgc rows records r found = elim (Bool-cases (rid == id)) [
  | inl same ↦
      let changed : lookup id (insert rid (set_if_null pgc r) records) ≡ some (set_if_null pgc r) =
        lookup-insert rid id (set_if_null pgc r) records ∙ rw same refl in
      ap (Option.map (fill (lookup id rows))) changed
      ∙ ap some (fill-fill id rid pgc rows r same)
      ∙ ap (Option.map (fill (lookup id ((rid, pgc) ∷ rows))))
          (sym found ∙ ap (λ k. lookup k records) (eq_of_beq rid id same))
  | inr other ↦ rw (lookup-insert rid id (set_if_null pgc r) records, other) refl
]

pub update_unassigned-Updated :
    (rows : Dict String ℕ) (db : Db)
    → All (λ row. contains (keys db.pgcs) row.1 ≡ true) rows
    → (db' : Db) × (update_unassigned rows db ≡ done db') × Updated rows db db'
unfolding update_unassigned
update_unassigned-Updated [] db known = (
  db,
  refl,
  record {
    records_filled = λ id. option_map_id (lookup id db.records);
    pgcs_same = refl;
    sequence_same = refl;
    now_same = refl;
  },
)
update_unassigned-Updated ((rid, pgc) ∷ rows) db known =
    elim (Option-cases (lookup rid db.records)) [
      | inl missing ↦
          let (db', ran, u) = update_unassigned-Updated rows db known.1 in
          (
            db',
            rw (missing, update_unassigned) ran,
            record {
              records_filled =
                  λ id. u.records_filled id ∙ filled_missing id rid pgc rows db.records missing;
              pgcs_same = u.pgcs_same;
              sequence_same = u.sequence_same;
              now_same = u.now_same;
            },
          )
      | inr (r, found) ↦
          let changed : Db = record db { records = insert rid (set_if_null pgc r) db.records } in
          let (db', ran, u) = update_unassigned-Updated rows changed known.1 in
          (
            db',
            rw (found, known.0, update_unassigned) ran,
            record {
              records_filled =
                  λ id. u.records_filled id ∙ filled_found id rid pgc rows db.records r found;
              pgcs_same = u.pgcs_same;
              sequence_same = u.sequence_same;
              now_same = u.now_same;
            },
          )
    ]
