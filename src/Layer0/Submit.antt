-- ===== src/Layer0/Submit.antt =====
-- What `assign_record_pgcs` leaves in the tables, when every record can be assigned a number.
use mathlib.Core.Option
use db_app.Base.{
  ℕ, String, ◌≤◌, ◌<◌, ◌≡◌, refl, sym, ap, ◌∙◌, ◌⊎◌, inl, inr, true, false, ◌&&◌, ◌||◌, Option,
  none, some, List, arith, Dict, nat_eq, string_eq, Option-cases, length, lookup, update, keys,
  values, or_else, is_some, contains, contains-filter, All, All-map, All-both, All-contains-keys,
  All-of_contains, All-update, All-lookup, contains-keys-update, is_some-lookup,
}
use db_app.Layer0.{Db, Record, int, candidates_to_metadata}
use db_app.Layer0.Records.{
  done, mint_pgc_ids, existing_pgcs, metadata_of, candidate_of, zip, is_empty_object, is_unassigned,
  existing_rows, new_rows, assign_valid, touch_pgcs,
}
use db_app.Layer0.Assign.{
  IsFresh, Minted, mint_pgc_ids-Minted, fill, option_map_id, Updated, update_unassigned-Updated,
}
use db_app.Layer0.Assigned.{
  IsAssignable, Castable, castable, metadata_of-IsAssignable, existing_pgcs-total, keys-zip,
  All-zip, lookup-touch, contains-values,
}

-- The number of a record comes from its crossmatch result, or else it is new. It has a row, which
-- is dated to the transaction.
pub record IsNumberFor (db db' : Db) (id : String) (p : ℕ) : Type 0 where
  pub origin :
      (candidate_of (metadata_of db id) ≡ some (int p))
      ⊎ ((is_empty_object (metadata_of db id) ≡ true) × (db.pgc_seq ≤ p) × (p < db'.pgc_seq))
  pub dated : lookup p db'.pgcs ≡ some db'.now

module _ (collate : List String → List String)
    (permutes : (ids : List String) (id : String)
      → contains (collate ids) id ≡ contains ids id) where
  abbrev Numbered : Db → List String → Db → String → ℕ → Type 0
  Numbered db ids db' id p =
      (contains ids id ≡ true)
      × (contains (keys db'.pgcs) p ≡ true)
      × ((candidate_of (metadata_of db id) ≡ some (int p))
          ⊎ ((is_empty_object (metadata_of db id) ≡ true) × (db.pgc_seq ≤ p) × (p < db'.pgc_seq)))

  -- The rows that are to be updated: each is right, and every record without a number has one.
  record Plan (db : Db) (ids : List String) (minted : Db) (rows : Dict String ℕ) : Type 0 where
    numbered : All (λ e. Numbered db ids minted e.0 e.1) rows
    complete :
        (id : String)
        → IsAssignable db id
        → (contains ids id && is_unassigned db id) ≡ true
        → (p : ℕ) × (lookup id rows ≡ some p)

  contains-existing :
      (db : Db) (ids : List String) (id : String)
      → contains (existing_rows collate db ids) id
        ≡ (contains ids id && (is_some (candidate_of (metadata_of db id)) && is_unassigned db id))
  unfolding existing_rows
  contains-existing db ids id =
      permutes _ id
      ∙ contains-filter (λ i. is_some (candidate_of (metadata_of db i)) && is_unassigned db i) ids
          id

  contains-new :
      (db : Db) (ids : List String) (id : String)
      → contains (new_rows collate db ids) id
        ≡ (contains ids id && (is_empty_object (metadata_of db id) && is_unassigned db id))
  unfolding new_rows
  contains-new db ids id =
      permutes _ id
      ∙ contains-filter (λ i. is_empty_object (metadata_of db i) && is_unassigned db i) ids id

  either_kind :
      (db : Db) (id : String) (a : IsAssignable db id)
      → (is_some (candidate_of (metadata_of db id)) || is_empty_object (metadata_of db id)) ≡ true
  unfolding candidates_to_metadata
  either_kind db id a = elim (Option-cases a.candidate) [
    | inl e ↦ rw (metadata_of-IsAssignable db id a, e) refl
    | inr (p, e) ↦ rw (metadata_of-IsAssignable db id a, e) refl
  ]

  found_key :
      (id : String) (d : Dict String ℕ)
      → contains (keys d) id ≡ true
      → (p : ℕ) × (lookup id d ≡ some p)
  found_key id d h = elim (Option-cases (lookup id d)) [
    | inl e ↦ absurd (cc (h, is_some-lookup id d, ap is_some e))
    | inr found ↦ found
  ]

  planned :
      (db : Db) (ids : List String)
      → ((id : String) → contains ids id ≡ true → IsAssignable db id)
      → IsFresh db
      → (existing : Dict String ℕ) × (minted : List ℕ × Db) × (existing_pgcs db
            (existing_rows collate db ids)
          ≡ done existing)
        × (mint_pgc_ids (length (new_rows collate db ids)) db ≡ done minted)
        × Minted (length (new_rows collate db ids)) db minted
        × Plan db ids minted.1 (update existing (zip (new_rows collate db ids) minted.0))
  planned db ids assignable fresh =
      let cast : All (Castable db) (existing_rows collate db ids) =
        All-of_contains (Castable db) (existing_rows collate db ids) λ id h.
          let a : IsAssignable db id =
            assignable id (ground (arith, contains-existing db ids id, h)) in
          castable db id a a.candidate refl (ground (arith, contains-existing db ids id, h)) in
      let (existing, ran, named, good) =
        existing_pgcs-total db (existing_rows collate db ids) cast in
      let (minted, ran', m) = mint_pgc_ids-Minted (length (new_rows collate db ids)) db fresh in
      let rows = zip (new_rows collate db ids) minted.0 in
      let named' : keys rows ≡ new_rows collate db ids = keys-zip _ minted.0 m.amount in
      (
        existing,
        minted,
        ran,
        ran',
        m,
        record {
          numbered =
              All-update _ existing rows
                (All-map _ (λ e. Numbered db ids minted.1 e.0 e.1)
                  (λ e h. (
                    ground (arith, contains-existing db ids e.0, rw named at h.0),
                    m.kept e.1 h.1.1,
                    inl h.1.0,
                  ))
                  existing (All-both _ _ existing (All-contains-keys existing) good))
                (All-map _ (λ e. Numbered db ids minted.1 e.0 e.1)
                  (λ e h. (
                    ground (arith, contains-new db ids e.0, h.0),
                    h.1.1,
                    inr (ground (arith, contains-new db ids e.0, h.0), h.1.0.0, h.1.0.1),
                  ))
                  rows
                  (All-zip (λ id. contains (new_rows collate db ids) id ≡ true) _
                    (new_rows collate db ids) minted.0 (All-of_contains _ _ (λ id h. h))
                    (All-both _ _ minted.0 m.range m.rows)));
          complete = λ id a h. found_key id (update existing rows) (
              contains-keys-update existing rows id
              ∙ rw (named, named', contains-existing db ids id, contains-new db ids id)
                  (ground (arith, h, either_kind db id a)));
        },
      )

  fill_assigned : (number : Option ℕ) (r : Record) (p : ℕ) → r.pgc ≡ some p → fill number r ≡ r
  fill_assigned none r p e = refl
  fill_assigned (some q) r p e =
      ap (λ pgc. set_pgc r pgc) (ap (λ pgc. some (or_else pgc q)) e ∙ sym e)
    where
      set_pgc : Record → Option ℕ → Record
      set_pgc r pgc = record r { pgc = pgc }

  no_row :
      (db : Db) (ids : List String) (minted : Db) (rows : Dict String ℕ)
      (plan : Plan db ids minted rows) (id : String)
      → contains ids id ≡ false
      → lookup id rows ≡ none
  no_row db ids minted rows plan id other = elim (Option-cases (lookup id rows)) [
    | inl e ↦ e
    | inr (p, e) ↦ absurd (cc (other, (All-lookup _ id p rows plan.numbered e).0))
  ]

  number_for :
      (db : Db) (ids : List String) (minted : Db) (rows : Dict String ℕ)
      (plan : Plan db ids minted rows) (updated : Db) (u : Updated rows minted updated)
      (id : String) (p : ℕ)
      → lookup id rows ≡ some p
      → IsNumberFor db (touch_pgcs (values rows) updated) id p
  unfolding touch_pgcs
  number_for db ids minted rows plan updated u id p e =
      let (_, there, origin) = All-lookup _ id p rows plan.numbered e in
      record {
        origin = rw u.sequence_same origin;
        dated =
            lookup-touch updated.now (values rows) updated.pgcs p (contains-values id p rows e)
              (rw u.pgcs_same there);
      }

  -- Every unassigned record of the list gets a number, the candidate of its crossmatch result or a
  -- new one; every other record keeps the row that it has.
  pub assign_valid_assigns :
      (db : Db) (ids : List String)
      → ((id : String) → contains ids id ≡ true → IsAssignable db id)
      → IsFresh db
      → (db' : Db) × (assign_valid collate ids db ≡ done db')
        × ((id : String) (r : Record)
            → contains ids id ≡ true
            → lookup id db.records ≡ some r
            → r.pgc ≡ none
            → (p : ℕ) × (lookup id db'.records ≡ some (record r { pgc = some p }))
              × IsNumberFor db db' id p)
        × ((id : String) (r : Record) (p : ℕ)
            → lookup id db.records ≡ some r
            → r.pgc ≡ some p
            → lookup id db'.records ≡ some r)
        × ((id : String) → contains ids id ≡ false → lookup id db'.records ≡ lookup id db.records)
  unfolding assign_valid touch_pgcs is_unassigned
  assign_valid_assigns db ids assignable fresh =
      let (existing, minted, ran, ran', m, plan) = planned db ids assignable fresh in
      let rows = update existing (zip (new_rows collate db ids) minted.0) in
      let (updated, ran'', u) =
        update_unassigned-Updated rows minted.1 (All-map _ _ (λ e h. h.1) rows plan.numbered) in
      let records : (id : String)
          → lookup id updated.records ≡ Option.map (fill (lookup id rows)) (lookup id db.records) =
        λ id.
          u.records_filled id
          ∙ ap (λ d. Option.map (fill (lookup id rows)) (lookup id d)) m.records_same in
      (
        touch_pgcs (values rows) updated,
        rw (ran, ran', ran'') refl,
        (λ id r listed found empty.
            let (p, e) =
              plan.complete id (assignable id listed)
                (rw (listed, found, empty, is_unassigned) refl) in
            (
              p,
              records id ∙ rw (e, found) (ap (λ pgc. filled r pgc p) empty),
              number_for db ids minted.1 rows plan updated u id p e,
            )),
        (λ id r p found e.
            records id
            ∙ ap (Option.map (fill (lookup id rows))) found
            ∙ ap some (fill_assigned (lookup id rows) r p e)),
        (λ id other.
            records id
            ∙ ap (λ number. Option.map (fill number) (lookup id db.records))
                (no_row db ids minted.1 rows plan id other)
            ∙ sym (option_map_id (lookup id db.records))),
      )
    where
      filled : Record → Option ℕ → ℕ → Option Record
      filled r pgc p = some (record r { pgc = some (or_else pgc p) })
