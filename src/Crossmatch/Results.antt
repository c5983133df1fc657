-- ===== src/Crossmatch/Results.antt =====
-- What setting crossmatch results stores, and how the stored results are read.
use mathlib.Core.List.{map-append}
use db_app.Base.{
  ℕ, zero, suc, String, ◌+◌, ◌<◌, ◌≡◌, refl, sym, ap, subst, ◌∙◌, Bool, true, Option, none, some,
  List, [], ◌∷◌, ◌++◌, map, arith, nat_eq, nat_beq_iff, string_eq, ◌==◌, length, lookup, insert,
  lookup-insert, keys, contains, All, if◌then◌else◌,
}
use db_app.Crossmatch.Processed.{status_value, status_matches}
use db_app.Layer0.{
  Db, Crossmatch, RecordTriageStatus, pending, resolved, RecordCrossmatchStatus,
  candidates_to_metadata, metadata_to_candidates,
}
use db_app.Layer0.Records.{done, set_crossmatch_results}
use db_app.Crossmatch.{
  all_of, is_not_empty, StatusPayload, StatusesPayload, get_elem?, Rows, triage_of,
  append_crossmatch_rows, new_rows, existing_rows, collided_rows, crossmatch_rows, set_results,
  is_valid_payload, is_valid_statuses, candidates_to_status,
}

-- The candidates of a record are read back as they were stored.
pub metadata_to_candidates-candidates_to_metadata :
    (candidates : List ℕ)
    → metadata_to_candidates (some (candidates_to_metadata candidates)) ≡ some candidates
unfolding metadata_to_candidates candidates_to_metadata
metadata_to_candidates-candidates_to_metadata [] = refl
metadata_to_candidates-candidates_to_metadata (p ∷ []) = refl
metadata_to_candidates-candidates_to_metadata (p ∷ q ∷ ps) = refl

-- The statement that selects records by their status agrees, on stored candidates, with the status
-- that the response computes from the candidates.
pub status_matches-candidates :
    (statuses : List RecordCrossmatchStatus) (candidates : List ℕ)
    → status_matches statuses (candidates_to_metadata candidates)
      ≡ contains (map status_value statuses) (status_value (candidates_to_status candidates))
unfolding status_matches candidates_to_metadata candidates_to_status
status_matches-candidates statuses [] = ground arith
status_matches-candidates statuses (p ∷ []) = ground arith
status_matches-candidates statuses (p ∷ q ∷ ps) = ground arith

-- the last of the rows for a record, as it is stored
abbrev pub latest : Rows → String → Option Crossmatch → Option Crossmatch
latest [] id before = before
latest ((record_id, triage, candidates) ∷ rows) id before = latest rows id (
    if record_id == id
    then some (record { triage_status = triage; metadata = candidates_to_metadata candidates })
    else before)

set_crossmatch_results-latest :
    (rows : Rows) (db : Db)
    → All (λ row. contains (keys db.records) row.0 ≡ true) rows
    → (db' : Db) × (set_crossmatch_results rows db ≡ done db')
      × ((id : String) → lookup id db'.crossmatch ≡ latest rows id (lookup id db.crossmatch))
unfolding set_crossmatch_results
set_crossmatch_results-latest [] db known = (db, refl, λ id. refl)
set_crossmatch_results-latest ((record_id, triage, candidates) ∷ rows) db known =
    let row : Crossmatch = record {
      triage_status = triage;
      metadata = candidates_to_metadata candidates;
    } in
    let (db', ran, stored) =
      set_crossmatch_results-latest rows
        (record db { crossmatch = insert record_id row db.crossmatch }) known.1 in
    (
      db',
      rw known.0 ran,
      λ id. stored id ∙ ap (latest rows id) (lookup-insert record_id id row db.crossmatch),
    )

get_elem?-some :
    {A : Type 0} (xs : List A) (i : ℕ) → i < length xs → (a : A) × (get_elem? xs i ≡ some a)
get_elem?-some [] i h = absurd (omega (arith, h))
get_elem?-some (x ∷ xs) zero h = (x, refl)
get_elem?-some (x ∷ xs) (suc i) h = get_elem?-some xs i (omega (arith, h))

abbrev pub records_of : Rows → List String
records_of = map (λ row. row.0)

-- with candidates at every index there is a row for each of the records
append_crossmatch_rows-total :
    (i : ℕ) (ids : List String) (triages : List (Option RecordTriageStatus))
    (default_triage : RecordTriageStatus) (f : ℕ → Option (List ℕ))
    → ((j : ℕ) → j < i + length ids → (cs : List ℕ) × (f j ≡ some cs))
    → (rows : Rows) × (append_crossmatch_rows i ids triages default_triage f ≡ some rows)
      × (records_of rows ≡ ids)
unfolding append_crossmatch_rows
append_crossmatch_rows-total i [] triages default_triage f total = ([], refl, refl)
append_crossmatch_rows-total i (id ∷ ids) triages default_triage f total =
    let (cs, e) = total i (omega arith) in
    let (rows, ran, named) =
      append_crossmatch_rows-total (suc i) ids triages default_triage f
        (λ j h. total j (omega (arith, h))) in
    ((id, triage_of triages default_triage i, cs) ∷ rows, rw (e, ran) refl, rw named refl)

abbrev pub ids_of : {C : Type 0} → Option (StatusPayload C) → List String
ids_of none = []
ids_of (some payload) = payload.record_ids

-- all the records of a request, in the order in which their rows are written
abbrev pub all_ids : StatusesPayload → List String
all_ids payload =
    ids_of payload.new_records
    ++ (ids_of payload.existing_records ++ ids_of payload.collided_records)

valid_length :
    {C : Type 0} (test : C → Bool) (payload : StatusPayload C)
    → is_valid_payload true test payload ≡ true
    → length payload.candidates ≡ length payload.record_ids
unfolding is_valid_payload
valid_length test payload valid =
    (nat_beq_iff (length payload.candidates) (length payload.record_ids)).0 (ground (arith, valid))

new_rows-total :
    (o : Option (StatusPayload Unit))
    → (rows : Rows) × (new_rows o ≡ some rows) × (records_of rows ≡ ids_of o)
new_rows-total none = ([], refl, refl)
new_rows-total (some payload) =
    append_crossmatch_rows-total 0 payload.record_ids payload.triage_statuses resolved _
      (λ j h. ([], refl))

existing_rows-total :
    (o : Option (StatusPayload ℕ))
    → all_of (is_valid_payload true (λ c. true)) o ≡ true
    → (rows : Rows) × (existing_rows o ≡ some rows) × (records_of rows ≡ ids_of o)
existing_rows-total none valid = ([], refl, refl)
existing_rows-total (some payload) valid =
    append_crossmatch_rows-total 0 payload.record_ids payload.triage_statuses resolved _ λ j h.
      let (pgc, e) =
        get_elem?-some payload.candidates j
          (omega (arith, h, valid_length (λ c. true) payload valid)) in
      (pgc ∷ [], rw e refl)

collided_rows-total :
    (o : Option (StatusPayload (List ℕ)))
    → all_of (is_valid_payload true is_not_empty) o ≡ true
    → (rows : Rows) × (collided_rows o ≡ some rows) × (records_of rows ≡ ids_of o)
collided_rows-total none valid = ([], refl, refl)
collided_rows-total (some payload) valid =
    append_crossmatch_rows-total 0 payload.record_ids payload.triage_statuses pending _ λ j h.
      get_elem?-some payload.candidates j
        (omega (arith, h, valid_length is_not_empty payload valid))

crossmatch_rows-total :
    (payload : StatusesPayload)
    → is_valid_statuses payload ≡ true
    → (rows : Rows) × (crossmatch_rows payload ≡ some rows) × (records_of rows ≡ all_ids payload)
unfolding crossmatch_rows is_valid_statuses
crossmatch_rows-total payload valid =
    let (rows, ran, named) = new_rows-total payload.new_records in
    let (rows', ran', named') =
      existing_rows-total payload.existing_records (ground (arith, valid)) in
    let (rows'', ran'', named'') =
      collided_rows-total payload.collided_records (ground (arith, valid)) in
    (
      rows ++ (rows' ++ rows''),
      rw (ran, ran', ran'') refl,
      map-append (λ row. row.0) rows (rows' ++ rows'')
          ∙ joined named (map-append (λ row. row.0) rows' rows'' ∙ joined named' named''),
    )
  where
    joined : {xs ys us vs : List String} → xs ≡ us → ys ≡ vs → xs ++ ys ≡ us ++ vs
    joined e f = rw (e, f) refl

-- A request that passes the validators, for records that there are, never fails. It writes a row
-- for each record of the request, new ones first and collided ones last; a record then has the last
-- of its rows, and every other record the result that it had.
pub set_results_stores :
    (payload : StatusesPayload) (db : Db)
    → is_valid_statuses payload ≡ true
    → All (λ id. contains (keys db.records) id ≡ true) (all_ids payload)
    → (rows : Rows) × (db' : Db) × (crossmatch_rows payload ≡ some rows)
      × (records_of rows ≡ all_ids payload)
      × (set_results payload db ≡ done db')
      × ((id : String) → lookup id db'.crossmatch ≡ latest rows id (lookup id db.crossmatch))
unfolding set_results
set_results_stores payload db valid known =
    let (rows, ran, named) = crossmatch_rows-total payload valid in
    let (db', stored, found) =
      set_crossmatch_results-latest rows db (known_rows rows (subst (All _) (sym named) known)) in
    (rows, db', ran, named, rw (ran, stored) refl, found)
  where
    known_rows :
        (rows : Rows)
        → All (λ id. contains (keys db.records) id ≡ true) (records_of rows)
        → All (λ row. contains (keys db.records) row.0 ≡ true) rows
    known_rows [] h = tt
    known_rows (row ∷ rows) h = (h.0, known_rows rows h.1)
