-- ===== src/Crossmatch/Responses.antt =====
-- What the API shows of a crossmatch result: `_convert_to_record_crossmatch` and
-- `get_record_crossmatch`. `C` is what `catalogs_from_object` makes of a record or an object.
use db_app.Base.{
  ℕ, String, ◌≡◌, refl, ap, Bool, true, false, Option, none, some, List, [], ◌∷◌, map, Dict, nat_eq,
  string_eq, Option-cases, inl, inr, lookup, is_some, All, length,
}
use db_app.Crossmatch.Processed.{no_query, RecordRow, get_processed_records}
use db_app.Layer0.{Db, RecordTriageStatus, RecordCrossmatchStatus, new, collided, existing}
use db_app.Layer0.Records.{Outcome, raised, done, rejected, no_record, and_then}
use db_app.Crossmatch.{candidates_to_status}

pub record RecordCrossmatch (C : Type 0) : Type 0 where
  pub record_id : String
  pub status : RecordCrossmatchStatus
  pub triage_status : RecordTriageStatus
  pub pgc : Option ℕ
  pub possible_matches : Option (List ℕ)
  pub catalogs : C

-- `RecordCrossmatchMetadata`
abbrev pub shown_pgc : List ℕ → Option ℕ
shown_pgc [] = none
shown_pgc (pgc ∷ []) = some pgc
shown_pgc (pgc ∷ next ∷ candidates) = none

abbrev pub shown_matches : List ℕ → Option (List ℕ)
shown_matches [] = none
shown_matches (pgc ∷ []) = none
shown_matches (pgc ∷ next ∷ candidates) = some (pgc ∷ next ∷ candidates)

-- The response, with the raw row of the record, if it could be fetched.
pub record RecordResponse (C D : Type 0) : Type 0 where
  pub table_name : String
  pub crossmatch : RecordCrossmatch C
  pub candidates : List (ℕ × C)
  pub original_data : Option D

abbrev pub table_name_of : {D : Type 0} → Option (String × Option D) → String
table_name_of none = ""
table_name_of (some raw) = raw.0

abbrev pub original_data_of : {D : Type 0} → Option (String × Option D) → Option D
original_data_of none = none
original_data_of (some raw) = raw.1

-- The status says which field of the metadata is there; several matches are two at least.
abbrev pub agrees : RecordCrossmatchStatus → Option ℕ → Option (List ℕ) → Bool
agrees new none none = true
agrees existing (some pgc) none = true
agrees collided none (some (pgc ∷ next ∷ pgcs)) = true
agrees status pgc possible_matches = false

status_agrees :
    (cs : List ℕ) → agrees (candidates_to_status cs) (shown_pgc cs) (shown_matches cs) ≡ true
unfolding candidates_to_status
status_agrees [] = refl
status_agrees (p ∷ []) = refl
status_agrees (p ∷ q ∷ cs) = refl

-- the candidates that are shown, in either field
abbrev pub shown_candidates : Option ℕ → Option (List ℕ) → List ℕ
shown_candidates none none = []
shown_candidates none (some pgcs) = pgcs
shown_candidates (some pgc) none = pgc ∷ []
shown_candidates (some pgc) (some pgcs) = pgc ∷ pgcs

candidates_shown : (cs : List ℕ) → shown_candidates (shown_pgc cs) (shown_matches cs) ≡ cs
candidates_shown [] = refl
candidates_shown (p ∷ []) = refl
candidates_shown (p ∷ q ∷ cs) = refl

module _ {C : Type 0} where
  -- the parts of what is shown, and of the row that it is made of with what layer 1 returns for it
  abbrev pub shown_parts : RecordCrossmatch C → String × RecordTriageStatus × List ℕ × Option C
  shown_parts r =
      (r.record_id, r.triage_status, shown_candidates r.pgc r.possible_matches, some r.catalogs)

  abbrev pub row_parts : Dict String C → RecordRow → String × RecordTriageStatus × List ℕ × Option C
  row_parts data_map row = (row.id, row.triage, row.candidates, lookup row.id data_map)

module _ {C : Type 0} where
  -- one round of the loop; a record that layer 1 does not return raises
  unfoldable pub convert_row : RecordRow → Option C → Outcome (RecordCrossmatch C)
  unfolding candidates_to_status
  convert_row row none = raised rejected
  convert_row row (some catalogs) = done (record {
    record_id = row.id;
    status = candidates_to_status row.candidates;
    triage_status = row.triage;
    pgc = shown_pgc row.candidates;
    possible_matches = shown_matches row.candidates;
    catalogs = catalogs;
  })

  abbrev pub convert_rows : Dict String C → List RecordRow → Outcome (List (RecordCrossmatch C))
  unfolding convert_row
  convert_rows layer1_data_map [] = done []
  convert_rows layer1_data_map (row ∷ rows) =
      and_then (convert_row row (lookup row.id layer1_data_map))
        λ shown. and_then (convert_rows layer1_data_map rows) λ rest. done (shown ∷ rest)

  -- `query_records` is the query of layer 1 for these records, by their ids.
  unfoldable pub convert_to_record_crossmatch :
      (List String → Dict String C) → List RecordRow → Outcome (List (RecordCrossmatch C))
  unfolding convert_rows
  convert_to_record_crossmatch query_records rows =
      convert_rows (query_records (map (λ row. row.id) rows)) rows

  abbrev pub layer2_candidates : (List ℕ → ℕ → List (ℕ × C)) → List ℕ → List (ℕ × C)
  layer2_candidates query_catalogs_pgc [] = []
  layer2_candidates query_catalogs_pgc (pgc ∷ pgcs) =
      query_catalogs_pgc (pgc ∷ pgcs) (length (pgc ∷ pgcs))

  abbrev pub first_shown : List (RecordCrossmatch C) → Outcome (RecordCrossmatch C)
  first_shown [] = raised rejected
  first_shown (shown ∷ rest) = done shown

  abbrev pub respond :
      {D : Type 0}
      → (List String → Dict String C)
      → (List ℕ → ℕ → List (ℕ × C))
      → (String → Option (String × Option D))
      → String
      → List RecordRow
      → Outcome (RecordResponse C D)
  unfolding convert_to_record_crossmatch
  respond query_records query_catalogs_pgc fetch_raw_data record_id [] =
      raised (no_record record_id)
  respond query_records query_catalogs_pgc fetch_raw_data record_id (row ∷ rows) =
      and_then (convert_to_record_crossmatch query_records (row ∷ [])) λ shown.
        and_then (first_shown shown) λ crossmatch. done (record {
          table_name = table_name_of (fetch_raw_data row.id);
          crossmatch = crossmatch;
          candidates = layer2_candidates query_catalogs_pgc row.candidates;
          original_data = original_data_of (fetch_raw_data row.id);
        })

  unfoldable pub get_record_crossmatch :
      {D : Type 0}
      → Dict String ℕ
      → (List String → List String)
      → (String → String → Bool)
      → (List String → Dict String C)
      → (List ℕ → ℕ → List (ℕ × C))
      → (String → Option (String × Option D))
      → String
      → Db
      → Outcome (RecordResponse C D)
  unfolding respond get_processed_records
  get_record_crossmatch registry collate after query_records query_catalogs_pgc fetch_raw_data
        record_id db =
      and_then
        (get_processed_records registry collate after 1
          (record no_query { record_id = some record_id }) db)
        (respond query_records query_catalogs_pgc fetch_raw_data record_id)

  convert_rows-total :
      (data_map : Dict String C) (rows : List RecordRow)
      → All (λ row. is_some (lookup row.id data_map) ≡ true) rows
      → (shown : List (RecordCrossmatch C)) × (convert_rows data_map rows ≡ done shown)
        × (map shown_parts shown ≡ map (row_parts data_map) rows)
        × All (λ r. agrees r.status r.pgc r.possible_matches ≡ true) shown
  unfolding convert_rows convert_row
  convert_rows-total data_map [] h = ([], refl, refl, tt)
  convert_rows-total data_map (row ∷ rows) h = elim (Option-cases (lookup row.id data_map)) [
    | inl e ↦ absurd (cc (h.0, ap is_some e))
    | inr (catalogs, e) ↦
        let (rest, ran, named, agreed) = convert_rows-total data_map rows h.1 in
        (
          record {
            record_id = row.id;
            status = candidates_to_status row.candidates;
            triage_status = row.triage;
            pgc = shown_pgc row.candidates;
            possible_matches = shown_matches row.candidates;
            catalogs = catalogs;
          }
              ∷ rest,
          rw (e, ran) refl,
          rw (candidates_shown row.candidates, e, named) refl,
          (status_agrees row.candidates, agreed),
        )
  ]

  -- When layer 1 returns all the records, each is shown, in order, with its triage status, with all
  -- of its candidates and no other, and with what layer 1 returns for it. Its status says where the
  -- candidates are: there is none if it is new, the one number if it exists, and two matches or more
  -- if it collided.
  pub convert_agrees :
      (query_records : List String → Dict String C) (rows : List RecordRow)
      → All (λ row. is_some (lookup row.id (query_records (map (λ r. r.id) rows))) ≡ true) rows
      → (shown : List (RecordCrossmatch C)) × (convert_to_record_crossmatch query_records rows
          ≡ done shown)
        × (map shown_parts shown ≡ map (row_parts (query_records (map (λ r. r.id) rows))) rows)
        × All (λ r. agrees r.status r.pgc r.possible_matches ≡ true) shown
  unfolding convert_to_record_crossmatch
  convert_agrees query_records rows h =
      convert_rows-total (query_records (map (λ r. r.id) rows)) rows h
