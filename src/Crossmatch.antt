-- ===== src/Crossmatch.antt =====
-- Crossmatch results as the admin API sets and shows them (app/adminapi/domain/crossmatch.py, the
-- payloads of app/adminapi/presentation/interface.py).
pub mod Results
pub mod Assigning
pub mod Processed
pub mod Responses
use mathlib.Core.Option
use db_app.Base.{
  ℕ, zero, suc, String, ◌+◌, Bool, true, false, ◌&&◌, ◌||◌, not, Option, none, some, List, [], ◌∷◌,
  ◌++◌, map, Dict, nat_eq, string_eq, ◌==◌, length, lookup, keys, or_else, is_some, contains,
  filter, take, drop, any, unique_after, if◌then◌else◌,
}
use db_app.Layer0.{
  Db, Record, Crossmatch, RecordTriageStatus, pending, resolved, RecordCrossmatchStatus,
  unprocessed, new, collided, existing, Metadata, metadata_to_candidates,
}
use db_app.Layer0.Records.{
  Outcome, raised, done, Failure, rejected, precondition, and_then, set_crossmatch_results,
  assign_record_pgcs, is_empty_object,
}

-- One of the three payloads, with the candidates of its records: none are given for new records,
-- one number for existing ones, and a list for collided ones.
pub record StatusPayload (C : Type 0) : Type 0 where
  pub record_ids : List String
  pub candidates : List C
  pub triage_statuses : List (Option RecordTriageStatus)

pub record StatusesPayload : Type 0 where
  pub new_records : Option (StatusPayload Unit)
  pub existing_records : Option (StatusPayload ℕ)
  pub collided_records : Option (StatusPayload (List ℕ))

abbrev pub get_elem? : {A : Type 0} → List A → ℕ → Option A
get_elem? [] i = none
get_elem? (x ∷ xs) zero = some x
get_elem? (x ∷ xs) (suc i) = get_elem? xs i

abbrev pub Rows : Type 0
Rows = List (String × RecordTriageStatus × List ℕ)

-- `triage_statuses[i] if i < len(triage_statuses) else None`, or else the default
abbrev pub triage_of :
    List (Option RecordTriageStatus) → RecordTriageStatus → ℕ → RecordTriageStatus
triage_of triage_statuses default_triage i =
    or_else (or_else (get_elem? triage_statuses i) none) default_triage

-- what one round of the loop appends before the rest
abbrev pub append_row : String → RecordTriageStatus → Option (List ℕ) → Option Rows → Option Rows
append_row record_id triage none rest = none
append_row record_id triage (some candidates) none = none
append_row record_id triage (some candidates) (some rest) =
    some ((record_id, triage, candidates) ∷ rest)

-- `_append_crossmatch_rows` from the index `i` on; `none` is an index out of range
unfoldable pub append_crossmatch_rows :
    ℕ
    → List String
    → List (Option RecordTriageStatus)
    → RecordTriageStatus
    → (ℕ → Option (List ℕ))
    → Option Rows
append_crossmatch_rows i [] triage_statuses default_triage candidates_for_index = some []
append_crossmatch_rows i (record_id ∷ record_ids) triage_statuses default_triage
      candidates_for_index =
    append_row record_id (triage_of triage_statuses default_triage i) (candidates_for_index i) (
      append_crossmatch_rows (suc i) record_ids triage_statuses default_triage candidates_for_index)

abbrev pub new_rows : Option (StatusPayload Unit) → Option Rows
new_rows none = some []
new_rows (some payload) =
    append_crossmatch_rows 0 payload.record_ids payload.triage_statuses resolved (λ i. some [])

abbrev pub existing_rows : Option (StatusPayload ℕ) → Option Rows
existing_rows none = some []
existing_rows (some payload) =
    append_crossmatch_rows 0 payload.record_ids payload.triage_statuses resolved
      (λ i. Option.map (λ pgc. pgc ∷ []) (get_elem? payload.candidates i))

abbrev pub collided_rows : Option (StatusPayload (List ℕ)) → Option Rows
collided_rows none = some []
collided_rows (some payload) =
    append_crossmatch_rows 0 payload.record_ids payload.triage_statuses pending
      (λ i. get_elem? payload.candidates i)

abbrev pub append_all : Option Rows → Option Rows → Option Rows
append_all (some rows) (some rest) = some (rows ++ rest)
append_all none rest = none
append_all (some rows) none = none

unfoldable pub crossmatch_rows : StatusesPayload → Option Rows
unfolding append_crossmatch_rows
crossmatch_rows payload =
    append_all (new_rows payload.new_records)
      (append_all (existing_rows payload.existing_records) (collided_rows payload.collided_records))

abbrev pub save_rows : Option Rows → Db → Outcome Db
save_rows none db = raised rejected
save_rows (some rows) db = set_crossmatch_results rows db

-- `CrossmatchManager.set_crossmatch_results`
unfoldable pub set_results : StatusesPayload → Db → Outcome Db
unfolding crossmatch_rows set_crossmatch_results
set_results payload db = save_rows (crossmatch_rows payload) db

-- the validators of a payload, for one that carries candidates and for one that does not
unfoldable pub is_valid_payload : {C : Type 0} → Bool → (C → Bool) → StatusPayload C → Bool
is_valid_payload wants_candidates is_valid_candidate payload =
    (not wants_candidates || length payload.candidates == length payload.record_ids)
    && (not (any (λ c. not (is_valid_candidate c)) payload.candidates)
        && ((length payload.triage_statuses == 0
              || length payload.triage_statuses == length payload.record_ids)
            && not (length payload.record_ids == 0)))

abbrev pub all_of : {A : Type 0} → (A → Bool) → Option A → Bool
all_of test none = true
all_of test (some a) = test a

abbrev pub is_not_empty : List ℕ → Bool
is_not_empty [] = false
is_not_empty (x ∷ xs) = true

-- `StatusesPayload.check_at_least_one`, with the validators of the parts
unfoldable pub is_valid_statuses : StatusesPayload → Bool
unfolding is_valid_payload
is_valid_statuses payload =
    (is_some payload.new_records
      || (is_some payload.existing_records || is_some payload.collided_records))
    && (all_of (is_valid_payload false (λ c. true)) payload.new_records
        && (all_of (is_valid_payload true (λ c. true)) payload.existing_records
            && all_of (is_valid_payload true is_not_empty) payload.collided_records))

-- `_candidates_to_status`
unfoldable pub candidates_to_status : List ℕ → RecordCrossmatchStatus
candidates_to_status [] = new
candidates_to_status (pgc ∷ []) = existing
candidates_to_status candidates = collided

-- the manager's `assign_record_pgcs`; a conflict carries what the repository's error carries
unfoldable pub assign :
    (List String → List String) → (List String → List String) → List String → Db → Outcome Db
unfolding assign_record_pgcs
assign collate scan record_ids db = assign_record_pgcs collate scan (unique_after [] record_ids) db
