-- ===== src/Tables/Filtered.antt =====
-- The records that `fetch_records` makes of the rows of its statements.

use db_app.Base.{
  ℕ, zero, suc, String, ◌≡◌, refl, ap, ◌∙◌, true, false, Option, none, some, List, [], ◌∷◌, ◌++◌,
  arith, lookup-insert, lookup-insert_self, Dict, nat_eq, string_eq, lookup, update, insert,
  contains, take, drop,
}
use db_app.Layer0.{Crossmatch, metadata_to_candidates}
use db_app.Crossmatch.Processed.{triage_value}
use db_app.Tables.{ok}
use db_app.Tables.Fetch.{
  Field, null, status, object, pgc_of, triage_of, candidates_of, TableRecord, Reading, pgc_field,
  crossmatch_fields, drop_labels, row_to_serializable_dict, to_record, to_records,
}

-- the columns that statements add are not those of the raw table
abbrev pub IsApart : List String → Type 0
IsApart columns =
    (contains columns "triage_status" ≡ false) × (contains columns "crossmatch_metadata" ≡ false)

abbrev pub shown_status : Option Crossmatch → String
shown_status none = "unprocessed"
shown_status (some c) = triage_value c.triage_status

abbrev pub shown_candidates : Option Crossmatch → Option (List ℕ)
shown_candidates none = some []
shown_candidates (some c) = metadata_to_candidates (some c.metadata)

module _ {V : Type 0} (reading : Reading V) where
  -- each row is shown as the record in its place
  abbrev pub Reads : List (String × Dict String (Field V)) → List (TableRecord V) → Type 0
  Reads [] [] = Unit
  Reads [] (r ∷ rs) = ⊥
  Reads (x ∷ xs) [] = ⊥
  Reads (x ∷ xs) (r ∷ rs) = (to_record reading x ≡ ok r) × Reads xs rs

  pub Reads-append :
      (xs ys : List (String × Dict String (Field V))) (rs qs : List (TableRecord V))
      → Reads xs rs
      → Reads ys qs
      → Reads (xs ++ ys) (rs ++ qs)
  Reads-append [] ys [] qs h k = k
  Reads-append [] ys (r ∷ rs) qs h k = elim h [ ]
  Reads-append (x ∷ xs) ys [] qs h k = elim h [ ]
  Reads-append (x ∷ xs) ys (r ∷ rs) qs h k = (h.0, Reads-append xs ys rs qs h.1 k)

  pub Reads-take :
      (n : ℕ) (xs : List (String × Dict String (Field V))) (rs : List (TableRecord V))
      → Reads xs rs
      → Reads (take n xs) (take n rs)
  Reads-take zero xs rs h = tt
  Reads-take (suc n) [] [] h = tt
  Reads-take (suc n) [] (r ∷ rs) h = elim h [ ]
  Reads-take (suc n) (x ∷ xs) [] h = elim h [ ]
  Reads-take (suc n) (x ∷ xs) (r ∷ rs) h = (h.0, Reads-take n xs rs h.1)

  pub Reads-drop :
      (n : ℕ) (xs : List (String × Dict String (Field V))) (rs : List (TableRecord V))
      → Reads xs rs
      → Reads (drop n xs) (drop n rs)
  Reads-drop zero xs rs h = h
  Reads-drop (suc n) [] [] h = tt
  Reads-drop (suc n) [] (r ∷ rs) h = elim h [ ]
  Reads-drop (suc n) (x ∷ xs) [] h = elim h [ ]
  Reads-drop (suc n) (x ∷ xs) (r ∷ rs) h = Reads-drop n xs rs h.1

  pub to_records-Reads :
      (xs : List (String × Dict String (Field V))) (rs : List (TableRecord V))
      → Reads xs rs
      → to_records reading xs ≡ ok rs
  unfolding to_records
  to_records-Reads [] [] h = refl
  to_records-Reads [] (r ∷ rs) h = elim h [ ]
  to_records-Reads (x ∷ xs) [] h = elim h [ ]
  to_records-Reads (x ∷ xs) (r ∷ rs) h = rw (h.0, to_records-Reads xs rs h.1) refl

  serializable-insert :
      (labels : List String) (k : String) (v : Field V) (row : Dict String (Field V))
      → contains labels k ≡ true
      → row_to_serializable_dict reading labels (insert k v row)
        ≡ row_to_serializable_dict reading labels row
  unfolding row_to_serializable_dict
  serializable-insert labels k v [] h = ground (arith, h)
  serializable-insert labels k v ((j, w) ∷ row) h =
      ground (arith, string_eq.test_iff j k, h, serializable-insert labels k v row)

  -- what is shown of a record, whichever statement has found it
  abbrev pub record_of :
      String → Dict String (Field V) → Option ℕ → Option Crossmatch → List ℕ → TableRecord V
  record_of id raw pgc c candidates = record {
    id = id;
    original_data = row_to_serializable_dict reading drop_labels raw;
    pgc = pgc;
    triage_status = shown_status c;
    crossmatch_candidates = candidates;
  }

  to_record-fields :
      (id : String) (row : Dict String (Field V)) (p t m : Option (Field V)) (candidates : List ℕ)
      (shown : Dict String (Option V))
      → lookup "pgc" row ≡ p
      → lookup "triage_status" row ≡ t
      → lookup "crossmatch_metadata" row ≡ m
      → candidates_of reading m ≡ some candidates
      → row_to_serializable_dict reading drop_labels row ≡ shown
      → to_record reading (id, row)
        ≡ ok (record {
          id = id;
          original_data = shown;
          pgc = pgc_of reading p;
          triage_status = triage_of reading t;
          crossmatch_candidates = candidates;
        })
  unfolding to_record
  to_record-fields id row p t m candidates shown hp ht hm hc hs = ground (
    arith,
    ap (candidates_of reading) hm ∙ hc,
    ap (pgc_of reading) hp,
    ap (triage_of reading) ht,
    hs,
  )

  all_fields :
      (id : String) (raw : Dict String (Field V)) (p t m : Field V) (candidates : List ℕ)
      → candidates_of reading (some m) ≡ some candidates
      → to_record reading
          (id, insert "crossmatch_metadata" m (insert "triage_status" t (insert "pgc" p raw)))
        ≡ ok (record {
          id = id;
          original_data = row_to_serializable_dict reading drop_labels raw;
          pgc = pgc_of reading (some p);
          triage_status = triage_of reading (some t);
          crossmatch_candidates = candidates;
        })
  all_fields id raw p t m candidates h =
      let with_pgc = insert "pgc" p raw in
      let with_status = insert "triage_status" t with_pgc in
      to_record-fields id (insert "crossmatch_metadata" m with_status) (some p) (some t) (some m)
        candidates _
        (lookup-insert "crossmatch_metadata" "pgc" m with_status
          ∙ lookup-insert "triage_status" "pgc" t with_pgc
          ∙ lookup-insert_self "pgc" p raw)
        (lookup-insert "crossmatch_metadata" "triage_status" m with_status
          ∙ lookup-insert_self "triage_status" t with_pgc)
        (lookup-insert_self "crossmatch_metadata" m with_status) h
        (serializable-insert drop_labels "crossmatch_metadata" m with_status refl
          ∙ serializable-insert drop_labels "triage_status" t with_pgc refl
          ∙ serializable-insert drop_labels "pgc" p raw refl)

  pgc_of-pgc_field : (pgc : Option ℕ) → pgc_of reading (some (pgc_field pgc)) ≡ pgc
  pgc_of-pgc_field none = refl
  pgc_of-pgc_field (some pgc) = refl

  pub to_record-everything :
      (id : String) (raw : Dict String (Field V)) (pgc : Option ℕ) (c : Option Crossmatch)
      (candidates : List ℕ)
      → shown_candidates c ≡ some candidates
      → to_record reading (id, update raw (("pgc", pgc_field pgc) ∷ crossmatch_fields c))
        ≡ ok (record_of id raw pgc c candidates)
  unfolding to_record
  to_record-everything id raw pgc none candidates h =
      all_fields id raw (pgc_field pgc) null null candidates h ∙ rw (pgc_of-pgc_field pgc) refl
  to_record-everything id raw pgc (some c) candidates h =
      all_fields id raw (pgc_field pgc) (status c.triage_status) (object c.metadata) candidates h
      ∙ rw (pgc_of-pgc_field pgc) refl

  pub to_record-unprocessed :
      (id : String) (raw : Dict String (Field V)) (pgc : Option ℕ)
      → lookup "triage_status" raw ≡ none
      → lookup "crossmatch_metadata" raw ≡ none
      → to_record reading (id, update raw (("pgc", pgc_field pgc) ∷ []))
        ≡ ok (record_of id raw pgc none [])
  unfolding to_record
  to_record-unprocessed id raw pgc h k =
      to_record-fields id (insert "pgc" (pgc_field pgc) raw) (some (pgc_field pgc)) none none [] _
        (lookup-insert_self "pgc" (pgc_field pgc) raw)
        (lookup-insert "pgc" "triage_status" (pgc_field pgc) raw ∙ h)
        (lookup-insert "pgc" "crossmatch_metadata" (pgc_field pgc) raw ∙ k) refl
        (serializable-insert drop_labels "pgc" (pgc_field pgc) raw refl)
      ∙ rw (pgc_of-pgc_field pgc) refl
