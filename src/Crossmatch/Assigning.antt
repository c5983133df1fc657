-- ===== src/Crossmatch/Assigning.antt =====
-- Submitting records: what `CrossmatchManager.assign_record_pgcs` answers and changes.
use db_app.Base.{
  ◌⊎◌, inl, inr, ℕ, zero, suc, String, ◌<◌, ◌≡◌, refl, sym, ap, ◌∙◌, true, false, ◌&&◌, not, none,
  some, List, [], ◌∷◌, ◌++◌, arith, nat_eq, string_eq, ◌==◌, ==_refl, eq_of_beq, Bool-cases, inl,
  inr, length, lookup, filter, filter_none, take, contains, contains-append, unique_after,
  All-of_contains,
}
use db_app.Layer0.{Db, Record}
use db_app.Layer0.Records.{
  raised, done, precondition, is_invalid, has_duplicates, any_row, assign_valid, assign_record_pgcs,
}
use db_app.Layer0.Assign.{IsFresh}
use db_app.Layer0.Assigned.{IsAssignable, valid-IsAssignable}
use db_app.Layer0.Submit.{IsNumberFor, assign_valid_assigns}
use db_app.Crossmatch.{assign}

contains-unique_after :
    (seen xs : List String) (a : String)
    → contains (unique_after seen xs) a ≡ (contains xs a && not (contains seen a))
contains-unique_after seen [] a = refl
contains-unique_after seen (x ∷ xs) a = elim (Bool-cases (a == x)) [
  | inl same ↦ ground (
    arith,
    same,
    ap (contains seen) (eq_of_beq a x same),
    contains-unique_after seen xs a,
    contains-unique_after (seen ++ x ∷ []) xs a,
    contains-append seen (x ∷ []) a,
  )
  | inr other ↦ ground (
    arith,
    other,
    contains-unique_after seen xs a,
    contains-unique_after (seen ++ x ∷ []) xs a,
    contains-append seen (x ∷ []) a,
  )
]

unique_after-has_no_duplicates :
    (seen xs : List String) → has_duplicates (unique_after seen xs) ≡ false
unique_after-has_no_duplicates seen [] = refl
unique_after-has_no_duplicates seen (x ∷ xs) = ground (
  arith,
  unique_after-has_no_duplicates seen xs,
  unique_after-has_no_duplicates (seen ++ x ∷ []) xs,
  contains-unique_after (seen ++ x ∷ []) xs x,
  contains-append seen (x ∷ []) x,
  ==_refl x,
)

-- the records of a request that cannot be assigned a number, once each
abbrev pub unassignable : Db → List String → List String
unassignable db record_ids = filter (is_invalid db) (unique_after [] record_ids)

take-take : (m : ℕ) (xs : List String) → take m (take (suc m) xs) ≡ take m xs
take-take zero xs = refl
take-take (suc m) [] = refl
take-take (suc m) (x ∷ xs) = ap (λ ys. x ∷ ys) (take-take m xs)

any_row-empty : (xs : List String) → length xs ≡ 0 → any_row xs ≡ false
any_row-empty [] h = refl
any_row-empty (x ∷ xs) h = absurd (omega (arith, h))

any_row-length : (xs : List String) → 0 < length xs → any_row xs ≡ true
any_row-length [] h = absurd (omega (arith, h))
any_row-length (x ∷ xs) h = refl

module _ (collate scan : List String → List String)
    (scans : (ids : List String) → length (scan ids) ≡ length ids) where
  refuses :
      (ids : List String) (db : Db)
      → has_duplicates ids ≡ false
      → 0 < length (filter (is_invalid db) ids)
      → assign_record_pgcs collate scan ids db
        ≡ raised (
            precondition
              (take 100 (scan (filter (is_invalid db) ids)))
              (length (filter (is_invalid db) ids)))
  unfolding assign_record_pgcs
  refuses [] db distinct h = absurd (omega (arith, h))
  refuses (id ∷ ids) db distinct h =
      let invalid = filter (is_invalid db) (id ∷ ids) in
      let shown : any_row (scan invalid) ≡ true =
        any_row-length (scan invalid) (omega (arith, h, scans invalid)) in
      rw (distinct, shown)
        (ap (λ s. raised (precondition s (length (scan invalid)))) (take-take 100 (scan invalid))
          ∙ ap (λ n. raised (precondition (take 100 (scan invalid)) n)) (scans invalid))

  accepts :
      (id : String) (ids : List String) (db : Db)
      → has_duplicates (id ∷ ids) ≡ false
      → filter (is_invalid db) (id ∷ ids) ≡ []
      → assign_record_pgcs collate scan (id ∷ ids) db ≡ assign_valid collate (id ∷ ids) db
  unfolding assign_record_pgcs
  accepts id ids db distinct valid =
      let nothing : any_row (scan (filter (is_invalid db) (id ∷ ids))) ≡ false =
        any_row-empty _ (scans (filter (is_invalid db) (id ∷ ids)) ∙ ap length valid) in
      rw (distinct, nothing) refl

  -- A request with records that cannot be assigned a number is refused: the error counts them, each
  -- once, and shows a hundred of them at most.
  pub assign_refuses :
      (record_ids : List String) (db : Db)
      → 0 < length (unassignable db record_ids)
      → assign collate scan record_ids db
        ≡ raised (
            precondition
              (take 100 (scan (unassignable db record_ids)))
              (length (unassignable db record_ids)))
  unfolding assign assign_record_pgcs
  assign_refuses record_ids db some_invalid =
      refuses (unique_after [] record_ids) db (unique_after-has_no_duplicates [] record_ids)
        some_invalid

  assign_assigns :
      (permutes : (ids : List String) (id : String) → contains (collate ids) id ≡ contains ids id)
      (first : String) (rest : List String) (db : Db)
      → ((id : String) → contains (first ∷ rest) id ≡ true → IsAssignable db id)
      → IsFresh db
      → (db' : Db) × (assign collate scan (first ∷ rest) db ≡ done db')
        × ((id : String) (r : Record)
            → contains (first ∷ rest) id ≡ true
            → lookup id db.records ≡ some r
            → r.pgc ≡ none
            → (p : ℕ) × (lookup id db'.records ≡ some (record r { pgc = some p }))
              × IsNumberFor db db' id p)
        × ((id : String) (r : Record) (p : ℕ)
            → lookup id db.records ≡ some r
            → r.pgc ≡ some p
            → lookup id db'.records ≡ some r)
        × ((id : String)
            → contains (first ∷ rest) id ≡ false
            → lookup id db'.records ≡ lookup id db.records)
  unfolding assign
  assign_assigns permutes first rest db assignable fresh =
      let (db', ran, given, kept, others) =
        assign_valid_assigns collate permutes db ids (λ id h. assignable id (sym (listed id) ∙ h))
          fresh in
      (
        db',
        accepts first _ db (unique_after-has_no_duplicates [] (first ∷ rest)) all_valid ∙ ran,
        (λ id r h. given id r (listed id ∙ h)),
        kept,
        (λ id h. others id (listed id ∙ h)),
      )
    where
      ids : List String
      ids = unique_after [] (first ∷ rest)

      listed :
          (id : String) → contains (unique_after [] (first ∷ rest)) id ≡ contains (first ∷ rest) id
      listed id = contains-unique_after [] (first ∷ rest) id ∙ ground arith

      all_valid : filter (is_invalid db) (unique_after [] (first ∷ rest)) ≡ []
      all_valid = filter_none (is_invalid db) ids (
          All-of_contains _ ids
            λ id h. valid-IsAssignable db id (assignable id (sym (listed id) ∙ h)))

module _ (collate scan : List String → List String)
    (scans : (ids : List String) → length (scan ids) ≡ length ids)
    (permutes : (ids : List String) (id : String) → contains (collate ids) id ≡ contains ids id)
    (first : String) (rest : List String) (db : Db)
    (assignable : (id : String) → contains (first ∷ rest) id ≡ true → IsAssignable db id)
    (fresh : IsFresh db) where
  -- A request whose records can all be assigned a number succeeds, and each of its records that had
  -- none has one then: the candidate of its crossmatch result, or a new number of the sequence if it
  -- has no candidate. The number's row is dated to the transaction.
  pub assign_numbers :
      (id : String) (r : Record)
      → contains (first ∷ rest) id ≡ true
      → lookup id db.records ≡ some r
      → r.pgc ≡ none
      → (db' : Db) × (assign collate scan (first ∷ rest) db ≡ done db')
        × (p : ℕ) × (lookup id db'.records ≡ some (record r { pgc = some p }))
        × IsNumberFor db db' id p
  assign_numbers id r listed found empty =
      let (db', ran, given, _, _) =
        assign_assigns collate scan scans permutes first rest db assignable fresh in
      let (p, changed, number) = given id r listed found empty in (db', ran, p, changed, number)

  -- Such a request leaves every record with a number as it is, also if it names the record.
  assign_numbered :
      (id : String) (r : Record) (p : ℕ)
      → lookup id db.records ≡ some r
      → r.pgc ≡ some p
      → (db' : Db) × (assign collate scan (first ∷ rest) db ≡ done db')
        × (lookup id db'.records ≡ some r)
  assign_numbered id r p found numbered =
      let (db', ran, _, kept, _) =
        assign_assigns collate scan scans permutes first rest db assignable fresh in
      (db', ran, kept id r p found numbered)

  -- Such a request leaves every record that it does not name as it is.
  assign_leaves :
      (id : String)
      → contains (first ∷ rest) id ≡ false
      → (db' : Db) × (assign collate scan (first ∷ rest) db ≡ done db')
        × (lookup id db'.records ≡ lookup id db.records)
  assign_leaves id other =
      let (db', ran, _, _, others) =
        assign_assigns collate scan scans permutes first rest db assignable fresh in
      (db', ran, others id other)

  -- A request whose records can all be assigned a number leaves a record as it is if it does not
  -- name it, or if the record has a number.
  pub assign_keeps :
      (id : String)
      → (contains (first ∷ rest) id ≡ false)
        ⊎ ((r : Record) × (p : ℕ) × (lookup id db.records ≡ some r) × (r.pgc ≡ some p))
      → (db' : Db) × (assign collate scan (first ∷ rest) db ≡ done db')
        × (lookup id db'.records ≡ lookup id db.records)
  assign_keeps id kept = elim kept [
    | inl other ↦ assign_leaves id other
    | inr (r, p, found, numbered) ↦
        let (db', ran, same) = assign_numbered id r p found numbered in (db', ran, same ∙ sym found)
  ]
