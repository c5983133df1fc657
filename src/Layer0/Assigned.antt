-- ===== src/Layer0/Assigned.antt =====
-- The records that `assign_record_pgcs` can assign a number, and the statements that read them.

use db_app.Base.{
  ℕ, String, ◌≡◌, refl, inl, inr, true, false, Option, none, some, List, [], ◌∷◌, arith, Dict,
  nat_eq, string_eq, ◌==◌, ==_refl, eq_of_beq, Bool-cases, Option-cases, length, lookup, keys,
  values, is_some, contains, All,
}
use db_app.Layer0.{Db, Crossmatch, int, candidates_to_metadata}
use db_app.Layer0.Records.{
  done, existing_pgcs, metadata_of, candidate_of, zip, is_resolved, is_invalid, touch,
}

abbrev pub at_most_one : Option ℕ → List ℕ
at_most_one none = []
at_most_one (some pgc) = pgc ∷ []

-- The record has a resolved crossmatch result with at most one candidate, and the candidate is a
-- number that there is.
pub record IsAssignable (db : Db) (id : String) : Type 0 where
  pub row : Crossmatch
  pub found : lookup id db.crossmatch ≡ some row
  pub triaged : is_resolved row.triage_status ≡ true
  pub candidate : Option ℕ
  pub metadata_same : row.metadata ≡ candidates_to_metadata (at_most_one candidate)
  pub known : (p : ℕ) → candidate ≡ some p → contains (keys db.pgcs) p ≡ true

abbrev pub Castable : Db → String → Type 0
Castable db id =
    (n : ℕ) × (candidate_of (metadata_of db id) ≡ some (int n)) × (contains (keys db.pgcs) n ≡ true)

pub metadata_of-IsAssignable :
    (db : Db) (id : String) (a : IsAssignable db id)
    → metadata_of db id ≡ some (candidates_to_metadata (at_most_one a.candidate))
unfolding metadata_of
metadata_of-IsAssignable db id a = rw (a.found, a.metadata_same) refl

pub castable :
    (db : Db) (id : String) (a : IsAssignable db id) (c : Option ℕ)
    → a.candidate ≡ c
    → is_some (candidate_of (metadata_of db id)) ≡ true
    → Castable db id
unfolding candidates_to_metadata
castable db id a none e has = absurd (cc (rw (metadata_of-IsAssignable db id a, e) at has))
castable db id a (some p) e has = (p, rw (metadata_of-IsAssignable db id a, e) refl, a.known p e)

pub valid-IsAssignable : (db : Db) (id : String) → IsAssignable db id → is_invalid db id ≡ false
unfolding is_invalid candidates_to_metadata
valid-IsAssignable db id a = elim (Option-cases a.candidate) [
  | inl e ↦ rw (a.found, a.triaged, a.metadata_same, e, is_invalid) refl
  | inr (p, e) ↦ rw (a.found, a.triaged, a.metadata_same, e, is_invalid) refl
]

pub existing_pgcs-total :
    (db : Db) (ids : List String)
    → All (Castable db) ids
    → (d : Dict String ℕ) × (existing_pgcs db ids ≡ done d)
      × (keys d ≡ ids)
      × All
          (λ e.
            (candidate_of (metadata_of db e.0) ≡ some (int e.1))
            × (contains (keys db.pgcs) e.1 ≡ true))
          d
unfolding existing_pgcs
existing_pgcs-total db [] h = ([], refl, refl, tt)
existing_pgcs-total db (id ∷ ids) h =
    let (n, e, known) = h.0 in
    let (d, ran, named, good) = existing_pgcs-total db ids h.1 in
    ((id, n) ∷ d, rw (e, ran) refl, rw named refl, ((e, known), good))

pub keys-zip : (xs : List String) (ns : List ℕ) → length ns ≡ length xs → keys (zip xs ns) ≡ xs
keys-zip [] [] h = refl
keys-zip [] (n ∷ ns) h = refl
keys-zip (x ∷ xs) [] h = absurd (omega (arith, h))
keys-zip (x ∷ xs) (n ∷ ns) h = rw (keys-zip xs ns (omega (arith, h))) refl

pub All-zip :
    (P : String → Type 0) (Q : ℕ → Type 0) (xs : List String) (ns : List ℕ)
    → All P xs
    → All Q ns
    → All (λ e. P e.0 × Q e.1) (zip xs ns)
All-zip P Q [] ns h k = tt
All-zip P Q (x ∷ xs) [] h k = tt
All-zip P Q (x ∷ xs) (n ∷ ns) h k = ((h.0, k.0), All-zip P Q xs ns h.1 k.1)

pub lookup-touch :
    (now : ℕ) (ids : List ℕ) (pgcs : Dict ℕ ℕ) (p : ℕ)
    → contains ids p ≡ true
    → contains (keys pgcs) p ≡ true
    → lookup p (touch now ids pgcs) ≡ some now
lookup-touch now ids [] p touched there = absurd (cc)
lookup-touch now ids ((k, time) ∷ pgcs) p touched there = elim (Bool-cases (k == p)) [
  | inl same ↦ rw (same, eq_of_beq k p same, touched) refl
  | inr other ↦ rw other (lookup-touch now ids pgcs p touched (ground (arith, there, other)))
]

pub contains-values :
    (id : String) (p : ℕ) (d : Dict String ℕ) → lookup id d ≡ some p → contains (values d) p ≡ true
contains-values id p [] found = absurd (cc)
contains-values id p ((j, n) ∷ d) found = elim (Bool-cases (j == id)) [
  | inl same ↦
      let here : some n ≡ some p = rw same at found in
      let value : n ≡ p = cc here in rw (value, ==_refl p) refl
  | inr other ↦ rw (contains-values id p d (rw other at found)) (ground arith)
]
