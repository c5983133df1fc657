-- ===== src/Tasks/Primary.antt =====
-- `exclude_compilations_with_primary`: what it leaves out.
use db_app.Base.{
  ℕ, ◌≡◌, refl, sym, ◌∙◌, Bool, true, false, ◌||◌, not, List, [], ◌∷◌, map, arith, nat_eq, ◌==◌,
  eq_of_beq, Bool-cases, inl, inr, contains, filter,
}
use db_app.Layer0.{DataType}
use db_app.Tasks.{is_compilation, has_primary, exclude_compilations_with_primary}

abbrev pub pgcs_of : {V : Type 0} → List (ℕ × (V × DataType)) → List ℕ
pgcs_of = map (λ row. row.0)

contains-pgcs_filter :
    {V : Type 0} (p q : ℕ × (V × DataType) → Bool) (pgc : ℕ) (rows : List (ℕ × (V × DataType)))
    → ((row : ℕ × (V × DataType)) → p row ≡ true → q row ≡ true)
    → contains (pgcs_of (filter p rows)) pgc ≡ true
    → contains (pgcs_of (filter q rows)) pgc ≡ true
contains-pgcs_filter p q pgc [] h m = m
contains-pgcs_filter p q pgc (row ∷ rows) h m =
    ground (arith, h row, contains-pgcs_filter p q pgc rows h)

-- a row that is not filtered out because its number has no primary row at all
kept_without_primary :
    {V : Type 0} (tbl rows : List (ℕ × (V × DataType))) (pgc : ℕ)
    → contains (pgcs_of (filter (λ r. not (is_compilation r)) tbl)) pgc ≡ false
    → contains
        (pgcs_of (filter (λ row. not (is_compilation row) || not (has_primary tbl row)) rows))
        pgc
      ≡ contains (pgcs_of rows) pgc
kept_without_primary tbl [] pgc h = refl
kept_without_primary tbl (row ∷ rows) pgc h = elim (Bool-cases (pgc == row.0)) [
  | inl same ↦ ground (arith, eq_of_beq pgc row.0 same, h, same)
  | inr other ↦ ground (arith, other, kept_without_primary tbl rows pgc h)
]

contains-pgcs_of-filter :
    {V : Type 0} (p : ℕ × (V × DataType) → Bool) (pgc : ℕ) (rows : List (ℕ × (V × DataType)))
    → contains (pgcs_of (filter p rows)) pgc ≡ true
    → contains (pgcs_of rows) pgc ≡ true
contains-pgcs_of-filter p pgc [] m = m
contains-pgcs_of-filter p pgc (row ∷ rows) m = ground (arith, contains-pgcs_of-filter p pgc rows)

-- No object is lost: the numbers of the result are those of the table.
pub exclude_keeps_pgcs :
    {V : Type 0} (tbl : List (ℕ × (V × DataType))) (pgc : ℕ)
    → contains (pgcs_of (exclude_compilations_with_primary tbl)) pgc ≡ contains (pgcs_of tbl) pgc
unfolding exclude_compilations_with_primary
exclude_keeps_pgcs tbl pgc =
    elim (Bool-cases (contains (pgcs_of (filter (λ r. not (is_compilation r)) tbl)) pgc)) [
      | inl primary ↦
          contains-pgcs_filter (λ r. not (is_compilation r)) _ pgc tbl (λ row h. ground (arith, h))
            primary
          ∙ sym (contains-pgcs_of-filter (λ r. not (is_compilation r)) pgc tbl primary)
      | inr none_primary ↦ kept_without_primary tbl tbl pgc none_primary
    ]
