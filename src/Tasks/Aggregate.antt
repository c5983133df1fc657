-- ===== src/Tasks/Aggregate.antt =====
-- The groups of a page. `Table.group_by` of astropy is a parameter that lists the groups in the order
-- of the number.
use mathlib.Core.List.{map-append}
use db_app.Base.{
  ℕ, ◌<◌, ◌≡◌, ◌≢◌, refl, ap, ◌∙◌, List, [], ◌∷◌, ◌++◌, map, append-nil, arith, nat_eq, ◌==◌,
  filter, filter-append, All, flat_map,
}
use db_app.Containers.Batch.{Ascending}
use db_app.Layer1.{insert_distinct, sort_distinct}

-- `group_by("pgc")` and `.groups` of astropy: the groups of equal numbers, in ascending order
abbrev pub GroupsByKey : {V : Type 0} → (List (ℕ × V) → List (List (ℕ × V))) → Type 0
GroupsByKey {V} group_by =
    (rows : List (ℕ × V))
    → group_by rows
      ≡ map (λ pgc. filter (λ row. row.0 == pgc) rows) (sort_distinct (map (λ row. row.0) rows))

-- The rows of each number: there are some, and they have it.
pub record OfKey {V : Type 0} (rows_of : ℕ → List (ℕ × V)) (t : ℕ) : Type 0 where
  pub first : ℕ × V
  pub rest : List (ℕ × V)
  pub rows : rows_of t ≡ first ∷ rest
  pub named : All (λ row. row.0 ≡ t) (rows_of t)

module _ {V : Type 0} (rows_of : ℕ → List (ℕ × V)) where
  sort_distinct-group :
      (t : ℕ) (row : ℕ × V) (rows : List (ℕ × V)) (ys ts : List ℕ)
      → All (λ r. r.0 ≡ t) (row ∷ rows)
      → sort_distinct ys ≡ ts
      → All (λ y. t < y) ts
      → sort_distinct (map (λ r. r.0) (row ∷ rows) ++ ys) ≡ t ∷ ts
  unfolding sort_distinct insert_distinct
  sort_distinct-group t row [] ys ts h e above = rw (h.0, e) (first_of_all ts above)
    where
      first_of_all : (us : List ℕ) → All (λ y. t < y) us → insert_distinct t us ≡ t ∷ us
      first_of_all [] a = refl
      first_of_all (u ∷ us) a = ground (arith, a.0)
  sort_distinct-group t row (row' ∷ rows) ys ts h e above =
      rw (h.0, sort_distinct-group t row' rows ys ts h.1 e above) (ground arith)

  sort_distinct-flat_map :
      (ts : List ℕ)
      → Ascending ts
      → All (OfKey rows_of) ts
      → sort_distinct (map (λ r. r.0) (flat_map rows_of ts)) ≡ ts
  unfolding sort_distinct insert_distinct
  sort_distinct-flat_map [] asc of = refl
  sort_distinct-flat_map (t ∷ ts) asc of =
      rw (map-append, of.0.rows)
        (sort_distinct-group t of.0.first of.0.rest _ ts (rw of.0.rows at of.0.named)
          (sort_distinct-flat_map ts asc.1 of.1) asc.0)

  filter_other :
      (p t : ℕ) (rows : List (ℕ × V))
      → All (λ row. row.0 ≡ t) rows
      → t ≢ p
      → filter (λ row. row.0 == p) rows ≡ []
  filter_other p t [] h ne = refl
  filter_other p t (row ∷ rows) h ne = ground (arith, h.0, filter_other p t rows h.1 ne)

  filter_same :
      (t : ℕ) (rows : List (ℕ × V))
      → All (λ row. row.0 ≡ t) rows
      → filter (λ row. row.0 == t) rows ≡ rows
  filter_same t [] h = refl
  filter_same t (row ∷ rows) h = ground (arith, h.0, filter_same t rows h.1)

  filter_above_none :
      (t : ℕ) (ts : List ℕ)
      → All (λ y. t < y) ts
      → All (OfKey rows_of) ts
      → filter (λ row. row.0 == t) (flat_map rows_of ts) ≡ []
  filter_above_none t [] above of = refl
  filter_above_none t (u ∷ ts) above of =
      rw (filter-append, filter_other t u (rows_of u) of.0.named (omega arith))
        (filter_above_none t ts above.1 of.1)

  pub filter_groups :
      (ts : List ℕ)
      → Ascending ts
      → All (OfKey rows_of) ts
      → All (λ p. filter (λ row. row.0 == p) (flat_map rows_of ts) ≡ rows_of p) ts
  filter_groups [] asc of = tt
  filter_groups (t ∷ ts) asc of = (
    rw (filter-append, filter_same t (rows_of t) of.0.named, filter_above_none t ts asc.0 of.1)
        (append-nil (rows_of t)),
    later ts asc.0 (filter_groups ts asc.1 of.1),
  )
    where
      later :
          (us : List ℕ)
          → All (λ y. t < y) us
          → All (λ p. filter (λ row. row.0 == p) (flat_map rows_of ts) ≡ rows_of p) us
          → All (λ p. filter (λ row. row.0 == p) (rows_of t ++ flat_map rows_of ts) ≡ rows_of p) us
      later [] above h = tt
      later (u ∷ us) above h = (
        rw (filter-append, filter_other u t (rows_of t) of.0.named (omega arith)) h.0,
        later us above.1 h.1,
      )

  pub map_congr :
      {B : Type 0} (f g : ℕ → B) (ts : List ℕ) → All (λ t. f t ≡ g t) ts → map f ts ≡ map g ts
  map_congr f g [] h = refl
  map_congr f g (t ∷ ts) h = rw (h.0, map_congr f g ts h.1)

  -- Grouping the rows of a page gives back the rows of each of its numbers.
  pub group_by-page :
      (group_by : List (ℕ × V) → List (List (ℕ × V))) (ts : List ℕ)
      → GroupsByKey group_by
      → Ascending ts
      → All (OfKey rows_of) ts
      → group_by (flat_map rows_of ts) ≡ map rows_of ts
  group_by-page group_by ts groups asc of =
      groups (flat_map rows_of ts)
      ∙ ap (map (λ pgc. filter (λ row. row.0 == pgc) (flat_map rows_of ts)))
          (sort_distinct-flat_map ts asc of)
      ∙ map_congr _ rows_of ts (filter_groups ts asc of)
