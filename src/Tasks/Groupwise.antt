-- ===== src/Tasks/Groupwise.antt =====
-- The aggregations of a page and of its groups.
use mathlib.Core.Path.{ap₂}
use db_app.Base.{
  ℕ, ◌≡◌, refl, ap, ◌∙◌, Bool, true, ◌||◌, not, Option, some, List, [], ◌∷◌, ◌++◌, map, arith,
  nat_eq, string_eq, Eq, ◌==◌, contains, filter, filter-append, All, All-filter, All-map, flat_map,
}
use db_app.Containers.Batch.{Ascending}
use db_app.Layer0.{DataType}
use db_app.Tasks.{
  prepend, each_group, vote, majority_vote_by_pgc, is_compilation, has_primary,
  exclude_compilations_with_primary,
}
use db_app.Tasks.Vote.{vote_elects}
use db_app.Tasks.Primary.{pgcs_of, exclude_keeps_pgcs}
use db_app.Tasks.Aggregate.{GroupsByKey, OfKey, group_by-page, filter_groups}
use db_app.Tasks.Catalogs.{
  Quantities, Icrs, Redshift, icrs_of_group, aggregate_icrs, redshift_of_group, aggregate_redshift,
}

-- `aggregate` is `of_group` on each group, and a group gives one row, with its number.
pub record IsGroupwise {B W : Type 0} (aggregate : List (ℕ × B) → Option (List (ℕ × W)))
    (of_group : List (ℕ × B) → Option (ℕ × W)) : Type 1 where
  pub on_page :
      (rows_of : ℕ → List (ℕ × B)) (ts : List ℕ)
      → Ascending ts
      → All (OfKey rows_of) ts
      → aggregate (flat_map rows_of ts) ≡ each_group of_group (map rows_of ts)
  pub on_group :
      (rows_of : ℕ → List (ℕ × B)) (t : ℕ)
      → OfKey rows_of t
      → (w : W) × (of_group (rows_of t) ≡ some (t, w))

pub majority_vote-IsGroupwise :
    {V : Type 0} ⦃e : Eq V⦄ (group_by : List (ℕ × V) → List (List (ℕ × V)))
    → GroupsByKey group_by
    → IsGroupwise (majority_vote_by_pgc group_by) vote
unfolding majority_vote_by_pgc
majority_vote-IsGroupwise group_by groups = record {
  on_page =
      λ rows_of ts asc of. ap (each_group vote) (group_by-page rows_of group_by ts groups asc of);
  on_group = λ rows_of t of.
      let (w, elected, _) = vote_elects of.first of.rest in
      (w, ap vote of.rows ∙ elected ∙ ap (λ pgc. some (pgc, w)) (rw of.rows at of.named).0);
}

module _ {V : Type 0} (rows_of : ℕ → List (ℕ × (V × DataType))) where
  contains-pgcs_group :
      (p : ℕ × (V × DataType) → Bool) (t : ℕ) (rows : List (ℕ × (V × DataType)))
      → contains (pgcs_of (filter p rows)) t
        ≡ contains (pgcs_of (filter p (filter (λ row. row.0 == t) rows))) t
  contains-pgcs_group p t [] = refl
  contains-pgcs_group p t (row ∷ rows) = ground (arith, contains-pgcs_group p t rows)

  filter-flat_map :
      (p : ℕ × (V × DataType) → Bool) (ts : List ℕ)
      → filter p (flat_map rows_of ts) ≡ flat_map (λ t. filter p (rows_of t)) ts
  filter-flat_map p [] = refl
  filter-flat_map p (t ∷ ts) =
      filter-append p (rows_of t) _ ∙ ap (◌++◌ (filter p (rows_of t))) (filter-flat_map p ts)

  filter_exclude :
      (tbl group rows : List (ℕ × (V × DataType))) (t : ℕ)
      → contains (pgcs_of (filter (λ r. not (is_compilation r)) tbl)) t
        ≡ contains (pgcs_of (filter (λ r. not (is_compilation r)) group)) t
      → All (λ row. row.0 ≡ t) rows
      → filter (λ row. not (is_compilation row) || not (has_primary tbl row)) rows
        ≡ filter (λ row. not (is_compilation row) || not (has_primary group row)) rows
  filter_exclude tbl group [] t e h = refl
  filter_exclude tbl group (row ∷ rows) t e h = rw (h.0, e, filter_exclude tbl group rows t e h.1)

  -- Compilations are excluded number by number.
  exclude-page :
      (ts : List ℕ)
      → Ascending ts
      → All (OfKey rows_of) ts
      → exclude_compilations_with_primary (flat_map rows_of ts)
        ≡ flat_map (λ t. exclude_compilations_with_primary (rows_of t)) ts
  unfolding exclude_compilations_with_primary
  exclude-page ts asc of =
      filter-flat_map _ ts ∙ flat_map_congr ts (filter_groups rows_of ts asc of) of
    where
      tbl : List (ℕ × (V × DataType))
      tbl = flat_map rows_of ts

      excluded : ℕ → List (ℕ × (V × DataType))
      excluded t =
          filter (λ row. not (is_compilation row) || not (has_primary (rows_of t) row)) (rows_of t)

      flat_map_congr :
          (us : List ℕ)
          → All (λ p. filter (λ row. row.0 == p) tbl ≡ rows_of p) us
          → All (OfKey rows_of) us
          → flat_map
              (λ t.
                filter (λ row. not (is_compilation row) || not (has_primary tbl row)) (rows_of t))
              us
            ≡ flat_map excluded us
      flat_map_congr [] same keyed = refl
      flat_map_congr (u ∷ us) same keyed =
          ap₂ (◌++◌)
            (filter_exclude tbl (rows_of u) (rows_of u) u
              (contains-pgcs_group (λ r. not (is_compilation r)) u tbl
                ∙ ap (λ rows. contains (pgcs_of (filter (λ r. not (is_compilation r)) rows)) u)
                    same.0)
              keyed.0.named)
            (flat_map_congr us same.1 keyed.1)

  exclude-OfKey :
      (t : ℕ) → OfKey rows_of t → OfKey (λ t. exclude_compilations_with_primary (rows_of t)) t
  unfolding exclude_compilations_with_primary
  exclude-OfKey t of =
      let (first, rest, rows) =
        has_rows (exclude_compilations_with_primary (rows_of t)) t
          (exclude_keeps_pgcs (rows_of t) t ∙ present) in
      record {
        first = first;
        rest = rest;
        rows = rows;
        named = All-filter _ _ (rows_of t) of.named;
      }
    where
      present : contains (pgcs_of (rows_of t)) t ≡ true
      present = rw of.rows (ground (arith, (rw of.rows at of.named).0))

      has_rows :
          (rows : List (ℕ × (V × DataType))) (u : ℕ)
          → contains (pgcs_of rows) u ≡ true
          → (first : ℕ × (V × DataType)) × (rest : List (ℕ × (V × DataType))) × (rows
              ≡ first ∷ rest)
      has_rows [] u h = absurd (cc)
      has_rows (row ∷ rows) u h = (row, rows, refl)

-- An aggregation that excludes compilations and then takes a row from each group.
exclude-IsGroupwise :
    {V W : Type 0} (group_by : List (ℕ × (V × DataType)) → List (List (ℕ × (V × DataType))))
    (of_group : List (ℕ × (V × DataType)) → Option (ℕ × W))
    → GroupsByKey group_by
    → ((row : ℕ × (V × DataType)) (rows : List (ℕ × (V × DataType)))
        → (w : W) × (of_group (row ∷ rows) ≡ some (row.0, w)))
    → IsGroupwise
        (λ tbl. each_group of_group (group_by (exclude_compilations_with_primary tbl)))
        (λ group. of_group (exclude_compilations_with_primary group))
unfolding each_group
exclude-IsGroupwise {V} {W} group_by of_group groups total = record {
  on_page = λ rows_of ts asc of.
      ap (λ tbl. each_group of_group (group_by tbl)) (exclude-page rows_of ts asc of)
      ∙ ap (each_group of_group) (
          group_by-page (λ t. exclude_compilations_with_primary (rows_of t)) group_by ts groups asc
            (All-map _ _ (λ t k. exclude-OfKey rows_of t k) ts of))
      ∙ each_group-map of_group (λ t. rows_of t) ts;
  on_group = λ rows_of t of.
      let kept = exclude-OfKey rows_of t of in
      let (w, e) = total kept.first kept.rest in
      (w, ap of_group kept.rows ∙ e ∙ ap (λ pgc. some (pgc, w)) (rw kept.rows at kept.named).0);
}
  where
    each_group-map :
        (f : List (ℕ × (V × DataType)) → Option (ℕ × W)) (rows_of : ℕ → List (ℕ × (V × DataType)))
        (ts : List ℕ)
        → each_group f (map (λ t. exclude_compilations_with_primary (rows_of t)) ts)
          ≡ each_group (λ group. f (exclude_compilations_with_primary group)) (map rows_of ts)
    each_group-map f rows_of [] = refl
    each_group-map f rows_of (t ∷ ts) =
        ap (prepend (f (exclude_compilations_with_primary (rows_of t))))
          (each_group-map f rows_of ts)

module _ (quantities : Quantities) where
  pub aggregate_icrs-IsGroupwise :
      (group_by : List (ℕ × (Icrs quantities.Q × DataType))
        → List (List (ℕ × (Icrs quantities.Q × DataType))))
      → GroupsByKey group_by
      → IsGroupwise
          (aggregate_icrs quantities group_by)
          (λ group. icrs_of_group quantities (exclude_compilations_with_primary group))
  unfolding aggregate_icrs
  aggregate_icrs-IsGroupwise group_by groups =
      exclude-IsGroupwise group_by (icrs_of_group quantities) groups (λ row rows. (_, refl))

  pub aggregate_redshift-IsGroupwise :
      (group_by : List (ℕ × (Redshift quantities.Q × DataType))
        → List (List (ℕ × (Redshift quantities.Q × DataType))))
      → GroupsByKey group_by
      → IsGroupwise
          (aggregate_redshift quantities group_by)
          (λ group. redshift_of_group quantities (exclude_compilations_with_primary group))
  unfolding aggregate_redshift
  aggregate_redshift-IsGroupwise group_by groups =
      exclude-IsGroupwise group_by (redshift_of_group quantities) groups (λ row rows. (_, refl))
