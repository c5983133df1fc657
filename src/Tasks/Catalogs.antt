-- ===== src/Tasks/Catalogs.antt =====
-- The import tasks of the four catalogs (layer2_import_designation.py, layer2_import_nature.py,
-- layer2_import_icrs.py, layer2_import_redshift.py): their aggregations, and `run` with them.
-- Arithmetic of astropy's quantities is a parameter.
use db_app.Base.{ℕ, String, Option, none, some, List, [], ◌∷◌, map, string_eq}
use db_app.Layer0.{Db, DataType}
use db_app.Layer1.{no_join, join_table}
use db_app.Tasks.{
  each_group, majority_vote_by_pgc, exclude_compilations_with_primary, Options, Layer2, run_import,
}

-- `1.0 / e ** 2`, `*`, `np.sum`, `/` and `w ** (-0.5)` on quantities
pub record Quantities : Type 1 where
  pub Q : Type 0
  pub weight : Q → Q
  pub times : Q → Q → Q
  pub total : List Q → Q
  pub over : Q → Q → Q
  pub inverse_root : Q → Q

pub record Icrs (Q : Type 0) : Type 0 where
  pub ra : Q
  pub e_ra : Q
  pub dec : Q
  pub e_dec : Q

pub record Redshift (Q : Type 0) : Type 0 where
  pub cz : Q
  pub e_cz : Q

abbrev pub Grouping : Type 0 → Type 0
Grouping V = List (ℕ × V) → List (List (ℕ × V))

unfoldable pub aggregate_designation :
    Grouping String → List (ℕ × String) → Option (List (ℕ × String))
aggregate_designation group_by tbl = majority_vote_by_pgc group_by tbl

unfoldable pub aggregate_nature : Grouping String → List (ℕ × String) → Option (List (ℕ × String))
aggregate_nature group_by tbl = majority_vote_by_pgc group_by tbl

module _ (quantities : Quantities) where
  open quantities use {Q, weight, times, total, over, inverse_root}

  -- `sums["x_w"] / sums["w_x"]` and `sums["w_x"] ** (-0.5)` of one group
  abbrev pub weighted_mean : List (Q × Q) → Q
  weighted_mean values =
      over (total (map (λ v. times v.0 (weight v.1)) values)) (total (map (λ v. weight v.1) values))

  abbrev pub mean_error : List (Q × Q) → Q
  mean_error values = inverse_root (total (map (λ v. weight v.1) values))

  unfoldable pub icrs_of_group : List (ℕ × (Icrs Q × DataType)) → Option (ℕ × Icrs Q)
  icrs_of_group [] = none
  icrs_of_group (row ∷ rows) =
      let group = row ∷ rows in
      let ras = map (λ r. (r.1.0.ra, r.1.0.e_ra)) group in
      let decs = map (λ r. (r.1.0.dec, r.1.0.e_dec)) group in
      some (
        row.0,
        record {
          ra = weighted_mean ras;
          e_ra = mean_error ras;
          dec = weighted_mean decs;
          e_dec = mean_error decs;
        },
      )

  unfoldable pub aggregate_icrs :
      Grouping (Icrs Q × DataType) → List (ℕ × (Icrs Q × DataType)) → Option (List (ℕ × Icrs Q))
  unfolding each_group exclude_compilations_with_primary icrs_of_group
  aggregate_icrs group_by tbl =
      each_group icrs_of_group (group_by (exclude_compilations_with_primary tbl))

  unfoldable pub redshift_of_group : List (ℕ × (Redshift Q × DataType)) → Option (ℕ × Redshift Q)
  redshift_of_group [] = none
  redshift_of_group (row ∷ rows) =
      let values = map (λ r. (r.1.0.cz, r.1.0.e_cz)) (row ∷ rows) in
      some (row.0, record { cz = weighted_mean values; e_cz = mean_error values })

  unfoldable pub aggregate_redshift :
      Grouping (Redshift Q × DataType)
      → List (ℕ × (Redshift Q × DataType))
      → Option (List (ℕ × Redshift Q))
  unfolding each_group exclude_compilations_with_primary redshift_of_group
  aggregate_redshift group_by tbl =
      each_group redshift_of_group (group_by (exclude_compilations_with_primary tbl))

-- `run` of each task. Text columns have no unit, so `save` converts nothing.
module _ (fuel : ℕ) (options : Options) (db : Db) where
  unfoldable pub run_designation :
      Grouping String → List (String × String) → Layer2 String → Option (Layer2 String × ℕ × ℕ)
  unfolding run_import aggregate_designation majority_vote_by_pgc
  run_designation group_by layer1_table layer2 =
      run_import no_join (aggregate_designation group_by) (λ w. w) fuel options db layer1_table
        layer2

  unfoldable pub run_nature :
      Grouping String → List (String × String) → Layer2 String → Option (Layer2 String × ℕ × ℕ)
  unfolding run_import aggregate_nature majority_vote_by_pgc
  run_nature group_by layer1_table layer2 =
      run_import no_join (aggregate_nature group_by) (λ w. w) fuel options db layer1_table layer2

  module _ (quantities : Quantities) where
    unfoldable pub run_icrs :
        Grouping (Icrs quantities.Q × DataType)
        → (Icrs quantities.Q → Icrs quantities.Q)
        → List (String × Icrs quantities.Q)
        → Layer2 (Icrs quantities.Q)
        → Option (Layer2 (Icrs quantities.Q) × ℕ × ℕ)
    unfolding run_import aggregate_icrs
    run_icrs group_by convert layer1_table layer2 =
        run_import join_table (aggregate_icrs quantities group_by) convert fuel options db
          layer1_table layer2

    unfoldable pub run_redshift :
        Grouping (Redshift quantities.Q × DataType)
        → (Redshift quantities.Q → Redshift quantities.Q)
        → List (String × Redshift quantities.Q)
        → Layer2 (Redshift quantities.Q)
        → Option (Layer2 (Redshift quantities.Q) × ℕ × ℕ)
    unfolding run_import aggregate_redshift
    run_redshift group_by convert layer1_table layer2 =
        run_import join_table (aggregate_redshift quantities group_by) convert fuel options db
          layer1_table layer2
