-- ===== src/Layer1/ByRecord.antt =====
-- The queries of layer 1 by record (app/data/repositories/layer1.py, `get_designation_records` and
-- the three others), over the rows of a table in the order in which the statement returns them. `R`
-- are the real numbers.
use mathlib.Core.Option
use db_app.Base.{
  String, ◌≡◌, refl, ap, ◌∙◌, true, Option, none, some, List, [], ◌∷◌, map, Dict, string_eq, ◌==◌,
  eq_of_beq, or_else, lookup, lookup-insert, update, contains, filter, All, All-of_contains,
  Bool-cases, inl, inr, if◌then◌else◌,
}

pub record DesignationRecord : Type 0 where
  pub design : String

pub record NatureRecord : Type 0 where
  pub type_name : String

module _ (R : Type 0) where
  pub record IcrsRecord : Type 0 where
    pub ra : R
    pub e_ra : R
    pub dec : R
    pub e_dec : R

  pub record RedshiftRecord : Type 0 where
    pub cz : R
    pub e_cz : R

  -- A row of `cz.data`, whose error can be NULL.
  pub record RedshiftRow : Type 0 where
    pub cz : R
    pub e_cz : Option R

  pub record Layer1Tables : Type 0 where
    pub designation : List (String × String)
    pub icrs : List (String × IcrsRecord)
    pub cz : List (String × RedshiftRow)
    pub nature : List (String × String)

module _ {A B : Type 0} (convert : A → B) where
  abbrev pub converted : String × A → String × B
  converted row = (row.0, convert row.1)

  -- `WHERE record_id = ANY(record_ids)`, then `[by_id.get(rid) for rid in record_ids]`
  unfoldable pub records_by_id : List String → List (String × A) → List (Option B)
  records_by_id [] rows = []
  records_by_id (first ∷ record_ids) rows =
      let wanted = filter (λ row. contains (first ∷ record_ids) row.0) rows in
      map (λ rid. lookup rid (update [] (map converted wanted))) (first ∷ record_ids)

module _ {R : Type 0} where
  unfoldable pub get_designation_records :
      List String → Layer1Tables R → List (Option DesignationRecord)
  unfolding records_by_id
  get_designation_records record_ids tables =
      records_by_id (λ design. record { design = design }) record_ids tables.designation

  unfoldable pub get_icrs_records : List String → Layer1Tables R → List (Option (IcrsRecord R))
  unfolding records_by_id
  get_icrs_records record_ids tables = records_by_id (λ row. row) record_ids tables.icrs

  abbrev pub redshift_of : R → RedshiftRow R → RedshiftRecord R
  redshift_of default_e_cz row = record { cz = row.cz; e_cz = or_else row.e_cz default_e_cz }

  -- with the default error in the unit of the column
  unfoldable pub get_redshift_records :
      R → List String → Layer1Tables R → List (Option (RedshiftRecord R))
  unfolding records_by_id
  get_redshift_records default_e_cz record_ids tables =
      records_by_id (redshift_of default_e_cz) record_ids tables.cz

  unfoldable pub get_nature_records : List String → Layer1Tables R → List (Option NatureRecord)
  unfolding records_by_id
  get_nature_records record_ids tables =
      records_by_id (λ type_name. record { type_name = type_name }) record_ids tables.nature

-- the last of the rows of a record
abbrev pub last_of : {A : Type 0} → String → List (String × A) → Option A → Option A
last_of id [] found = found
last_of id ((other, row) ∷ rows) found = last_of id rows (if other == id then some row else found)

module _ {A B : Type 0} (convert : A → B) where
  update-converted :
      (record_ids : List String) (id : String) (rows : List (String × A)) (d : Dict String B)
      (found : Option A)
      → contains record_ids id ≡ true
      → lookup id d ≡ Option.map convert found
      → lookup id
          (update d (map (converted convert) (filter (λ row. contains record_ids row.0) rows)))
        ≡ Option.map convert (last_of id rows found)
  update-converted record_ids id [] d found h same = same
  update-converted record_ids id ((other, row) ∷ rows) d found h same =
      elim (Bool-cases (other == id)) [
        | inl this ↦
            let wanted : contains record_ids other ≡ true =
              ap (contains record_ids) (eq_of_beq other id this) ∙ h in
            rw (wanted, this)
              (update-converted record_ids id rows _ (some row) h
                (lookup-insert other id (convert row) d ∙ rw this refl))
        | inr different ↦ elim (Bool-cases (contains record_ids other)) [
          | inl wanted ↦
              rw (wanted, different)
                (update-converted record_ids id rows _ found h
                  (lookup-insert other id (convert row) d ∙ rw different same))
          | inr unwanted ↦
              rw (unwanted, different) (update-converted record_ids id rows d found h same)
        ]
      ]

  map_All :
      {C : Type 0} (f g : String → C) (ids : List String)
      → All (λ id. f id ≡ g id) ids
      → map f ids ≡ map g ids
  map_All f g [] h = refl
  map_All f g (id ∷ ids) h = rw (h.0, map_All f g ids h.1) refl

  -- Every record of the list has the last of its rows.
  pub records_by_id-last_of :
      (record_ids : List String) (rows : List (String × A))
      → records_by_id convert record_ids rows
        ≡ map (λ id. Option.map convert (last_of id rows none)) record_ids
  unfolding records_by_id
  records_by_id-last_of [] rows = refl
  records_by_id-last_of (first ∷ record_ids) rows = map_All _ _ (first ∷ record_ids) (
      All-of_contains _ (first ∷ record_ids)
        (λ id there. update-converted (first ∷ record_ids) id rows [] none there refl))
