-- ===== src/Upload/Columns.antt =====
-- The columns of a request.
use db_app.Base.{
  String, ◌≡◌, refl, Bool, true, false, ◌&&◌, not, Option, List, [], ◌∷◌, map, arith, nat_eq,
  string_eq, ◌==◌, is_some, or_else, any, Bool-cases, Option-cases, inl, inr,
}
use db_app.Tables.{
  internal_id_column, Error, reserved, unknown_type, invalid_ucd, failed, ok, ColumnDescription,
}
use db_app.Upload.{
  ColumnRequest, data_type_of, requested_unit, requested_description, requested_column,
  requested_columns, check_names,
}

abbrev pub is_reserved : ColumnRequest → Bool
is_reserved col = col.name == internal_id_column

pub check_names-reserved :
    (columns : List ColumnRequest)
    → any is_reserved columns ≡ true
    → (e : Error) × (check_names columns ≡ failed e)
unfolding check_names
check_names-reserved [] h = absurd (cc h)
check_names-reserved (col ∷ columns) h = elim (Bool-cases (col.name == internal_id_column)) [
  | inl same ↦ (reserved col.name, rw same refl)
  | inr other ↦
      let (e, refused) = check_names-reserved columns (ground (arith, h)) in (e, rw other refused)
]

pub check_names-ok :
    (columns : List ColumnRequest) → any is_reserved columns ≡ false → check_names columns ≡ ok tt
unfolding check_names
check_names-ok [] h = refl
check_names-ok (col ∷ columns) h = ground (arith, check_names-ok columns)

module _ (check_ucd : Option String → Bool) where
  -- The type is known, and so is the UCD.
  unfoldable pub is_valid : ColumnRequest → Bool
  unfolding data_type_of
  is_valid col = is_some (data_type_of col.data_type) && check_ucd col.ucd

module _ {U : Type 0} (parse : String → Option U) where
  -- the column that a valid request describes
  abbrev pub described : ColumnRequest → ColumnDescription U
  described col = record {
    name = col.name;
    data_type = or_else (data_type_of col.data_type) "";
    is_primary_key = false;
    unit = requested_unit parse col.unit;
    description = requested_description parse col;
    ucd = col.ucd;
  }

module _ {U : Type 0} (parse : String → Option U) (check_ucd : Option String → Bool) where
  requested_column-valid :
      (col : ColumnRequest)
      → is_valid check_ucd col ≡ true
      → requested_column parse check_ucd col ≡ ok (described parse col)
  unfolding requested_column is_valid
  requested_column-valid col h = elim (Option-cases (data_type_of col.data_type)) [
    | inl unknown ↦ absurd (ground (arith, unknown, h))
    | inr (data_type, known) ↦ ground (arith, known, h)
  ]

  requested_column-invalid :
      (col : ColumnRequest)
      → is_valid check_ucd col ≡ false
      → (e : Error) × (requested_column parse check_ucd col ≡ failed e)
  unfolding requested_column is_valid
  requested_column-invalid col h = elim (Option-cases (data_type_of col.data_type)) [
    | inl unknown ↦ (unknown_type col.data_type, rw (unknown, requested_column) refl)
    | inr (data_type, known) ↦ (invalid_ucd, ground (arith, known, h))
  ]

  pub requested_columns-valid :
      (columns : List ColumnRequest)
      → any (λ col. not (is_valid check_ucd col)) columns ≡ false
      → requested_columns parse check_ucd columns ≡ ok (map (described parse) columns)
  unfolding requested_columns
  requested_columns-valid [] h = refl
  requested_columns-valid (col ∷ columns) h =
      rw
        (
          requested_column-valid col (ground (arith, h)),
          requested_columns-valid columns (ground (arith, h)),
        )
        refl

  pub requested_columns-invalid :
      (columns : List ColumnRequest)
      → any (λ col. not (is_valid check_ucd col)) columns ≡ true
      → (e : Error) × (requested_columns parse check_ucd columns ≡ failed e)
  unfolding requested_columns
  requested_columns-invalid [] h = absurd (cc h)
  requested_columns-invalid (col ∷ columns) h = elim (Bool-cases (is_valid check_ucd col)) [
    | inl good ↦
        let (e, refused) = requested_columns-invalid columns (ground (arith, h, good)) in
        (e, rw (requested_column-valid col good, refused) refl)
    | inr bad ↦ let (e, refused) = requested_column-invalid col bad in (e, rw refused refl)
  ]
