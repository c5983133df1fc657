-- ===== src/Upload/Patched.antt =====
-- What a change of a table's metadata does.
use mathlib.Core.Option
use mathlib.Core.Path.{ap₂}
use db_app.Base.{
  String, ◌≡◌, refl, sym, ap, ◌∙◌, Bool, true, false, Option, none, some, List, [], ◌∷◌, map, arith,
  Dict, nat_eq, string_eq, ◌==◌, ==_comm, is_some, keys, lookup, contains, eq_of_beq, All,
  Bool-cases, Option-cases, inl, inr,
}
use db_app.Layer0.Records.{has_duplicates}
use db_app.Tables.{ok, Units, ColumnDescription, HasKeys, implies}
use db_app.Tables.Registry.{column_params}
use db_app.Tables.Described.{shown}
use db_app.Tables.Kept.{written, find, names_of, change, change_absent}
use db_app.Upload.Manager.{PatchColumnSpec, or_old, patched}

module _ {U : Type 0} (units : Units U) where
  open units use {parse, to_string}

  -- the unit that a specification sets
  abbrev pub unit_after : Option String → Option U → Option U
  unit_after none old = old
  unit_after (some text) old = parse text

  abbrev pub patch : PatchColumnSpec → ColumnDescription U → ColumnDescription U
  patch spec c = record c {
    ucd = or_old spec.ucd c.ucd;
    unit = unit_after spec.unit c.unit;
    description = or_old spec.description c.description;
  }

  abbrev pub patch_by : Option PatchColumnSpec → ColumnDescription U → ColumnDescription U
  patch_by none c = c
  patch_by (some spec) c = patch spec c

  -- every column with the changes that the request has for it
  abbrev pub patch_all :
      Dict String PatchColumnSpec → List (ColumnDescription U) → List (ColumnDescription U)
  patch_all specs = map (λ c. patch_by (lookup c.name specs) c)

  abbrev pub is_unit : Option String → Bool
  is_unit none = true
  is_unit (some text) = is_some (parse text)

  -- The specifications are of columns that are there, and their units are known.
  abbrev pub AreKnown : List (ColumnDescription U) → Dict String PatchColumnSpec → Type 0
  AreKnown cols = All (λ e. (contains (names_of cols) e.0 ≡ true) × (is_unit e.1.unit ≡ true))

  lookup_absent :
      (name : String) (specs : Dict String PatchColumnSpec)
      → contains (keys specs) name ≡ false
      → lookup name specs ≡ none
  lookup_absent name [] h = refl
  lookup_absent name ((other, spec) ∷ specs) h =
      ground (arith, ==_comm name other, lookup_absent name specs)

  patch_all_absent :
      (name : String) (spec : PatchColumnSpec) (specs : Dict String PatchColumnSpec)
      (cols : List (ColumnDescription U))
      → contains (names_of cols) name ≡ false
      → patch_all specs cols ≡ patch_all ((name, spec) ∷ specs) cols
  patch_all_absent name spec specs [] h = refl
  patch_all_absent name spec specs (c ∷ cols) h =
      ground (arith, patch_all_absent name spec specs cols)

  pub patch_all-cons :
      (name : String) (spec : PatchColumnSpec) (specs : Dict String PatchColumnSpec)
      (c : ColumnDescription U) (cols : List (ColumnDescription U))
      → contains (keys specs) name ≡ false
      → find name cols ≡ some c
      → has_duplicates (names_of cols) ≡ false
      → patch_all specs (change name (patch spec c) cols) ≡ patch_all ((name, spec) ∷ specs) cols
  patch_all-cons name spec specs c [] fresh found distinct = refl
  patch_all-cons name spec specs c (head ∷ cols) fresh found distinct =
      elim (Bool-cases (head.name == name)) [
        | inl same ↦
            let is_c : some head ≡ some c = rw same at found in
            let named : head.name ≡ name = eq_of_beq head.name name same in
            let absent : contains (names_of cols) name ≡ false =
              rw (sym named) (ground (arith, distinct)) in
            let unpatched : lookup head.name specs ≡ none =
              ap (λ n. lookup n specs) named ∙ lookup_absent name specs fresh in
            rw
              (
                same,
                ==_comm name head.name,
                same,
                unpatched,
                change_absent name (patch spec c) cols absent,
              )
              (ap₂ (λ h t. h ∷ t)
                (ap (λ o. elim o [ none ↦ head | some k ↦ written (patch spec k) head ]) (sym is_c))
                (patch_all_absent name spec specs cols absent))
        | inr other ↦
            rw (other, ==_comm name head.name, other)
              (ap (λ t. patch_by (lookup head.name specs) head ∷ t)
                (patch_all-cons name spec specs c cols fresh (rw other at found)
                  (ground (arith, distinct))))
      ]

  unit_stays :
      (text : Option String) (old : Option U)
      → is_unit text ≡ true
      → implies
          (is_some (Option.map to_string old))
          (is_some (Option.map to_string (unit_after text old)))
        ≡ true
  unit_stays none none h = refl
  unit_stays none (some unit) h = refl
  unit_stays (some text) old h = elim (Option-cases (parse text)) [
    | inl unknown ↦ absurd (ground (arith, h, unknown))
    | inr (unit, known) ↦ ground (arith, known)
  ]

  ucd_stays : (new old : Option String) → implies (is_some old) (is_some (or_old new old)) ≡ true
  ucd_stays none old = ground arith
  ucd_stays (some ucd) old = ground arith

  pub patched-patch :
      (spec : PatchColumnSpec) (c : ColumnDescription U)
      → is_unit spec.unit ≡ true
      → patched units spec (shown c) ≡ ok (shown (patch spec c))
  patched-patch spec c h = elim (Option-cases spec.unit) [
    | inl unit ↦ ground (arith, unit)
    | inr (text, unit) ↦ ground (arith, unit, h)
  ]

  pub HasKeys-patch :
      (spec : PatchColumnSpec) (c : ColumnDescription U)
      → is_unit spec.unit ≡ true
      → HasKeys (column_params units c) (column_params units (shown (patch spec c)))
  HasKeys-patch spec c h = (unit_stays spec.unit c.unit h, ucd_stays spec.ucd c.ucd)
