-- ===== src/Upload/Changed.antt =====
-- A change of a table's metadata, and the metadata that is read then.
use mathlib.Core.Option
use db_app.Base.{
  Bool, any, ◌||◌, if◌then◌else◌, ℕ, String, ◌≡◌, refl, sym, ap, subst, ◌∙◌, true, false, Option,
  none, some, List, [], ◌∷◌, map, arith, Dict, nat_eq, string_eq, ◌==◌, ==_comm, is_some, keys,
  lookup, contains, eq_of_beq, All, Bool-cases, inl, inr,
}
use db_app.Layer0.Records.{has_duplicates}
use db_app.Tables.{Result, ok, MetaStore, Units, ColumnDescription, Item, State, dated}
use db_app.Tables.Described.{shown}
use db_app.Tables.Kept.{
  rest_of, IsTable, Keeps, Keeps-trans, change_absent, written, Keeps-refl, find, names_of, change,
  names_of-change, find-change_other,
}
use db_app.Tables.Patched.{update_column_metadata-IsTable}
use db_app.Upload.Manager.{PatchColumnSpec, is_change, by_name, patch_column, patch_columns}
use db_app.Upload.Patched.{
  patch, patch_all, is_unit, AreKnown, patch_all-cons, patched-patch, HasKeys-patch,
}

map-id {ℓ} : {A : Type ℓ} (xs : List A) → map (λ x. x) xs ≡ xs
map-id [] = refl
map-id (x ∷ xs) = ap (λ ys. x ∷ ys) (map-id xs)

module _ {U : Type 0} where
  find-contains :
      (name : String) (cols : List (ColumnDescription U))
      → contains (names_of cols) name ≡ true
      → (c : ColumnDescription U) × (find name cols ≡ some c) × (c.name ≡ name)
  find-contains name [] h = absurd (cc h)
  find-contains name (c ∷ cols) h = elim (Bool-cases (c.name == name)) [
    | inl same ↦ (c, rw same refl, eq_of_beq c.name name same)
    | inr other ↦
        let (d, found, named) = find-contains name cols (ground (arith, ==_comm name c.name)) in
        (d, rw other found, named)
  ]

  change_self :
      (c : ColumnDescription U) (name : String) (cols : List (ColumnDescription U))
      → has_duplicates (names_of cols) ≡ false
      → find name cols ≡ some c
      → change name c cols ≡ cols
  change_self c name [] distinct found = refl
  change_self c name (head ∷ cols) distinct found = elim (Bool-cases (head.name == name)) [
    | inl same ↦
        let is_head : some head ≡ some c = rw same at found in
        let absent : contains (names_of cols) name ≡ false =
          rw (sym (eq_of_beq head.name name same)) (ground (arith, distinct)) in
        rw (same, change_absent name c cols absent)
          (ap (λ o. elim o [ none ↦ [] | some k ↦ written k head ∷ cols ]) (sym is_head))
    | inr other ↦ rw other (
        ap (λ rest. head ∷ rest)
          (change_self c name cols (ground (arith, distinct)) (rw other at found)))
  ]

  pub lookup-by_name :
      (name : String) (cols : List (ColumnDescription U))
      → lookup name (by_name (map shown cols)) ≡ Option.map shown (find name cols)
  lookup-by_name name [] = refl
  lookup-by_name name (c ∷ cols) = ground (arith, lookup-by_name name cols)

module _ {U : Type 0} (units : Units U) where
  patch_none :
      (spec : PatchColumnSpec) (c : ColumnDescription U)
      → is_change spec ≡ false
      → patch units spec c ≡ c
  patch_none spec c h =
      let no_ucd : spec.ucd ≡ none = nothing spec.ucd (ground (arith, h)) in
      let no_unit : spec.unit ≡ none = nothing spec.unit (ground (arith, h)) in
      let no_description : spec.description ≡ none = nothing spec.description (ground (arith, h)) in
      rw (no_ucd, no_unit, no_description) refl
    where
      nothing : {A : Type 0} → (o : Option A) → is_some o ≡ false → o ≡ none
      nothing none e = refl
      nothing (some a) e = absurd (cc e)

module _ {U : Type 0} where
  -- The specifications still to come are of columns that have not changed.
  abbrev pub Pending :
      Dict String (ColumnDescription U)
      → List (ColumnDescription U)
      → Dict String PatchColumnSpec
      → Type 0
  Pending originals cols = All (λ e. lookup e.0 originals ≡ Option.map shown (find e.0 cols))

  Pending-change :
      (originals : Dict String (ColumnDescription U)) (cols : List (ColumnDescription U))
      (name : String) (new : ColumnDescription U) (specs : Dict String PatchColumnSpec)
      → contains (keys specs) name ≡ false
      → Pending originals cols specs
      → Pending originals (change name new cols) specs
  Pending-change originals cols name new [] fresh h = tt
  Pending-change originals cols name new ((other, spec) ∷ specs) fresh h = (
    h.0
        ∙ ap (Option.map shown)
            (sym (find-change_other name other new cols (ground (arith, ==_comm name other)))),
    Pending-change originals cols name new specs (ground arith) h.1,
  )

module _ {U : Type 0} (units : Units U) where
  AreKnown-change :
      (cols : List (ColumnDescription U)) (name : String) (new : ColumnDescription U)
      (specs : Dict String PatchColumnSpec)
      → AreKnown units cols specs
      → AreKnown units (change name new cols) specs
  AreKnown-change cols name new [] h = tt
  AreKnown-change cols name new ((other, spec) ∷ specs) h = (
    (ap (λ names. contains names other) (names_of-change name new cols) ∙ h.0.0, h.0.1),
    AreKnown-change cols name new specs h.1,
  )

module _ {V U : Type 0} (units : Units U) where
  -- What a step leaves of a table that was last changed at `time`: its row, with another date if it
  -- is a change, and these columns.
  abbrev pub Leaves :
      String
      → Item
      → List (ColumnDescription U)
      → Option String
      → Dict String (Dict String V)
      → State V
      → ℕ
      → Bool
      → Result (State V)
      → Type 0
  Leaves t item cols description rows db time did result =
      (changed : State V) × (result ≡ ok changed)
      × Keeps t item.id db changed
      × IsTable units t (dated (if did then db.now else time) item) cols description rows changed

pub same_now :
    {V : Type 0} (db changed : State V) → rest_of changed ≡ rest_of db → changed.now ≡ db.now
same_now db changed same = ap (λ rest. rest.3) same

-- The date after two steps is that of the last change.
pub latest :
    (now later time : ℕ) (a b : Bool)
    → later ≡ now
    → (if b then later else (if a then now else time)) ≡ (if a || b then now else time)
latest now later time true true same = same
latest now later time true false same = refl
latest now later time false true same = same
latest now later time false false same = refl

module _ {V U : Type 0} (meta : MetaStore) (units : Units U) where
  patch_column-Leaves :
      (t : String) (item : Item) (cols : List (ColumnDescription U)) (description : Option String)
      (rows : Dict String (Dict String V)) (db : State V) (time : ℕ)
      (originals : Dict String (ColumnDescription U)) (spec : PatchColumnSpec)
      (c : ColumnDescription U)
      → IsTable units t (dated time item) cols description rows db
      → has_duplicates (names_of cols) ≡ false
      → lookup c.name originals ≡ some (shown c)
      → find c.name cols ≡ some c
      → is_unit units spec.unit ≡ true
      → Leaves units t item
          (change c.name (patch units spec c) cols)
          description
          rows
          db
          time
          (is_change spec)
          (patch_column meta units t originals c.name spec db)
  unfolding patch_column
  patch_column-Leaves t item cols description rows db time originals spec c h distinct original
        found unit =
      elim (Bool-cases (is_change spec)) [
        | inl some_change ↦
            let (changed, e, kept, k) =
              update_column_metadata-IsTable meta units t (dated time item) cols description rows db
                (shown (patch units spec c)) c h distinct found refl
                (HasKeys-patch units spec c unit) in
            (
              changed,
              ground (arith, original, patched-patch units spec c unit, some_change, e),
              kept,
              rw some_change k,
            )
        | inr no_change ↦ (
          db,
          ground (arith, original, patched-patch units spec c unit, no_change),
          Keeps-refl t item.id db,
          rw no_change (
              subst (λ left. IsTable units t (dated time item) left description rows db)
                (sym (
                  ap (λ n. change c.name n cols) (patch_none units spec c no_change)
                  ∙ change_self c c.name cols distinct found))
                h),
        )
      ]

  pub patch_columns-Leaves :
      (t : String) (item : Item) (cols : List (ColumnDescription U)) (description : Option String)
      (rows : Dict String (Dict String V)) (db : State V) (time : ℕ)
      (originals : Dict String (ColumnDescription U)) (specs : Dict String PatchColumnSpec)
      → IsTable units t (dated time item) cols description rows db
      → has_duplicates (names_of cols) ≡ false
      → has_duplicates (keys specs) ≡ false
      → AreKnown units cols specs
      → Pending originals cols specs
      → Leaves units t item
          (patch_all units specs cols)
          description
          rows
          db
          time
          (any (λ e. is_change e.1) specs)
          (patch_columns meta units t originals specs db)
  unfolding patch_columns
  patch_columns-Leaves t item cols description rows db time originals [] h distinct once known
        pending =
      (db, refl, Keeps-refl t item.id db, rw (map-id cols) h)
  patch_columns-Leaves t item cols description rows db time originals ((name, spec) ∷ specs) h
        distinct once known pending =
      let (c, found, named) = find-contains name cols known.0.0 in
      let fresh : contains (keys specs) name ≡ false = ground (arith, once) in
      let (changed, e, kept, k) =
        subst
          (λ n.
            Leaves units t item (change n (patch units spec c) cols) description rows db time
              (is_change spec) (patch_column meta units t originals n spec db))
          named
          (patch_column-Leaves t item cols description rows db time originals spec c h distinct
            (ap (λ n. lookup n originals) named ∙ pending.0 ∙ ap (Option.map shown) found)
            (ap (λ n. find n cols) named ∙ found) known.0.1) in
      let first = if is_change spec then db.now else time in
      let (final, e', kept', l) =
        patch_columns-Leaves t item (change name (patch units spec c) cols) description rows changed
          first originals specs k
          (ap has_duplicates (names_of-change name (patch units spec c) cols) ∙ distinct)
          (ground (arith, once))
          (AreKnown-change units cols name (patch units spec c) specs known.1)
          (Pending-change originals cols name (patch units spec c) specs fresh pending.1) in
      (
        final,
        rw e e',
        Keeps-trans t item.id db changed final kept kept',
        subst
            (λ (at : ℕ).
              IsTable units t (dated at item) (patch_all units ((name, spec) ∷ specs) cols)
                description rows final)
            (latest db.now changed.now time (is_change spec) (any (λ e. is_change e.1) specs)
              (same_now db changed kept.same_rest))
            (subst
              (λ left.
                IsTable units t
                  (dated (if any (λ e. is_change e.1) specs then changed.now else first) item) left
                  description rows final)
              (patch_all-cons units name spec specs c cols fresh found distinct) l),
      )
