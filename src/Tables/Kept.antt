-- ===== src/Tables/Kept.antt =====
-- The tables that an operation keeps, and a column of a table with its metadata.
use mathlib.Core.Option
use db_app.Base.{
  Bool, lookup-insert, Option-cases, ℕ, String, ◌≡◌, refl, sym, ap, ◌∙◌, false, Option, none, some,
  List, [], ◌∷◌, map, arith, Dict, nat_eq, string_eq, ◌==◌, ==_comm, eq_of_beq, is_some,
  is_some-lookup, keys-insert_old, keys, lookup, insert, contains, if◌then◌else◌, Bool-cases, inl,
  inr,
}
use db_app.Layer0.Records.{has_duplicates}
use db_app.Tables.{
  Bibliography, Units, ColumnDescription, Item, RawTable, State, update_items, dated,
  update_registry,
}
use db_app.Tables.Described.{filled, lookup-update_items}

module _ {U : Type 0} where
  abbrev pub find : String → List (ColumnDescription U) → Option (ColumnDescription U)
  find name [] = none
  find name (c ∷ cols) = let rest = find name cols in if c.name == name then some c else rest

  abbrev pub names_of : List (ColumnDescription U) → List String
  names_of = map (λ c. c.name)

  -- `c` with the metadata of `new`
  abbrev pub written : ColumnDescription U → ColumnDescription U → ColumnDescription U
  written new c = record c { unit = new.unit; description = new.description; ucd = new.ucd }

  abbrev pub change :
      String → ColumnDescription U → List (ColumnDescription U) → List (ColumnDescription U)
  change name new = map (λ c. if c.name == name then written new c else c)

  pub change_absent :
      (name : String) (new : ColumnDescription U) (cols : List (ColumnDescription U))
      → contains (names_of cols) name ≡ false
      → change name new cols ≡ cols
  change_absent name new [] h = refl
  change_absent name new (c ∷ cols) h =
      ground (arith, ==_comm name c.name, change_absent name new cols)

  pub names_of-change :
      (name : String) (new : ColumnDescription U) (cols : List (ColumnDescription U))
      → names_of (change name new cols) ≡ names_of cols
  names_of-change name new [] = refl
  names_of-change name new (c ∷ cols) = ground (arith, names_of-change name new cols)

  pub find-change_other :
      (name other : String) (new : ColumnDescription U) (cols : List (ColumnDescription U))
      → (other == name) ≡ false
      → find other (change name new cols) ≡ find other cols
  find-change_other name other new [] h = refl
  find-change_other name other new (c ∷ cols) h = ground (
    arith,
    string_eq.test_iff c.name name,
    string_eq.test_iff c.name other,
    string_eq.test_iff other name,
    find-change_other name other new cols h,
  )

module _ {U : Type 0} (units : Units U) where
  pub lookup-filled :
      (name : String) (cols : List (ColumnDescription U))
      → lookup name (map (filled units) cols)
        ≡ Option.map (λ c. (filled units c).1) (find name cols)
  lookup-filled name [] = refl
  lookup-filled name (c ∷ cols) = ground (arith, lookup-filled name cols)

  pub insert-filled :
      (name : String) (new c : ColumnDescription U) (cols : List (ColumnDescription U))
      → has_duplicates (names_of cols) ≡ false
      → find name cols ≡ some c
      → insert name (filled units (written new c)).1 (map (filled units) cols)
        ≡ map (filled units) (change name new cols)
  insert-filled name new c [] distinct found = absurd (cc found)
  insert-filled name new c (head ∷ cols) distinct found = elim (Bool-cases (head.name == name)) [
    | inl same ↦
        let is_head : some head ≡ some c = rw same at found in
        let absent : contains (names_of cols) name ≡ false =
          rw (sym (eq_of_beq head.name name same)) (ground (arith, distinct)) in
        rw (same, change_absent name new cols absent)
          (ap
            (λ o. elim o [
              | none ↦ []
              | some k ↦ (head.name, (filled units (written new k)).1) ∷ map (filled units) cols
            ])
            (sym is_head))
    | inr other ↦ rw other (
        ap (λ rest. filled units head ∷ rest)
          (insert-filled name new c cols (ground (arith, distinct)) (rw other at found)))
  ]

-- The table `t` is registered as `item` and has these columns with their metadata.
pub record IsTable {V U : Type 0} (units : Units U) (t : String) (item : Item)
    (cols : List (ColumnDescription U)) (description : Option String)
    (rows : Dict String (Dict String V)) (db : State V) : Type 0 where
  pub registered : lookup t db.registry ≡ some item
  pub in_rawdata :
      lookup t db.raw
      ≡ some (record { columns = map (filled units) cols; description = description; rows = rows })

-- the numbers of the registry
abbrev pub ids : Dict String Item → Dict String ℕ
ids = map (λ e. (e.0, e.1.id))

-- the row of this number
abbrev pub is_row : ℕ → Option Item → Bool
is_row id none = false
is_row id (some item) = item.id == id

-- the parts of the state that no change of metadata touches
abbrev pub rest_of : {V : Type 0} → State V → ℕ × Dict String Bibliography × ℕ × ℕ
rest_of db = (db.next_id, db.bibs, db.next_bib, db.now)

-- No table is made, dropped or renamed, and nothing changes but the row of the number and the table
-- of `rawdata` named `t`.
pub record Keeps {V : Type 0} (t : String) (id : ℕ) (db changed : State V) : Type 0 where
  pub same_names : keys changed.registry ≡ keys db.registry
  pub same_ids : ids changed.registry ≡ ids db.registry
  pub same_raw : keys changed.raw ≡ keys db.raw
  pub other_rows :
      (n : String)
      → is_row id (lookup n db.registry) ≡ false
      → lookup n changed.registry ≡ lookup n db.registry
  pub other_raw : (n : String) → (n == t) ≡ false → lookup n changed.raw ≡ lookup n db.raw
  pub same_rest : rest_of changed ≡ rest_of db

pub keys-update_items :
    (f : Item → Item) (id : ℕ) (registry : Dict String Item)
    → keys (update_items f id registry) ≡ keys registry
unfolding update_items
keys-update_items f id [] = refl
keys-update_items f id ((name, item) ∷ registry) =
    ap (λ names. name ∷ names) (keys-update_items f id registry)

pub ids-update_items :
    (f : Item → Item) (id : ℕ) (registry : Dict String Item)
    → ((item : Item) → (f item).id ≡ item.id)
    → ids (update_items f id registry) ≡ ids registry
unfolding update_items
ids-update_items f id [] h = refl
ids-update_items f id ((name, item) ∷ registry) h =
    ground (arith, h item, ids-update_items f id registry h)

pub lookup-updated :
    (f : Item → Item) (t : String) (item : Item) (registry : Dict String Item)
    → lookup t registry ≡ some item
    → lookup t (update_items f item.id registry) ≡ some (f item)
lookup-updated f t item registry h = lookup-update_items f item.id t registry ∙ ground (arith, h)

lookup-update_other :
    (f : Item → Item) (id : ℕ) (registry : Dict String Item) (n : String)
    → is_row id (lookup n registry) ≡ false
    → lookup n (update_items f id registry) ≡ lookup n registry
lookup-update_other f id registry n h =
    lookup-update_items f id n registry ∙ elim (Option-cases (lookup n registry)) [
      | inl missing ↦ rw missing refl
      | inr (item, found) ↦
          let other : (item.id == id) ≡ false = rw found at h in rw (found, other) refl
    ]

module _ {V : Type 0} (t : String) (id : ℕ) where
  pub Keeps-trans : (a b c : State V) → Keeps t id a b → Keeps t id b c → Keeps t id a c
  Keeps-trans a b c h k = record {
    same_names = k.same_names ∙ h.same_names;
    same_ids = k.same_ids ∙ h.same_ids;
    same_raw = k.same_raw ∙ h.same_raw;
    other_rows = λ n other.
        k.other_rows n (ap (is_row id) (h.other_rows n other) ∙ other) ∙ h.other_rows n other;
    other_raw = λ n other. k.other_raw n other ∙ h.other_raw n other;
    same_rest = k.same_rest ∙ h.same_rest;
  }

  pub Keeps-refl : (a : State V) → Keeps t id a a
  Keeps-refl a = record {
    same_names = refl;
    same_ids = refl;
    same_raw = refl;
    other_rows = λ n other. refl;
    other_raw = λ n other. refl;
    same_rest = refl;
  }

  pub update_registry-Keeps :
      (f : Item → Item) (db : State V)
      → ((item : Item) → (f item).id ≡ item.id)
      → Keeps t id db (update_registry f id db)
  unfolding update_registry
  update_registry-Keeps f db h = record {
    same_names = keys-update_items (λ i. dated db.now (f i)) id db.registry;
    same_ids = ids-update_items (λ i. dated db.now (f i)) id db.registry h;
    same_raw = refl;
    other_rows = lookup-update_other (λ i. dated db.now (f i)) id db.registry;
    other_raw = λ n other. refl;
    same_rest = refl;
  }

  -- The comment of one table and the date of its row change.
  pub Keeps-insert :
      (old new : RawTable V) (db : State V)
      → lookup t db.raw ≡ some old
      → Keeps t id db (record db {
        registry = update_items (dated db.now) id db.registry;
        raw = insert t new db.raw;
      })
  Keeps-insert old new db found = record {
    same_names = keys-update_items (dated db.now) id db.registry;
    same_ids = ids-update_items (dated db.now) id db.registry (λ item. refl);
    same_raw = keys-insert_old t new db.raw (sym (is_some-lookup t db.raw) ∙ ap is_some found);
    other_rows = lookup-update_other (dated db.now) id db.registry;
    other_raw = λ n other. lookup-insert t n new db.raw ∙ rw (==_comm t n, other) refl;
    same_rest = refl;
  }
