-- ===== src/Tables/Renamed.antt =====
-- Renaming a table.
use mathlib.Core.Option
use db_app.Base.{
  ℕ, String, ◌≡◌, refl, sym, ap, ◌∙◌, true, false, Option, some, List, [], ◌∷◌, map, arith, Dict,
  nat_eq, string_eq, ◌==◌, ==_comm, ==_refl, is_some, is_some-lookup, keys, lookup, contains,
  Bool-cases, inl, inr,
}
use db_app.Layer0.Records.{has_duplicates}
use db_app.Tables.{ok, Units, ColumnDescription, Item, State, dated}
use db_app.Tables.Registry.{rename_key, rename_items, rename_raw_table}
use db_app.Tables.Kept.{IsTable}
use db_app.Tables.Others.{renamed, IsOnly, Others}

module _ (old new : String) where
  contains-renamed :
      (names : List String) (name : String)
      → contains names new ≡ false
      → (name == new) ≡ false
      → contains (map (renamed old new) names) (renamed old new name) ≡ contains names name
  contains-renamed [] name h k = refl
  contains-renamed (other ∷ names) name h k = ground (
    arith,
    string_eq.test_iff name old,
    string_eq.test_iff other old,
    string_eq.test_iff name other,
    string_eq.test_iff other new,
    string_eq.test_iff new other,
    string_eq.test_iff name new,
    string_eq.test_iff new new,
    contains-renamed names name,
  )

  has_duplicates-renamed :
      (names : List String)
      → contains names new ≡ false
      → has_duplicates (map (renamed old new) names) ≡ has_duplicates names
  has_duplicates-renamed [] h = refl
  has_duplicates-renamed (name ∷ names) h =
      ground (arith, ==_comm new name, contains-renamed names name, has_duplicates-renamed names)

  keys-rename_items :
      (now id : ℕ) (registry : Dict String Item)
      → IsOnly old id registry
      → keys (rename_items now new id registry) ≡ map (renamed old new) (keys registry)
  unfolding rename_items
  keys-rename_items now id [] h = refl
  keys-rename_items now id ((name, item) ∷ registry) h =
      ground (arith, h.0, keys-rename_items now id registry h.1)

  lookup-rename_items :
      (now id : ℕ) (item : Item) (registry : Dict String Item)
      → IsOnly old id registry
      → contains (keys registry) new ≡ false
      → lookup old registry ≡ some item
      → lookup new (rename_items now new id registry) ≡ some (dated now item)
  unfolding rename_items
  lookup-rename_items now id item [] h fresh found = absurd (cc found)
  lookup-rename_items now id item ((name, row) ∷ registry) h fresh found =
      elim (Bool-cases (name == old)) [
        | inl same ↦
            let is_row : some row ≡ some item = rw same at found in
            let numbered : nat_eq.test row.id id ≡ true = h.0 ∙ same in
            rw (numbered, ==_refl new) (ap (λ o. Option.map (dated now) o) is_row)
        | inr other ↦
            let numbered : nat_eq.test row.id id ≡ false = h.0 ∙ other in
            let apart : (name == new) ≡ false = ground (arith, ==_comm new name, fresh) in
            rw (numbered, apart)
              (lookup-rename_items now id item registry h.1 (ground (arith, fresh))
                (rw other at found))
      ]

  lookup-rename_key :
      {A : Type 0} (raw : Dict String A) (a : A)
      → contains (keys raw) new ≡ false
      → lookup old raw ≡ some a
      → lookup new (rename_key old new raw) ≡ some a
  unfolding rename_key
  lookup-rename_key [] a h found = absurd (cc found)
  lookup-rename_key ((name, b) ∷ raw) a h found =
      ground (arith, string_eq.test_iff new new, ==_comm new name, lookup-rename_key raw a)

  lookup-rename_items_other :
      (now id : ℕ) (registry : Dict String Item) (n : String)
      → IsOnly old id registry
      → (n == old) ≡ false
      → (n == new) ≡ false
      → lookup n (rename_items now new id registry) ≡ lookup n registry
  unfolding rename_items
  lookup-rename_items_other now id [] n only h k = refl
  lookup-rename_items_other now id ((name, row) ∷ registry) n only h k = ground (
    arith,
    only.0,
    string_eq.test_iff name old,
    string_eq.test_iff name n,
    string_eq.test_iff n old,
    ==_comm n new,
    lookup-rename_items_other now id registry n only.1 h k,
  )

  lookup-rename_key_other :
      {A : Type 0} (raw : Dict String A) (n : String)
      → (n == old) ≡ false
      → (n == new) ≡ false
      → lookup n (rename_key old new raw) ≡ lookup n raw
  unfolding rename_key
  lookup-rename_key_other [] n h k = refl
  lookup-rename_key_other ((name, a) ∷ raw) n h k = ground (
    arith,
    string_eq.test_iff name old,
    string_eq.test_iff name n,
    string_eq.test_iff n old,
    ==_comm n new,
    lookup-rename_key_other raw n h k,
  )

  keys-rename_key :
      {A : Type 0} (raw : Dict String A)
      → keys (rename_key old new raw) ≡ map (renamed old new) (keys raw)
  unfolding rename_key
  keys-rename_key [] = refl
  keys-rename_key ((name, a) ∷ raw) =
      ap (λ names. renamed old new name ∷ names) (keys-rename_key raw)

  module _ {V U : Type 0} (units : Units U) where
    pub rename_raw_table-IsTable :
        (item : Item) (cols : List (ColumnDescription U)) (description : Option String)
        (rows : Dict String (Dict String V)) (db : State V)
        → IsTable units old item cols description rows db
        → has_duplicates (keys db.registry) ≡ false
        → IsOnly old item.id db.registry
        → contains (keys db.registry) new ≡ false
        → contains (keys db.raw) new ≡ false
        → (changed : State V) × (rename_raw_table old new db ≡ ok changed)
          × Others old new db changed
          × IsTable units new (dated db.now item) cols description rows changed
    unfolding rename_raw_table
    rename_raw_table-IsTable item cols description rows db h distinct only fresh fresh_raw = (
      record db {
        raw = rename_key old new db.raw;
        registry = rename_items db.now new item.id db.registry;
      },
      ground (
        arith,
        h.registered,
        sym (is_some-lookup old db.raw) ∙ ap is_some h.in_rawdata,
        ap has_duplicates (keys-rename_items db.now item.id db.registry only)
            ∙ has_duplicates-renamed (keys db.registry) fresh
            ∙ distinct,
        fresh_raw,
      ),
      record {
        other_rows = λ n h' k. lookup-rename_items_other db.now item.id db.registry n only h' k;
        other_raw = λ n h' k. lookup-rename_key_other db.raw n h' k;
        names_after = keys-rename_items db.now item.id db.registry only;
        raw_after = keys-rename_key db.raw;
        same_rest = refl;
      },
      record {
        registered = lookup-rename_items db.now item.id item db.registry only fresh h.registered;
        in_rawdata = lookup-rename_key db.raw _ fresh_raw h.in_rawdata;
      },
    )
