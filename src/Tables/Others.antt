-- ===== src/Tables/Others.antt =====
-- What a change of one table leaves of the others.

use db_app.Base.{
  ℕ, String, ◌≡◌, refl, sym, ap, ◌∙◌, false, List, [], ◌∷◌, map, Dict, nat_eq, string_eq, ◌==◌,
  keys, lookup, if◌then◌else◌, All, Bool-cases, inl, inr, eq_of_beq,
}
use db_app.Tables.{Item, State}
use db_app.Tables.Kept.{ids, is_row, rest_of, Keeps}

abbrev pub renamed : String → String → String → String
renamed old new name = if name == old then new else name

-- Only the row named `old` has the number.
abbrev pub IsOnly : String → ℕ → Dict String Item → Type 0
IsOnly old id registry = All (λ e. (e.1 == id) ≡ (e.0 == old)) (ids registry)

module _ (old new : String) where
  -- No table is made or dropped, the one is renamed to the other, and nothing else of the state
  -- changes.
  pub record Others {V : Type 0} (db changed : State V) : Type 0 where
    pub other_rows :
        (n : String)
        → (n == old) ≡ false
        → (n == new) ≡ false
        → lookup n changed.registry ≡ lookup n db.registry
    pub other_raw :
        (n : String)
        → (n == old) ≡ false
        → (n == new) ≡ false
        → lookup n changed.raw ≡ lookup n db.raw
    pub names_after : keys changed.registry ≡ map (renamed old new) (keys db.registry)
    pub raw_after : keys changed.raw ≡ map (renamed old new) (keys db.raw)
    pub same_rest : rest_of changed ≡ rest_of db

renamed_self : (t : String) (names : List String) → map (renamed t t) names ≡ names
renamed_self t [] = refl
renamed_self t (name ∷ names) = elim (Bool-cases (name == t)) [
  | inl same ↦ rw (same, renamed_self t names) (ap (λ n. n ∷ names) (sym (eq_of_beq name t same)))
  | inr other ↦ rw (other, renamed_self t names) refl
]

pub Others-refl : {V : Type 0} (t : String) (db : State V) → Others t t db db
Others-refl t db = record {
  other_rows = λ n h k. refl;
  other_raw = λ n h k. refl;
  names_after = sym (renamed_self t (keys db.registry));
  raw_after = sym (renamed_self t (keys db.raw));
  same_rest = refl;
}

-- The tables of other names have other numbers.
is_row_other :
    (t : String) (id : ℕ) (registry : Dict String Item) (n : String)
    → IsOnly t id registry
    → (n == t) ≡ false
    → is_row id (lookup n registry) ≡ false
is_row_other t id [] n only h = refl
is_row_other t id ((name, item) ∷ registry) n only h = elim (Bool-cases (name == n)) [
  | inl same ↦ rw same (only.0 ∙ ap (λ m. m == t) (eq_of_beq name n same) ∙ h)
  | inr other ↦ rw other (is_row_other t id registry n only.1 h)
]

pub Keeps-Others :
    {V : Type 0} (t new : String) (id : ℕ) (db middle changed : State V)
    → IsOnly t id db.registry
    → Keeps t id db middle
    → Others t new middle changed
    → Others t new db changed
Keeps-Others t new id db middle changed only kept others = record {
  other_rows =
      λ n h k. others.other_rows n h k ∙ kept.other_rows n (is_row_other t id db.registry n only h);
  other_raw = λ n h k. others.other_raw n h k ∙ kept.other_raw n h;
  names_after = others.names_after ∙ ap (map (renamed t new)) kept.same_names;
  raw_after = others.raw_after ∙ ap (map (renamed t new)) kept.same_raw;
  same_rest = others.same_rest ∙ kept.same_rest;
}
