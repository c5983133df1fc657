-- ===== src/Containers.antt =====
-- app/lib/containers: grouping of lists, and reading in batches.
pub mod Group
pub mod Batch
use db_app.Base.{
  ℕ, zero, suc, ◌++◌, Bool, true, false, Option, none, some, List, [], ◌∷◌, Dict, Eq, contains,
  keys, insert, lookup, or_else, foldl, if◌then◌else◌,
}

-- group.py
module _ {ℓ κ} {T : Type ℓ} {V : Type κ} ⦃e : Eq V⦄ where
  -- the body of the loop
  unfoldable pub add_object : (T → V) → Dict V (List T) → T → Dict V (List T)
  add_object key_func result obj =
      let key = key_func obj in
      let opened = if contains (keys result) key then result else insert key [] result in
      insert key (or_else (lookup key opened) [] ++ obj ∷ []) opened

  unfoldable pub group_by : List T → (T → V) → Dict V (List T)
  unfolding add_object
  group_by objects key_func = foldl (add_object key_func) [] objects

-- batch.py. The generator as the list of what it yields. `none` means that the fuel ran out.
module _ {ℓ κ} {Output : Type ℓ} {Offset : Type κ} where
  unfoldable pub read_batches :
      ℕ
      → (ℕ → Offset → Output)
      → (Output → Bool)
      → Offset
      → (Output → Offset → Offset)
      → ℕ
      → Option (List (Offset × Output))
  read_batches zero func stop_condition offset offset_changer batch_size = none
  read_batches (suc fuel) func stop_condition offset offset_changer batch_size =
      let result = func batch_size offset in
      elim (stop_condition result) [
        | true ↦ some []
        | false ↦
            elim (read_batches fuel func stop_condition (offset_changer result offset)
              offset_changer batch_size) [
                | none ↦ none
                | some rest ↦ some ((offset, result) ∷ rest)
              ]
      ]
