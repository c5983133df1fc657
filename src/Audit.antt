-- ===== src/Audit.antt =====
-- app/lib/audit/truncate.py: requests are shortened before they are recorded. A request is JSON;
-- `P` are the primitive values that are no texts.
pub mod Bounds
use db_app.Base.{ℕ, zero, suc, ◌+◌, String, Bool, true, false, ltb, if◌then◌else◌}

module _ (P : Type 0) where
  mutual
    pub data Json : Type 0 where
      primitive : P → Json
      text : String → Json
      list : Items → Json
      dict : Fields → Json

    pub data Items : Type 0 where
      nil : Items
      cons : Json → Items → Items

    pub data Fields : Type 0 where
      end : Fields
      field : String → Json → Fields → Fields

abbrev pub max_dict_depth : ℕ
max_dict_depth = 5

abbrev pub min_truncate_list_size : ℕ
min_truncate_list_size = 5

module _ {P : Type 0} where
  abbrev pub size : Items P → ℕ
  size nil = 0
  size (cons item items) = suc (size items)

  unfoldable mutual
    -- `_truncate_value`
    pub truncate_value : Json P → ℕ → Json P
    truncate_value (primitive p) dict_layer = primitive p
    truncate_value (text words) dict_layer = text words
    truncate_value (list items) dict_layer =
        let shortened = list (truncate_items items dict_layer) in
        if ltb (size items) min_truncate_list_size then shortened else text "<truncated array>"
    truncate_value (dict fields) dict_layer =
        let shortened = dict (truncate_fields fields (dict_layer + 1)) in
        if ltb max_dict_depth (dict_layer + 1) then text "<truncated dictionary>" else shortened

    pub truncate_items : Items P → ℕ → Items P
    truncate_items nil dict_layer = nil
    truncate_items (cons item items) dict_layer =
        cons (truncate_value item dict_layer) (truncate_items items dict_layer)

    pub truncate_fields : Fields P → ℕ → Fields P
    truncate_fields end dict_layer = end
    truncate_fields (field key value fields) dict_layer =
        field key (truncate_value value dict_layer) (truncate_fields fields dict_layer)

  unfoldable pub truncate_request : Fields P → Fields P
  unfolding truncate_fields
  truncate_request body = truncate_fields body 1
