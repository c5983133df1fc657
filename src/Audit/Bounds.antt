-- ===== src/Audit/Bounds.antt =====
-- The size of requests, before and after they are shortened.
use db_app.Base.{
  ℕ, suc, ◌+◌, ◌≡◌, refl, ap, Bool, true, false, ◌&&◌, arith, Bool-cases, inl, inr, ltb,
}
use mathlib.Core.Path.{ap₂}
use db_app.Audit.{
  Json, primitive, text, list, dict, Items, nil, cons, Fields, end, field, size, truncate_value,
  truncate_items, truncate_fields, truncate_request,
}

both : (a b : Bool) → (a && b) ≡ true → (a ≡ true) × (b ≡ true)
both true b h = (refl, h)
both false b h = absurd (cc h)

module _ {P : Type 0} where
  -- lists have fewer than five items, and dictionaries are nested down to the fifth level
  unfoldable mutual
    pub is_small : Json P → ℕ → Bool
    is_small (primitive p) dict_layer = true
    is_small (text words) dict_layer = true
    is_small (list items) dict_layer = ltb (size items) 5 && are_small items dict_layer
    is_small (dict fields) dict_layer = ltb dict_layer 5 && has_small fields (dict_layer + 1)

    pub are_small : Items P → ℕ → Bool
    are_small nil dict_layer = true
    are_small (cons item items) dict_layer = is_small item dict_layer && are_small items dict_layer

    pub has_small : Fields P → ℕ → Bool
    has_small end dict_layer = true
    has_small (field key value fields) dict_layer =
        is_small value dict_layer && has_small fields dict_layer

  size-truncate_items : (items : Items P) (n : ℕ) → size (truncate_items items n) ≡ size items
  unfolding truncate_items
  size-truncate_items nil n = refl
  size-truncate_items (cons item items) n = ap suc (size-truncate_items items n)

  mutual
    unfolding is_small truncate_value

    small_value : (value : Json P) (n : ℕ) → is_small (truncate_value value n) n ≡ true
    small_value (primitive p) n = refl
    small_value (text words) n = refl
    small_value (list items) n = elim (Bool-cases (ltb (size items) 5)) [
      | inl short ↦ rw (short, size-truncate_items items n, short) (small_items items n)
      | inr long ↦ rw long refl
    ]
    small_value (dict fields) n = elim (Bool-cases (ltb 5 (n + 1))) [
      | inl deep ↦ rw deep refl
      | inr shallow ↦
          let above : ltb n 5 ≡ true = ground (arith, shallow) in
          rw (shallow, above) (small_fields fields (n + 1))
    ]

    small_items : (items : Items P) (n : ℕ) → are_small (truncate_items items n) n ≡ true
    small_items nil n = refl
    small_items (cons item items) n = rw (small_value item n) (small_items items n)

    small_fields : (fields : Fields P) (n : ℕ) → has_small (truncate_fields fields n) n ≡ true
    small_fields end n = refl
    small_fields (field key value fields) n = rw (small_value value n) (small_fields fields n)

  mutual
    unfolding is_small truncate_value

    same_value : (value : Json P) (n : ℕ) → is_small value n ≡ true → truncate_value value n ≡ value
    same_value (primitive p) n h = refl
    same_value (text words) n h = refl
    same_value (list items) n h =
        let (short, small) = both (ltb (size items) 5) (are_small items n) h in
        rw short (ap list (same_items items n small))
    same_value (dict fields) n h =
        let (shallow, small) = both (ltb n 5) (has_small fields (n + 1)) h in
        let not_deep : ltb 5 (n + 1) ≡ false = ground (arith, shallow) in
        rw not_deep (ap dict (same_fields fields (n + 1) small))

    same_items :
        (items : Items P) (n : ℕ) → are_small items n ≡ true → truncate_items items n ≡ items
    same_items nil n h = refl
    same_items (cons item items) n h =
        let (first, rest) = both (is_small item n) (are_small items n) h in
        ap₂ cons (same_value item n first) (same_items items n rest)

    same_fields :
        (fields : Fields P) (n : ℕ) → has_small fields n ≡ true → truncate_fields fields n ≡ fields
    same_fields end n h = refl
    same_fields (field key value fields) n h =
        let (first, rest) = both (is_small value n) (has_small fields n) h in
        ap₂ (field key) (same_value value n first) (same_fields fields n rest)

  -- A shortened request has only lists of fewer than five items and dictionaries down to the fifth
  -- level, and shortening it again changes nothing.
  pub truncate_request_small :
      (body : Fields P)
      → (has_small (truncate_request body) 1 ≡ true)
        × (truncate_request (truncate_request body) ≡ truncate_request body)
  unfolding truncate_request
  truncate_request_small body =
      (small_fields body 1, same_fields (truncate_fields body 1) 1 (small_fields body 1))
