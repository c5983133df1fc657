-- ===== src/Containers/Group.antt =====
-- What `group_by` returns.
use db_app.Base.{
  ◌≡◌, refl, sym, ap, ◌∙◌, Bool, true, false, Option, none, some, List, [], ◌∷◌, ◌++◌, map,
  append-nil, append_assoc, arith, Dict, Eq, ◌==◌, ==_refl, Bool-cases, inl, inr, contains,
  contains-append, filter, keys, insert, lookup, lookup-insert, is_some-lookup, or_else, foldl,
  keys-insert_old, insert_new, unique_after, if◌then◌else◌,
}
use mathlib.Core.List.{map-append}
use db_app.Containers.{add_object, group_by}

module _ {ℓ κ} {T : Type ℓ} {V : Type κ} ⦃e : Eq V⦄ (key_func : T → V) where
  abbrev pub of_key : V → List T → List T
  of_key k = filter (λ obj. key_func obj == k)

  module _ (d : Dict V (List T)) (obj : T) where
    lookup-add_object :
        (k : V)
        → lookup k (add_object key_func d obj)
          ≡ (if key_func obj == k then some (or_else (lookup k d) [] ++ obj ∷ []) else lookup k d)
    unfolding add_object
    lookup-add_object k = elim (Bool-cases (contains (keys d) (key_func obj))) [
      | inl old ↦ rw (old, lookup-insert) (ground (arith, e.test_iff (key_func obj) k))
      | inr new ↦
          rw (new, lookup-insert, lookup-insert)
            (ground (
              arith,
              e.test_iff (key_func obj) k,
              is_some-lookup (key_func obj) d,
              ==_refl (key_func obj),
              lookup-insert (key_func obj) k [] d,
            ))
    ]

    keys-add_object :
        keys (add_object key_func d obj)
        ≡ (if contains (keys d) (key_func obj) then keys d else keys d ++ key_func obj ∷ [])
    unfolding add_object
    keys-add_object = elim (Bool-cases (contains (keys d) (key_func obj))) [
      | inl old ↦ rw (old, keys-insert_old (key_func obj) _ d old)
      | inr new ↦
          rw (new, keys-insert_old (key_func obj) _ _ (opened_has_key new)) (opened_keys new)
    ]
      where
        opened_keys :
            contains (keys d) (key_func obj) ≡ false
            → keys (insert {V = List T} (key_func obj) [] d) ≡ keys d ++ key_func obj ∷ []
        opened_keys new =
            ap keys (insert_new {V = List T} (key_func obj) [] d new)
            ∙ map-append (λ (entry : V × List T). entry.0) d ((key_func obj, []) ∷ [])

        opened_has_key :
            contains (keys d) (key_func obj) ≡ false
            → contains (keys (insert {V = List T} (key_func obj) [] d)) (key_func obj) ≡ true
        opened_has_key new =
            rw (opened_keys new, contains-append (keys d) _ (key_func obj), ==_refl (key_func obj))
              (ground arith)

  -- what a lookup shows after more objects
  abbrev pub with_objects : Option (List T) → List T → Option (List T)
  with_objects old [] = old
  with_objects old (x ∷ xs) = some (or_else old [] ++ x ∷ xs)

  with_objects-cons :
      (b : Bool) (old : Option (List T)) (x : T) (ys : List T)
      → with_objects (if b then some (or_else old [] ++ x ∷ []) else old) ys
        ≡ with_objects old (if b then x ∷ ys else ys)
  with_objects-cons false old x ys = refl
  with_objects-cons true old x [] = refl
  with_objects-cons true old x (y ∷ ys) = ap some (append_assoc (or_else old []) (x ∷ []) (y ∷ ys))

  lookup-foldl :
      (d : Dict V (List T)) (objects : List T) (k : V)
      → lookup k (foldl (add_object key_func) d objects)
        ≡ with_objects (lookup k d) (of_key k objects)
  lookup-foldl d [] k = refl
  lookup-foldl d (x ∷ xs) k =
      rw (lookup-foldl (add_object key_func d x) xs k, lookup-add_object d x k)
        (with_objects-cons (key_func x == k) (lookup k d) x (of_key k xs))

  keys-foldl :
      (d : Dict V (List T)) (objects : List T)
      → keys (foldl (add_object key_func) d objects)
        ≡ keys d ++ unique_after (keys d) (map key_func objects)
  keys-foldl d [] = sym (append-nil (keys d))
  keys-foldl d (x ∷ xs) = elim (Bool-cases (contains (keys d) (key_func x))) [
    | inl old ↦ rw (keys-foldl (add_object key_func d x) xs, keys-add_object d x, old)
    | inr new ↦
        rw (keys-foldl (add_object key_func d x) xs, keys-add_object d x, new)
          (append_assoc (keys d) (key_func x ∷ []) _)
  ]

  -- The keys of the result are the keys of the objects, each once and in the order in which they
  -- first occur. A key of the result has the list of its objects in their order; any other key is
  -- missing.
  pub group_by_groups :
      (objects : List T)
      → (keys (group_by objects key_func) ≡ unique_after [] (map key_func objects))
        × ((k : V) → lookup k (group_by objects key_func) ≡ with_objects none (of_key k objects))
  unfolding group_by
  group_by_groups objects = (keys-foldl [] objects, lookup-foldl [] objects)
