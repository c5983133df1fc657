-- ===== src/Base/Dicts.antt =====
-- Python's `dict`: entries in the order of insertion, at most one for a key if built by `insert`.
use mathlib.Core.Path.{◌≡◌, refl, sym, ◌∙◌}
use mathlib.Core.Logic.{inl, inr}
use mathlib.Core.Bool.{Bool, true, false, ◌||◌}
use mathlib.Core.Option.{Option, none, some}
use mathlib.Core.List.{List, [], ◌∷◌, ◌++◌, map}
use native.Mathlib.Omega.{arith}
use db_app.Base.Tests.{Eq, ◌==◌, ==_refl, if◌then◌else◌, Bool-cases}
use db_app.Base.Lists.{All, All-map, contains, foldl}

abbrev pub Dict {ℓ κ} : Type ℓ → Type κ → Type (ℓ ⊔ κ)
Dict K V = List (K × V)

abbrev pub is_some {ℓ} : {A : Type ℓ} → Option A → Bool
is_some none = false
is_some (some a) = true

abbrev pub or_else {ℓ} : {A : Type ℓ} → Option A → A → A
or_else none d = d
or_else (some a) d = a

abbrev pub keys {ℓ κ} : {K : Type ℓ} {V : Type κ} → Dict K V → List K
keys = map (λ e. e.0)

abbrev pub values {ℓ κ} : {K : Type ℓ} {V : Type κ} → Dict K V → List V
values = map (λ e. e.1)

module _ {ℓ κ} {K : Type ℓ} {V : Type κ} ⦃e : Eq K⦄ where
  -- `d.get(k)`
  abbrev pub lookup : K → Dict K V → Option V
  lookup k [] = none
  lookup k ((j, v) ∷ d) = if j == k then some v else lookup k d

  -- `d[k] = v`
  abbrev pub insert : K → V → Dict K V → Dict K V
  insert k v [] = (k, v) ∷ []
  insert k v ((j, w) ∷ d) = if j == k then (j, v) ∷ d else (j, w) ∷ insert k v d

  -- `d.update(entries)`, and a dictionary display or comprehension
  abbrev pub update : Dict K V → List (K × V) → Dict K V
  update = foldl (λ d entry. insert entry.0 entry.1 d)

  pub lookup-insert :
      (k j : K) (v : V) (d : Dict K V)
      → lookup j (insert k v d) ≡ (if k == j then some v else lookup j d)
  lookup-insert k j v [] = refl
  lookup-insert k j v ((i, w) ∷ d) =
      ground (arith, e.test_iff k j, e.test_iff i k, e.test_iff i j, lookup-insert k j v d)

  pub lookup-insert_self : (k : K) (v : V) (d : Dict K V) → lookup k (insert k v d) ≡ some v
  lookup-insert_self k v d = rw (lookup-insert k k v d, ==_refl k)

  pub is_some-lookup : (k : K) (d : Dict K V) → is_some (lookup k d) ≡ contains (keys d) k
  is_some-lookup k [] = refl
  is_some-lookup k ((j, v) ∷ d) = ground (arith, e.test_iff j k, e.test_iff k j, is_some-lookup k d)

  pub keys-insert_old :
      (k : K) (v : V) (d : Dict K V) → contains (keys d) k ≡ true → keys (insert k v d) ≡ keys d
  keys-insert_old k v [] h = cc
  keys-insert_old k v ((j, w) ∷ d) h =
      ground (arith, e.test_iff j k, e.test_iff k j, keys-insert_old k v d)

  pub insert_new :
      (k : K) (v : V) (d : Dict K V) → contains (keys d) k ≡ false → insert k v d ≡ d ++ (k, v) ∷ []
  insert_new k v [] h = refl
  insert_new k v ((j, w) ∷ d) h = ground (arith, e.test_iff j k, e.test_iff k j, insert_new k v d)

  pub contains-keys-insert :
      (k j : K) (v : V) (d : Dict K V)
      → contains (keys (insert k v d)) j ≡ (contains (keys d) j || j == k)
  contains-keys-insert k j v [] = ground arith
  contains-keys-insert k j v ((i, w) ∷ d) =
      ground (arith, e.test_iff j k, e.test_iff i k, e.test_iff j i, contains-keys-insert k j v d)

  pub All-insert {μ} :
      (P : K × V → Type μ) (k : K) (v : V) (d : Dict K V)
      → All P d
      → P (k, v)
      → All P (insert k v d)
  All-insert P k v [] h p = (p, tt)
  All-insert P k v ((j, w) ∷ d) h p = elim (Bool-cases (j == k)) [
    | inl same ↦ rw same (rw (sym ((e.test_iff j k).0 same)) at p, h.1)
    | inr other ↦ rw other (h.0, All-insert P k v d h.1 p)
  ]

  pub All-update {μ} :
      (P : K × V → Type μ) (d : Dict K V) (rows : List (K × V))
      → All P d
      → All P rows
      → All P (update d rows)
  All-update P d [] h r = h
  All-update P d ((k, v) ∷ rows) h r =
      All-update P (insert k v d) rows (All-insert P k v d h r.0) r.1

  pub All-lookup {μ} :
      (P : K × V → Type μ) (k : K) (v : V) (d : Dict K V) → All P d → lookup k d ≡ some v → P (k, v)
  All-lookup P k v [] h found = absurd (cc)
  All-lookup P k v ((j, w) ∷ d) h found = elim (Bool-cases (j == k)) [
    | inl same ↦
        let here : some w ≡ some v = rw same at found in
        let value : w ≡ v = cc here in rw (sym ((e.test_iff j k).0 same), sym value) h.0
    | inr other ↦ All-lookup P k v d h.1 (rw other at found)
  ]

  pub contains-keys-update :
      (d : Dict K V) (rows : List (K × V)) (j : K)
      → contains (keys (update d rows)) j ≡ (contains (keys d) j || contains (keys rows) j)
  contains-keys-update d [] j = ground arith
  contains-keys-update d ((k, v) ∷ rows) j =
      contains-keys-update (insert k v d) rows j ∙ ground (arith, contains-keys-insert k j v d)

  pub All-contains-keys : (d : Dict K V) → All (λ e. contains (keys d) e.0 ≡ true) d
  All-contains-keys [] = tt
  All-contains-keys ((k, v) ∷ d) =
      (rw (==_refl k) refl, All-map _ _ (λ e h. rw h (ground arith)) d (All-contains-keys d))
