-- ===== src/Tasks/Vote.antt =====
-- `majority_vote_by_pgc`: which value a group elects.
use mathlib.Core.Option
use db_app.Base.{
  ℕ, ◌+◌, ◌≤◌, ◌<◌, ◌≡◌, refl, ap, ◌∙◌, fun_ext, subst, false, ◌||◌, none, some, List, [], ◌∷◌,
  ◌++◌, map, append-nil, append_assoc, arith, Dict, Eq, ◌==◌, ==_refl, ==_comm, eq_of_beq, ltb,
  Bool-cases, inl, inr, lookup, insert, contains, contains-append, unique_after, foldl, All,
  All-append, All-map, if◌then◌else◌,
}
use db_app.Tasks.{count_value, max_from, max_key, vote}

module _ {V : Type 0} ⦃e : Eq V⦄ where
  -- how often a value occurs
  unfoldable pub count : V → List V → ℕ
  count v [] = 0
  count v (x ∷ xs) = (if x == v then 1 else 0) + count v xs

  abbrev Distinct : List V → Type 0
  Distinct [] = Unit
  Distinct (x ∷ xs) = (contains xs x ≡ false) × Distinct xs

  abbrev entries : (V → ℕ) → List V → Dict V ℕ
  entries c = map (λ v. (v, c v))

  abbrev add_key : List V → V → List V
  add_key ks x = if contains ks x then ks else ks ++ x ∷ []

  Distinct-snoc :
      (ks : List V) (x : V) → Distinct ks → contains ks x ≡ false → Distinct (ks ++ x ∷ [])
  Distinct-snoc [] x d h = (refl, tt)
  Distinct-snoc (k ∷ ks) x d h = (
    rw (contains-append ks (x ∷ []) k) (ground (arith, d.0, h, e.test_iff k x, e.test_iff x k)),
    Distinct-snoc ks x d.1 (ground (arith, h)),
  )

  Distinct-add_key : (ks : List V) (x : V) → Distinct ks → Distinct (add_key ks x)
  Distinct-add_key ks x d = elim (Bool-cases (contains ks x)) [
    | inl old ↦ rw old d
    | inr new ↦ rw new (Distinct-snoc ks x d new)
  ]

  -- the counts after one more `x`
  abbrev bump : (V → ℕ) → V → V → ℕ
  bump c x v = c v + (if x == v then 1 else 0)

  entries_other :
      (c : V → ℕ) (x : V) (ks : List V)
      → contains ks x ≡ false
      → entries (bump c x) ks ≡ entries c ks
  entries_other c x [] h = refl
  entries_other c x (k ∷ ks) h = elim (Bool-cases (x == k)) [
    | inl same ↦ absurd (cc (h, rw same at h))
    | inr other ↦ rw (other, entries_other c x ks (ground (arith, h))) (ground arith)
  ]

  lookup-entries :
      (c : V → ℕ) (x : V) (ks : List V)
      → lookup x (entries c ks) ≡ (if contains ks x then some (c x) else none)
  lookup-entries c x [] = refl
  lookup-entries c x (k ∷ ks) =
      ground (arith, lookup-entries c x ks, e.test_iff k x, e.test_iff x k)

  insert-entries :
      (c : V → ℕ) (x : V) (ks : List V)
      → Distinct ks
      → insert x (c x + 1) (entries c ks) ≡ entries (bump c x) (add_key ks x)
  insert-entries c x [] d = rw (==_refl x) refl
  insert-entries c x (k ∷ ks) d = elim (Bool-cases (k == x)) [
    | inl same ↦ same_key (eq_of_beq k x same)
    | inr other ↦
        rw (other, insert-entries c x ks d.1, ==_comm x k, other)
          (ground (arith, ==_comm x k, other))
  ]
    where
      same_key :
          k ≡ x → insert x (c x + 1) (entries c (k ∷ ks)) ≡ entries (bump c x) (add_key (k ∷ ks) x)
      same_key p =
          ground (arith, p, d.0, ==_refl x, e.test_iff k x, e.test_iff x k, entries_other c x ks)

  count_value-entries :
      (c : V → ℕ) (x : V) (ks : List V)
      → Distinct ks
      → (contains ks x ≡ false → c x ≡ 0)
      → count_value (entries c ks) x ≡ entries (bump c x) (add_key ks x)
  unfolding count_value
  count_value-entries c x ks d z =
      rw (lookup-entries c x ks) (ground (arith, z, insert-entries c x ks d))

  add_key-has : (ks : List V) (x v : V) → contains (add_key ks x) v ≡ (contains ks v || v == x)
  add_key-has ks x v = elim (Bool-cases (contains ks x)) [
    | inl old ↦ rw old (ground (arith, old, e.test_iff v x))
    | inr new ↦ rw (new, contains-append ks (x ∷ []) v) (ground arith)
  ]

  foldl-count_value :
      (c : V → ℕ) (ks xs : List V)
      → Distinct ks
      → ((v : V) → contains ks v ≡ false → c v ≡ 0)
      → foldl count_value (entries c ks) xs
        ≡ entries (λ v. c v + count v xs) (ks ++ unique_after ks xs)
  unfolding count
  foldl-count_value c ks [] d z =
      rw append-nil (ap (λ (f : V → ℕ). entries f ks) (fun_ext λ v. omega arith))
  foldl-count_value c ks (x ∷ xs) d z =
      ap (λ counts. foldl count_value counts xs) (count_value-entries c x ks d (z x))
      ∙ foldl-count_value (bump c x) (add_key ks x) xs (Distinct-add_key ks x d)
          (λ v new. ground (arith, new, z v, add_key-has ks x v, ==_comm x v))
      ∙ ap (λ (f : V → ℕ). entries f (add_key ks x ++ unique_after (add_key ks x) xs))
          (fun_ext λ v. omega arith)
      ∙ ap (entries (λ v. c v + ((if x == v then 1 else 0) + count v xs))) keys_agree
    where
      keys_agree : add_key ks x ++ unique_after (add_key ks x) xs ≡ ks ++ unique_after ks (x ∷ xs)
      keys_agree = elim (Bool-cases (contains ks x)) [
        | inl old ↦ rw old refl
        | inr new ↦ rw new (append_assoc ks (x ∷ []) _)
      ]

  All-lt_trans :
      (c : V → ℕ) (m n : ℕ) (ks : List V) → All (λ v. c v ≤ m) ks → m < n → All (λ v. c v < n) ks
  All-lt_trans c m n ks h l = All-map (λ v. c v ≤ m) (λ v. c v < n) (λ v k. omega arith) ks h

  All-le_of_lt : (c : V → ℕ) (m : ℕ) (ks : List V) → All (λ v. c v < m) ks → All (λ v. c v ≤ m) ks
  All-le_of_lt c m ks h = All-map (λ v. c v < m) (λ v. c v ≤ m) (λ v k. omega arith) ks h

  -- `w` is the first of `ks` whose count is largest.
  pub record IsFirstMax (c : V → ℕ) (ks : List V) (w : V) : Type 0 where
    pub before : List V
    pub after : List V
    pub split : ks ≡ before ++ w ∷ after
    pub fewer : All (λ v. c v < c w) before
    pub no_more : All (λ v. c v ≤ c w) after

  max_from-IsFirstMax :
      (c : V → ℕ) (ks before after : List V) (best : V)
      → All (λ v. c v < c best) before
      → All (λ v. c v ≤ c best) after
      → IsFirstMax c (before ++ best ∷ (after ++ ks)) (max_from best (c best) (entries c ks))
  unfolding max_from
  max_from-IsFirstMax c [] before after best h k = record {
    before = before;
    after = after;
    split = rw append-nil;
    fewer = h;
    no_more = k;
  }
  max_from-IsFirstMax c (key ∷ ks) before after best h k =
      elim (Bool-cases (ltb (c best) (c key))) [
        | inl more ↦
            rw (more, max_from)
              (subst (λ (l : List V). IsFirstMax c l (max_from key (c key) (entries c ks)))
                (append_assoc before (best ∷ after) (key ∷ ks))
                (max_from-IsFirstMax c ks (before ++ best ∷ after) [] key
                  (All-append _ before (best ∷ after)
                    (All-lt_trans c (c best) (c key) before (All-le_of_lt c (c best) before h)
                      (ground arith))
                    (ground arith, All-lt_trans c (c best) (c key) after k (ground arith)))
                  tt))
        | inr not_more ↦
            rw (not_more, max_from)
              (subst
                (λ (l : List V).
                  IsFirstMax c (before ++ best ∷ l) (max_from best (c best) (entries c ks)))
                (append_assoc after (key ∷ []) ks)
                (max_from-IsFirstMax c ks before (after ++ key ∷ []) best h
                  (All-append _ after (key ∷ []) k (ground arith, tt))))
      ]

  max_key-IsFirstMax :
      (c : V → ℕ) (k : V) (ks : List V)
      → (w : V) × (max_key (entries c (k ∷ ks)) ≡ some w) × IsFirstMax c (k ∷ ks) w
  unfolding max_key
  max_key-IsFirstMax c k ks =
      (max_from k (c k) (entries c ks), refl, max_from-IsFirstMax c ks [] [] k tt tt)

  foldl-counts :
      (values : List V)
      → foldl count_value [] values ≡ entries (λ v. count v values) (unique_after [] values)
  foldl-counts values =
      foldl-count_value (λ _. 0) [] values tt (λ v _. refl)
      ∙ ap (λ (f : V → ℕ). entries f (unique_after [] values)) from_zero
    where
      from_zero : ◌≡◌ {A = V → ℕ} (λ v. 0 + count v values) (λ v. count v values)
      from_zero = fun_ext λ v. omega arith

  -- A group that has rows elects a value: among the values in the order in which they first occur
  -- in the group, the ones before it occur less often than it, and the ones after it no more often.
  -- The number is that of the group's first row.
  pub vote_elects :
      (row : ℕ × V) (group : List (ℕ × V))
      → (w : V) × (vote (row ∷ group) ≡ some (row.0, w))
        × IsFirstMax
            (λ v. count v (map (λ r. r.1) (row ∷ group)))
            (unique_after [] (map (λ r. r.1) (row ∷ group)))
            w
  unfolding vote
  vote_elects row group =
      let values : List V = map (λ r. r.1) (row ∷ group) in
      let (w, elected, first) = max_key-IsFirstMax (λ v. count v values) row.1 _ in
      (
        w,
        ap (λ counts. Option.map (λ v. (row.0, v)) (max_key counts)) (foldl-counts values)
            ∙ ap (Option.map (λ v. (row.0, v))) elected,
        first,
      )
