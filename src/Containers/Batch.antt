-- ===== src/Containers/Batch.antt =====
-- `read_batches` over a source that is paged by its key.
use db_app.Base.{
  All-drop, All-take, flat_map-append, nat_eq, subst, All-filter, length-drop_le, ℕ, zero, suc, ◌≤◌,
  ◌<◌, ◌≡◌, refl, ap, ◌∙◌, Bool, true, false, some, List, [], ◌∷◌, ◌++◌, map, arith, ltb,
  Bool-cases, inl, inr, length, take, drop, filter, All, flat_map, foldl, foldl-append,
  take-append-drop,
}
use db_app.Containers.{read_batches}

abbrev pub Ascending : List ℕ → Type 0
Ascending [] = Unit
Ascending (x ∷ xs) = All (λ y. x < y) xs × Ascending xs

-- the last element, or `d` if there is none
abbrev pub last_or : ℕ → List ℕ → ℕ
last_or = foldl (λ _ x. x)

-- the pages of a list
unfoldable pub chunks {ℓ} : {A : Type ℓ} → ℕ → ℕ → List A → List (List A)
chunks zero size xs = []
chunks (suc fuel) size [] = []
chunks (suc fuel) size (x ∷ xs) = take size (x ∷ xs) ∷ chunks fuel size (drop size (x ∷ xs))

pub flatten-chunks {ℓ} :
    {A : Type ℓ} (fuel size : ℕ) (xs : List A)
    → 0 < size
    → length xs ≤ fuel
    → flat_map (λ (chunk : List A). chunk) (chunks fuel size xs) ≡ xs
unfolding chunks
flatten-chunks zero size [] h k = refl
flatten-chunks zero size (x ∷ xs) h k = absurd (omega arith)
flatten-chunks (suc fuel) size [] h k = refl
flatten-chunks (suc fuel) zero (x ∷ xs) h k = absurd (omega arith)
flatten-chunks (suc fuel) (suc n) (x ∷ xs) h k =
    rw (flatten-chunks fuel (suc n) (drop n xs) h (omega (arith, length-drop_le n xs)))
      (ap (◌∷◌ x) (take-append-drop n xs))

le-last_or : (x : ℕ) (n : ℕ) (xs : List ℕ) → Ascending (x ∷ xs) → x ≤ last_or x (take n xs)
le-last_or x zero xs h = omega arith
le-last_or x (suc n) [] h = omega arith
le-last_or x (suc n) (y ∷ ys) h = omega (arith, le-last_or y n ys h.1)

filter_above : (x : ℕ) (xs : List ℕ) → All (λ y. x < y) xs → filter (ltb x) xs ≡ xs
filter_above x [] h = refl
filter_above x (y ∷ ys) h = ground (arith, filter_above x ys h.1)

-- What lies above the last key of a page is what follows the page.
filter_above_page :
    (n x : ℕ) (xs : List ℕ)
    → Ascending (x ∷ xs)
    → filter (ltb (last_or x (take n xs))) (x ∷ xs) ≡ drop n xs
filter_above_page zero x xs h = ground (arith, filter_above x xs h.0)
filter_above_page (suc n) x [] h = ground arith
filter_above_page (suc n) x (y ∷ ys) h =
    ground (arith, filter_above_page n y ys h.1, le-last_or y n ys h.1)

All-above_filter : (m : ℕ) (xs : List ℕ) → All (λ y. m < y) (filter (ltb m) xs)
All-above_filter m [] = tt
All-above_filter m (x ∷ xs) = elim (Bool-cases (ltb m x)) [
  | inl e ↦ rw e (ground arith, All-above_filter m xs)
  | inr e ↦ rw e (All-above_filter m xs)
]

pub filter-Ascending : (p : ℕ → Bool) (xs : List ℕ) → Ascending xs → Ascending (filter p xs)
filter-Ascending p [] h = tt
filter-Ascending p (x ∷ xs) h = elim (Bool-cases (p x)) [
  | inl e ↦ rw e (All-filter (λ y. x < y) p xs h.0, filter-Ascending p xs h.1)
  | inr e ↦ rw e (filter-Ascending p xs h.1)
]

drop-Ascending : (n : ℕ) (xs : List ℕ) → Ascending xs → Ascending (drop n xs)
drop-Ascending zero xs h = h
drop-Ascending (suc n) [] h = tt
drop-Ascending (suc n) (x ∷ xs) h = drop-Ascending n xs h.1

abbrev pub is_empty {ℓ} : {Row : Type ℓ} → List Row → Bool
is_empty [] = true
is_empty (row ∷ rows) = false

-- the key of the last row of a batch, `d["pgc"][-1]`
abbrev pub last_key {ℓ} : {Row : Type ℓ} → (Row → ℕ) → List Row → ℕ → ℕ
last_key key rows offset = foldl (λ _ row. key row) offset rows

-- A source with the keys `all_keys`, in ascending order, and the rows `rows_of` of each.
module _ {ℓ} {Row : Type ℓ} (key : Row → ℕ) (all_keys : List ℕ) (rows_of : ℕ → List Row) where
  -- the rows of the first `limit` keys above `offset`
  abbrev pub page : ℕ → ℕ → List Row
  page limit offset = flat_map rows_of (take limit (filter (ltb offset) all_keys))

  -- The key has rows, and they all have it.
  pub record IsKeyed (t : ℕ) : Type ℓ where
    pub row : Row
    pub rest : List Row
    pub rows : rows_of t ≡ row ∷ rest
    pub last : (d : ℕ) → last_key key (rows_of t) d ≡ t

  last_key-flat_map :
      (ts : List ℕ) (d : ℕ) → All IsKeyed ts → last_key key (flat_map rows_of ts) d ≡ last_or d ts
  last_key-flat_map [] d h = refl
  last_key-flat_map (t ∷ ts) d h =
      rw (foldl-append (λ _ row. key row) d (rows_of t) (flat_map rows_of ts), h.0.last d)
        (last_key-flat_map ts t h.1)

  -- After a page that starts at `x`, the next page starts where this one ends.
  filter_after_page :
      (n offset x : ℕ) (xs : List ℕ)
      → filter (ltb offset) all_keys ≡ x ∷ xs
      → Ascending (x ∷ xs)
      → filter (ltb (last_or x (take n xs))) all_keys ≡ drop n xs
  filter_after_page n offset x xs e h =
      filter_through all_keys ∙ ap (filter (ltb next)) e ∙ filter_above_page n x xs h
    where
      next : ℕ
      next = last_or x (take n xs)

      offset_lt : offset < x
      offset_lt = (subst (All (λ y. offset < y)) e (All-above_filter offset all_keys)).0

      filter_through :
          (ys : List ℕ) → filter (ltb next) ys ≡ filter (ltb next) (filter (ltb offset) ys)
      filter_through [] = refl
      filter_through (y ∷ ys) = ground (arith, filter_through ys, le-last_or x n xs h, offset_lt)

  pub read_batches_pages :
      (fuel size offset : ℕ) (xs : List ℕ)
      → filter (ltb offset) all_keys ≡ xs
      → Ascending xs
      → All IsKeyed xs
      → 0 < size
      → length xs < fuel
      → (batches : List (ℕ × List Row)) × (read_batches fuel page is_empty offset
            (last_key key)
            size
          ≡ some batches)
        × (map (λ b. b.1) batches ≡ map (flat_map rows_of) (chunks fuel size xs))
  unfolding read_batches chunks
  read_batches_pages zero size offset xs e asc keyed pos enough = absurd (omega arith)
  read_batches_pages (suc fuel) zero offset xs e asc keyed pos enough = absurd (omega arith)
  read_batches_pages (suc fuel) (suc n) offset [] e asc keyed pos enough =
      ([], rw (e, read_batches) refl, refl)
  read_batches_pages (suc fuel) (suc n) offset (x ∷ xs) e asc keyed pos enough =
      let (batches, ran, pages) =
        read_batches_pages fuel (suc n) (last_key key first offset) (drop n xs)
          (rw last_is (filter_after_page n offset x xs e asc)) (drop-Ascending n xs asc.1)
          (All-drop IsKeyed n xs keyed.1) pos (omega (arith, length-drop_le n xs)) in
      ((offset, first) ∷ batches, rw (not_empty, read_batches) (rw ran), rw (pages, first_is))
    where
      first : List Row
      first = page (suc n) offset

      first_is : first ≡ flat_map rows_of (x ∷ take n xs)
      first_is = ap (λ ys. flat_map rows_of (take (suc n) ys)) e

      not_empty : is_empty first ≡ false
      not_empty = rw (first_is, keyed.0.rows)

      last_is : last_key key first offset ≡ last_or x (take n xs)
      last_is =
          rw first_is
            (last_key-flat_map (x ∷ take n xs) offset (keyed.0, All-take IsKeyed n xs keyed.1))

  -- A source whose keys are ascending and whose keys all have rows is read to its end with fuel for
  -- one round more than it has keys above the offset, whatever the batch size, if it is positive.
  -- Put together, the batches are the rows of the keys above the offset, in order, each row once.
  pub read_batches_complete :
      (size offset fuel : ℕ)
      → Ascending all_keys
      → All IsKeyed all_keys
      → 0 < size
      → length (filter (ltb offset) all_keys) < fuel
      → (batches : List (ℕ × List Row)) × (read_batches fuel page is_empty offset
            (last_key key)
            size
          ≡ some batches)
        × (flat_map (λ b. b.1) batches ≡ flat_map rows_of (filter (ltb offset) all_keys))
  read_batches_complete size offset fuel asc keyed pos enough =
      let xs = filter (ltb offset) all_keys in
      let (batches, ran, pages) =
        read_batches_pages fuel size offset xs refl (filter-Ascending _ _ asc)
          (All-filter _ _ _ keyed) pos enough in
      (
        batches,
        ran,
        flat_map-map batches
            ∙ ap (flat_map (λ (rows : List Row). rows)) pages
            ∙ flat_map-flat_map (chunks fuel size xs)
            ∙ ap (flat_map rows_of) (flatten-chunks fuel size xs pos (omega arith)),
      )
    where
      flat_map-map :
          (bs : List (ℕ × List Row))
          → flat_map (λ b. b.1) bs ≡ flat_map (λ (rows : List Row). rows) (map (λ b. b.1) bs)
      flat_map-map [] = refl
      flat_map-map (b ∷ bs) = ap (◌++◌ b.1) (flat_map-map bs)

      flat_map-flat_map :
          (cs : List (List ℕ))
          → flat_map (λ (rows : List Row). rows) (map (flat_map rows_of) cs)
            ≡ flat_map rows_of (flat_map (λ (c : List ℕ). c) cs)
      flat_map-flat_map [] = refl
      flat_map-flat_map (c ∷ cs) = rw (flat_map-append rows_of c, flat_map-flat_map cs)

take-Ascending : (n : ℕ) (xs : List ℕ) → Ascending xs → Ascending (take n xs)
take-Ascending zero xs h = tt
take-Ascending (suc n) [] h = tt
take-Ascending (suc n) (x ∷ xs) h = (All-take (λ y. x < y) n xs h.0, take-Ascending n xs h.1)

pub chunks-Ascending :
    (fuel size : ℕ) (xs : List ℕ) → Ascending xs → All Ascending (chunks fuel size xs)
unfolding chunks
chunks-Ascending zero size xs h = tt
chunks-Ascending (suc fuel) size [] h = tt
chunks-Ascending (suc fuel) size (x ∷ xs) h = (
  take-Ascending size (x ∷ xs) h,
  chunks-Ascending fuel size (drop size (x ∷ xs)) (drop-Ascending size (x ∷ xs) h),
)

pub All-chunks {ℓ} :
    (P : ℕ → Type ℓ) (fuel size : ℕ) (xs : List ℕ) → All P xs → All (All P) (chunks fuel size xs)
unfolding chunks
All-chunks P zero size xs h = tt
All-chunks P (suc fuel) size [] h = tt
All-chunks P (suc fuel) size (x ∷ xs) h = (
  All-take P size (x ∷ xs) h,
  All-chunks P fuel size (drop size (x ∷ xs)) (All-drop P size (x ∷ xs) h),
)
