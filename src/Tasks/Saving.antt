-- ===== src/Tasks/Saving.antt =====
-- Aggregating and saving one batch after another.
use mathlib.Core.List.{map-append}
use mathlib.Core.Path.{ap₂}
use db_app.Base.{
  ℕ, ◌+◌, ◌≡◌, refl, sym, ap, ◌∙◌, Bool, true, false, Option, none, some, List, [], ◌∷◌, ◌++◌, map,
  arith, Dict, nat_eq, ◌==◌, length, length-append, filter, All, foldl-append, insert, update,
  if◌then◌else◌,
}
use db_app.Tasks.{prepend, each_group, save}

prepend-eq-some :
    {W : Type 0} (row : Option W) (rest : Option (List W)) {rows : List W}
    → prepend row rest ≡ some rows
    → (w : W) × (ws : List W) × (row ≡ some w) × (rest ≡ some ws) × (rows ≡ w ∷ ws)
prepend-eq-some none rest h = absurd (cc)
prepend-eq-some (some w) none h = absurd (cc)
prepend-eq-some (some w) (some ws) h = (w, ws, refl, refl, cc)

pub each_group-append :
    {R W : Type 0} (f : R → Option W) (xs ys : List R) (rs ss : List W)
    → each_group f xs ≡ some rs
    → each_group f ys ≡ some ss
    → each_group f (xs ++ ys) ≡ some (rs ++ ss)
unfolding each_group
each_group-append f [] ys rs ss h k = let e : rs ≡ [] = cc in rw e k
each_group-append f (x ∷ xs) ys rs ss h k =
    let (w, ws, ex, exs, e) = prepend-eq-some (f x) (each_group f xs) h in
    rw (e, ex, each_group-append f xs ys ws ss exs k)

pub All-filter_key :
    {B : Type 0} (t : ℕ) (rows : List (ℕ × B))
    → All (λ row. row.0 ≡ t) (filter (λ row. row.0 == t) rows)
All-filter_key t [] = tt
All-filter_key t (row ∷ rows) = ground (arith, All-filter_key t rows)

pub save-append :
    {W : Type 0} (convert : W → W) (xs ys : List (ℕ × W)) (table : Dict ℕ W)
    → save convert ys (save convert xs table) ≡ save convert (xs ++ ys) table
unfolding save
save-append {W} convert xs ys table = sym (
    ap (update table) (map-append converted xs ys)
    ∙ foldl-append (λ d entry. insert entry.0 entry.1 d) table (map converted xs)
        (map converted ys))
  where
    converted : ℕ × W → ℕ × W
    converted row = (row.0, convert row.1)

abbrev pub saved : {W : Type 0} → (W → W) → Bool → List (ℕ × W) → Dict ℕ W → Dict ℕ W
saved convert dry_run ws table = if dry_run then table else save convert ws table

pub saved_twice :
    {W : Type 0} (convert : W → W) (ws ws' : List (ℕ × W)) (table : Dict ℕ W) (n : ℕ)
    (dry_run : Bool)
    → ◌≡◌ {A = Dict ℕ W × ℕ}
        (saved convert dry_run ws' (saved convert dry_run ws table), n + length ws + length ws')
        (saved convert dry_run (ws ++ ws') table, n + length (ws ++ ws'))
saved_twice convert ws ws' table n true = ap (λ k. (table, k)) (omega (arith, length-append ws ws'))
saved_twice convert ws ws' table n false =
    ap₂ (λ t k. (t, k)) (save-append convert ws ws' table) (omega (arith, length-append ws ws'))
