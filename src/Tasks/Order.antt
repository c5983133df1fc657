-- ===== src/Tasks/Order.antt =====
-- The order in which the database returns the rows of a number, and the batch size.
use mathlib.Core.List.{Permᴰ}
use db_app.Base.{
  ℕ, String, ◌<◌, ◌≡◌, refl, sym, ap, ◌∙◌, Bool, not, Option, none, some, List, [], ◌∷◌, map, arith,
  Dict, nat_eq, string_eq, length, lookup, keys, filter, any, All, Option-cases, Bool-cases, inl,
  inr, ltb, fun_ext, if◌then◌else◌,
}
use db_app.Layer0.{Db, Record}
use db_app.Layer1.{insert_distinct, sort_distinct, modified_since}
use db_app.Layer1.Pages.{rows_of, updated_pgcs, JoinsAll}
use db_app.Tasks.{
  each_group, Layer2, Options, owns, has_source, get_orphaned_pgcs, finalize_catalog, finish,
  run_import,
}
use db_app.Tasks.Groupwise.{IsGroupwise}
use db_app.Tasks.Saving.{saved}
use db_app.Tasks.Import.{to_import, run_import_complete}

any-Perm : {A : Type 0} (p : A → Bool) {xs ys : List A} → Permᴰ xs ys → any p xs ≡ any p ys
any-Perm p Permᴰ.nil = refl
any-Perm p (Permᴰ.cons {a = a} {b = b} {l₁ = xs} {l₂ = ys} e d) = rw (e, any-Perm p d) refl
any-Perm p (Permᴰ.swap {a = a} {b = b} {l = xs} e f) = rw (e, f) (ground arith)
any-Perm p (Permᴰ.trans d e) = any-Perm p d ∙ any-Perm p e

insert_distinct_comm :
    (x y : ℕ) (zs : List ℕ)
    → insert_distinct x (insert_distinct y zs) ≡ insert_distinct y (insert_distinct x zs)
unfolding insert_distinct
insert_distinct_comm x y [] = ground arith
insert_distinct_comm x y (z ∷ zs) = ground (arith, insert_distinct_comm x y zs)

-- a row's number, if it is to be looked at
abbrev insert_if : Option ℕ → List ℕ → List ℕ
insert_if none s = s
insert_if (some x) s = insert_distinct x s

insert_if_comm :
    (x y : Option ℕ) (s : List ℕ) → insert_if x (insert_if y s) ≡ insert_if y (insert_if x s)
insert_if_comm none y s = refl
insert_if_comm (some x) none s = refl
insert_if_comm (some x) (some y) s = insert_distinct_comm x y s

-- the number of a row's record, if it was modified after the time
abbrev number_of : Db → ℕ → Option Record → Option ℕ
number_of db dt none = none
number_of db dt (some r) = elim r.pgc [
  | none ↦ none
  | some pgc ↦ if modified_since db dt pgc then some pgc else none
]

module _ {V : Type 0} (db : Db) (dt : ℕ) where
  -- `updated_pgcs`, row by row
  numbers_of : List (String × V) → List ℕ
  numbers_of [] = []
  numbers_of (row ∷ rows) = insert_if (number_of db dt (lookup row.0 db.records)) (numbers_of rows)

  updated_pgcs-numbers_of : (rows : List (String × V)) → updated_pgcs db rows dt ≡ numbers_of rows
  unfolding updated_pgcs sort_distinct numbers_of
  updated_pgcs-numbers_of [] = refl
  updated_pgcs-numbers_of (row ∷ rows) = elim (Option-cases (lookup row.0 db.records)) [
    | inl missing ↦ ground (arith, updated_pgcs-numbers_of rows)
    | inr (r, found) ↦ elim (Option-cases r.pgc) [
      | inl no_number ↦ ground (arith, updated_pgcs-numbers_of rows)
      | inr (pgc, numbered) ↦ elim (Bool-cases (modified_since db dt pgc)) [
        | inl new ↦ ground (arith, updated_pgcs-numbers_of rows)
        | inr old ↦ ground (arith, updated_pgcs-numbers_of rows)
      ]
    ]
  ]

  numbers_of-Perm :
      {rows rows' : List (String × V)} → Permᴰ rows rows' → numbers_of rows ≡ numbers_of rows'
  unfolding numbers_of
  numbers_of-Perm Permᴰ.nil = refl
  numbers_of-Perm (Permᴰ.cons {b = b} e d) = rw (e, numbers_of-Perm d) refl
  numbers_of-Perm (Permᴰ.swap {a' = a'} {b' = b'} {l = rows} e f) =
      rw (e, f)
        (insert_if_comm (number_of db dt (lookup b'.0 db.records))
          (number_of db dt (lookup a'.0 db.records)) (numbers_of rows))
  numbers_of-Perm (Permᴰ.trans d e) = numbers_of-Perm d ∙ numbers_of-Perm e

updated_pgcs-Perm :
    {V : Type 0} (db : Db) (dt : ℕ) (rows rows' : List (String × V))
    → Permᴰ rows rows'
    → updated_pgcs db rows dt ≡ updated_pgcs db rows' dt
updated_pgcs-Perm db dt rows rows' d =
    updated_pgcs-numbers_of db dt rows
    ∙ numbers_of-Perm db dt d
    ∙ sym (updated_pgcs-numbers_of db dt rows')

has_source-Perm :
    {V : Type 0} (db : Db) (rows rows' : List (String × V))
    → Permᴰ rows rows'
    → has_source db rows ≡ has_source db rows'
unfolding has_source
has_source-Perm db rows rows' d =
    fun_ext λ pgc. any-Perm (λ row. owns pgc (lookup row.0 db.records)) d

get_orphaned_pgcs-Perm :
    {V W : Type 0} (db : Db) (rows rows' : List (String × V)) (table : Dict ℕ W)
    → Permᴰ rows rows'
    → get_orphaned_pgcs db rows table ≡ get_orphaned_pgcs db rows' table
unfolding get_orphaned_pgcs
get_orphaned_pgcs-Perm db rows rows' table d =
    ap (λ (owned : ℕ → Bool). filter (λ pgc. not (owned pgc)) (keys table))
      (has_source-Perm db rows rows' d)

finalize_catalog-Perm :
    {V W : Type 0} (options : Options) (db : Db) (rows rows' : List (String × V))
    (layer2 : Layer2 W)
    → Permᴰ rows rows'
    → finalize_catalog options db rows layer2 ≡ finalize_catalog options db rows' layer2
unfolding finalize_catalog
finalize_catalog-Perm options db rows rows' layer2 d =
    ground (arith, get_orphaned_pgcs-Perm db rows rows' layer2.table d)

each_group_congr :
    {B W : Type 0} (of_group : List (ℕ × B) → Option (ℕ × W)) (f g : ℕ → List (ℕ × B)) (ts : List ℕ)
    → All (λ t. of_group (f t) ≡ of_group (g t)) ts
    → each_group of_group (map f ts) ≡ each_group of_group (map g ts)
unfolding each_group
each_group_congr of_group f g [] h = refl
each_group_congr of_group f g (t ∷ ts) h = rw (h.0, each_group_congr of_group f g ts h.1) refl

-- Two runs that differ in the batch size, and in the order in which the database returns the rows
-- of layer 1, have the same result, if the rows of each number to import have the same aggregate in
-- both orders, the sizes are positive, the fuel is for more rounds than there are numbers to import,
-- the aggregation works group by group and the join has a row for every record.
pub run_import_batch_size :
    {V B W : Type 0} (extra_join : Db → Record → V → Option B)
    (aggregate : List (ℕ × B) → Option (List (ℕ × W))) (of_group : List (ℕ × B) → Option (ℕ × W))
    (groupwise : IsGroupwise aggregate of_group) (convert : W → W) (fuel : ℕ) (db : Db)
    (joins : JoinsAll extra_join db) (rows rows' : List (String × V)) (layer2 : Layer2 W)
    (options : Options) (size : ℕ)
    → Permᴰ rows rows'
    → All
        (λ pgc.
          of_group (rows_of extra_join db rows pgc) ≡ of_group (rows_of extra_join db rows' pgc))
        (to_import db rows layer2 options)
    → 0 < options.batch_size
    → 0 < size
    → length (to_import db rows layer2 options) < fuel
    → run_import extra_join aggregate convert fuel options db rows layer2
      ≡ run_import extra_join aggregate convert fuel
          (record options { batch_size = size })
          db
          rows'
          layer2
unfolding finalize_catalog
run_import_batch_size {W = W} extra_join aggregate of_group groupwise convert fuel db joins rows
      rows' layer2 options size perm agree pos pos' enough =
    let same_pgcs : to_import db rows layer2 options ≡ to_import db rows' layer2 options =
      ap (filter (ltb 0)) (updated_pgcs-Perm db _ rows rows' perm) in
    let (ws, grouped, _, ran) =
      run_import_complete extra_join aggregate of_group groupwise convert fuel db joins rows layer2
        options pos enough in
    let (ws', grouped', _, ran') =
      run_import_complete extra_join aggregate of_group groupwise convert fuel db joins rows' layer2
        (record options { batch_size = size }) pos' (rw (sym same_pgcs) enough) in
    let congr =
      each_group_congr of_group (rows_of extra_join db rows) (rows_of extra_join db rows')
        (to_import db rows layer2 options) agree
      ∙ ap (λ (pgcs : List ℕ). each_group of_group (map (rows_of extra_join db rows') pgcs))
          same_pgcs in
    let same : ws ≡ ws' = cc (grouped, grouped', congr) in
    ran
    ∙ ap
        (λ w.
          finish options db rows layer2
            (some (saved convert options.dry_run w layer2.table, length w)))
        same
    ∙ ap (λ (final : Layer2 W × ℕ). some (final.0, length ws', final.1))
        (finalize_catalog-Perm options db rows rows'
          (record layer2 { table = saved convert options.dry_run ws' layer2.table }) perm)
    ∙ sym ran'
