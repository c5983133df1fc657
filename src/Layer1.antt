-- ===== src/Layer1.antt =====
-- Reading layer 1 for the import tasks (app/data/repositories/layer1.py, `_query_new_pgc_records`
-- and the four `get_new_*_records`). The statement's `IN (SELECT DISTINCT … LIMIT)` is computed
-- first, and its rows are listed in the order of `pgc`. The database may return the rows of one number in
-- any order: the order of the table's list stands for it.
pub mod ByRecord
pub mod Pages
pub mod Saving
pub mod Saved
use db_app.Base.{
  ℕ, zero, suc, ◌≤◌, Bool, true, false, ◌&&◌, Option, none, some, String, List, [], ◌∷◌, ◌++◌, map,
  Dict, nat_eq, string_eq, ◌==◌, ltb, lookup, filter, take, flat_map, if◌then◌else◌,
}
use db_app.Layer0.{Db, Record, DataType}

-- `ORDER BY` with `DISTINCT`, on numbers
unfoldable pub insert_distinct : ℕ → List ℕ → List ℕ
insert_distinct x [] = x ∷ []
insert_distinct x (y ∷ ys) =
    let further = y ∷ insert_distinct x ys in
    if ltb x y then x ∷ y ∷ ys else if x == y then y ∷ ys else further

unfoldable pub sort_distinct : List ℕ → List ℕ
sort_distinct [] = []
sort_distinct (x ∷ xs) = insert_distinct x (sort_distinct xs)

module _ {V B : Type 0} where
  -- `FROM layer1 AS l1 JOIN layer0.records AS o ON l1.record_id = o.id` and the extra join, for rows
  -- whose record has a number
  abbrev pub join_row : (Db → Record → V → Option B) → Db → String × V → List (ℕ × B)
  join_row extra_join db row = elim (lookup row.0 db.records) [
    | none ↦ []
    | some record' ↦ elim record'.pgc [
      | none ↦ []
      | some pgc ↦ elim (extra_join db record' row.1) [ none ↦ [] | some b ↦ (pgc, b) ∷ [] ]
    ]
  ]

  abbrev pub joined : (Db → Record → V → Option B) → Db → List (String × V) → List (ℕ × B)
  joined extra_join db = flat_map (join_row extra_join db)

-- `p.modification_time > dt`, for the number's row of `common.pgc`
abbrev pub modified_since : Db → ℕ → ℕ → Bool
modified_since db dt pgc = elim (lookup pgc db.pgcs) [ none ↦ false | some time ↦ ltb dt time ]

abbrev pub no_join : {V : Type 0} → Db → Record → V → Option V
no_join db record' v = some v

-- `JOIN layer0.tables AS t ON o.table_id = t.id`
abbrev pub join_table : {V : Type 0} → Db → Record → V → Option (V × DataType)
join_table db record' v = elim (lookup record'.table_id db.tables) [
  | none ↦ none
  | some datatype ↦ some (v, datatype)
]

-- the subquery: the first `limit` numbers above `offset` that were modified after `dt`
unfoldable pub new_pgcs : {V : Type 0} → Db → List (String × V) → ℕ → ℕ → ℕ → List ℕ
unfolding sort_distinct
new_pgcs db layer1_table dt limit offset = take limit (
    sort_distinct (
      filter (λ pgc. modified_since db dt pgc && ltb offset pgc)
        (map (λ row. row.0) (joined no_join db layer1_table))))

unfoldable pub query_new_pgc_records :
    {V B : Type 0}
    → (Db → Record → V → Option B)
    → Db
    → List (String × V)
    → ℕ
    → ℕ
    → ℕ
    → List (ℕ × B)
unfolding new_pgcs
query_new_pgc_records extra_join db layer1_table dt limit offset =
    flat_map (λ pgc. filter (λ row. row.0 == pgc) (joined extra_join db layer1_table))
      (new_pgcs db layer1_table dt limit offset)
