-- ===== src/Store/Tables.antt =====
-- Reading and writing the table of tasks: SELECT and UPDATE by primary key, ORDER BY.
use Prim.Native.Nat.{compare, Ordering}
use Prim.Native.String.{compare as compare_text}
use mathlib.Core.Option
use katydid.Base.{
  String, ◌≡◌, refl, Bool, true, false, Option, none, some, List, [], ◌∷◌, ◌++◌, arith, any, map,
  ◌==◌, eq_iff, if◌then◌else◌,
}
use katydid.Store.Schema.{TaskRow}

-- SELECT * FROM tasks WHERE id = ?
unfoldable pub find_task : String → List TaskRow → Option TaskRow
find_task id [] = none
find_task id (r ∷ rs) = if r.id == id then some r else find_task id rs

-- UPDATE tasks SET … WHERE id = ?, for the row that the transaction has read
unfoldable pub set_row : TaskRow → List TaskRow → List TaskRow
set_row row [] = []
set_row row (r ∷ rs) = (if r.id == row.id then row else r) ∷ set_row row rs

-- ORDER BY created_at, id
unfoldable pub comes_first : TaskRow → TaskRow → Bool
comes_first a b = elim (compare a.created_at b.created_at) [
  | Ordering.lt ↦ true
  | Ordering.eq ↦ (elim (compare_text a.id b.id) [ Ordering.gt ↦ false | _ ↦ true ])
  | Ordering.gt ↦ false
]

unfoldable pub insert_row : TaskRow → List TaskRow → List TaskRow
unfolding comes_first
insert_row x [] = x ∷ []
insert_row x (y ∷ ys) = if comes_first x y then x ∷ y ∷ ys else y ∷ insert_row x ys

unfoldable pub sort_rows : List TaskRow → List TaskRow
unfolding insert_row
sort_rows [] = []
sort_rows (x ∷ xs) = insert_row x (sort_rows xs)

-- What an UPDATE leaves at each key.
find_task-set_row-map :
    (row : TaskRow) (j : String) (rs : List TaskRow)
    → find_task j (set_row row rs)
      ≡ (if row.id == j then Option.map (λ _. row) (find_task row.id rs) else find_task j rs)
unfolding find_task set_row
find_task-set_row-map row j [] = ground arith
find_task-set_row-map row j (r ∷ rs) =
    ground
      (arith, eq_iff r.id row.id, eq_iff row.id j, eq_iff r.id j, find_task-set_row-map row j rs)

pub find_task-set_row :
    (row : TaskRow) (j : String) (rs : List TaskRow) {old : TaskRow}
    → find_task row.id rs ≡ some old
    → find_task j (set_row row rs) ≡ (if row.id == j then some row else find_task j rs)
find_task-set_row row j rs h = ground (arith, find_task-set_row-map row j rs)

pub find_task-append :
    (j : String) (rs : List TaskRow) (row : TaskRow)
    → find_task row.id rs ≡ none
    → find_task j (rs ++ row ∷ []) ≡ (if row.id == j then some row else find_task j rs)
unfolding find_task
find_task-append j [] row h = refl
find_task-append j (r ∷ rs) row h =
    ground (arith, find_task-append j rs row, eq_iff r.id row.id, eq_iff r.id j, eq_iff row.id j)

pub find_task-id :
    (j : String) (rs : List TaskRow) (row : TaskRow) → find_task j rs ≡ some row → row.id ≡ j
unfolding find_task
find_task-id j [] row h = cc
find_task-id j (r ∷ rs) row h = ground (arith, eq_iff r.id j, find_task-id j rs row)

-- A test that no row passes fails at each row that is found.
pub any-find_task :
    (p : TaskRow → Bool) (j : String) (rs : List TaskRow) (row : TaskRow)
    → any p rs ≡ false
    → find_task j rs ≡ some row
    → p row ≡ false
unfolding find_task
any-find_task p j [] row none_passes h = cc
any-find_task p j (r ∷ rs) row none_passes h = ground (arith, any-find_task p j rs row)

pub ids-set_row :
    (row : TaskRow) (rs : List TaskRow) → map (λ r. r.id) (set_row row rs) ≡ map (λ r. r.id) rs
unfolding set_row
ids-set_row row [] = refl
ids-set_row row (r ∷ rs) = ground (arith, eq_iff r.id row.id, ids-set_row row rs)
