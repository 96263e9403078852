-- ===== src/Store/Rows.antt =====
-- The rows that a query selects and sorts are rows of the table, each once; and a loop over them
-- that updates each row by its key.
use katydid.Base.{
  All, Bool, Bool-cases, List, String, [], any, arith, eq_iff, eq_refl, false, inl, inr, map, none,
  not, or-false-right, refl, select, some, sym, true, ◌&&◌, ◌++◌, ◌==◌, ◌||◌, ◌∙◌, ◌∷◌, ◌≡◌,
}
use katydid.Store.Schema.{TaskRow}
use katydid.Store.Tables.{comes_first, find_task, insert_row, sort_rows}

abbrev pub ids : List TaskRow → List String
ids rows = map (λ r. r.id) rows

-- No text stands twice in the list.
unfoldable pub unique : List String → Bool
unique [] = true
unique (x ∷ xs) = not (any (λ j. j == x) xs) && unique xs

any-ids-select :
    (q : String → Bool) (p : TaskRow → Bool) (rs : List TaskRow)
    → any q (ids rs) ≡ false
    → any q (ids (select p rs)) ≡ false
any-ids-select q p [] h = refl
any-ids-select q p (r ∷ rs) h = ground (arith, any-ids-select q p rs)

unique-select :
    (p : TaskRow → Bool) (rs : List TaskRow)
    → unique (ids rs) ≡ true
    → unique (ids (select p rs)) ≡ true
unfolding unique
unique-select p [] h = refl
unique-select p (r ∷ rs) h =
    ground (arith, any-ids-select (λ (j : String). j == r.id) p rs, unique-select p rs)

any-ids-insert :
    (q : String → Bool) (x : TaskRow) (ys : List TaskRow)
    → any q (ids (insert_row x ys)) ≡ any q (ids (x ∷ ys))
unfolding insert_row
any-ids-insert q x [] = refl
any-ids-insert q x (y ∷ ys) = ground (arith, any-ids-insert q x ys)

any-ids-sort : (q : String → Bool) (rs : List TaskRow) → any q (ids (sort_rows rs)) ≡ any q (ids rs)
unfolding sort_rows
any-ids-sort q [] = refl
any-ids-sort q (r ∷ rs) = ground (arith, any-ids-insert q r (sort_rows rs), any-ids-sort q rs)

unique-insert :
    (x : TaskRow) (ys : List TaskRow) → unique (ids (insert_row x ys)) ≡ unique (ids (x ∷ ys))
unfolding insert_row unique
unique-insert x [] = refl
unique-insert x (y ∷ ys) = ground (
  arith,
  any-ids-insert (λ (j : String). j == y.id) x ys,
  unique-insert x ys,
  eq_iff x.id y.id,
  eq_iff y.id x.id,
)

unique-sort : (rs : List TaskRow) → unique (ids (sort_rows rs)) ≡ unique (ids rs)
unfolding sort_rows unique
unique-sort [] = refl
unique-sort (r ∷ rs) = ground (
  arith,
  unique-insert r (sort_rows rs),
  any-ids-sort (λ (j : String). j == r.id) rs,
  unique-sort rs,
)

All-select :
    (P : TaskRow → Type 0) (p : TaskRow → Bool) (rs : List TaskRow)
    → All P rs
    → All (λ r. P r × (p r ≡ true)) (select p rs)
All-select P p [] h = tt
All-select P p (r ∷ rs) h = elim (Bool-cases (p r)) [
  | inl e ↦ rw e ((h.0, e), All-select P p rs h.1)
  | inr e ↦ rw e (All-select P p rs h.1)
]

All-insert :
    (P : TaskRow → Type 0) (x : TaskRow) (ys : List TaskRow)
    → P x
    → All P ys
    → All P (insert_row x ys)
unfolding insert_row
All-insert P x [] h hs = (h, tt)
All-insert P x (y ∷ ys) h hs = elim (Bool-cases (comes_first x y)) [
  | inl e ↦ rw e (h, hs)
  | inr e ↦ rw e (hs.0, All-insert P x ys h hs.1)
]

All-sort : (P : TaskRow → Type 0) (rs : List TaskRow) → All P rs → All P (sort_rows rs)
unfolding sort_rows
All-sort P [] h = tt
All-sort P (r ∷ rs) h = All-insert P r (sort_rows rs) h.0 (All-sort P rs h.1)

-- The row stands in the table, under its key.
abbrev pub IsListed : List TaskRow → TaskRow → Type 0
IsListed ts r = find_task r.id ts ≡ some r

IsListed-cons :
    (x : TaskRow) (xs : List TaskRow) (rs : List TaskRow)
    → any (λ j. j == x.id) (ids rs) ≡ false
    → All (IsListed xs) rs
    → All (IsListed (x ∷ xs)) rs
unfolding find_task
IsListed-cons x xs [] absent h = tt
IsListed-cons x xs (r ∷ rs) absent h = (
  ground (arith, eq_iff r.id x.id, eq_iff x.id r.id),
  IsListed-cons x xs rs (or-false-right _ _ absent) h.1,
)

pub IsListed-All : (ts : List TaskRow) → unique (ids ts) ≡ true → All (IsListed ts) ts
unfolding unique find_task
IsListed-All [] h = tt
IsListed-All (t ∷ ts) h = (
  ground (arith, eq_refl t.id),
  IsListed-cons t ts ts (ground arith) (IsListed-All ts (ground arith)),
)

-- The rows that `SELECT … WHERE p … ORDER BY created_at, id` returns.
abbrev pub query : (TaskRow → Bool) → List TaskRow → List TaskRow
query p ts = sort_rows (select p ts)

pub query-unique :
    (p : TaskRow → Bool) (ts : List TaskRow)
    → unique (ids ts) ≡ true
    → unique (ids (query p ts)) ≡ true
query-unique p ts h = unique-sort (select p ts) ∙ unique-select p ts h

pub query-IsListed :
    (p : TaskRow → Bool) (ts : List TaskRow)
    → unique (ids ts) ≡ true
    → All (λ r. IsListed ts r × (p r ≡ true)) (query p ts)
query-IsListed p ts h = All-sort _ (select p ts) (All-select _ p ts (IsListed-All ts h))

select-absent :
    (p : TaskRow → Bool) (j : String) (ts : List TaskRow) (row : TaskRow)
    → find_task j ts ≡ some row
    → any (λ i. i == j) (ids (select p ts)) ≡ false
    → p row ≡ false
unfolding find_task
select-absent p j [] row h absent = cc
select-absent p j (t ∷ ts) row h absent = ground (arith, select-absent p j ts row)

-- A row of the table that the query has not returned fails its test.
pub query-absent :
    (p : TaskRow → Bool) (j : String) (ts : List TaskRow) (row : TaskRow)
    → find_task j ts ≡ some row
    → any (λ i. i == j) (ids (query p ts)) ≡ false
    → p row ≡ false
query-absent p j ts row h absent =
    select-absent p j ts row h (sym (any-ids-sort (λ (i : String). i == j) (select p ts)) ∙ absent)

any-ids-append :
    (q : String → Bool) (rs : List TaskRow) (row : TaskRow)
    → any q (ids (rs ++ row ∷ [])) ≡ (any q (ids rs) || q row.id)
any-ids-append q [] row = ground arith
any-ids-append q (r ∷ rs) row = ground (arith, any-ids-append q rs row)

-- A row with a new key keeps the keys unique.
pub unique-append :
    (rs : List TaskRow) (row : TaskRow)
    → find_task row.id rs ≡ none
    → unique (ids rs) ≡ true
    → unique (ids (rs ++ row ∷ [])) ≡ true
unfolding unique find_task
unique-append [] row absent u = refl
unique-append (r ∷ rs) row absent u = ground (
  arith,
  any-ids-append (λ (j : String). j == r.id) rs row,
  unique-append rs row,
  eq_iff row.id r.id,
  eq_iff r.id row.id,
)
