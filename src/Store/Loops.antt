-- ===== src/Store/Loops.antt =====
-- A loop over selected rows that updates each by its key: it is a sequence of steps of the
-- machine, it changes each of its rows once, and no other row.
use mathlib.Core.Option.{some-injective}
use katydid.Base.{
  All, Bool, Bool-cases, List, String, [], any, ap, arith, eq_iff, eq_refl, false, if◌then◌else◌,
  inl, inr, or-false-right, refl, some, sym, true, ℕ, ◌==◌, ◌∙◌, ◌∷◌, ◌≡◌,
}
use katydid.Store.Machine.{Step, Steps}
use katydid.Store.Rows.{IsListed, ids, query, query-absent, query-IsListed, query-unique, unique}
use katydid.Store.Schema.{Db, TaskRow}
use katydid.Store.Tables.{find_task}

pub Steps-append :
    {now : ℕ} {db mid db' : Db} → Steps now db mid → Steps now mid db' → Steps now db db'
Steps-append r Steps.done = r
Steps-append r (Steps.next s t) = Steps.next (Steps-append r s) t

pub one_Step : {now : ℕ} {db db' : Db} → Step now db db' → Steps now db db'
one_Step s = Steps.next Steps.done s

abbrev pub each : (TaskRow → Db → Db) → List TaskRow → Db → Db
each f [] db = db
each f (r ∷ rs) db = each f rs (f r db)

-- What the body of a loop does for its row: some steps, and the row becomes `g row`.
pub record Effect (now : ℕ) (f : TaskRow → Db → Db) (g : TaskRow → TaskRow) (P : TaskRow → Type 0)
    : Type 0 where
  pub steps : (row : TaskRow) (db : Db) → IsListed db.tasks row → P row → Steps now db (f row db)
  pub lookup :
      (row : TaskRow) (db : Db) (j : String)
      → IsListed db.tasks row
      → P row
      → find_task j (f row db).tasks ≡ (if row.id == j then some (g row) else find_task j db.tasks)

module _ {now : ℕ} {f : TaskRow → Db → Db} {g : TaskRow → TaskRow} {P : TaskRow → Type 0}
    (body : Effect now f g P) where
  relist :
      (r : TaskRow) (db : Db) (rs : List TaskRow)
      → IsListed db.tasks r
      → P r
      → any (λ i. i == r.id) (ids rs) ≡ false
      → All (λ s. IsListed db.tasks s × P s) rs
      → All (λ s. IsListed (f r db).tasks s × P s) rs
  relist r db [] listed p absent h = tt
  relist r db (s ∷ rs) listed p absent h = (
    (ground (arith, body.lookup r db s.id, eq_iff r.id s.id, eq_iff s.id r.id), h.0.1),
    relist r db rs listed p (or-false-right _ _ absent) h.1,
  )

  pub each-Steps :
      (rs : List TaskRow) (db : Db)
      → unique (ids rs) ≡ true
      → All (λ s. IsListed db.tasks s × P s) rs
      → Steps now db (each f rs db)
  unfolding unique
  each-Steps [] db u h = Steps.done
  each-Steps (r ∷ rs) db u h =
      Steps-append (body.steps r db h.0.0 h.0.1)
        (each-Steps rs (f r db) (ground arith) (relist r db rs h.0.0 h.0.1 (ground arith) h.1))

  pub each-other :
      (rs : List TaskRow) (db : Db) (j : String)
      → unique (ids rs) ≡ true
      → All (λ s. IsListed db.tasks s × P s) rs
      → any (λ i. i == j) (ids rs) ≡ false
      → find_task j (each f rs db).tasks ≡ find_task j db.tasks
  unfolding unique
  each-other [] db j u h absent = refl
  each-other (r ∷ rs) db j u h absent =
      each-other rs (f r db) j (ground arith) (relist r db rs h.0.0 h.0.1 (ground arith) h.1)
        (or-false-right _ _ absent)
      ∙ ground (arith, body.lookup r db j)

  pub each-changed :
      (rs : List TaskRow) (db : Db)
      → unique (ids rs) ≡ true
      → All (λ s. IsListed db.tasks s × P s) rs
      → All (λ s. find_task s.id (each f rs db).tasks ≡ some (g s)) rs
  unfolding unique
  each-changed [] db u h = tt
  each-changed (r ∷ rs) db u h =
      let absent : any (λ i. i == r.id) (ids rs) ≡ false = ground arith in
      let u' : unique (ids rs) ≡ true = ground arith in
      let h' = relist r db rs h.0.0 h.0.1 absent h.1 in
      (
        each-other rs (f r db) r.id u' h' absent
            ∙ ground (arith, body.lookup r db r.id, eq_refl r.id),
        each-changed rs (f r db) u' h',
      )

-- One of the rows has the key.
pub pick :
    (Q : TaskRow → Type 0) (j : String) (rs : List TaskRow)
    → All Q rs
    → any (λ i. i == j) (ids rs) ≡ true
    → (s : TaskRow) × (s.id ≡ j) × Q s
pick Q j [] h e = cc
pick Q j (r ∷ rs) h e = elim (Bool-cases (r.id == j)) [
  | inl here ↦ (r, (eq_iff r.id j).0 here, h.0)
  | inr there ↦ pick Q j rs h.1 (rw there at e)
]

All-zip :
    (P Q : TaskRow → Type 0) (rs : List TaskRow) → All P rs → All Q rs → All (λ s. P s × Q s) rs
All-zip P Q [] h k = tt
All-zip P Q (r ∷ rs) h k = ((h.0, k.0), All-zip P Q rs h.1 k.1)

-- A loop over the rows of a query changes the rows that pass its test, and no other.
pub query-each :
    {now : ℕ} {f : TaskRow → Db → Db} {g : TaskRow → TaskRow} (p : TaskRow → Bool) (db : Db)
    → Effect now f g (λ r. p r ≡ true)
    → unique (ids db.tasks) ≡ true
    → (j : String) (row : TaskRow) → find_task j db.tasks ≡ some row
    → find_task j (each f (query p db.tasks) db).tasks ≡ some (if p row then g row else row)
query-each {now} {f} {g} p db body u j row found =
    elim (Bool-cases (any (λ i. i == j) (ids rows))) [
      | inl here ↦ inside (
          pick _ j rows (All-zip _ _ rows members (each-changed body rows db distinct members))
            here)
      | inr there ↦
          rw (query-absent p j db.tasks row found there)
            (each-other body rows db j distinct members there ∙ found)
    ]
  where
    rows : List TaskRow
    rows = query p db.tasks

    distinct : unique (ids rows) ≡ true
    distinct = query-unique p db.tasks u

    members : All (λ r. IsListed db.tasks r × (p r ≡ true)) rows
    members = query-IsListed p db.tasks u

    inside :
        (s : TaskRow) × (s.id ≡ j)
          × ((IsListed db.tasks s × (p s ≡ true))
              × (find_task s.id (each f rows db).tasks ≡ some (g s)))
        → find_task j (each f rows db).tasks ≡ some (if p row then g row else row)
    inside (s, named, ((listed, passes), changed)) =
        let same : s ≡ row =
          some-injective s row (sym listed ∙ ap (λ i. find_task i db.tasks) named ∙ found) in
        rw (← named, changed, ← same, passes)
