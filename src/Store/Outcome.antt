-- ===== src/Store/Outcome.antt =====
-- Rules for reasoning about the methods of the store, one for each kind of statement in them.
use katydid.Base.{
  Bool, Exception, Exec, Option, Result, String, continue, err, false, finish, gets, inl, inr, lift,
  modify, none, ok, pure, refl, refuse, require, some, subst, true, ℕ, ◌>>=◌, ◌≡◌, ◌⊎◌,
}
use katydid.Store.Schema.{Db, Lease, TaskRow}
use katydid.Store.Tables.{find_task}
use katydid.Store.Transaction.{is_held_by, leased_task, required, required_task, write}

-- What holds of the result and the state if the code returns.
abbrev pub OnReturn : {A : Type 0} → (A → Db → Type 0) → Result A × Db → Type 0
OnReturn Q (ok a, db') = Q a db'
OnReturn Q (err e, db') = Unit

-- The same, and the state is as it was before if the code raises.
abbrev pub OnExit : {A : Type 0} → (A → Db → Type 0) → Db → Result A × Db → Type 0
OnExit Q db (ok a, db') = Q a db'
OnExit Q db (err e, db') = db' ≡ db

-- `m`, run in `db`, establishes `Q` if it returns.
pub record Returns {A : Type 0} (Q : A → Db → Type 0) (db : Db) (m : Exec Db A) : Type 0 where
  pub holds : OnReturn Q (m db)

-- `m`, run in `db`, establishes `Q` if it returns, and leaves `db` as it is if it raises.
pub record Outcome {A : Type 0} (Q : A → Db → Type 0) (db : Db) (m : Exec Db A) : Type 0 where
  pub holds : OnExit Q db (m db)

module _ {A : Type 0} (Q : A → Db → Type 0) (db : Db) where
  pub Returns-pure : (a : A) → Q a db → Returns Q db (pure a)
  unfolding ◌>>=◌
  Returns-pure a h = record { holds = h }

  finish-exit : (r : Result A × Db) → OnReturn Q r → OnExit Q db (finish db r)
  unfolding finish
  finish-exit (ok a, db') h = h
  finish-exit (err e, db') h = refl

  pub write-Outcome : (m : Exec Db A) → Returns Q db m → Outcome Q db (write m)
  unfolding write
  write-Outcome m h = record { holds = finish-exit (m db) h.holds }

  pub Outcome-require :
      (b : Bool) (e : Exception) (f : Unit {0} → Exec Db A)
      → (b ≡ true → Outcome Q db (f tt))
      → Outcome Q db (require b e >>= f)
  unfolding ◌>>=◌
  Outcome-require true e f h = record { holds = (h refl).holds }
  Outcome-require false e f h = record { holds = refl }

  pub Outcome-refuse :
      (b : Bool) (e : Exception) (f : Unit {0} → Exec Db A)
      → (b ≡ false → Outcome Q db (f tt))
      → Outcome Q db (refuse b e >>= f)
  unfolding ◌>>=◌
  Outcome-refuse true e f h = record { holds = refl }
  Outcome-refuse false e f h = record { holds = (h refl).holds }

  pub Outcome-lift :
      {B : Type 0} (r : Result B) (f : B → Exec Db A)
      → ((b : B) → r ≡ ok b → Outcome Q db (f b))
      → Outcome Q db (lift r >>= f)
  unfolding ◌>>=◌
  Outcome-lift (ok b) f h = record { holds = (h b refl).holds }
  Outcome-lift (err e) f h = record { holds = refl }

  pub Returns-require :
      (b : Bool) (e : Exception) (f : Unit {0} → Exec Db A)
      → (b ≡ true → Returns Q db (f tt))
      → Returns Q db (require b e >>= f)
  unfolding ◌>>=◌
  Returns-require true e f h = record { holds = (h refl).holds }
  Returns-require false e f h = record { holds = tt }

  pub Returns-refuse :
      (b : Bool) (e : Exception) (f : Unit {0} → Exec Db A)
      → (b ≡ false → Returns Q db (f tt))
      → Returns Q db (refuse b e >>= f)
  unfolding ◌>>=◌
  Returns-refuse true e f h = record { holds = tt }
  Returns-refuse false e f h = record { holds = (h refl).holds }

  pub Returns-lift :
      {B : Type 0} (r : Result B) (f : B → Exec Db A)
      → ((b : B) → r ≡ ok b → Returns Q db (f b))
      → Returns Q db (lift r >>= f)
  unfolding ◌>>=◌
  Returns-lift (ok b) f h = record { holds = (h b refl).holds }
  Returns-lift (err e) f h = record { holds = tt }

  pub Returns-gets :
      {B : Type 0} (g : Db → B) (f : B → Exec Db A)
      → Returns Q db (f (g db))
      → Returns Q db (gets g >>= f)
  unfolding ◌>>=◌
  Returns-gets g f h = record { holds = h.holds }

  pub Returns-modify :
      (g : Db → Db) (f : Unit {0} → Exec Db A)
      → Returns Q (g db) (f tt)
      → Returns Q db (modify g >>= f)
  unfolding ◌>>=◌
  Returns-modify g f h = record { holds = h.holds }

  pub Returns-required_task :
      (task_id : String) (f : TaskRow → Exec Db A)
      → ((row : TaskRow) → find_task task_id db.tasks ≡ some row → Returns Q db (f row))
      → Returns Q db (required_task task_id >>= f)
  unfolding ◌>>=◌ required_task
  Returns-required_task task_id f h = record { holds = go (find_task task_id db.tasks) h }
    where
      go :
          (o : Option TaskRow)
          → ((row : TaskRow) → o ≡ some row → Returns Q db (f row))
          → OnReturn Q (continue f (required o, db))
      go none k = tt
      go (some row) k = (k row refl).holds

  pub Returns-bind_assoc :
      {B C : Type 0} (m : Exec Db B) (g : B → Exec Db C) (f : C → Exec Db A)
      → Returns Q db (m >>= λ b. g b >>= f)
      → Returns Q db (m >>= g >>= f)
  unfolding ◌>>=◌
  Returns-bind_assoc {B} {C} m g f h = record { holds = go (m db) h.holds }
    where
      go :
          (r : Result B × Db)
          → OnReturn Q (continue (λ b s. continue f (g b s)) r)
          → OnReturn Q (continue f (continue g r))
      go (ok b, s) k = k
      go (err e, s) k = tt

  pub Returns-pure-bind :
      {B : Type 0} (b : B) (f : B → Exec Db A) → Returns Q db (f b) → Returns Q db (pure b >>= f)
  unfolding ◌>>=◌
  Returns-pure-bind b f h = record { holds = h.holds }

module _ {A : Type 0} (Q : A → Db → Type 0) (db : Db) where
  pub Returns-leased_task :
      (now : ℕ) (lease : Lease) (f : TaskRow → Exec Db A)
      → ((row : TaskRow)
          → find_task lease.task_id db.tasks ≡ some row
          → is_held_by lease now row ≡ true
          → Returns Q db (f row))
      → Returns Q db (leased_task now lease >>= f)
  unfolding leased_task
  Returns-leased_task now lease f h = Returns-bind_assoc Q db _ _ _ (
      Returns-required_task Q db _ _ λ row found.
        Returns-bind_assoc Q db _ _ _
          (Returns-require Q db _ _ _ λ held. Returns-pure-bind Q db _ _ (h row found held)))

module _ {A : Type 0} (Q : A → Db → Type 0) (db : Db) where
  -- A method that changes nothing.
  pub read_only-Outcome : (m : Exec Db A) → (m db).1 ≡ db → Returns Q db m → Outcome Q db m
  read_only-Outcome m same h = record { holds = go (m db) same h.holds }
    where
      go : (r : Result A × Db) → r.1 ≡ db → OnReturn Q r → OnExit Q db r
      go (ok a, s) e k = k
      go (err e, s) p k = p

module _ (Q : Unit {0} → Db → Type 0) (db : Db) where
  pub Returns-refuse_last :
      (b : Bool) (e : Exception) → (b ≡ false → Q tt db) → Returns Q db (refuse b e)
  unfolding ◌>>=◌
  Returns-refuse_last true e h = record { holds = tt }
  Returns-refuse_last false e h = record { holds = h refl }

  pub Returns-modify_last : (g : Db → Db) → Q tt (g db) → Returns Q db (modify g)
  unfolding ◌>>=◌
  Returns-modify_last g h = record { holds = h }

module _ {A : Type 0} {P Q : A → Db → Type 0} (weaker : (a : A) (s : Db) → P a s → Q a s) where
  weaken_return : (r : Result A × Db) → OnReturn P r → OnReturn Q r
  weaken_return (ok a, s) k = weaker a s k
  weaken_return (err e, s) k = tt

  pub Returns-weaken : {db : Db} {m : Exec Db A} → Returns P db m → Returns Q db m
  Returns-weaken {db} {m} k = record { holds = weaken_return (m db) k.holds }

exit-cases :
    {A : Type 0} (Q : A → Db → Type 0) (db : Db) (r : Result A × Db)
    → OnExit Q db r
    → (r.1 ≡ db) ⊎ ((a : A) × (r.0 ≡ ok a) × Q a r.1)
exit-cases Q db (ok a, s) h = inr (a, refl, h)
exit-cases Q db (err e, s) h = inl h

-- A method that has raised changed nothing, and one that has returned established its claim.
pub Outcome-cases :
    {A : Type 0} {Q : A → Db → Type 0} {db : Db} {m : Exec Db A}
    → Outcome Q db m
    → ((m db).1 ≡ db) ⊎ ((a : A) × ((m db).0 ≡ ok a) × Q a (m db).1)
Outcome-cases {A} {Q} {db} {m} o = exit-cases Q db (m db) o.holds

returned_exit :
    {A : Type 0} (Q : A → Db → Type 0) (db : Db) (r : Result A × Db) (a : A) (s : Db)
    → OnExit Q db r
    → r ≡ (ok a, s)
    → Q a s
returned_exit Q db r a s h e = subst (OnExit Q db) e h

-- What holds when a method is known to have returned.
pub Outcome-ok :
    {A : Type 0} {Q : A → Db → Type 0} {db : Db} {m : Exec Db A} {a : A} {s : Db}
    → Outcome Q db m
    → m db ≡ (ok a, s)
    → Q a s
Outcome-ok {A} {Q} {db} {m} {a} {s} o e = returned_exit Q db (m db) a s o.holds e

raised_exit :
    {A : Type 0} (Q : A → Db → Type 0) (db : Db) (r : Result A × Db) (x : Exception) (s : Db)
    → OnExit Q db r
    → r ≡ (err x, s)
    → s ≡ db
raised_exit Q db r x s h e = subst (OnExit Q db) e h

-- A method that raises leaves the database as it was.
pub Outcome-err :
    {A : Type 0} {Q : A → Db → Type 0} {db : Db} {m : Exec Db A} {x : Exception} {s : Db}
    → Outcome Q db m
    → m db ≡ (err x, s)
    → s ≡ db
Outcome-err {A} {Q} {db} {m} {x} {s} o e = raised_exit Q db (m db) x s o.holds e
