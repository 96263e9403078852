-- ===== src/Store/Claiming.antt =====
-- `claim`, `renew` and `assert_active` of src/katydid/store.py keep to the machine.
use katydid.Base.{
  List, String, any, arith, eq_iff, eq_refl, false, or-false-left, or-false-right, refl, some, sym,
  true, ℕ, ℤ, ◌+◌, ◌<◌, ◌>>=◌, ◌≡◌,
}
use katydid.Store.Leases.{assert_active, claim, owns_repository, renew}
use katydid.Store.Machine.{Change, Touched}
use katydid.Store.Outcome.{
  Outcome, Outcome-lift, Outcome-refuse, Returns-gets, Returns-leased_task, Returns-modify,
  Returns-pure, Returns-refuse, Returns-refuse_last, Returns-require, Returns-required_task,
  read_only-Outcome, write-Outcome,
}
use katydid.Store.Schema.{
  Db, Lease, State, TaskRow, claimed, is_paused, is_queued, is_terminal, queued, seconds,
}
use katydid.Store.Tables.{find_task, find_task-id}
use katydid.Store.Touches.{held-epoch, held-live, put_row-Touched, validate_ttl-pos}
use katydid.Store.Transaction.{is_held_by, is_live, leased_task, required_task}

-- What a claim has granted: the lease is active on the row, and its epoch is a new one.
pub record Granted (now : ℕ) (task_id worker : String) (lease : Lease) (ts : List TaskRow)
    (row row' : TaskRow) : Type 0 where
  pub holds : is_held_by lease now row' ≡ true
  pub fresh : lease.epoch ≡ row.control_epoch + 1
  pub was_queued : row.state ≡ queued
  pub not_owned : any (owns_repository now row) ts ≡ false
  pub of_task : lease.task_id ≡ task_id
  pub of_worker : lease.worker ≡ worker

is_queued-eq : (s : State) → is_queued s ≡ true → s ≡ queued
unfolding is_queued
is_queued-eq s h = ground arith

claimed-held :
    (now n : ℕ) (task_id worker : String) (row : TaskRow)
    → row.id ≡ task_id
    → 0 < n
    → is_held_by
        (record {
          task_id = task_id;
          worker = worker;
          epoch = row.control_epoch + 1;
          expires_at = now + seconds n;
        })
        now
        (record row {
          control_epoch = row.control_epoch + 1;
          lease_worker = some worker;
          lease_epoch = some (row.control_epoch + 1);
          lease_expires_at = some (now + seconds n);
          updated_at = now;
        })
      ≡ true
unfolding is_held_by is_live
claimed-held now n task_id worker row named h =
    ground (arith, eq_iff row.id task_id, eq_refl worker)

renewed-held :
    (now n : ℕ) (lease : Lease) (row : TaskRow)
    → is_held_by lease now row ≡ true
    → 0 < n
    → is_held_by
        (record lease { expires_at = now + seconds n })
        now
        (record row { lease_expires_at = some (now + seconds n); updated_at = now })
      ≡ true
unfolding is_held_by is_live
renewed-held now n lease row held h = ground arith

-- What `claim` does, whether it returns or raises: when it returns a lease, the task was queued, no
-- task of its repository had a live lease, and only that task changed, by a change of the machine
-- that is logged; the lease is held on it and its epoch is one more than the task's was. When it
-- raises, the tables are as they were.
pub claim-Outcome :
    (now : ℕ) (task_id worker : String) (ttl : ℤ) (db : Db)
    → Outcome
        (λ lease db'. Touched now task_id (Granted now task_id worker lease db.tasks) db db')
        db
        (claim now task_id worker ttl)
unfolding claim
claim-Outcome now task_id worker ttl db = Outcome-lift _ _ _ _ λ n valid.
    Outcome-refuse _ _ _ _ _ λ named. write-Outcome _ _ _ (
      Returns-required_task _ _ _ _ λ row found. Returns-require _ _ _ _ _ λ was_queued.
        Returns-refuse _ _ _ _ _ λ not_live. Returns-gets _ _ _ _ (
          Returns-refuse _ _ _ _ _ λ not_owned. Returns-modify _ _ _ _ (
            Returns-modify _ _ _ _ (
              Returns-pure _ _ _ (
                let q : row.state ≡ queued = is_queued-eq row.state was_queued in
                put_row-Touched row _ claimed queued (row.control_epoch + 1) _ found refl (sym q)
                  refl (Change.claim worker (now + seconds n) q not_live not_owned refl)
                  (record {
                    holds =
                        claimed-held now n task_id worker row
                          (find_task-id task_id db.tasks row found) (validate_ttl-pos ttl n valid);
                    fresh = refl;
                    was_queued = q;
                    not_owned = not_owned;
                    of_task = refl;
                    of_worker = refl;
                  }))))))

pub renew-Outcome :
    (now : ℕ) (lease : Lease) (ttl : ℤ) (db : Db)
    → Outcome
        (λ lease' db'.
          Touched now lease.task_id
            (λ row row'.
              (is_held_by lease now row ≡ true)
              × (is_held_by lease' now row' ≡ true)
              × (lease'.epoch ≡ lease.epoch))
            db
            db')
        db
        (renew now lease ttl)
unfolding renew
renew-Outcome now lease ttl db = Outcome-lift _ _ _ _ λ n valid. write-Outcome _ _ _ (
    Returns-leased_task _ _ _ _ _ λ row found held. Returns-modify _ _ _ _ (
      Returns-modify _ _ _ _ (
        Returns-pure _ _ _ (
          put_row-Touched row _ _ _ _ _ found refl refl (held-epoch lease now row held)
            (Change.renew (now + seconds n) (held-live lease now row held) refl)
            (held, renewed-held now n lease row held (validate_ttl-pos ttl n valid), refl)))))

assert_active-same : (now : ℕ) (lease : Lease) (db : Db) → (assert_active now lease db).1 ≡ db
unfolding assert_active leased_task required_task ◌>>=◌
assert_active-same now lease db = ground arith

-- `assert_active` only reads: where it returns, the lease holds a task that may be worked on.
pub assert_active-Outcome :
    (now : ℕ) (lease : Lease) (db : Db)
    → Outcome
        (λ _ db'.
          (db' ≡ db)
          × ((row : TaskRow) × (find_task lease.task_id db.tasks ≡ some row)
              × (is_held_by lease now row ≡ true)
              × (is_terminal row.state ≡ false)
              × (is_paused row.state ≡ false)))
        db
        (assert_active now lease)
unfolding assert_active
assert_active-Outcome now lease db = read_only-Outcome _ _ _ (assert_active-same now lease db) (
    Returns-leased_task _ _ _ _ _ λ row found held. Returns-refuse_last _ _ _ _ λ may_run.
      (refl, (row, found, held, (or-false-left _ _ may_run), (or-false-right _ _ may_run))))
