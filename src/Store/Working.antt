-- ===== src/Store/Working.antt =====
-- `reserve_ai_call`, `transition` and `release` of src/katydid/store.py keep to the machine.
use katydid.Base.{
  Option, String, ap, arith, count, count-append, eq_refl, false, leb, negsuc, none, ok,
  or-false-left, or-false-right, pos, refl, some, suc, true, zero, ℕ, ℤ, ◌+◌, ◌≡◌, ◌≤◌,
}
use katydid.Json.{Value}
use katydid.Store.Leases.{is_ai_call, moved, release, reserve_ai_call, transition, worker_state}
use katydid.Store.Machine.{Change, Touched}
use katydid.Store.Outcome.{
  Outcome, Outcome-lift, Returns-gets, Returns-leased_task, Returns-modify, Returns-modify_last,
  Returns-pure, Returns-refuse, Returns-required_task, write-Outcome,
}
use katydid.Store.Schema.{
  Db, Kind, Lease, State, TaskRow, ai_call_reserved, is_paused, is_queued, queued, workflow_state,
  workflow_state-ne-paused,
}
use katydid.Store.Touches.{held-epoch, held-live, log_event-Touched, put_row-Touched, read_back}
use katydid.Store.Transaction.{is_held_by, log_event, to_task, validate_ttl}

-- `n` calls are within the limit that was asked for.
abbrev pub LimitCovers : ℤ → ℕ → Type 0
LimitCovers (pos m) n = n ≤ m
LimitCovers (negsuc m) n = ⊥

limit-covers :
    (limit : ℤ) (bound n : ℕ)
    → validate_ttl limit ≡ ok bound
    → leb bound n ≡ false
    → LimitCovers limit (n + 1)
unfolding validate_ttl
limit-covers (pos zero) bound n valid within = cc
limit-covers (pos (suc m)) bound n valid within = ground arith
limit-covers (negsuc m) bound n valid within = cc

count-reserved :
    (task_id : String) (state : State) (epoch : ℕ) (details : Value) (now : ℕ) (db : Db)
    → count (is_ai_call task_id) db.task_events + 1
      ≡ count
          (is_ai_call task_id)
          (log_event task_id ai_call_reserved state epoch details now db).task_events
unfolding log_event is_ai_call
count-reserved task_id state epoch details now db = rw count-append (rw (eq_refl task_id))

module _ (now : ℕ) (state : State) (details : Value) (row : TaskRow) where
  moved-id : (moved now state details row).id ≡ row.id
  unfolding moved
  moved-id = ground arith

  moved-state : state ≡ (moved now state details row).state
  unfolding moved
  moved-state = ground arith

  moved-epoch :
      (epoch : ℕ) → epoch ≡ row.control_epoch → epoch ≡ (moved now state details row).control_epoch
  unfolding moved
  moved-epoch epoch h = ground arith

worker_state-eq-ok :
    (o : Option State) (s : State) → worker_state o ≡ ok s → (o ≡ some s) × (is_queued s ≡ false)
unfolding worker_state
worker_state-eq-ok o s h = ground arith

-- What `reserve_ai_call` does, whether it returns or raises: when it returns a number, the lease is
-- held, the number is within the limit, it counts the reservations of the task before with this
-- one, which is logged, and the task's row is as it was. When it raises, the tables are as they
-- were.
pub reserve_ai_call-Outcome :
    (now : ℕ) (lease : Lease) (role : String) (limit : ℤ) (db : Db)
    → Outcome
        (λ n db'.
          Touched now lease.task_id
            (λ row row'.
              (is_held_by lease now row ≡ true)
              × (n ≡ count (is_ai_call lease.task_id) db.task_events + 1)
              × (n ≡ count (is_ai_call lease.task_id) db'.task_events)
              × (LimitCovers limit n)
              × (row' ≡ row))
            db
            db')
        db
        (reserve_ai_call now lease role limit)
unfolding reserve_ai_call
reserve_ai_call-Outcome now lease role limit db = Outcome-lift _ _ _ _ λ bound valid.
    write-Outcome _ _ _ (
      Returns-leased_task _ _ _ _ _ λ row found held. Returns-gets _ _ _ _ (
        Returns-refuse _ _ _ _ _ λ within. Returns-modify _ _ _ _ (
          Returns-pure _ _ _ (
            log_event-Touched row _ _ _ found (held-epoch lease now row held)
              (held-live lease now row held)
              (
                held,
                refl,
                count-reserved lease.task_id row.state lease.epoch _ now db,
                limit-covers limit bound _ valid within,
                refl,
              )))))

pub release-Outcome :
    (now : ℕ) (lease : Lease) (db : Db)
    → Outcome
        (λ _ db'.
          Touched now lease.task_id
            (λ row row'.
              (is_held_by lease now row ≡ true)
              × (row'.state ≡ queued)
              × (row'.lease_worker ≡ none))
            db
            db')
        db
        (release now lease)
unfolding release
release-Outcome now lease db = write-Outcome _ _ _ (
    Returns-leased_task _ _ _ _ _ λ row found held. Returns-refuse _ _ _ _ _ λ may_run.
      Returns-modify _ _ _ _ (
        Returns-modify_last _ _ _ (
          put_row-Touched row _ _ _ _ _ found refl refl (held-epoch lease now row held)
            (Change.release (held-live lease now row held) (or-false-left _ _ may_run)
              (or-false-right _ _ may_run) refl)
            (held, refl, refl))))

-- What `transition` does, whether it returns or raises: when it returns, the lease is held, the
-- task has moved to the named workflow state, which is not queued, by a change of the machine that
-- is logged, and the task returned shows its row. When it raises, the tables are as they were.
pub transition-Outcome :
    (now : ℕ) (lease : Lease) (name : String) (details : Option Value) (db : Db)
    → Outcome
        (λ task db'.
          Touched now lease.task_id
            (λ row row'.
              (is_held_by lease now row ≡ true)
              × (task ≡ to_task row')
              × (workflow_state name ≡ some row'.state)
              × (is_queued row'.state ≡ false))
            db
            db')
        db
        (transition now lease name details)
unfolding transition
transition-Outcome now lease name details db = Outcome-lift _ _ _ _ λ state known.
    Outcome-lift _ _ _ _ λ given an_object. Outcome-lift _ _ _ _ λ d serialized.
      write-Outcome _ _ _ (
        Returns-leased_task _ _ _ _ _ λ row found held. Returns-refuse _ _ _ _ _ λ not_terminal.
          Returns-refuse _ _ _ _ _ λ not_paused. Returns-modify _ _ _ _ (
            Returns-modify _ _ _ _ (
              Returns-required_task _ _ _ _ λ row'' found''. Returns-pure _ _ _ (
                let (named, nq) = worker_state-eq-ok (workflow_state name) state known in
                let np : is_paused state ≡ false = workflow_state-ne-paused name state named in
                let e : lease.epoch ≡ row.control_epoch = held-epoch lease now row held in
                let same = moved-id now state d row in
                put_row-Touched row _ Kind.transition state lease.epoch d found same
                  (moved-state now state d row) (moved-epoch now state d row lease.epoch e)
                  (Change.work state d (held-live lease now row held) not_terminal not_paused np nq
                    refl)
                  (
                    held,
                    ap to_task
                        (read_back lease.task_id row _ row'' _ _ _ _ now db found same found''),
                    rw (← moved-state now state d row) named,
                    rw (← moved-state now state d row) nq,
                  )))))
