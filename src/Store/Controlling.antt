-- ===== src/Store/Controlling.antt =====
-- `control` of src/katydid/store.py keeps to the machine.
use katydid.Base.{Option, String, ap, arith, false, not, ok, refl, true, ℕ, ◌&&◌, ◌≡◌}
use katydid.Store.Control.{
  control, control_action, control_input, control_state, controlled, interrupts_effects, is_resume,
}
use katydid.Store.Machine.{Change, Touched, interrupted}
use katydid.Store.Outcome.{
  Outcome, Outcome-lift, Returns-modify, Returns-pure, Returns-refuse, Returns-required_task,
  write-Outcome,
}
use katydid.Store.Schema.{
  Action, Db, State, TaskRow, is_paused, is_terminal, is_unknown_outcome, unresolved,
}
use katydid.Store.Touches.{put_row-Touched, read_back}
use katydid.Store.Transaction.{Task, to_task}

control_state-interrupted : (s : State) (a : Action) → interrupted (control_state s a) ≡ true
unfolding control_state
control_state-interrupted s a = ground arith

-- A task whose effects outside are unknown becomes `unresolved`: `resume` is for paused tasks.
pub control_state-unknown :
    (s : State) (a : Action)
    → (is_resume a && not (is_paused s)) ≡ false
    → is_unknown_outcome s ≡ true
    → control_state s a ≡ unresolved
unfolding control_state interrupts_effects is_paused is_unknown_outcome
control_state-unknown s a h u = ground arith

-- What `control` does to a row.
pub record Controlled (now : ℕ) (name : String) (instruction : Option String) (task : Task)
    (row row' : TaskRow) : Type 0 where
  pub action : Action
  pub accepted : control_input (control_action name) instruction ≡ ok action
  pub was_open : is_terminal row.state ≡ false
  pub may_resume : (is_resume action && not (is_paused row.state)) ≡ false
  pub update : row' ≡ controlled now action instruction row
  pub returned : task ≡ to_task row'

-- What `control` does, whether it returns or raises: when it returns, the action was valid with its
-- instruction, the task was not finished and, for a resume, it was paused; its row is then the one
-- that `controlled` gives, logged, and shown in the result. When it raises, the tables are as they
-- were.
pub control-Outcome :
    (now : ℕ) (task_id name : String) (instruction : Option String) (db : Db)
    → Outcome
        (λ task db'. Touched now task_id (Controlled now name instruction task) db db')
        db
        (control now task_id name instruction)
unfolding control controlled
control-Outcome now task_id name instruction db = Outcome-lift _ _ _ _ λ action accepted.
    write-Outcome _ _ _ (
      Returns-required_task _ _ _ _ λ row found. Returns-refuse _ _ _ _ _ λ was_open.
        Returns-refuse _ _ _ _ _ λ may_resume. Returns-modify _ _ _ _ (
          Returns-modify _ _ _ _ (
            Returns-required_task _ _ _ _ λ row'' found''. Returns-pure _ _ _ (
              put_row-Touched row (controlled now action instruction row) _ _ _ _ found refl refl
                refl
                (Change.interrupt (control_state row.state action) _ _ was_open
                  (control_state-interrupted row.state action)
                  (control_state-unknown row.state action may_resume) refl)
                (record {
                  action = action;
                  accepted = accepted;
                  was_open = was_open;
                  may_resume = may_resume;
                  update = refl;
                  returned = ap to_task (
                      read_back task_id row (controlled now action instruction row) row'' _ _ _ _
                        now db found refl found'');
                })))))
