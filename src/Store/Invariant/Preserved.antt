-- ===== src/Store/Invariant/Preserved.antt =====
-- Every step of the machine keeps the invariant, and so does the passing of time.
use mathlib.Core.Option
use katydid.Base.{
  String, ap, arith, eq_iff, false, if◌then◌else◌, inl, inr, refl, some, sym, true, ℕ, ◌==◌, ◌∙◌,
  ◌≡◌, ◌≢◌, ◌≤◌,
}
use katydid.Store.Invariant.{
  Change-lease_sound, Change-live, Change-repository, IsSound, lease_sound, replay, replay-append,
  status,
}
use katydid.Store.Leases.{owns_repository}
use katydid.Store.Machine.{Inserted, Step, Steps, Touched, AnyChange}
use katydid.Store.Rows.{unique, unique-append}
use katydid.Store.Schema.{Db, TaskRow, new_db}
use katydid.Store.Tables.{any-find_task, find_task, find_task-append, find_task-id}
use katydid.Store.Transaction.{is_live}

not_owned :
    (now : ℕ) (row s : TaskRow)
    → owns_repository now row s ≡ false
    → s.repository ≡ row.repository
    → s.id ≢ row.id
    → is_live now s ≡ false
unfolding owns_repository
not_owned now row s h same other =
    ground (arith, eq_iff s.repository row.repository, eq_iff s.id row.id)

module _ (now : ℕ) (db db' : Db) (sound : IsSound now db) where
  module _ (task_id : String) (t : Touched now task_id AnyChange db db') where
    named : t.row.id ≡ task_id
    named = find_task-id task_id db.tasks t.row t.found

    touched-leases :
        (j : String) (row : TaskRow) → find_task j db'.tasks ≡ some row → lease_sound row ≡ true
    touched-leases j row h = ground (
      arith,
      t.lookup j,
      sound.leases j row,
      sound.leases task_id t.row t.found,
      Change-lease_sound now db.tasks t.row t.row' t.changed,
    )

    touched-audit :
        (j : String) → replay j db'.task_events ≡ Option.map status (find_task j db'.tasks)
    touched-audit j =
        rw (t.logged.appended, replay-append) (ground (arith, t.same_id, t.lookup j, sound.audit j))

    repository-eq :
        (s : TaskRow) → t.row'.repository ≡ s.repository → t.row.repository ≡ s.repository
    repository-eq s same = sym (Change-repository now db.tasks t.row t.row' t.changed) ∙ same

    -- A row of another task in the same repository is not live beside the changed one.
    beside :
        (j : String) (s : TaskRow)
        → find_task j db.tasks ≡ some s
        → task_id ≢ j
        → t.row'.repository ≡ s.repository
        → is_live now t.row' ≡ true
        → is_live now s ≡ false
    beside j s found other same live = elim (Change-live now db.tasks t.row t.row' t.changed live) [
      | inl was ↦ sound.apart task_id j t.row s t.found found other (repository-eq s same) was
      | inr free ↦
          not_owned now t.row s (any-find_task (owns_repository now t.row) j db.tasks s free found)
            (sym (repository-eq s same))
            (λ p. other (sym named ∙ sym p ∙ find_task-id j db.tasks s found))
    ]

    touched-apart :
        (i j : String) (r s : TaskRow)
        → find_task i db'.tasks ≡ some r
        → find_task j db'.tasks ≡ some s
        → i ≢ j
        → r.repository ≡ s.repository
        → is_live now r ≡ true
        → is_live now s ≡ false
    touched-apart i j r s hi hj other same live = ground (
      arith,
      named,
      eq_iff t.row.id i,
      eq_iff t.row.id j,
      t.lookup i,
      t.lookup j,
      sound.apart i j r s,
      beside i r,
      beside j s,
    )

    touched-IsSound : IsSound now db'
    touched-IsSound = record {
      keys = ap unique t.ids ∙ sound.keys;
      leases = touched-leases;
      audit = touched-audit;
      apart = touched-apart;
    }

  module _ (t : Inserted now db db') where
    pub inserted-lookup :
        (j : String)
        → find_task j db'.tasks ≡ (if t.row.id == j then some t.row else find_task j db.tasks)
    inserted-lookup j = rw t.tasks (find_task-append j db.tasks t.row t.absent)

    not_live : is_live now t.row ≡ false
    unfolding is_live
    not_live = rw (t.new.no_expiry)

    inserted-lease_sound : lease_sound t.row ≡ true
    unfolding lease_sound
    inserted-lease_sound = rw (t.new.no_worker, t.new.no_lease_epoch, t.new.no_expiry)

    inserted-IsSound : IsSound now db'
    inserted-IsSound = record {
      keys = rw t.tasks (unique-append db.tasks t.row t.absent sound.keys);
      leases =
          λ j row h. ground (arith, inserted-lookup j, sound.leases j row, inserted-lease_sound);
      audit = λ j.
          rw (t.logged.appended, replay-append) (ground (arith, inserted-lookup j, sound.audit j));
      apart = λ i j r s hi hj other same live.
          ground (arith, inserted-lookup i, inserted-lookup j, not_live, sound.apart i j r s);
    }

  Step-IsSound : Step now db db' → IsSound now db'
  Step-IsSound (Step.quiet ts es n) = record {
    keys = rw ts sound.keys;
    leases = λ j row h. sound.leases j row (rw ts at h);
    audit = λ j. rw (ts, es) (sound.audit j);
    apart = λ i j r s hi hj. sound.apart i j r s (rw ts at hi) (rw ts at hj);
  }
  Step-IsSound (Step.insert t) = inserted-IsSound t
  Step-IsSound (Step.change task_id t) = touched-IsSound task_id t

pub Steps-IsSound : {now : ℕ} {db db' : Db} → IsSound now db → Steps now db db' → IsSound now db'
Steps-IsSound sound Steps.done = sound
Steps-IsSound sound (Steps.next r s) = Step-IsSound _ _ _ (Steps-IsSound sound r) s

is_live-antitone :
    (now later : ℕ) (row : TaskRow)
    → now ≤ later
    → is_live now row ≡ false
    → is_live later row ≡ false
unfolding is_live
is_live-antitone now later row h dead = ground arith

is_live-earlier :
    (now later : ℕ) (row : TaskRow)
    → now ≤ later
    → is_live later row ≡ true
    → is_live now row ≡ true
unfolding is_live
is_live-earlier now later row h live = ground arith

-- Leases only run out as time passes.
pub IsSound-later : {now later : ℕ} {db : Db} → now ≤ later → IsSound now db → IsSound later db
IsSound-later {now} {later} h sound = record {
  keys = sound.keys;
  leases = sound.leases;
  audit = sound.audit;
  apart = λ i j r s hi hj other same live.
      is_live-antitone now later s h
        (sound.apart i j r s hi hj other same (is_live-earlier now later r h live));
}

pub new_db-IsSound : (now : ℕ) → IsSound now new_db
unfolding find_task replay unique
new_db-IsSound now = record {
  keys = refl;
  leases = λ j row h. cc;
  audit = λ j. refl;
  apart = λ i j r s hi. cc;
}
