-- ===== src/Ingress/Reconcile.antt =====
-- How src/katydid/events.py stores a delivery: `_duplicate`, `_replay`, `_ignored` and the loop of
-- `_store_grouped`. Between its calls of the store others may commit (`Outside.others`).
use katydid.Base.{
  Bool, Exec, Option, Result, String, attempt, err, event_conflict, event_not_found, event_race,
  false, gets, modify, none, not, ok, pos, pure, raise, refuse, some, suc, true, zero, ℕ, ℤ, ◌+◌,
  ◌==◌, ◌>>=◌, ◌>>◌, ◌||◌,
}
use katydid.Evidence.Gate.{expected}
use katydid.Ingress.Readers.{
  Answer, Outside, RepositoryConfig, after_conflict, before_build, before_ingest, before_version,
  ignored, receipt_status,
}
use katydid.Json.{Value}
use katydid.Store.Ingest.{Delivery, Receipt, receipt}
use katydid.Store.Schema.{Db}
use katydid.Store.Supersede.{get_event, get_replay, group_version, ingest_event}

abbrev pub max_reconcile_attempts : ℕ
max_reconcile_attempts = 3

-- The delivery that is being ingested: its identifiers and digests.
pub record Ingest : Type 0 where
  pub delivery_id : String
  pub body_sha256 : String
  pub replay_key : String
  pub repository : RepositoryConfig
  pub github_repository : String

module _ (outside : Outside) (i : Ingest) where
  abbrev disagreeing_key : Option String → Bool
  disagreeing_key none = false
  disagreeing_key (some key) = not (key == i.replay_key)

  abbrev pub found_duplicate : Result Receipt → Exec Db (Option Answer)
  found_duplicate (err event_not_found) = pure none
  found_duplicate (err e) = raise e
  found_duplicate (ok receipt) = do
    refuse
        (not (receipt.body_sha256 == i.body_sha256)
          || not (receipt.repository == i.repository.id)
          || disagreeing_key receipt.replay_key)
        event_conflict
    pure (some (receipt_status (receipt, true)))

  unfoldable pub duplicate : Exec Db (Option Answer)
  duplicate = attempt (get_event "github" i.delivery_id) >>= found_duplicate

  -- The arguments of `store.ingest_event` in the attempt `n`.
  unfoldable pub delivery :
      ℕ → Option Value → (group : Option String) (expected : Option ℤ) → Delivery
  delivery n payload group expected = record {
    now = outside.now n;
    new_id = outside.new_id n;
    provider = "github";
    delivery_id = i.delivery_id;
    body_sha256 = i.body_sha256;
    repository = i.repository.id;
    payload = payload;
    group = group;
    expected_group_version = expected;
    replay_key = some i.replay_key;
  }

  abbrev found_replay : Result Receipt → Exec Db (Option Answer)
  found_replay (err event_not_found) = pure none
  found_replay (err e) = raise e
  found_replay (ok canonical) = do
    made ← ingest_event (delivery 0 none none none)
    pure (some (receipt_status made))

  unfoldable pub replay : Exec Db (Option Answer)
  replay = attempt (get_replay "github" i.repository.id i.replay_key) >>= found_replay

  unfoldable pub ignore : String → Exec Db Answer
  ignore reason = do
    made ← ingest_event (delivery 0 none none none)
    pure (record { receipt = made.0; duplicate = made.1; status = ignored; reason = some reason })

  module _ (group : String) (build_payload : ℕ → Db → Result (Option Value)) where
    -- What follows a conflict: the answer of the same delivery, or the next attempt.
    abbrev pub or_again : Exec Db Answer → Option Answer → Exec Db Answer
    or_again again none = again
    or_again again (some answer) = pure answer

    abbrev pub stored : Exec Db Answer → ℕ → Result (Receipt × Bool) → Exec Db Answer
    stored again n (ok made) = pure (receipt_status made)
    stored again n (err event_conflict) = do
      modify (outside.others (after_conflict n))
      known ← duplicate
      or_again again known
    stored again n (err e) = raise e

    abbrev pub built : Exec Db Answer → ℕ → ℕ → Result (Option Value) → Exec Db Answer
    built again n version (err event_race) = again
    built again n version (err e) = raise e
    built again n version (ok payload) = do
      modify (outside.others (before_ingest n))
      made ← attempt (ingest_event (delivery n payload (some group) (some (pos version))))
      stored again n made

    -- The loop, with the number of attempts left and of the next one. What others commit before an
    -- attempt reads the version is after the race or the conflict of the attempt before;
    -- `build_payload` is called at a moment, given by the attempt and what is committed by then.
    unfoldable pub reconcile : ℕ → ℕ → Exec Db Answer
    reconcile zero n = raise event_race
    reconcile (suc left) n = do
      modify (outside.others (before_version n))
      version ← group_version i.repository.id group
      modify (outside.others (before_build n))
      moment ← gets (λ db. db)
      built (reconcile left (n + 1)) n version (build_payload n moment)

    unfoldable pub store_grouped : Exec Db Answer
    store_grouped = reconcile max_reconcile_attempts 0
