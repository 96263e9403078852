-- ===== src/Store/Success.antt =====
-- `record_release_success` of src/katydid/store.py. `directories` is the outcome of the test of the
-- release directories, and `pointer` that of writing and replacing last-success.json.
use katydid.Base.{
  Bool, Exec, List, Result, String, [], all, codes, eqb, false, invalid_transition, is_hex, leb,
  length, lift, modify, require, value_error, ℕ, ◌&&◌, ◌>>=◌, ◌>>◌, ◌||◌, ◌∷◌,
}
use katydid.Json.{end, field, obj, text}
use katydid.Store.Schema.{Db, Lease, is_monitoring, monitoring, release_success}
use katydid.Store.Transaction.{leased_task, log_event, write}

unfoldable pub is_commit_sha : String → Bool
is_commit_sha sha = is_hex 40 sha || is_hex 64 sha

abbrev is_lower : ℕ → Bool
is_lower c = leb b'a' c && leb c b'z'

abbrev is_id_code : ℕ → Bool
is_id_code c = is_lower c || (leb b'0' c && leb c b'9') || eqb c b'-'

abbrev is_id_codes : List ℕ → Bool
is_id_codes [] = false
is_id_codes (c ∷ cs) = is_lower c && leb (length cs) 63 && all is_id_code cs

unfoldable pub is_repository_id : String → Bool
is_repository_id s = is_id_codes (codes s)

module _ (directories pointer : Result (Unit {0})) where
  unfoldable pub record_release_success : ℕ → Lease → String → Exec Db (Unit {0})
  record_release_success now lease sha = do
    require (is_commit_sha sha) value_error
    write do
      row ← leased_task now lease
      require (is_monitoring row.state) invalid_transition
      require (is_repository_id row.repository) value_error
      lift directories
      lift pointer
      modify (
          log_event lease.task_id release_success monitoring lease.epoch
            (obj (field "commit" (text sha) end)) now)
