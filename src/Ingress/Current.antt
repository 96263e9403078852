-- ===== src/Ingress/Current.antt =====
-- What `_store_grouped` of src/katydid/events.py stores.
use katydid.Base.{
  Bool, Exception, Exec, Option, Result, String, arith, attempt, err, event_conflict,
  event_not_found, event_race, inl, inr, none, ok, pos, raise, refl, some, suc, true, zero, ℕ, ◌+◌,
  ◌>>=◌, ◌≡◌, ◌⊎◌,
}
use katydid.Ingress.Readers.{
  Answer, Outside, RepositoryConfig, before_build, before_ingest, before_version, receipt_status,
}
use katydid.Ingress.Reconcile.{
  Ingest, built, delivery, duplicate, found_duplicate, max_reconcile_attempts, or_again, reconcile,
  store_grouped, stored,
}
use katydid.Json.{Value}
use katydid.Store.Ingest.{Delivery, Receipt, alias_delivery, find_version, known_delivery, or_zero}
use katydid.Store.Outcome.{
  OnReturn, Outcome, Outcome-ok, Outcome-require, Returns, Returns-bind_assoc, Returns-gets,
  Returns-lift, Returns-modify, Returns-pure, Returns-pure-bind, Returns-refuse, Returns-require,
  Returns-weaken, write-Outcome,
}
use katydid.Store.Replacing.{Returns-next_version, Returns-receipt, VersionFor}
use katydid.Store.Schema.{Db, DeliveryRow}
use katydid.Store.Supersede.{group_version, ingest_event, new_delivery, or_known, or_new}

-- What `ingest_event` has compared before it makes anything new.
abbrev IsMatched : Delivery → Db → Receipt × Bool → Type 0
IsMatched d db result = (result.1 ≡ true) ⊎ ((version : Option ℕ) × VersionFor d.group d db version)

Returns-const : {A : Type 0} (P : Type 0) (db : Db) (m : Exec Db A) → P → Returns (λ a s. P) db m
Returns-const {A} P db m h = record { holds = go (m db) }
  where
    go : (r : Result A × Db) → OnReturn (λ a s. P) r
    go (ok a, s) = h
    go (err e, s) = tt

Returns-attempt :
    {A B : Type 0} (Q : A → Db → Type 0) (db : Db) (m : Exec Db B) (f : Result B → Exec Db A)
    → ((r : Result B) (s : Db) → m db ≡ (r, s) → Returns Q s (f r))
    → Returns Q db (attempt m >>= f)
unfolding ◌>>=◌ attempt
Returns-attempt Q db m f h = record { holds = (h (m db).0 (m db).1 refl).holds }

Returns-raise :
    {A : Type 0} (Q : A → Db → Type 0) (db : Db) (e : Exception) → Returns Q db (raise e)
unfolding ◌>>=◌
Returns-raise Q db e = record { holds = tt }

Returns-raise-bind :
    {A B : Type 0} (Q : A → Db → Type 0) (db : Db) (e : Exception) (f : B → Exec Db A)
    → Returns Q db (raise e >>= f)
unfolding ◌>>=◌
Returns-raise-bind Q db e f = record { holds = tt }

module _ (d : Delivery) (db : Db) where
  known-IsMatched :
      (row : DeliveryRow) → Returns (λ result s. IsMatched d db result) db (known_delivery d row)
  unfolding known_delivery
  known-IsMatched row = Returns-receipt d row _ λ r same_task same_version.
      Returns-require _ _ _ _ _
        λ same. Returns-refuse _ _ _ _ _ λ agrees. Returns-pure _ _ _ (inl refl)

  alias-IsMatched :
      (key : String) (canonical : DeliveryRow)
      → Returns (λ result s. IsMatched d db result) db (alias_delivery d key canonical)
  unfolding alias_delivery
  alias-IsMatched key canonical = Returns-require _ _ _ _ _ λ same. Returns-modify _ _ _ _ (
      Returns-modify _ _ _ _
        (Returns-receipt d _ _ λ r same_task same_version. Returns-pure _ _ _ (inl refl)))

  new-IsMatched : Returns (λ result s. IsMatched d db result) db (new_delivery d)
  unfolding new_delivery
  new-IsMatched = Returns-lift _ _ _ _ λ payload accepted.
      Returns-next_version d d.group _ λ version versioned.
        Returns-weaken (λ a s matched. inr (version, versioned)) (Returns-const (Unit {0}) db _ tt)

  or_new-IsMatched :
      (key : Option String) (canonical : Option DeliveryRow)
      → Returns (λ result s. IsMatched d db result) db (or_new d key canonical)
  or_new-IsMatched none c = new-IsMatched
  or_new-IsMatched (some key) none = new-IsMatched
  or_new-IsMatched (some key) (some c) = alias-IsMatched key c

  or_known-IsMatched :
      (existing : Option DeliveryRow)
      → Returns (λ result s. IsMatched d db result) db (or_known d existing)
  or_known-IsMatched (some row) = known-IsMatched row
  or_known-IsMatched none = Returns-gets _ _ _ _ (or_new-IsMatched d.replay_key _)

  ingest_event-IsMatched : Outcome (λ result s. IsMatched d db result) db (ingest_event d)
  unfolding ingest_event
  ingest_event-IsMatched =
      Outcome-require _ _ _ _ _
        λ valid. write-Outcome _ _ _ (Returns-gets _ _ _ _ (or_known-IsMatched _))

abbrev version_of : RepositoryConfig → String → Db → ℕ
version_of repository group db = or_zero (find_version repository.id group db.event_groups)

module _ (outside : Outside) (i : Ingest) (group : String)
    (build_payload : ℕ → Db → Result (Option Value)) where
  -- The moment at which the attempt builds the payload, where the version was read in `read`.
  abbrev built_in : ℕ → Db → Db
  built_in n read = outside.others (before_build n) read

  -- The tables that the attempt stores it in.
  abbrev stored_in : ℕ → Db → Db
  stored_in n read = outside.others (before_ingest n) (built_in n read)

  -- What was stored in the attempt `n`: what was built at a moment after the group's version was
  -- read, and no other connection has changed the version from its reading until it was stored.
  pub record IsCurrent (answer : Answer) (stored_db : Db) : Type 0 where
    pub n : ℕ
    pub payload : Option Value
    pub read : Db
    pub was_built : build_payload n (built_in n read) ≡ ok payload
    pub unchanged :
        version_of i.repository group (stored_in n read) ≡ version_of i.repository group read
    pub made : Receipt × Bool
    pub was_stored :
        ingest_event
          (delivery outside i n payload
            (some group)
            (some (pos (version_of i.repository group read))))
          (stored_in n read)
        ≡ (ok made, stored_db)
    pub answered : answer ≡ receipt_status made

  abbrev pub IsReconciled : Answer → Db → Type 0
  IsReconciled answer db = (answer.duplicate ≡ true) ⊎ IsCurrent answer db

  duplicate-answer :
      (again : Exec Db Answer) (known : Result Receipt) (s : Db)
      → Returns IsReconciled s again
      → Returns IsReconciled s
          (found_duplicate outside i known >>= or_again outside i group build_payload again)
  unfolding receipt_status
  duplicate-answer again (ok found) s h = Returns-bind_assoc _ _ _ _ _ (
      Returns-refuse _ _ _ _ _ λ same.
        Returns-pure-bind _ _ _ _
          (Returns-pure IsReconciled s (receipt_status (found, true)) (inl refl)))
  duplicate-answer again (err event_not_found) s h = Returns-pure-bind _ _ _ _ h
  duplicate-answer again (err _) s h = Returns-raise-bind _ _ _ _

  stored-IsReconciled :
      (again : Exec Db Answer) (n : ℕ) (payload : Option Value) (read : Db)
      → ((s : Db) → Returns IsReconciled s again)
      → build_payload n (built_in n read) ≡ ok payload
      → (r : Result (Receipt × Bool)) (s : Db)
      → ingest_event
          (delivery outside i n payload
            (some group)
            (some (pos (version_of i.repository group read))))
          (stored_in n read)
        ≡ (r, s)
      → Returns IsReconciled s (stored outside i group build_payload again n r)
  unfolding duplicate receipt_status delivery
  stored-IsReconciled again n payload read h b (ok made) s e =
      Returns-pure _ _ _ (elim (Outcome-ok (ingest_event-IsMatched _ _) e) [
        | inl dup ↦ inl dup
        | inr (version, (v, matches)) ↦ inr (record {
          n = n;
          payload = payload;
          was_built = b;
          read = read;
          unchanged = ground arith;
          made = made;
          was_stored = e;
          answered = refl;
        })
      ])
  stored-IsReconciled again n payload read h b (err event_conflict) s e = Returns-modify _ _ _ _ (
      Returns-bind_assoc _ _ _ _ _
        (Returns-attempt _ _ _ _ λ known s' e'. duplicate-answer again known s' (h s')))
  stored-IsReconciled again n payload read h b (err _) s e = Returns-raise _ _ _

  built-IsReconciled :
      (again : Exec Db Answer) (n : ℕ) (read : Db)
      → ((s : Db) → Returns IsReconciled s again)
      → (r : Result (Option Value)) → build_payload n (built_in n read) ≡ r
      → Returns IsReconciled
          (built_in n read)
          (built outside i group build_payload again n (version_of i.repository group read) r)
  built-IsReconciled again n read h (ok payload) b =
      Returns-modify _ _ _ _
        (Returns-attempt _ _ _ _ λ r s e. stored-IsReconciled again n payload read h b r s e)
  built-IsReconciled again n read h (err event_race) b = h (built_in n read)
  built-IsReconciled again n read h (err _) b = Returns-raise _ _ _

  reconcile-IsReconciled :
      (left n : ℕ) (db : Db)
      → Returns IsReconciled db (reconcile outside i group build_payload left n)
  unfolding reconcile group_version
  reconcile-IsReconciled zero n db = Returns-raise _ _ _
  reconcile-IsReconciled (suc left) n db =
      let read = outside.others (before_version n) db in
      Returns-modify _ _ _ _ (
        Returns-bind_assoc _ _ _ _ _ (
          Returns-require _ _ _ _ _ λ valid. Returns-gets _ _ _ _ (
            Returns-modify _ _ _ _ (
              Returns-gets _ _ _ _ (
                built-IsReconciled _ n read (λ s. reconcile-IsReconciled left (n + 1) s)
                  (build_payload n (built_in n read)) refl)))))

  -- What is stored was current: when `store_grouped` returns, whatever other connections commit
  -- before each attempt, between its reading of the version and the call of build_payload, and
  -- between that and its call of `ingest_event`, the delivery was a duplicate, or the payload stored
  -- was built in some attempt at the moment after the version of the group was read, nobody has
  -- changed that version from its reading until the payload was stored, and the tables and the
  -- answer are those of `ingest_event` with it.
  pub store_grouped-IsReconciled :
      (db : Db) → Returns IsReconciled db (store_grouped outside i group build_payload)
  unfolding store_grouped
  store_grouped-IsReconciled db = reconcile-IsReconciled max_reconcile_attempts 0 db
