-- ===== src/Ingress/Authority.antt =====
-- The tasks that the events of src/katydid/events.py ask for.
use katydid.Base.{
  Bool, Exception, Option, Result, String, [], ap, concat, decimal, eq_iff, err, false,
  if◌then◌else◌, none, not, ok, pos, refl, some, true, workspace_error, ℕ, ◌==◌, ◌||◌, ◌∙◌, ◌∷◌,
  ◌≡◌,
}
use katydid.Ingress.Events.{
  as_invalid, chain, current_pull_request, current_release, ensure, event_metadata, task_payload,
}
use katydid.Ingress.Readers.{Outside}
use katydid.Ingress.Reconcile.{Ingest}
use katydid.Json.{Value, end, field, num, text}

abbrev pub OnOk : {A : Type 0} → (A → Type 0) → Result A → Type 0
OnOk P (ok a) = P a
OnOk P (err e) = Unit

-- What holds of a result if there is one.
pub record Yields {A : Type 0} (P : A → Type 0) (r : Result A) : Type 0 where
  pub holds : OnOk P r

module _ {A B : Type 0} (P : B → Type 0) where
  Yields-chain :
      (r : Result A) (f : A → Result B)
      → ((a : A) → r ≡ ok a → Yields P (f a))
      → Yields P (chain r f)
  unfolding chain
  Yields-chain (ok a) f h = record { holds = (h a refl).holds }
  Yields-chain (err e) f h = record { holds = tt }

  Yields-through :
      (Q : A → Type 0) (r : Result A) (f : A → Result B)
      → Yields Q r
      → ((a : A) → Q a → Yields P (f a))
      → Yields P (chain r f)
  unfolding chain
  Yields-through Q (ok a) f q h = record { holds = (h a q.holds).holds }
  Yields-through Q (err e) f q h = record { holds = tt }

module _ {B : Type 0} (P : B → Type 0) where
  Yields-ok : (b : B) → P b → Yields P (ok b)
  Yields-ok b h = record { holds = h }

  Yields-ensure :
      (b : Bool) (e : Exception) (r : Result B) → (b ≡ true → Yields P r) → Yields P (ensure b e r)
  unfolding ensure
  Yields-ensure true e r h = record { holds = (h refl).holds }
  Yields-ensure false e r h = record { holds = tt }

  Yields-if :
      (b : Bool) (r s : Result B)
      → (b ≡ true → Yields P r)
      → (b ≡ false → Yields P s)
      → Yields P (if b then r else s)
  Yields-if true r s h k = h refl
  Yields-if false r s h k = k refl

as_invalid-ok : (r : Result String) (s : String) → as_invalid r ≡ ok s → r ≡ ok s
unfolding as_invalid
as_invalid-ok (ok t) s h = h
as_invalid-ok (err workspace_error) s h = cc h
as_invalid-ok (err _) s h = cc h

module _ (outside : Outside) (config_sha256 : String) (i : Ingest) (n : ℕ) where
  abbrev read : String → Result String
  read ref = outside.revision n i.repository.source ref

  abbrev base_ref : String
  base_ref = concat ("refs/heads/" ∷ i.repository.base_branch ∷ [])

  -- A task for the revisions that the source reference and the base branch have in the attempt `n`.
  pub record IsExact (related : String → String → Type 0) (source_ref stage mode : String)
      (payload : Value) : Type 0 where
    pub source_sha : String
    pub base_sha : String
    pub event : Value
    pub asks : payload ≡ task_payload config_sha256 base_sha source_sha source_ref stage mode event
    pub source_read : read source_ref ≡ ok source_sha
    pub relation : related source_sha base_sha
    pub base_read : read base_ref ≡ ok base_sha

  abbrev pub Asks : (String → String → Type 0) → String → String → String → Option Value → Type 0
  Asks related source_ref stage mode none = Unit
  Asks related source_ref stage mode (some payload) = IsExact related source_ref stage mode payload

  -- A pull request leads to no task or to a check of exactly what is current: when `current` of
  -- `_pull_request` gives a payload, it is a task of mode check and stage pull-request, whose
  -- source and base are the revisions read of refs/pull/<number>/head and of the base branch.
  pub current_pull_request-Asks :
      (action : String) (number : ℕ)
      → Yields
          (Asks
            (λ source base. Unit)
            (concat ("refs/pull/" ∷ decimal number ∷ "/head" ∷ []))
            "pull-request"
            "check")
          (current_pull_request outside config_sha256 i action number n)
  unfolding current_pull_request
  current_pull_request-Asks action number = Yields-chain _ _ _ λ pull got.
      Yields-chain _ _ _ λ found read_number. Yields-ensure _ _ _ _ λ same_number.
        Yields-chain _ _ _ λ state read_state. Yields-chain _ _ _ λ base read_base.
          Yields-chain _ _ _ λ repo read_repo. Yields-chain _ _ _ λ base_repo read_name.
            Yields-ensure _ _ _ _ λ same_repo. Yields-chain _ _ _ λ ref read_ref.
              Yields-if _ (not (ref == i.repository.base_branch) || state == "closed") (ok none) _
                (λ closed. Yields-ok _ _ tt)
                λ is_open. Yields-ensure _ _ _ _ λ was_open. Yields-chain _ _ _ λ head read_head.
                  Yields-chain _ _ _ λ source_sha read_source.
                    Yields-chain _ _ _ λ base_sha read_base_sha.
                      Yields-through _
                        (IsExact (λ source base. Unit)
                          (concat ("refs/pull/" ∷ decimal number ∷ "/head" ∷ [])) "pull-request"
                          "check")
                        _ _
                        (Yields-chain _ _ _ λ source got_source.
                          Yields-ensure _ _ _ _ λ same_source.
                            Yields-chain _ _ _ λ base_found got_base.
                              Yields-ensure _ _ _ _ λ same_base.
                                Yields-chain _ _ _ λ head_ref read_head_ref. Yields-ok _ _ (record {
                                  source_sha = source_sha;
                                  base_sha = base_sha;
                                  event = event_metadata i "pull_request" (some action) (
                                      field "number" (num (pos number))
                                        (field "head_ref" (text head_ref) end));
                                  asks = refl;
                                  relation = tt;
                                  source_read =
                                      got_source ∙ ap ok ((eq_iff source source_sha).0 same_source);
                                  base_read =
                                      got_base ∙ ap ok ((eq_iff base_found base_sha).0 same_base);
                                }))
                        λ payload exact. Yields-ok _ _ exact

  -- A published release leads to no task or to a release of the base: when `current` of `_release`
  -- gives a payload, it is a task of mode release and stage release, and the revision of the tag is
  -- that of the base branch.
  pub current_release-Asks :
      (action tag : String)
      → Yields
          (Asks
            (λ source base. source ≡ base)
            (concat ("refs/tags/" ∷ tag ∷ []))
            "release"
            "release")
          (current_release outside config_sha256 i action tag n)
  unfolding current_release
  current_release-Asks action tag = Yields-chain _ _ _ λ source_sha read_source.
      Yields-chain _ _ _ λ base_sha read_base.
        Yields-if _ (source_sha == base_sha) _ (ok none)
          (λ same. Yields-ok _ _ (record {
            source_sha = source_sha;
            base_sha = base_sha;
            event = event_metadata i "release" (some action) (field "tag" (text tag) end);
            asks = refl;
            source_read = as_invalid-ok _ _ read_source;
            relation = (eq_iff source_sha base_sha).0 same;
            base_read = as_invalid-ok _ _ read_base;
          }))
          (λ other. Yields-ok _ _ tt)
