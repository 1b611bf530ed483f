-- ===== src/Policies/Bundles.antt =====
-- PolicyBundleService of trpc_service/policy_bundles.py, with a signing key that is not empty. A
-- negative canary percentage, which the CHECK of tenant.policy_bundle refuses, is not represented. An
-- activation is one step that no other call interleaves, which the source does not ensure: its transaction
-- is READ COMMITTED and locks the row of its own version only.
use trpc_agent_service_douzh.Prelude.{
  ℕ, ◌+◌, String, List, [], ◌∷◌, ◌++◌, Option, none, some, Bool, true, false, not, ◌&&◌, ◌||◌, ltb,
  leb, ◌==◌, if◌then◌else◌, find, exists, update_where, max_of,
}
use trpc_agent_service_douzh.Prelude.Action.{
  Action, ok, err, pure, raise_if, gets, or_raise, modify, transaction, ◌>>=◌, ◌>>◌,
}
use trpc_agent_service_douzh.Prelude.Json.{Json}
use trpc_agent_service_douzh.Governance.Rules.{GovernanceRules}
use trpc_agent_service_douzh.Policies.Signing.{
  Library, compile_bundle, sign_bundle, verify_bundle, canary_bucket,
}

pub data BundleStatus : Type 0 where
  draft active canary retired : BundleStatus

pub data PolicyBundleError : Type 0 where
  not_found signature_invalid unavailable : PolicyBundleError
  -- ValidationError of `model_validate`, and a constraint of the table.
  validation_error integrity_error : PolicyBundleError

-- A row of tenant.policy_bundle.
pub record BundleRow : Type 0 where
  pub version : ℕ
  pub rules : Json
  pub bundle : Json
  pub signature : String
  pub status : BundleStatus
  pub canary_percentage : ℕ
  pub created_by : String
  pub activated_at : Option ℕ

abbrev pub is_active : BundleRow → Bool
is_active row = elim row.status [ active ↦ true | _ ↦ false ]

abbrev pub is_canary : BundleRow → Bool
is_canary row = elim row.status [ canary ↦ true | _ ↦ false ]

abbrev pub has_version : ℕ → BundleRow → Bool
has_version version row = row.version == version

-- `_next_version`, in a transaction of its own.
unfoldable pub next_version : List BundleRow → ℕ
next_version rows = max_of (λ (row : BundleRow). row.version) rows + 1

-- The first row in the order of the versions that meets a test.
unfoldable pub first_of : (BundleRow → Bool) → List BundleRow → Option BundleRow
first_of test [] = none
first_of test (row ∷ rows) =
    let rest = first_of test rows in
    if test row
    then elim rest [
      | none ↦ some row
      | some other ↦ some (if leb row.version other.version then row else other)
    ]
    else rest

abbrev pub retire : BundleRow → BundleRow
retire row = record row { status = retired; canary_percentage = 0 }

abbrev pub place : (now : ℕ) → BundleStatus → ℕ → BundleRow → BundleRow
place now status percentage row = record row {
  status = status;
  canary_percentage = percentage;
  activated_at = some now;
}

pub record ResolvedPolicy : Type 0 where
  pub version : ℕ
  pub rules : GovernanceRules
  pub canary : Bool

-- The rows that retire for a version: of a stable one every other in place, of a canary the other
-- canary.
abbrev pub displaced : ℕ → ℕ → BundleRow → Bool
displaced percentage version row =
    (if ltb 0 percentage then is_canary row else is_active row || is_canary row)
    && not (has_version version row)

abbrev pub status_for : ℕ → BundleStatus
status_for percentage = if ltb 0 percentage then canary else active

module _ (library : Library) (signing_key : String) where
  -- The insertion of `create_version`, in a second transaction.
  unfoldable pub insert_version :
      ℕ → GovernanceRules → (actor : String) → Action (List BundleRow) PolicyBundleError BundleRow
  insert_version version rules actor rows =
      let row : BundleRow = record {
        version = version;
        rules = library.model_dump rules;
        bundle = compile_bundle rules version;
        signature = sign_bundle library rules version signing_key;
        status = draft;
        canary_percentage = 0;
        created_by = actor;
        activated_at = none;
      } in
      if exists (has_version version) rows
      then (err integrity_error, rows)
      else (ok row, rows ++ (row ∷ []))

  unfoldable pub create_version :
      GovernanceRules → (actor : String) → Action (List BundleRow) PolicyBundleError BundleRow
  create_version rules actor = do version ← gets next_version; insert_version version rules actor

  -- The statements of `activate`, inside its transaction.
  unfoldable pub activation :
      (now : ℕ) → (version percentage : ℕ) → Action (List BundleRow) PolicyBundleError BundleRow
  activation now version percentage = do
    found ← gets (find (has_version version))
    row ← or_raise found not_found
    rules ← or_raise (library.model_validate row.rules) validation_error
    raise_if (not (verify_bundle library rules version row.signature signing_key)) signature_invalid
    modify (update_where (displaced percentage version) retire)
    raise_if (not (leb percentage 100)) integrity_error
    modify (update_where (has_version version) (place now (status_for percentage) percentage))
    pure (place now (status_for percentage) percentage row)

  unfoldable pub activate :
      (now : ℕ) → (version percentage : ℕ) → Action (List BundleRow) PolicyBundleError BundleRow
  activate now version percentage = transaction (activation now version percentage)

  -- The check of the row that was chosen.
  unfoldable pub open_row :
      Bool → BundleRow → Action (List BundleRow) PolicyBundleError (Option ResolvedPolicy)
  open_row used row = do
    rules ← or_raise (library.model_validate row.rules) validation_error
    raise_if (not (verify_bundle library rules row.version row.signature signing_key))
        signature_invalid
    pure (some (record { version = row.version; rules = rules; canary = used }))

  abbrev pub takes_canary : String → BundleRow → Bool
  takes_canary decision_key row =
      ltb 0 row.canary_percentage && ltb (canary_bucket library decision_key) row.canary_percentage

  unfoldable pub resolve :
      (decision_key : String) → Action (List BundleRow) PolicyBundleError (Option ResolvedPolicy)
  resolve decision_key rows = elim (first_of is_active rows) [
    | none ↦ elim (first_of is_canary rows) [
      | none ↦ (ok none, rows)
      | some _ ↦ (err unavailable, rows)
    ]
    | some stable ↦ elim (first_of is_canary rows) [
      | none ↦ open_row false stable rows
      | some other ↦
          if takes_canary decision_key other
          then open_row true other rows
          else open_row false stable rows
    ]
  ]
