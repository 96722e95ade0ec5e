-- ===== src/Devnet/Observations.antt =====
-- The observations of storage/memory/inMemoryDevnetExecutionStateRepository.ts, of the provider that
-- submits and of the one that reconciles.

use zephipay_backend.Common.{
  select, List, is_some, Bool, Option, Result, String, [], any, eqb, err, false, if◌then◌else◌,
  last?, length, none, not, ok, some, throw_if, true, ℕ, ◌&&◌, ◌++◌, ◌+◌, ◌==◌, ◌>>=◌, ◌>>◌, ◌||◌,
  ◌∷◌,
}
use zephipay_backend.Common.Dict.{values, get, set}
use zephipay_backend.Devnet.Repository.{
  find_preparation, is_prepared, DevnetOp, DevnetStore, is_settled_or_failed, observations_of,
  owned_preparation,
}
use zephipay_backend.Devnet.Types.{
  accepted_pending, reconciliation_required, submission_committed, DevnetError,
  DevnetLifecycleState, DevnetReconciliationObservation, DevnetReconciliationOutcome,
  DevnetSubmissionObservation, PersistedDevnetPreparation, ReconciliationEvidence,
  ReconciliationInput, SubmissionInput, commitment_missing, evidence_mismatch, found_failed,
  found_missing, found_pending, found_settled, found_unknown, observation_id_exists,
  preparation_missing, provider_mismatch, signature_mismatch,
}
use zephipay_backend.Devnet.Evidence.{
  assert_reconciliation_evidence, assert_submission_evidence, reconciliation_lifecycle,
  submission_lifecycle,
}
use zephipay_backend.Store.Claims.{DateParser}

abbrev outcome_index : DevnetReconciliationOutcome → ℕ
outcome_index found_missing = 0
outcome_index found_pending = 1
outcome_index found_settled = 2
outcome_index found_failed = 3
outcome_index found_unknown = 4

abbrev same_text : Option String → Option String → Bool
same_text none none = true
same_text (some s) (some t) = s == t
same_text _ _ = false

unfoldable pub same_reconciliation_observation :
    ReconciliationEvidence → ReconciliationEvidence → Bool
same_reconciliation_observation prior other =
    prior.provider_id == other.provider_id
    && prior.signature == other.signature
    && eqb (outcome_index prior.outcome) (outcome_index other.outcome)
    && same_text prior.slot other.slot
    && same_text prior.confirmation_status other.confirmation_status
    && same_text prior.error_code other.error_code

-- The preparation, and the last observation when it is answered again.
unfoldable pub reconciliation_checks :
    DateParser
    → ReconciliationInput
    → DevnetStore
    → Result DevnetError (PersistedDevnetPreparation × Option DevnetReconciliationObservation)
reconciliation_checks parse input s = do
  assert_reconciliation_evidence parse input
  let e = input.evidence
  p ← owned_preparation e.preparation_id e.execution_id e.actor_subject preparation_missing s
  throw_if (not (e.provider_id == p.input.artifact.reconciliation_provider_id)) provider_mismatch
  elim (get e.execution_id s.commitments) [
    | none ↦ err signature_mismatch
    | some c ↦
        throw_if
          (not (e.signature == p.input.artifact.signature) || not (e.signature == c.signature))
          signature_mismatch
  ]
  elim (last? (observations_of e.execution_id s.observations)) [
    | none ↦ ok (p, none)
    | some latest ↦
        if is_settled_or_failed p.state || same_reconciliation_observation latest.evidence e
        then ok (p, some latest)
        else ok (p, none)
  ]

-- The state of a new observation, once its ID is new.
unfoldable pub new_observation_checks :
    ReconciliationEvidence
    → PersistedDevnetPreparation
    → DevnetStore
    → Result DevnetError DevnetLifecycleState
new_observation_checks e p s = do
  state ← reconciliation_lifecycle p.state e.outcome
  throw_if
      (any (λ o. o.evidence.observation_id == e.observation_id)
        (observations_of e.execution_id s.observations))
      observation_id_exists
  ok state

abbrev pub reconciled : ReconciliationEvidence → DevnetStore → DevnetReconciliationObservation
reconciled e s = record {
  evidence = e;
  sequence = length (observations_of e.execution_id s.observations) + 1;
}

abbrev pub put_observation :
    ReconciliationEvidence → PersistedDevnetPreparation → DevnetStore → DevnetStore
put_observation e p s = record s {
  observations =
      set e.execution_id (observations_of e.execution_id s.observations ++ reconciled e s ∷ [])
        s.observations;
  preparations = set p.input.preparation_id p s.preparations;
}

unfoldable pub record_reconciliation_observation :
    DateParser
    → ReconciliationInput
    → DevnetOp (PersistedDevnetPreparation × DevnetReconciliationObservation)
record_reconciliation_observation parse input s = elim (reconciliation_checks parse input s) [
  | err e ↦ (err e, s)
  | ok (p, some latest) ↦ (ok (p, latest), s)
  | ok (p, none) ↦ elim (new_observation_checks input.evidence p s) [
    | err e ↦ (err e, s)
    | ok state ↦ (
      ok (record p { state = state }, reconciled input.evidence s),
      put_observation input.evidence (record p { state = state }) s,
    )
  ]
]

-- The preparation in its new state.
unfoldable pub submission_checks :
    SubmissionInput → DevnetStore → Result DevnetError PersistedDevnetPreparation
submission_checks input s = do
  assert_submission_evidence input
  let e = input.evidence
  p ← owned_preparation e.preparation_id e.execution_id input.actor_subject commitment_missing s
  elim (get e.execution_id s.commitments) [
    | none ↦ err commitment_missing
    | some c ↦ do
      throw_if (not (c.commitment_id == e.commitment_id)) commitment_missing
      throw_if
          (not (e.provider_id == p.input.artifact.submission_provider_id)
            || not (e.signature == c.signature))
          evidence_mismatch
  ]
  state ← submission_lifecycle p.state e.outcome
  throw_if
      (any (λ o. o.observation_id == e.observation_id)
        (observations_of e.execution_id s.submission_observations))
      observation_id_exists
  ok (record p { state = state })

abbrev pub put_submission :
    DevnetSubmissionObservation → PersistedDevnetPreparation → DevnetStore → DevnetStore
put_submission e p s = record s {
  submission_observations =
      set e.execution_id (observations_of e.execution_id s.submission_observations ++ e ∷ [])
        s.submission_observations;
  preparations = set p.input.preparation_id p s.preparations;
}

unfoldable pub record_submission_observation :
    SubmissionInput → DevnetOp (PersistedDevnetPreparation × DevnetSubmissionObservation)
record_submission_observation input s = elim (submission_checks input s) [
  | err e ↦ (err e, s)
  | ok p ↦ (ok (p, input.evidence), put_submission input.evidence p s)
]

unfoldable pub list_reconciliation_observations :
    String → String → DevnetStore → List DevnetReconciliationObservation
list_reconciliation_observations execution actor s =
    if is_some (find_preparation execution actor s)
    then observations_of execution s.observations
    else []

unfoldable pub list_submission_observations :
    String → String → DevnetStore → List DevnetSubmissionObservation
list_submission_observations execution actor s =
    if is_some (find_preparation execution actor s)
    then observations_of execution s.submission_observations
    else []

unfoldable pub list_preparation_eligible : DevnetStore → List PersistedDevnetPreparation
list_preparation_eligible s = select (λ p. is_prepared p.state) (values s.preparations)

abbrev pub is_unreconciled : DevnetLifecycleState → Bool
is_unreconciled submission_committed = true
is_unreconciled accepted_pending = true
is_unreconciled reconciliation_required = true
is_unreconciled _ = false

unfoldable pub list_reconciliation_eligible : DevnetStore → List PersistedDevnetPreparation
list_reconciliation_eligible s = select (λ p. is_unreconciled p.state) (values s.preparations)
