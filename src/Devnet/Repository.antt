-- ===== src/Devnet/Repository.antt =====
-- storage/memory/inMemoryDevnetExecutionStateRepository.ts. The queue that makes operations exclusive
-- is the order of the calls; frozen copies are the values. `parse` is Date.parse.

use zephipay_backend.Common.{
  Bool, List, Option, Result, String, [], eqb, err, false, find, if◌then◌else◌, is_some, none, not,
  ok, pos, some, throw_if, true, ◌&&◌, ◌+◌, ◌==◌, ◌>>=◌, ◌>>◌, ◌||◌, ◌∷◌,
}
use zephipay_backend.Common.Dict.{Dict, get, has, set, values}
use zephipay_backend.Devnet.Evidence.{assert_prepared_artifact}
use zephipay_backend.Devnet.Types.{
  CommitDevnetSubmissionResult, CommitInput, DevnetError, DevnetLifecycleState,
  DevnetReconciliationObservation, DevnetSubmissionCommitmentRecord, DevnetSubmissionObservation,
  PersistDevnetPreparationInput, PersistedDevnetPreparation, ReplaceInput, abandoned_pre_contact,
  already_contacted, commitment_conflict, devnet_failed, devnet_settled, devnet_signature_exists,
  digest_exists, generation_not_next, preparation_active, preparation_id_exists,
  preparation_missing, prepared_not_contacted, prior_committed, prior_missing, stray_commitment,
  submission_committed,
}
use zephipay_backend.Json.{Double, integer}

pub record DevnetStore : Type 0 where
  pub preparations : Dict PersistedDevnetPreparation
  pub commitments : Dict DevnetSubmissionCommitmentRecord
  pub observations : Dict (List DevnetReconciliationObservation)
  pub submission_observations : Dict (List DevnetSubmissionObservation)

abbrev pub empty_devnet : DevnetStore
empty_devnet = record {
  preparations = [];
  commitments = [];
  observations = [];
  submission_observations = [];
}

abbrev pub DevnetOp : Type 0 → Type 0
DevnetOp A = DevnetStore → Result DevnetError A × DevnetStore

abbrev pub is_prepared : DevnetLifecycleState → Bool
is_prepared prepared_not_contacted = true
is_prepared _ = false

abbrev pub is_abandoned : DevnetLifecycleState → Bool
is_abandoned abandoned_pre_contact = true
is_abandoned _ = false

abbrev pub is_settled_or_failed : DevnetLifecycleState → Bool
is_settled_or_failed devnet_settled = true
is_settled_or_failed devnet_failed = true
is_settled_or_failed _ = false

unfoldable pub active_preparation : String → DevnetStore → Option PersistedDevnetPreparation
active_preparation execution s =
    find (λ p. p.input.execution_id == execution && not (is_abandoned p.state))
      (values s.preparations)

-- `map.get(id) ?? []`
abbrev pub observations_of {ℓ} : {A : Type ℓ} → String → Dict (List A) → List A
observations_of id m = elim (get id m) [ none ↦ [] | some list ↦ list ]

-- The loop of `assertUnique`, with the first error it meets.
unfoldable pub assert_unique :
    PersistDevnetPreparationInput → List PersistedDevnetPreparation → Result DevnetError (Unit {0})
assert_unique input [] = ok tt
assert_unique input (p ∷ rest) = do
  throw_if (p.input.preparation_id == input.preparation_id) preparation_id_exists
  throw_if (p.input.artifact.signature == input.artifact.signature) devnet_signature_exists
  throw_if (p.input.artifact.signed_transaction_digest == input.artifact.signed_transaction_digest)
      digest_exists
  assert_unique input rest

abbrev pub prepared : PersistDevnetPreparationInput → PersistedDevnetPreparation
prepared input = record {
  input = input;
  state = prepared_not_contacted;
  abandoned_at = none;
  committed_at = none;
}

abbrev pub put_preparation : PersistedDevnetPreparation → DevnetStore → DevnetStore
put_preparation p s = record s { preparations = set p.input.preparation_id p s.preparations }

unfoldable pub persist_preparation :
    PersistDevnetPreparationInput → DevnetOp PersistedDevnetPreparation
persist_preparation input s =
    elim (assert_prepared_artifact input
      >> assert_unique input (values s.preparations)
      >> throw_if (is_some (active_preparation input.execution_id s)) preparation_active) [
        | err e ↦ (err e, s)
        | ok _ ↦ (ok (prepared input), put_preparation (prepared input) s)
      ]

-- The preparation of an ID, when it is of the given execution and owner.
unfoldable pub owned_preparation :
    String
    → String
    → String
    → DevnetError
    → DevnetStore
    → Result DevnetError PersistedDevnetPreparation
owned_preparation id execution actor e s = elim (get id s.preparations) [
  | none ↦ err e
  | some p ↦
      throw_if (not (p.input.execution_id == execution) || not (p.input.actor_subject == actor)) e
      >> ok p
]

-- `n === prior + 1` on generations, which are whole.
abbrev pub follows : Double → Double → Bool
follows (integer (pos n)) (integer (pos prior)) = eqb n (prior + 1)
follows _ _ = false

-- The preparation that is to be replaced.
unfoldable pub replace_checks :
    ReplaceInput → DevnetStore → Result DevnetError PersistedDevnetPreparation
replace_checks input s = do
  assert_prepared_artifact input.replacement
  prior ←
      owned_preparation input.prior_preparation_id input.replacement.execution_id
        input.replacement.actor_subject prior_missing s
  throw_if (not (is_prepared prior.state) || has prior.input.execution_id s.commitments)
      prior_committed
  throw_if (not (follows input.replacement.generation prior.input.generation)) generation_not_next
  assert_unique input.replacement (values s.preparations)
  ok prior

unfoldable pub replace_expired_preparation : ReplaceInput → DevnetOp PersistedDevnetPreparation
replace_expired_preparation input s = elim (replace_checks input s) [
  | err e ↦ (err e, s)
  | ok prior ↦ (
    ok (prepared input.replacement),
    put_preparation (prepared input.replacement) (
        put_preparation
          (record prior { state = abandoned_pre_contact; abandoned_at = some input.abandoned_at })
          s),
  )
]

-- A commitment without its preparation, of which `clonePreparation` throws, is `stray_commitment`.
unfoldable pub repeated_commit :
    CommitInput
    → DevnetSubmissionCommitmentRecord
    → DevnetStore
    → Result DevnetError CommitDevnetSubmissionResult
repeated_commit input existing_one s = do
  throw_if
      (not (existing_one.preparation_id == input.preparation_id)
        || not (existing_one.commitment_id == input.commitment_id))
      commitment_conflict
  elim (get existing_one.preparation_id s.preparations) [
    | none ↦ err stray_commitment
    | some p ↦
        ok (record { preparation = p; commitment = existing_one; submission_authorized = false })
  ]

unfoldable pub commit_checks :
    CommitInput → DevnetStore → Result DevnetError PersistedDevnetPreparation
commit_checks input s = do
  p ←
      owned_preparation input.preparation_id input.execution_id input.actor_subject
        preparation_missing s
  throw_if (not (is_prepared p.state)) already_contacted
  ok p

abbrev pub commitment_of :
    CommitInput → PersistedDevnetPreparation → DevnetSubmissionCommitmentRecord
commitment_of input p = record {
  commitment_id = input.commitment_id;
  execution_id = input.execution_id;
  preparation_id = input.preparation_id;
  signature = p.input.artifact.signature;
  signed_transaction_digest = p.input.artifact.signed_transaction_digest;
  committed_at = input.committed_at;
}

abbrev pub committed : CommitInput → PersistedDevnetPreparation → PersistedDevnetPreparation
committed input p = record p {
  state = submission_committed;
  committed_at = some input.committed_at;
}

abbrev pub put_commitment : CommitInput → PersistedDevnetPreparation → DevnetStore → DevnetStore
put_commitment input p s = record s {
  commitments = set input.execution_id (commitment_of input p) s.commitments;
  preparations = set input.preparation_id (committed input p) s.preparations;
}

unfoldable pub commit_submission : CommitInput → DevnetOp CommitDevnetSubmissionResult
commit_submission input s = elim (get input.execution_id s.commitments) [
  | some existing_one ↦ (repeated_commit input existing_one s, s)
  | none ↦ elim (commit_checks input s) [
    | err e ↦ (err e, s)
    | ok p ↦ (
      ok (record {
        preparation = committed input p;
        commitment = commitment_of input p;
        submission_authorized = true;
      }),
      put_commitment input p s,
    )
  ]
]

-- An active_preparation preparation of the actor.
unfoldable pub find_preparation : String → String → DevnetStore → Option PersistedDevnetPreparation
find_preparation execution actor s = elim (active_preparation execution s) [
  | none ↦ none
  | some p ↦ if p.input.actor_subject == actor then some p else none
]

unfoldable pub find_commitment :
    String → String → DevnetStore → Option DevnetSubmissionCommitmentRecord
find_commitment execution actor s =
    if is_some (find_preparation execution actor s) then get execution s.commitments else none
