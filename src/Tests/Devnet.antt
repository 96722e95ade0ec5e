-- ===== src/Tests/Devnet.antt =====
-- The store of devnet executions on concrete requests.

use zephipay_backend.Common.{
  is_hash, ◌++◌, List, String, [], false, is_some, none, not, ok, pos, refl, some, trim, true,
  utf16_length, ℕ, ◌∷◌, ◌≡◌,
}
use zephipay_backend.Devnet.Once.{
  observe_submission, authorized_once, commit, devnet_run, devnet_step,
}
use zephipay_backend.Devnet.Repository.{
  active_preparation, DevnetStore, assert_unique, commit_checks, commit_submission, commitment_of,
  committed, empty_devnet, owned_preparation, persist_preparation, prepared, repeated_commit,
}
use zephipay_backend.Common.Dict.{get, set, values}
use zephipay_backend.Devnet.Evidence.{
  assert_prepared_artifact, assert_provider_identities, assert_submission_evidence, is_error_text,
  is_natural_text, is_positive_text, is_status_text, submission_lifecycle,
}
use zephipay_backend.Devnet.Observations.{
  list_reconciliation_eligible, record_submission_observation, submission_checks,
}
use zephipay_backend.Devnet.Types.{
  CommitDevnetSubmissionResult, CommitInput, PersistDevnetPreparationInput,
  PersistedDevnetPreparation, SubmissionInput, accepted_outcome, accepted_pending, contact_accepted,
}
use zephipay_backend.Json.{integer}
use zephipay_backend.Store.Claims.{DateParser}

abbrev some_hash : String
some_hash = "aaaaaaaaaaaaaaaaaaaaaaaaaaaaaaaaaaaaaaaaaaaaaaaaaaaaaaaaaaaaaaaa"

abbrev three : List ℕ
three = 0 ∷ 0 ∷ 0 ∷ []

abbrev first_preparation : PersistDevnetPreparationInput
first_preparation = record {
  preparation_id = "preparation-1";
  execution_id = "execution-1";
  payment_intent_id = "intent-1";
  actor_subject = "actor";
  generation = integer (pos 1);
  encrypted_signed_transaction = record {
    algorithm = "aes-256-gcm";
    key_version = "v1";
    initialization_vector = three ++ three ++ three ++ three;
    authentication_tag = 0 ∷ three ++ three ++ three ++ three ++ three;
    ciphertext = 1 ∷ [];
  };
  artifact = record {
    cluster = "solana-devnet";
    signature = "signature";
    signed_transaction_digest = some_hash;
    source_token_account = "source";
    mint = "mint";
    destination = "destination";
    raw_amount = "25";
    decimals = integer (pos 6);
    last_valid_block_height = "100";
    recent_blockhash = "blockhash";
    signer_key_id = "key";
    signer_key_version = "1";
    signer_public_key = "public";
    policy_hash = some_hash;
    submission_provider_id = "submits";
    reconciliation_provider_id = "reconciles";
  };
  prepared_at = "noon";
}

abbrev any_date : DateParser
any_date s = some (pos 0)

abbrev prepared_store : DevnetStore
prepared_store = (persist_preparation first_preparation empty_devnet).1

abbrev first_commit : CommitInput
first_commit = record {
  execution_id = "execution-1";
  actor_subject = "actor";
  preparation_id = "preparation-1";
  commitment_id = "commitment-1";
  committed_at = "one";
}

-- The outcome of the submission, as its provider reports it.
abbrev first_report : SubmissionInput
first_report = record {
  actor_subject = "actor";
  evidence = record {
    observation_id = "observation-1";
    execution_id = "execution-1";
    preparation_id = "preparation-1";
    commitment_id = "commitment-1";
    provider_id = "submits";
    signature = "signature";
    outcome = accepted_outcome;
    contact_certainty = contact_accepted;
    observed_at = "two";
    provider_error_code = none;
    slot = none;
    confirmation_status = none;
  };
}

abbrev reported_preparation : PersistedDevnetPreparation
reported_preparation = record {
  input = first_preparation;
  state = accepted_pending;
  abandoned_at = none;
  committed_at = some "one";
}

abbrev first_answer : CommitDevnetSubmissionResult
first_answer = record {
  preparation = committed first_commit (prepared first_preparation);
  commitment = commitment_of first_commit (prepared first_preparation);
  submission_authorized = true;
}

abbrev second_answer : CommitDevnetSubmissionResult
second_answer = record first_answer {
  preparation = reported_preparation;
  submission_authorized = false;
}

first_commit_lem : (commit_submission first_commit prepared_store).0 ≡ ok first_answer
unfolding persist_preparation assert_prepared_artifact assert_provider_identities assert_unique
    active_preparation commit_submission commit_checks repeated_commit owned_preparation devnet_run
    devnet_step record_submission_observation submission_checks assert_submission_evidence
    submission_lifecycle list_reconciliation_eligible is_positive_text is_natural_text
    is_status_text is_error_text trim utf16_length is_hash get set values
first_commit_lem = refl

second_commit_lem :
    (commit_submission first_commit (
      devnet_run any_date
        (commit first_commit ∷ observe_submission first_report ∷ [])
        prepared_store)).0
    ≡ ok second_answer
unfolding persist_preparation assert_prepared_artifact assert_provider_identities assert_unique
    active_preparation commit_submission commit_checks repeated_commit owned_preparation devnet_run
    devnet_step record_submission_observation submission_checks assert_submission_evidence
    submission_lifecycle list_reconciliation_eligible is_positive_text is_natural_text
    is_status_text is_error_text trim utf16_length is_hash get set values
second_commit_lem = refl

-- The commitment is found, and what is left to reconcile is the reported preparation.
unreconciled_lem :
    list_reconciliation_eligible (
      devnet_run any_date
        (commit first_commit ∷ observe_submission first_report ∷ [])
        prepared_store)
    ≡ reported_preparation ∷ []
unfolding persist_preparation assert_prepared_artifact assert_provider_identities assert_unique
    active_preparation commit_submission commit_checks repeated_commit owned_preparation devnet_run
    devnet_step record_submission_observation submission_checks assert_submission_evidence
    submission_lifecycle list_reconciliation_eligible is_positive_text is_natural_text
    is_status_text is_error_text trim utf16_length is_hash get set values
unreconciled_lem = refl

authorized_once_example :
    (first_answer.submission_authorized
      ≡ not (is_some (get "execution-1" prepared_store.commitments)))
    × (second_answer.submission_authorized ≡ false)
    × (second_answer.commitment ≡ first_answer.commitment)
authorized_once_example =
    authorized_once any_date first_commit prepared_store first_answer
      (observe_submission first_report ∷ []) first_commit second_answer first_commit_lem refl
      second_commit_lem
