-- ===== src/Devnet/Types.antt =====
-- The types of devnet/devnetExecutionState.ts. Of a prepared transaction, the fields that this
-- repository reads; a buffer is the list of its bytes. Generations stay below 2^53.

use zephipay_backend.Common.{Bool, List, Option, String, ℕ}
use zephipay_backend.Json.{Double}

pub data DevnetLifecycleState : Type 0 where
  prepared_not_contacted submission_committed accepted_pending : DevnetLifecycleState
  reconciliation_required devnet_settled devnet_failed abandoned_pre_contact : DevnetLifecycleState

pub record EncryptedSignedTransaction : Type 0 where
  pub algorithm : String
  pub key_version : String
  pub initialization_vector : List ℕ
  pub authentication_tag : List ℕ
  pub ciphertext : List ℕ

pub record PreparedArtifact : Type 0 where
  pub cluster : String
  pub signature : String
  pub signed_transaction_digest : String
  pub source_token_account : String
  pub mint : String
  pub destination : String
  pub raw_amount : String
  pub decimals : Double
  pub last_valid_block_height : String
  pub recent_blockhash : String
  pub signer_key_id : String
  pub signer_key_version : String
  pub signer_public_key : String
  pub policy_hash : String
  pub submission_provider_id : String
  pub reconciliation_provider_id : String

pub record PersistDevnetPreparationInput : Type 0 where
  pub preparation_id : String
  pub execution_id : String
  pub payment_intent_id : String
  pub actor_subject : String
  pub generation : Double
  pub encrypted_signed_transaction : EncryptedSignedTransaction
  pub artifact : PreparedArtifact
  pub prepared_at : String

pub record PersistedDevnetPreparation : Type 0 where
  pub input : PersistDevnetPreparationInput
  pub state : DevnetLifecycleState
  pub abandoned_at : Option String
  pub committed_at : Option String

pub record DevnetSubmissionCommitmentRecord : Type 0 where
  pub commitment_id : String
  pub execution_id : String
  pub preparation_id : String
  pub signature : String
  pub signed_transaction_digest : String
  pub committed_at : String

pub data DevnetReconciliationOutcome : Type 0 where
  found_missing found_pending found_settled found_failed found_unknown : DevnetReconciliationOutcome

pub record RecoveryFence : Type 0 where
  pub lease_owner : String
  pub lease_claimed_at : String

pub data DevnetSubmissionOutcome : Type 0 where
  accepted_outcome settled_outcome rejected_outcome : DevnetSubmissionOutcome
  unknown_outcome validation_failed : DevnetSubmissionOutcome

pub data ContactCertainty : Type 0 where
  not_started may_have_contacted contact_accepted : ContactCertainty

pub record ReconciliationEvidence : Type 0 where
  pub execution_id : String
  pub actor_subject : String
  pub preparation_id : String
  pub observation_id : String
  pub provider_id : String
  pub signature : String
  pub outcome : DevnetReconciliationOutcome
  pub observed_at : String
  pub slot : Option String
  pub confirmation_status : Option String
  pub error_code : Option String

pub record ReconciliationInput : Type 0 where
  pub evidence : ReconciliationEvidence
  pub recovery_fence : RecoveryFence

pub record DevnetReconciliationObservation : Type 0 where
  pub evidence : ReconciliationEvidence
  pub sequence : ℕ

pub record DevnetSubmissionObservation : Type 0 where
  pub observation_id : String
  pub execution_id : String
  pub preparation_id : String
  pub commitment_id : String
  pub provider_id : String
  pub signature : String
  pub outcome : DevnetSubmissionOutcome
  pub contact_certainty : ContactCertainty
  pub observed_at : String
  pub provider_error_code : Option String
  pub slot : Option String
  pub confirmation_status : Option String

pub record SubmissionInput : Type 0 where
  pub actor_subject : String
  pub evidence : DevnetSubmissionObservation

pub record ReplaceInput : Type 0 where
  pub prior_preparation_id : String
  pub replacement : PersistDevnetPreparationInput
  pub abandoned_at : String

pub record CommitInput : Type 0 where
  pub execution_id : String
  pub actor_subject : String
  pub preparation_id : String
  pub commitment_id : String
  pub committed_at : String

-- `submissionAuthorized` is only returned, never stored.
pub record CommitDevnetSubmissionResult : Type 0 where
  pub preparation : PersistedDevnetPreparation
  pub commitment : DevnetSubmissionCommitmentRecord
  pub submission_authorized : Bool

pub data DevnetError : Type 0 where
  provider_id_invalid providers_not_distinct : DevnetError
  preparation_identity_invalid artifact_incomplete amount_metadata_invalid : DevnetError
  signer_metadata_incomplete envelope_invalid : DevnetError
  reconciliation_evidence_invalid not_chain_evidence not_finalized_evidence : DevnetError
  finalized_not_terminal fence_invalid : DevnetError
  commitment_required terminal_truth_fixed : DevnetError
  submission_identity_invalid submission_evidence_invalid certainty_contradicts : DevnetError
  preparation_id_exists devnet_signature_exists digest_exists preparation_active : DevnetError
  prior_missing prior_committed generation_not_next : DevnetError
  commitment_missing evidence_mismatch commitment_conflict preparation_missing already_contacted :
      DevnetError
  provider_mismatch signature_mismatch observation_id_exists stray_commitment : DevnetError
