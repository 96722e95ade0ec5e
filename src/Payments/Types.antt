-- ===== src/Payments/Types.antt =====
-- payments/paymentTypes.ts: statuses, events, proofs, and the records of a payment.
use zephipay_backend.Common.{ℕ, Bool, true, false, String, Option, none, ℤ}
use zephipay_backend.Json.{JsonValue, JsonObject}

pub data PaymentStatus : Type 0 where
  awaiting_confirmation processing unknown completed failed : PaymentStatus

pub data PaymentEventType : Type 0 where
  created user_confirmed runtime_approved submission_started signature_observed : PaymentEventType
  settlement_unknown settlement_confirmed settlement_failed receipt_verified : PaymentEventType

pub data PaymentRecipientType : Type 0 where
  direct_wallet payment_identity : PaymentRecipientType

-- `TrustConfirmationOutcome` less "BLOCKED", as the records have it.
pub data TrustOutcome : Type 0 where
  not_required acknowledged : TrustOutcome

pub data SnapshotAccountType : Type 0 where
  personal creator business ai_agent : SnapshotAccountType

pub data SnapshotVerification : Type 0 where
  unverified pending verified : SnapshotVerification

pub data IdentitySource : Type 0 where
  recipient_directory synthetic_beta : IdentitySource

-- `payabilityState` is "AVAILABLE" and `schemaVersion` is 1 by their types.
pub record PaymentIdentitySnapshot : Type 0 where
  pub account_id : String
  pub username : String
  pub display_name : String
  pub account_type : SnapshotAccountType
  pub verification_state : SnapshotVerification
  pub captured_at : String
  pub identity_source : Option IdentitySource
  pub resolution_source : IdentitySource
  pub trust_outcome : TrustOutcome

pub data PaymentTerminalProof : Type 0 where
  -- code, reason
  pre_submission_rejection : String → String → PaymentTerminalProof
  -- signature, slot, chain error
  solana_transaction_error : String → Option String → JsonValue → PaymentTerminalProof
  -- recent blockhash, last valid block height, was signed, submission was attempted
  expired_unsigned_transaction : String → String → Bool → Bool → PaymentTerminalProof

pub record PaymentLifecycleEvidence : Type 0 where
  pub runtime_id : Option String
  pub runtime_payment_id : Option String
  pub runtime_transaction_id : Option String
  pub user_confirmed_at : Option String
  pub execution_started_at : Option String
  pub submitted_at : Option String
  pub last_checked_at : Option String
  pub completed_at : Option String
  pub failed_at : Option String
  pub solana_signature : Option String
  pub recent_blockhash : Option String
  pub submitted_slot : Option ℤ
  pub confirmed_slot : Option ℤ
  pub confirmation_status : Option String
  pub chain_error : Option JsonValue
  pub receipt_pda : Option String
  pub failure_code : Option String
  pub failure_reason : Option String
  pub terminal_proof : Option PaymentTerminalProof

-- `{}`
abbrev pub no_evidence : PaymentLifecycleEvidence
no_evidence = record {
  runtime_id = none;
  runtime_payment_id = none;
  runtime_transaction_id = none;
  user_confirmed_at = none;
  execution_started_at = none;
  submitted_at = none;
  last_checked_at = none;
  completed_at = none;
  failed_at = none;
  solana_signature = none;
  recent_blockhash = none;
  submitted_slot = none;
  confirmed_slot = none;
  confirmation_status = none;
  chain_error = none;
  receipt_pda = none;
  failure_code = none;
  failure_reason = none;
  terminal_proof = none;
}

-- The recipient's fields of a payment.
pub record PaymentRecipient : Type 0 where
  pub recipient_address : String
  pub recipient_type : PaymentRecipientType
  pub recipient_account_id : Option String
  pub recipient_synthetic_id : Option String
  pub recipient_snapshot : Option PaymentIdentitySnapshot
  pub recipient_snapshot_version : Option ℕ
  pub trust_confirmation_outcome : Option TrustOutcome

-- The optional lifecycle fields of a payment are those of `PaymentLifecycleEvidence`, so they stand
-- here as one such record, and the recipient's fields as another.
pub record PaymentRecord : Type 0 where
  pub id : String
  pub actor_subject : String
  pub idempotency_key : String
  pub request_hash : String
  pub status : PaymentStatus
  pub version : ℕ
  pub network : String
  pub rail : String
  pub asset : String
  pub mint_address : String
  pub amount_raw : ℤ
  pub purpose : Option String
  pub recipient : PaymentRecipient
  pub lifecycle : PaymentLifecycleEvidence
  pub created_at : String
  pub updated_at : String

pub record PaymentEvent : Type 0 where
  pub id : ℕ
  pub payment_id : String
  pub sequence_number : ℕ
  pub event_type : PaymentEventType
  pub from_status : Option PaymentStatus
  pub to_status : Option PaymentStatus
  pub runtime_event_id : Option String
  pub request_id : Option String
  pub details : JsonObject
  pub occurred_at : String

pub record CreatePaymentInput : Type 0 where
  pub id : String
  pub actor_subject : String
  pub idempotency_key : String
  pub request_hash : String
  pub network : String
  pub rail : String
  pub asset : String
  pub mint_address : String
  pub recipient_address : String
  pub amount_raw : ℤ
  pub purpose : Option String
  pub recipient_type : Option PaymentRecipientType
  pub recipient_account_id : Option String
  pub recipient_synthetic_id : Option String
  pub recipient_snapshot : Option PaymentIdentitySnapshot
  pub recipient_snapshot_version : Option ℕ
  pub trust_confirmation_outcome : Option TrustOutcome

abbrev pub status_eq : PaymentStatus → PaymentStatus → Bool
status_eq awaiting_confirmation awaiting_confirmation = true
status_eq processing processing = true
status_eq unknown unknown = true
status_eq completed completed = true
status_eq failed failed = true
status_eq _ _ = false
