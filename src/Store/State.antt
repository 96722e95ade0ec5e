-- ===== src/Store/State.antt =====
-- The state of `InMemoryPaymentPersistence`, the errors that it throws, and its inputs. The queue
-- that makes operations exclusive is the order of the calls.

use zephipay_backend.Common.{Bool, List, Option, Result, String, [], err, ok, ℕ, ℤ}
use zephipay_backend.Common.Dict.{Dict}
use zephipay_backend.Json.{JsonError, JsonObject}
use zephipay_backend.Payments.Lifecycle.{TransitionError}
use zephipay_backend.Payments.Replay.{HashError}
use zephipay_backend.Payments.Types.{PaymentEvent, PaymentRecord}

pub record AllowlistEntry : Type 0 where
  pub actor_subject : String
  pub enabled : Bool
  pub added_at : String
  pub expires_at : Option String
  pub revoked_at : Option String
  pub note : Option String

pub record PaymentReceipt : Type 0 where
  pub id : String
  pub payment_id : String
  pub network : String
  pub program_id : String
  pub receipt_pda : String
  pub solana_signature : String
  pub slot : ℤ
  pub mint_address : String
  pub recipient_address : String
  pub amount_raw : ℤ
  pub onchain_reference : String
  pub raw_receipt : JsonObject
  pub verified_at : String
  pub created_at : String

-- `Omit<PaymentReceipt, "createdAt"> & { createdAt?: string }`: `created_at` of `receipt` is read
-- only through the option beside it.
pub record CreatePaymentReceiptInput : Type 0 where
  pub receipt : PaymentReceipt
  pub created_at? : Option String

-- Each map of the source, under its name.
pub record PaymentStore : Type 0 where
  pub allowlist : Dict AllowlistEntry
  pub payments : Dict PaymentRecord
  pub idempotency : Dict String
  pub receipts : Dict PaymentReceipt
  pub events : Dict (List PaymentEvent)
  pub signatures : Dict String
  pub receipt_pdas : Dict String
  pub runtime_event_ids : List String
  pub next_event_id : ℕ

abbrev pub empty_store : PaymentStore
empty_store = record {
  allowlist = [];
  payments = [];
  idempotency = [];
  receipts = [];
  events = [];
  signatures = [];
  receipt_pdas = [];
  runtime_event_ids = [];
  next_event_id = 1;
}

pub data StoreError : Type 0 where
  transition : TransitionError → StoreError
  json : JsonError → StoreError
  hashing : HashError → StoreError
  allowlist_entry_exists allowlist_entry_missing invalid_expiry_time : StoreError
  invalid_actor_subject invalid_request_hash invalid_idempotency_key : StoreError
  invalid_amount unsupported_asset invalid_purpose : StoreError
  payment_exists payment_missing version_conflict : StoreError
  recipient_unavailable trust_acknowledgment_required : StoreError
  signature_exists receipt_pda_exists runtime_event_exists receipt_exists : StoreError
  wrong_status negative_slot signature_replaced reserved_event_type : StoreError
  receipt_payment_mismatch receipt_evidence_mismatch receipt_signature_mismatch : StoreError
  receipt_pda_mismatch invalid_onchain_reference : StoreError

-- An operation returns what it returns or throws, and the state that it leaves either way.
abbrev pub Op : Type 0 → Type 0
Op A = PaymentStore → Result StoreError A × PaymentStore

-- The readings of the clock in one operation, in order.
abbrev pub Clock : Type 0
Clock = ℕ → String

-- An error of a callee, thrown on.
abbrev pub rethrow : {E A : Type 0} → (E → StoreError) → Result E A → Result StoreError A
rethrow f (ok a) = ok a
rethrow f (err e) = err (f e)
