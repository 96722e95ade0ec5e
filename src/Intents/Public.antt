-- ===== src/Intents/Public.antt =====
-- What a client sees of a payment: `PublicPaymentIntent`, `toPublicPaymentIntent` and
-- `serializeSnapshot` of services/paymentIntentService.ts. A number's text is a list of code units.
use zephipay_backend.Common.{
  Option, String, [], eqb, get_or, if◌then◌else◌, negsuc, none, pos, some, truthy, ℕ, ℤ, ◌%◌, ◌++◌,
  ◌+◌, ◌/◌, ◌∷◌,
}
use zephipay_backend.Payments.Types.{
  IdentitySource, PaymentIdentitySnapshot, PaymentRecipient, PaymentRecord, PaymentStatus,
  SnapshotAccountType, SnapshotVerification, TrustOutcome, acknowledged, ai_agent,
  awaiting_confirmation, business, completed, creator, direct_wallet, failed, not_required,
  payment_identity, pending, personal, processing, recipient_directory, synthetic_beta, unknown,
  unverified, verified,
}
use zephipay_backend.Amounts.{Units, pad_start, print, strip_zeros, raw_usdc_to_display}

pub record PublicSnapshot : Type 0 where
  pub account_id : String
  pub username : String
  pub display_name : String
  pub account_type : String
  pub verification_state : String
  pub payability_state : String
  pub captured_at : String
  pub schema_version : ℕ
  pub identity_source : String
  pub resolution_source : String
  pub trust_outcome : String

pub data PublicRecipient : Type 0 where
  public_wallet : String → PublicRecipient
  public_identity : PublicSnapshot → PublicRecipient

pub record PublicPaymentIntent : Type 0 where
  pub id : String
  pub status : String
  pub version : Units
  pub request_hash : String
  pub recipient : PublicRecipient
  pub amount_raw : Units
  pub amount : Units
  pub asset : String
  pub network : String
  pub purpose : Option String
  pub created_at : String
  pub user_confirmed_at : Option String
  pub execution_started_at : Option String
  pub submitted_at : Option String
  pub last_checked_at : Option String
  pub completed_at : Option String
  pub failed_at : Option String
  pub solana_signature : Option String
  pub confirmed_slot : Option Units
  pub confirmation_status : Option String
  pub receipt_pda : Option String
  pub failure_code : Option String

-- `payment.status.toLowerCase()`
abbrev pub public_status : PaymentStatus → String
public_status awaiting_confirmation = "awaiting_confirmation"
public_status processing = "processing"
public_status unknown = "unknown"
public_status completed = "completed"
public_status failed = "failed"

abbrev account_type_text : SnapshotAccountType → String
account_type_text personal = "personal"
account_type_text creator = "creator"
account_type_text business = "business"
account_type_text ai_agent = "ai_agent"

abbrev verification_text : SnapshotVerification → String
verification_text unverified = "unverified"
verification_text pending = "pending"
verification_text verified = "verified"

abbrev source_text : IdentitySource → String
source_text recipient_directory = "recipient_directory"
source_text synthetic_beta = "synthetic_beta"

abbrev outcome_text : TrustOutcome → String
outcome_text not_required = "not_required"
outcome_text acknowledged = "acknowledged"

unfoldable pub serialize_snapshot : PaymentIdentitySnapshot → PublicSnapshot
serialize_snapshot snapshot = record {
  account_id = snapshot.account_id;
  username = snapshot.username;
  display_name = snapshot.display_name;
  account_type = account_type_text snapshot.account_type;
  verification_state = verification_text snapshot.verification_state;
  payability_state = "available";
  captured_at = snapshot.captured_at;
  schema_version = 1;
  identity_source = source_text (get_or snapshot.identity_source recipient_directory);
  resolution_source = source_text snapshot.resolution_source;
  trust_outcome = outcome_text snapshot.trust_outcome;
}

-- `toString` of a bigint.
unfoldable pub print_signed : ℤ → Units
print_signed (pos n) = print n
print_signed (negsuc n) = b'-' ∷ print (n + 1)

-- `toString` of the negative of a natural number, which is "0" for zero.
abbrev print_negative : ℕ → Units
print_negative n = if eqb n 0 then print 0 else b'-' ∷ print n

-- `rawUsdcToDisplay`: division and remainder of bigints round towards zero.
unfoldable pub display_signed : ℤ → Units
display_signed (pos n) = raw_usdc_to_display n
display_signed (negsuc n) =
    let whole = print_negative ((n + 1) / 1000000) in
    elim (strip_zeros (pad_start 6 (print_negative ((n + 1) % 1000000)))) [
      | [] ↦ whole
      | c ∷ cs ↦ whole ++ b'.' ∷ c ∷ cs
    ]

-- `payment.recipientType === "PAYMENT_IDENTITY" && payment.recipientSnapshot`
unfoldable pub public_recipient : PaymentRecipient → PublicRecipient
public_recipient recipient = elim recipient.recipient_type [
  | direct_wallet ↦ public_wallet recipient.recipient_address
  | payment_identity ↦ elim recipient.recipient_snapshot [
    | none ↦ public_wallet recipient.recipient_address
    | some snapshot ↦ public_identity (serialize_snapshot snapshot)
  ]
]

-- `...(value ? { key: value } : {})`
abbrev pub if_truthy : Option String → Option String
if_truthy given = if truthy given then given else none

unfoldable pub to_public_payment_intent : PaymentRecord → PublicPaymentIntent
to_public_payment_intent payment = record {
  id = payment.id;
  status = public_status payment.status;
  version = print payment.version;
  request_hash = payment.request_hash;
  recipient = public_recipient payment.recipient;
  amount_raw = print_signed payment.amount_raw;
  amount = display_signed payment.amount_raw;
  asset = payment.asset;
  network = payment.network;
  purpose = payment.purpose;
  created_at = payment.created_at;
  user_confirmed_at = if_truthy payment.lifecycle.user_confirmed_at;
  execution_started_at = if_truthy payment.lifecycle.execution_started_at;
  submitted_at = if_truthy payment.lifecycle.submitted_at;
  last_checked_at = if_truthy payment.lifecycle.last_checked_at;
  completed_at = if_truthy payment.lifecycle.completed_at;
  failed_at = if_truthy payment.lifecycle.failed_at;
  solana_signature = if_truthy payment.lifecycle.solana_signature;
  confirmed_slot = elim payment.lifecycle.confirmed_slot [
    | none ↦ none
    | some slot ↦ some (print_signed slot)
  ];
  confirmation_status = if_truthy payment.lifecycle.confirmation_status;
  receipt_pda = if_truthy payment.lifecycle.receipt_pda;
  failure_code = if_truthy payment.lifecycle.failure_code;
}
