-- ===== src/Store/Identity.antt =====
-- `replayPaymentIdentityKey`, `claimPaymentIdentityKey` and `claimSyntheticPaymentIdentityKey`:
-- claims whose recipient is an identity of the directory, or one of the synthetic ones.
-- `digest` and `is_time` are those of `Payments.Replay`; `resolve` is the directory, which the
-- persistence takes as an option.

use zephipay_backend.Json.{JsonObject, JsonValue, end, field, integer, number}
use zephipay_backend.Payments.Replay.{
  trust_eq, PaymentIdentityHashInput, PaymentIdentityReplayRequest,
  create_payment_identity_request_hash, matches_frozen_payment_identity_request,
}
use zephipay_backend.Common.{
  Bool, Option, Result, String, concat, err, false, if◌then◌else◌, none, not, ok, pos, some,
  throw_if, ℤ, ◌&&◌, ◌==◌, ◌>>=◌, ◌>>◌,
}
use zephipay_backend.Payments.Types.{
  PaymentIdentitySnapshot, PaymentRecipient, PaymentRecord, SnapshotAccountType,
  SnapshotVerification, TrustOutcome, acknowledged, awaiting_confirmation, no_evidence,
  not_required, payment_identity, personal, recipient_directory, synthetic_beta, unverified,
  verified,
}
use zephipay_backend.Store.Claims.{IdempotencyClaim, claim_outcome, existing_id, store_claim}
use zephipay_backend.Store.Events.{require_payment}
use zephipay_backend.Store.State.{
  Clock, Op, PaymentStore, StoreError, hashing, recipient_unavailable, rethrow,
  trust_acknowledgment_required,
}

pub data ResolvedVerification : Type 0 where
  resolved_as : SnapshotVerification → ResolvedVerification
  verification_restricted : ResolvedVerification

pub data Payability : Type 0 where
  payable unpayable payability_restricted : Payability

pub record ResolvedIdentity : Type 0 where
  pub username : String
  pub display_name : String
  pub account_type : SnapshotAccountType
  pub verification_state : ResolvedVerification
  pub payability_state : Payability
  pub destination_address : String

-- The fields that the claims of both kinds have.
pub record IdentityClaimBase : Type 0 where
  pub id : String
  pub actor_subject : String
  pub sender_account_id : String
  pub idempotency_key : String
  pub network : String
  pub rail : String
  pub asset : String
  pub mint_address : String
  pub amount_raw : ℤ
  pub purpose : Option String
  pub captured_at : String

pub record ClaimPaymentIdentityInput : Type 0 where
  pub base : IdentityClaimBase
  pub recipient_account_id : String
  pub trust_acknowledged : Bool

pub record ClaimSyntheticPaymentIdentityInput : Type 0 where
  pub base : IdentityClaimBase
  pub synthetic_id : String
  pub username : String
  pub display_name : String

-- The request that a claim is compared with, if its key is taken.
unfoldable pub replay_request : IdentityClaimBase → String → Bool → PaymentIdentityReplayRequest
replay_request base recipient trusted = record {
  actor_subject = base.actor_subject;
  idempotency_key = base.idempotency_key;
  recipient_id = recipient;
  trust_acknowledged = trusted;
  network = base.network;
  rail = base.rail;
  asset = base.asset;
  mint_address = base.mint_address;
  amount_raw = base.amount_raw;
  purpose = base.purpose;
}

-- The payment as the claims of both kinds freeze it.
unfoldable pub identity_payment :
    String → IdentityClaimBase → String → PaymentRecipient → PaymentRecord
identity_payment now base request_hash recipient = record {
  id = base.id;
  actor_subject = base.actor_subject;
  idempotency_key = base.idempotency_key;
  request_hash = request_hash;
  status = awaiting_confirmation;
  version = 0;
  network = base.network;
  rail = base.rail;
  asset = base.asset;
  mint_address = base.mint_address;
  amount_raw = base.amount_raw;
  purpose = base.purpose;
  recipient = recipient;
  lifecycle = no_evidence;
  created_at = now;
  updated_at = now;
}

-- The field of the payment and of its hash that says whom it pays.
unfoldable pub identity_hash_input :
    IdentityClaimBase
    → String
    → String
    → PaymentIdentitySnapshot
    → TrustOutcome
    → PaymentIdentityHashInput
identity_hash_input base address account snapshot trust = record {
  actor_subject = base.actor_subject;
  network = base.network;
  mint_address = base.mint_address;
  recipient_address = address;
  amount_raw = base.amount_raw;
  purpose = base.purpose;
  recipient_account_id = account;
  recipient_snapshot = snapshot;
  trust_confirmation_outcome = trust;
}

abbrev pub trust_of : SnapshotVerification → TrustOutcome
trust_of verified = not_required
trust_of _ = acknowledged

-- The checks of what the directory returns; the verification that the snapshot freezes.
unfoldable pub accept_resolved :
    Bool → Option ResolvedIdentity → Result StoreError (ResolvedIdentity × SnapshotVerification)
accept_resolved trusted none = err recipient_unavailable
accept_resolved trusted (some found) = elim found.payability_state [
  | payable ↦ elim found.verification_state [
    | verification_restricted ↦ err recipient_unavailable
    | resolved_as v ↦ do
      throw_if (trust_eq (trust_of v) acknowledged && not trusted) trust_acknowledgment_required
      ok (found, v)
  ]
  | _ ↦ err recipient_unavailable
]

-- What the directory says of the recipient, if it can be paid by this sender.
unfoldable pub ask_directory :
    Option (ClaimPaymentIdentityInput → Option ResolvedIdentity)
    → ClaimPaymentIdentityInput
    → Result StoreError (ResolvedIdentity × SnapshotVerification)
unfolding accept_resolved
ask_directory none input = err recipient_unavailable
ask_directory (some directory) input =
    if input.base.sender_account_id == input.recipient_account_id
    then err recipient_unavailable
    else accept_resolved input.trust_acknowledged (directory input)

abbrev pub trust_asked : Result StoreError (ResolvedIdentity × SnapshotVerification) → TrustOutcome
trust_asked (ok (found, v)) = trust_of v
trust_asked (err e) = not_required

unfoldable pub directory_snapshot :
    ClaimPaymentIdentityInput → ResolvedIdentity → SnapshotVerification → PaymentIdentitySnapshot
directory_snapshot input found v = record {
  account_id = input.recipient_account_id;
  username = found.username;
  display_name = found.display_name;
  account_type = found.account_type;
  verification_state = v;
  captured_at = input.base.captured_at;
  identity_source = some recipient_directory;
  resolution_source = recipient_directory;
  trust_outcome = trust_of v;
}

unfoldable pub synthetic_snapshot : ClaimSyntheticPaymentIdentityInput → PaymentIdentitySnapshot
synthetic_snapshot input = record {
  account_id = input.synthetic_id;
  username = input.username;
  display_name = input.display_name;
  account_type = personal;
  verification_state = unverified;
  captured_at = input.base.captured_at;
  identity_source = some synthetic_beta;
  resolution_source = synthetic_beta;
  trust_outcome = not_required;
}

abbrev pub trust_text : TrustOutcome → String
trust_text not_required = "NOT_REQUIRED"
trust_text acknowledged = "ACKNOWLEDGED"

-- The details of the events of creation.
abbrev pub directory_details : String → TrustOutcome → JsonObject
directory_details account trust = field "recipientType" (JsonValue.text "PAYMENT_IDENTITY") (
    field "recipientAccountId" (JsonValue.text account) (
      field "recipientSnapshotVersion" (number (integer (pos 1)))
        (field "trustConfirmationOutcome" (JsonValue.text (trust_text trust)) end)))

abbrev pub synthetic_details : JsonObject
synthetic_details =
    field "identitySource" (JsonValue.text "SYNTHETIC_BETA")
      (field "trustConfirmationOutcome" (JsonValue.text "NOT_REQUIRED") end)

abbrev pub directory_recipient :
    ClaimPaymentIdentityInput → String → PaymentIdentitySnapshot → TrustOutcome → PaymentRecipient
directory_recipient input address snapshot trust = record {
  recipient_address = address;
  recipient_type = payment_identity;
  recipient_account_id = some input.recipient_account_id;
  recipient_synthetic_id = none;
  recipient_snapshot = some snapshot;
  recipient_snapshot_version = some 1;
  trust_confirmation_outcome = some trust;
}

-- `synthetic:${input.syntheticId}`
abbrev pub synthetic_address : String → String
synthetic_address id = concat "synthetic:" id

abbrev pub synthetic_recipient :
    ClaimSyntheticPaymentIdentityInput → PaymentIdentitySnapshot → PaymentRecipient
synthetic_recipient input snapshot = record {
  recipient_address = synthetic_address input.synthetic_id;
  recipient_type = payment_identity;
  recipient_account_id = none;
  recipient_synthetic_id = some input.synthetic_id;
  recipient_snapshot = some snapshot;
  recipient_snapshot_version = some 1;
  trust_confirmation_outcome = some not_required;
}

module _ (digest : PaymentIdentityHashInput → String) (is_time : String → Bool) where
  -- The answer to a request on the payment that holds its key.
  unfoldable pub replay_on :
      PaymentRecord → PaymentIdentityReplayRequest → Result StoreError IdempotencyClaim
  replay_on found request = do
    same ← rethrow hashing (matches_frozen_payment_identity_request digest is_time found request)
    ok (record { outcome = claim_outcome same; payment = found })

  unfoldable pub replay_existing :
      PaymentStore → String → PaymentIdentityReplayRequest → Result StoreError IdempotencyClaim
  replay_existing s id request = do found ← require_payment s id; replay_on found request

  unfoldable pub replay_payment_identity_key :
      PaymentIdentityReplayRequest → Op (Option IdempotencyClaim)
  unfolding replay_existing replay_on
  replay_payment_identity_key request s =
      elim (existing_id s request.actor_subject request.idempotency_key) [
        | none ↦ (ok none, s)
        | some id ↦ (replay_existing s id request >>= (λ answer. ok (some answer)), s)
      ]

  -- The payment that a claim on the directory makes, or what it throws before it writes.
  unfoldable pub directory_payment :
      String
      → ClaimPaymentIdentityInput
      → ResolvedIdentity × SnapshotVerification
      → Result StoreError PaymentRecord
  directory_payment now input (found, v) =
      let snapshot = directory_snapshot input found v in
      let address = found.destination_address in
      rethrow hashing (
        create_payment_identity_request_hash digest is_time
          (identity_hash_input input.base address input.recipient_account_id snapshot (trust_of v)))
      >>= λ request_hash. ok (
          identity_payment now input.base request_hash
            (directory_recipient input address snapshot (trust_of v)))

  unfoldable pub synthetic_payment :
      String → ClaimSyntheticPaymentIdentityInput → Result StoreError PaymentRecord
  synthetic_payment now input =
      let snapshot = synthetic_snapshot input in
      rethrow hashing (
        create_payment_identity_request_hash digest is_time (
          identity_hash_input input.base (synthetic_address input.synthetic_id) input.synthetic_id
            snapshot not_required))
      >>= λ request_hash.
          ok (identity_payment now input.base request_hash (synthetic_recipient input snapshot))

  -- The payment is written as it was made, or nothing is.
  unfoldable pub store_made :
      Clock → Result StoreError PaymentRecord → JsonObject → Op IdempotencyClaim
  store_made clock (err e) details s = (err e, s)
  store_made clock (ok payment) details s = store_claim (clock 1) payment (some details) s

  -- The rest of the claim, once the key is looked up.
  unfoldable pub claim_directory_with :
      Option (ClaimPaymentIdentityInput → Option ResolvedIdentity)
      → Clock
      → ClaimPaymentIdentityInput
      → Option String
      → Op IdempotencyClaim
  claim_directory_with resolve clock input (some id) s = (
    replay_existing s id
        (replay_request input.base input.recipient_account_id input.trust_acknowledged),
    s,
  )
  claim_directory_with resolve clock input none s =
      store_made clock (ask_directory resolve input >>= directory_payment (clock 0) input)
        (directory_details input.recipient_account_id (trust_asked (ask_directory resolve input))) s

  unfoldable pub claim_payment_identity_key :
      Option (ClaimPaymentIdentityInput → Option ResolvedIdentity)
      → Clock
      → ClaimPaymentIdentityInput
      → Op IdempotencyClaim
  unfolding claim_directory_with
  claim_payment_identity_key resolve clock input s =
      claim_directory_with resolve clock input
        (existing_id s input.base.actor_subject input.base.idempotency_key) s

  unfoldable pub claim_synthetic_with :
      Clock → ClaimSyntheticPaymentIdentityInput → Option String → Op IdempotencyClaim
  claim_synthetic_with clock input (some id) s =
      (replay_existing s id (replay_request input.base input.synthetic_id false), s)
  claim_synthetic_with clock input none s =
      store_made clock (synthetic_payment (clock 0) input) synthetic_details s

  unfoldable pub claim_synthetic_payment_identity_key :
      Clock → ClaimSyntheticPaymentIdentityInput → Op IdempotencyClaim
  unfolding claim_synthetic_with
  claim_synthetic_payment_identity_key clock input s =
      claim_synthetic_with clock input
        (existing_id s input.base.actor_subject input.base.idempotency_key) s
