-- ===== src/Payments/Replay.antt =====
-- payments/requestHash.ts and payments/paymentIdentityReplay.ts: the hash of a request to a payment
-- identity, and the comparison of a repeated request with the payment that is kept.
-- `digest` stands for SHA-256 of the canonical JSON text, `is_time` for
-- `Number.isFinite(Date.parse(value))`; both are the platform's.

use zephipay_backend.Common.{
  ◌>>=◌, Bool, List, Option, Result, String, [], eq_ℤ, eqb, err, false, get_or, if◌then◌else◌,
  is_positive, is_some, none, nonempty, not, ok, or_else, some, true, truthy, ℤ, ◌&&◌, ◌++◌, ◌==◌,
  ◌∷◌,
}
use zephipay_backend.Payments.Types.{
  IdentitySource, PaymentIdentitySnapshot, PaymentRecipientType, PaymentRecord, TrustOutcome,
  acknowledged, direct_wallet, not_required, payment_identity, recipient_directory,
}

pub record PaymentIdentityHashInput : Type 0 where
  pub actor_subject : String
  pub network : String
  pub mint_address : String
  pub recipient_address : String
  pub amount_raw : ℤ
  pub purpose : Option String
  pub recipient_account_id : String
  pub recipient_snapshot : PaymentIdentitySnapshot
  pub trust_confirmation_outcome : TrustOutcome

pub record PaymentIdentityReplayRequest : Type 0 where
  pub actor_subject : String
  pub idempotency_key : String
  pub recipient_id : String
  pub trust_acknowledged : Bool
  pub network : String
  pub rail : String
  pub asset : String
  pub mint_address : String
  pub amount_raw : ℤ
  pub purpose : Option String

pub data HashError : Type 0 where
  amount_not_positive : HashError

abbrev pub trust_eq : TrustOutcome → TrustOutcome → Bool
trust_eq not_required not_required = true
trust_eq acknowledged acknowledged = true
trust_eq _ _ = false

abbrev pub text_eq? : Option String → Option String → Bool
text_eq? none none = true
text_eq? (some a) (some b) = a == b
text_eq? _ _ = false

abbrev source_is_directory : Option IdentitySource → Bool
source_is_directory (some recipient_directory) = true
source_is_directory _ = false

-- The keys that the snapshot has, sorted: `identitySource` may be absent.
abbrev snapshot_keys : PaymentIdentitySnapshot → List String
snapshot_keys snapshot =
    "accountId"
      ∷ "accountType"
      ∷ "capturedAt"
      ∷ "displayName"
      ∷ (if is_some snapshot.identity_source then "identitySource" ∷ [] else [])
    ++ "payabilityState" ∷ "resolutionSource" ∷ "schemaVersion" ∷ "trustOutcome" ∷ "username"
      ∷ "verificationState" ∷ []

abbrev migration_009_canonical_snapshot_keys : List String
migration_009_canonical_snapshot_keys =
    "accountId" ∷ "accountType" ∷ "capturedAt" ∷ "displayName" ∷ "identitySource"
    ∷ "payabilityState" ∷ "resolutionSource" ∷ "schemaVersion" ∷ "trustOutcome" ∷ "username"
    ∷ "verificationState" ∷ []

keys_eq : List String → List String → Bool
keys_eq [] [] = true
keys_eq (a ∷ as') (b ∷ bs) = a == b && keys_eq as' bs
keys_eq _ _ = false

module _ (digest : PaymentIdentityHashInput → String) (is_time : String → Bool) where
  unfoldable pub create_payment_identity_request_hash :
      PaymentIdentityHashInput → Result HashError String
  create_payment_identity_request_hash input =
      if not (is_positive input.amount_raw) then err amount_not_positive else ok (digest input)

  -- Rows from before migration 009: the snapshot is hashed without `identitySource`.
  unfoldable pub create_legacy_payment_identity_request_hash :
      PaymentIdentityHashInput → Result HashError String
  create_legacy_payment_identity_request_hash input =
      if not (is_positive input.amount_raw)
      then err amount_not_positive
      else ok (
          digest (record input {
            recipient_snapshot =
                let snapshot = input.recipient_snapshot in
                record snapshot { identity_source = none };
          }))

  unfoldable pub is_known_migration_009_backfill : PaymentRecord → PaymentIdentitySnapshot → Bool
  unfolding keys_eq
  is_known_migration_009_backfill payment snapshot =
      truthy payment.recipient.recipient_account_id
      && not (is_some payment.recipient.recipient_synthetic_id)
      && source_is_directory snapshot.identity_source
      && source_is_directory (some snapshot.resolution_source)
      && nonempty snapshot.username
      && nonempty snapshot.display_name
      && is_time snapshot.captured_at
      && keys_eq (snapshot_keys snapshot) migration_009_canonical_snapshot_keys

  -- The comparison of every field that the caller controls, hashes apart.
  abbrev is_payment_identity : PaymentRecipientType → Bool
  is_payment_identity payment_identity = true
  is_payment_identity direct_wallet = false

  unfoldable pub frozen_fields_match :
      PaymentRecord → PaymentIdentitySnapshot → TrustOutcome → PaymentIdentityReplayRequest → Bool
  frozen_fields_match payment snapshot trust input =
      is_payment_identity payment.recipient.recipient_type
      && text_eq?
          (or_else payment.recipient.recipient_account_id payment.recipient.recipient_synthetic_id)
          (some input.recipient_id)
      && eqb (get_or payment.recipient.recipient_snapshot_version 0) 1
      && text_eq? (some snapshot.account_id)
          (or_else payment.recipient.recipient_account_id payment.recipient.recipient_synthetic_id)
      && trust_eq snapshot.trust_outcome trust
      && payment.actor_subject == input.actor_subject
      && payment.idempotency_key == input.idempotency_key
      && payment.network == input.network
      && payment.rail == input.rail
      && payment.asset == input.asset
      && payment.mint_address == input.mint_address
      && eq_ℤ payment.amount_raw input.amount_raw
      && text_eq? payment.purpose input.purpose

  hash_input :
      PaymentRecord
      → PaymentIdentitySnapshot
      → TrustOutcome
      → PaymentIdentityReplayRequest
      → PaymentIdentityHashInput
  hash_input payment snapshot trust input = record {
    actor_subject = input.actor_subject;
    network = input.network;
    mint_address = input.mint_address;
    recipient_address = payment.recipient.recipient_address;
    amount_raw = input.amount_raw;
    purpose = input.purpose;
    recipient_account_id = input.recipient_id;
    recipient_snapshot = snapshot;
    trust_confirmation_outcome = trust;
  }

  -- The comparison with the hash that rows from before migration 009 have.
  legacy_hash_matches :
      PaymentRecord → PaymentIdentitySnapshot → PaymentIdentityHashInput → Result HashError Bool
  unfolding create_legacy_payment_identity_request_hash
  legacy_hash_matches payment snapshot input = do
    legacy ← create_legacy_payment_identity_request_hash input
    ok (payment.request_hash == legacy)

  hashes_match :
      PaymentRecord → PaymentIdentitySnapshot → PaymentIdentityHashInput → Result HashError Bool
  unfolding create_payment_identity_request_hash legacy_hash_matches is_known_migration_009_backfill
  hashes_match payment snapshot input = do
    current ← create_payment_identity_request_hash input
    if payment.request_hash == current
        then ok true
        else if not (is_known_migration_009_backfill payment snapshot)
        then ok false
        else legacy_hash_matches payment snapshot input

  abbrev is_acknowledged : TrustOutcome → Bool
  is_acknowledged trust = trust_eq trust acknowledged

  match_parts :
      PaymentRecord
      → PaymentIdentityReplayRequest
      → Option PaymentIdentitySnapshot
      → Option TrustOutcome
      → Result HashError Bool
  match_parts payment input (some snapshot) (some trust) =
      if not (frozen_fields_match payment snapshot trust input)
      then ok false
      else if is_acknowledged trust && not input.trust_acknowledged
      then ok false
      else hashes_match payment snapshot (hash_input payment snapshot trust input)
  match_parts payment input _ _ = ok false

  unfoldable pub matches_frozen_payment_identity_request :
      PaymentRecord → PaymentIdentityReplayRequest → Result HashError Bool
  unfolding match_parts hashes_match hash_input frozen_fields_match
  matches_frozen_payment_identity_request payment input =
      match_parts payment input payment.recipient.recipient_snapshot
        payment.recipient.trust_confirmation_outcome
