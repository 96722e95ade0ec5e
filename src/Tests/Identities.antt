-- ===== src/Tests/Identities.antt =====
-- Claims on payment identities at concrete requests.

use zephipay_backend.Store.Identity.{
  identity_hash_input, ClaimPaymentIdentityInput, ResolvedIdentity, accept_resolved, ask_directory,
  claim_directory_with, claim_payment_identity_key, directory_payment, directory_recipient,
  directory_snapshot, identity_payment, payable, resolved_as, store_made,
}
use zephipay_backend.Common.{Bool, Option, String, concat, none, ok, pos, refl, some, true, ◌≡◌}
use zephipay_backend.Common.Dict.{get, set}
use zephipay_backend.Json.{clone_json_object, clone_json_value, is_storable}
use zephipay_backend.Payments.Replay.{
  PaymentIdentityHashInput, create_payment_identity_request_hash,
}
use zephipay_backend.Payments.Types.{PaymentRecord, acknowledged, personal, unverified}
use zephipay_backend.Store.Claims.{claimed, existing, index_key, store_claim}
use zephipay_backend.Store.Events.{append_event, push_event}
use zephipay_backend.Store.Frozen.{claim_payment_identity_again}
use zephipay_backend.Store.State.{Clock, empty_store}

abbrev one_digest : PaymentIdentityHashInput → String
one_digest input = "digest"

abbrev all_times : String → Bool
all_times date = true

abbrev noon : Clock
noon n = "2026-01-01T12:00:00.000Z"

abbrev identity_claim : ClaimPaymentIdentityInput
identity_claim = record {
  base = record {
    id = "p2";
    actor_subject = "actor";
    sender_account_id = "account-1";
    idempotency_key = "key-0123456789abcdef";
    network = "solana-devnet";
    rail = "solana";
    asset = "USDC";
    mint_address = "mint";
    amount_raw = pos 250000;
    purpose = none;
    captured_at = "2026-01-01T11:59:59.000Z";
  };
  recipient_account_id = "account-2";
  trust_acknowledged = true;
}

abbrev directory : ClaimPaymentIdentityInput → Option ResolvedIdentity
directory input = some (record {
  username = "ann";
  display_name = "Ann";
  account_type = personal;
  verification_state = resolved_as unverified;
  payability_state = payable;
  destination_address = "wallet-2";
})

abbrev frozen_payment : PaymentRecord
frozen_payment =
    let snapshot =
      directory_snapshot identity_claim
        (record {
          username = "ann";
          display_name = "Ann";
          account_type = personal;
          verification_state = resolved_as unverified;
          payability_state = payable;
          destination_address = "wallet-2";
        })
        unverified in
    identity_payment (noon 0) identity_claim.base "digest"
      (directory_recipient identity_claim "wallet-2" snapshot acknowledged)

first_identity_claim :
    (claim_payment_identity_key one_digest all_times
      (some directory)
      noon
      identity_claim
      empty_store).0
    ≡ ok (record { outcome = claimed; payment = frozen_payment })
unfolding identity_hash_input claim_payment_identity_key claim_directory_with store_made store_claim
    append_event push_event directory_payment ask_directory accept_resolved
    create_payment_identity_request_hash get set index_key concat clone_json_object clone_json_value
    is_storable identity_payment directory_snapshot
first_identity_claim = refl

claim_payment_identity_again_example :
    claim_payment_identity_key one_digest all_times none noon identity_claim
      (claim_payment_identity_key one_digest all_times
        (some directory)
        noon
        identity_claim
        empty_store).1
    ≡ (
      ok (record { outcome = existing; payment = frozen_payment }),
      (claim_payment_identity_key one_digest all_times
          (some directory)
          noon
          identity_claim
          empty_store).1,
    )
claim_payment_identity_again_example =
    claim_payment_identity_again one_digest all_times (some directory) none noon noon identity_claim
      empty_store frozen_payment refl first_identity_claim
