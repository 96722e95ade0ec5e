-- ===== src/Tests/Intents.antt =====
-- The service of payment intents on concrete calls.

use zephipay_backend.Intents.Hashes.{
  hex_bytes, DirectDigest, create_payment_request_hash, hashes_agree,
}
use zephipay_backend.Accounts.Links.{
  identity_at, owned_identity, owner_of, provision_checks, provision_external_identity,
  provision_fresh, provision_validations, put_identity,
}
use zephipay_backend.Accounts.Queries.{
  Collation, ExternalPrincipal, find_account_by_external_identity, list_external_identities,
  require_active, resolve,
}
use zephipay_backend.Accounts.State.{
  append_event_unsafe, empty_identities, external_identity_key, incremented,
  list_account_security_events, put_fresh_account, require_account, security_event,
}
use zephipay_backend.Accounts.Types.{actor_subject_for_account, is_uuid, validate_external_identity}
use zephipay_backend.Common.{
  String, [], arith, byte_length, concat, decimal, eq_iff, eqb, false, if◌then◌else◌, is_hash, none,
  ok, pos, refl, some, trim, true, utf16_length, ℕ, ◌∷◌, ◌≡◌,
}
use zephipay_backend.Common.Dict.{get, set, values}
use zephipay_backend.Intents.Composed.{confirm_intent_again}
use zephipay_backend.Intents.Confirmed.{confirm_applies}
use zephipay_backend.Intents.Create.{
  CreateIntentInput, canonical_request, claim_answer, create_for_wallet, to_wallet, wallet_claim,
}
use zephipay_backend.Intents.Public.{to_public_payment_intent}
use zephipay_backend.Intents.Recreated.{create_for_wallet_again}
use zephipay_backend.Intents.Repeated.{confirm_race}
use zephipay_backend.Intents.Service.{
  Actor, ConfirmInput, ServiceState, Surroundings, actor_of_account, after_conflict, confirm_checks,
  confirm_intent, confirm_now, confirm_payment, confirm_transition, replay_result,
  require_active_allowlist, require_matching_hash, require_owned_payment, resolve_actor,
}
use zephipay_backend.Json.{clone_json_object, clone_json_value, is_storable, put}
use zephipay_backend.Payments.Lifecycle.{
  event_type_for_transition, is_terminal_payment_status, legal_transitions,
  normalize_transition_evidence, validate_payment_transition, validate_terminal_proof,
}
use zephipay_backend.Payments.Types.{
  PaymentRecord, awaiting_confirmation, direct_wallet, no_evidence, processing,
}
use zephipay_backend.Store.Access.{beta_allowlist_required, has_active_payment_access, lowers_to}
use zephipay_backend.Store.Claims.{
  DateParser, claim_checks, claim_idempotency_key, claim_with, index_key, payment_of_input,
  store_claim, validate_actor_subject, validate_create_payment,
}
use zephipay_backend.Store.Events.{
  append_event, apply_evidence, merge_evidence, push_event, require_payment,
}
use zephipay_backend.Store.State.{AllowlistEntry, Clock, PaymentStore, empty_store}
use zephipay_backend.Store.Transitions.{
  transition_checks, transition_details, transition_payment, transition_writes,
}
use zephipay_backend.Store.Writes.{Keyed}

abbrev owner_account : String
owner_account = "0a000000-0000-4000-8000-000000000001"

abbrev owner : String
owner = "zp:account:0a000000-0000-4000-8000-000000000001"

abbrev parse_all : DateParser
parse_all date = some (pos 1)

abbrev one_order : Collation
one_order a b = pos 0

abbrev at_noon : Clock
at_noon n = "noon"

abbrev its_hash : String
its_hash = "0123456789abcdef0123456789abcdef0123456789abcdef0123456789abcdef"

abbrev alone : ℕ → PaymentStore → PaymentStore
alone n s = s

abbrev quiet_call : Surroundings
quiet_call = record {
  identity_now = "noon";
  new_account_id = owner_account;
  new_identity_id = "0b000000-0000-4000-9000-000000000001";
  access_now = "noon";
  occurred_at = "noon";
  new_payment_id = "p2";
  store_clock = at_noon;
  meanwhile = alone;
}

abbrev caller : ExternalPrincipal
caller = record { issuer = "https://issuer"; provider_subject = "user-1" }

abbrev waiting_payment : PaymentRecord
waiting_payment = record {
  id = "p1";
  actor_subject = owner;
  idempotency_key = "key-0123456789abcdef";
  request_hash = its_hash;
  status = awaiting_confirmation;
  version = 0;
  network = "solana-devnet";
  rail = "solana";
  asset = "USDC";
  mint_address = "mint";
  amount_raw = pos 1500000;
  purpose = none;
  recipient = record {
    recipient_address = "wallet";
    recipient_type = direct_wallet;
    recipient_account_id = none;
    recipient_synthetic_id = none;
    recipient_snapshot = none;
    recipient_snapshot_version = none;
    trust_confirmation_outcome = none;
  };
  lifecycle = no_evidence;
  created_at = "noon";
  updated_at = "noon";
}

abbrev owner_entry : AllowlistEntry
owner_entry = record {
  actor_subject = owner;
  enabled = true;
  added_at = "noon";
  expires_at = none;
  revoked_at = none;
  note = none;
}

abbrev one_payment : PaymentStore
one_payment = record empty_store {
  allowlist = (owner, owner_entry) ∷ [];
  payments = ("p1", waiting_payment) ∷ [];
}

abbrev confirmation : ConfirmInput
confirmation = record {
  payment_id = "p1";
  request_hash = its_hash;
  expected_version = pos 0;
  request_id = none;
}

one_payment-Keyed : Keyed one_payment
unfolding get
one_payment-Keyed k p h = ground (arith, eq_iff "p1" k)

abbrev confirmed_payment : PaymentRecord
confirmed_payment = record waiting_payment {
  status = processing;
  version = 1;
  lifecycle = record no_evidence {
    user_confirmed_at = some "noon";
    execution_started_at = some "noon";
  };
}

confirms :
    (confirm_payment quiet_call confirmation owner one_payment).0
    ≡ ok (to_public_payment_intent confirmed_payment, true)
unfolding require_payment merge_evidence apply_evidence push_event append_event
    validate_actor_subject validate_create_payment index_key store_claim payment_of_input
    claim_checks claim_with claim_idempotency_key transition_details transition_checks
    transition_writes transition_payment legal_transitions validate_terminal_proof
    validate_payment_transition event_type_for_transition normalize_transition_evidence
    is_terminal_payment_status is_storable put trim concat byte_length utf16_length decimal is_hash
    get set values clone_json_object clone_json_value provision_external_identity
    provision_validations provision_checks provision_fresh validate_external_identity
    actor_subject_for_account is_uuid owner_of external_identity_key put_identity put_fresh_account
    append_event_unsafe security_event list_account_security_events incremented require_account
    resolve find_account_by_external_identity owned_identity identity_at list_external_identities
    require_active has_active_payment_access beta_allowlist_required lowers_to
    require_active_allowlist require_owned_payment require_matching_hash replay_result
    confirm_checks confirm_transition confirm_now after_conflict confirm_payment confirm_intent
    resolve_actor actor_of_account hashes_agree to_public_payment_intent create_for_wallet
    create_payment_request_hash canonical_request wallet_claim claim_answer
confirms = refl

confirm_applies_example :
    (found : PaymentRecord) × (after : PaymentRecord) × (get "p1" one_payment.payments ≡ some found)
    × (found.actor_subject ≡ owner)
    × (hex_bytes found.request_hash ≡ hex_bytes its_hash)
    × (found.status ≡ awaiting_confirmation)
    × (pos found.version ≡ pos 0)
    × (get "p1" (confirm_payment quiet_call confirmation owner one_payment).1.payments ≡ some after)
    × (after.status ≡ processing)
    × (to_public_payment_intent confirmed_payment ≡ to_public_payment_intent after)
confirm_applies_example =
    confirm_applies quiet_call confirmation owner one_payment
      (to_public_payment_intent confirmed_payment) one_payment-Keyed one_payment-Keyed confirms

-- Another call confirms the payment while this one waits.
abbrev other_confirms : ℕ → PaymentStore → PaymentStore
other_confirms n s =
    if eqb n 1 then record s { payments = set "p1" confirmed_payment s.payments } else s

abbrev raced_call : Surroundings
raced_call = record quiet_call { meanwhile = other_confirms }

reads_waiting : confirm_checks confirmation one_payment owner ≡ ok (waiting_payment, none)
unfolding require_payment merge_evidence apply_evidence push_event append_event
    validate_actor_subject validate_create_payment index_key store_claim payment_of_input
    claim_checks claim_with claim_idempotency_key transition_details transition_checks
    transition_writes transition_payment legal_transitions validate_terminal_proof
    validate_payment_transition event_type_for_transition normalize_transition_evidence
    is_terminal_payment_status is_storable put trim concat byte_length utf16_length decimal is_hash
    get set values clone_json_object clone_json_value provision_external_identity
    provision_validations provision_checks provision_fresh validate_external_identity
    actor_subject_for_account is_uuid owner_of external_identity_key put_identity put_fresh_account
    append_event_unsafe security_event list_account_security_events incremented require_account
    resolve find_account_by_external_identity owned_identity identity_at list_external_identities
    require_active has_active_payment_access beta_allowlist_required lowers_to
    require_active_allowlist require_owned_payment require_matching_hash replay_result
    confirm_checks confirm_transition confirm_now after_conflict confirm_payment confirm_intent
    resolve_actor actor_of_account hashes_agree to_public_payment_intent create_for_wallet
    create_payment_request_hash canonical_request wallet_claim claim_answer
reads_waiting = refl

raced_there : get "p1" (other_confirms 1 one_payment).payments ≡ some confirmed_payment
unfolding get set
raced_there = refl

confirm_race_example :
    confirm_payment raced_call confirmation owner one_payment
    ≡ (ok (to_public_payment_intent confirmed_payment, false), other_confirms 1 one_payment)
confirm_race_example =
    confirm_race raced_call confirmation owner one_payment waiting_payment confirmed_payment
      one_payment-Keyed reads_waiting refl raced_there refl refl refl refl refl

abbrev service : ServiceState
service = record { identity_store = empty_identities; payment_store = one_payment }

confirms_intent :
    (confirm_intent parse_all one_order none quiet_call caller confirmation service).0
    ≡ ok (to_public_payment_intent confirmed_payment, true)
unfolding require_payment merge_evidence apply_evidence push_event append_event
    validate_actor_subject validate_create_payment index_key store_claim payment_of_input
    claim_checks claim_with claim_idempotency_key transition_details transition_checks
    transition_writes transition_payment legal_transitions validate_terminal_proof
    validate_payment_transition event_type_for_transition normalize_transition_evidence
    is_terminal_payment_status is_storable put trim concat byte_length utf16_length decimal is_hash
    get set values clone_json_object clone_json_value provision_external_identity
    provision_validations provision_checks provision_fresh validate_external_identity
    actor_subject_for_account is_uuid owner_of external_identity_key put_identity put_fresh_account
    append_event_unsafe security_event list_account_security_events incremented require_account
    resolve find_account_by_external_identity owned_identity identity_at list_external_identities
    require_active has_active_payment_access beta_allowlist_required lowers_to
    require_active_allowlist require_owned_payment require_matching_hash replay_result
    confirm_checks confirm_transition confirm_now after_conflict confirm_payment confirm_intent
    resolve_actor actor_of_account hashes_agree to_public_payment_intent create_for_wallet
    create_payment_request_hash canonical_request wallet_claim claim_answer
confirms_intent = refl

keeps_access :
    (actor : String)
    → require_active_allowlist parse_all none quiet_call one_payment actor ≡ ok tt
    → require_active_allowlist parse_all none quiet_call
        (confirm_intent parse_all one_order none quiet_call caller confirmation
          service).1.payment_store
        actor
      ≡ ok tt
unfolding require_payment merge_evidence apply_evidence push_event append_event
    validate_actor_subject validate_create_payment index_key store_claim payment_of_input
    claim_checks claim_with claim_idempotency_key transition_details transition_checks
    transition_writes transition_payment legal_transitions validate_terminal_proof
    validate_payment_transition event_type_for_transition normalize_transition_evidence
    is_terminal_payment_status is_storable put trim concat byte_length utf16_length decimal is_hash
    get set values clone_json_object clone_json_value provision_external_identity
    provision_validations provision_checks provision_fresh validate_external_identity
    actor_subject_for_account is_uuid owner_of external_identity_key put_identity put_fresh_account
    append_event_unsafe security_event list_account_security_events incremented require_account
    resolve find_account_by_external_identity owned_identity identity_at list_external_identities
    require_active has_active_payment_access beta_allowlist_required lowers_to
    require_active_allowlist require_owned_payment require_matching_hash replay_result
    confirm_checks confirm_transition confirm_now after_conflict confirm_payment confirm_intent
    resolve_actor actor_of_account hashes_agree to_public_payment_intent create_for_wallet
    create_payment_request_hash canonical_request wallet_claim claim_answer
keeps_access actor h = h

confirm_intent_again_example :
    confirm_intent parse_all one_order none quiet_call caller confirmation
      (confirm_intent parse_all one_order none quiet_call caller confirmation service).1
    ≡ (
      ok (to_public_payment_intent confirmed_payment, false),
      (confirm_intent parse_all one_order none quiet_call caller confirmation service).1,
    )
confirm_intent_again_example =
    confirm_intent_again parse_all one_order none quiet_call quiet_call caller confirmation
      confirmation service (to_public_payment_intent confirmed_payment) true one_payment-Keyed
      (λ n x. refl) (λ n x. refl) refl refl keeps_access confirms_intent

abbrev the_digest : DirectDigest
the_digest request = its_hash

abbrev wallet_request : CreateIntentInput
wallet_request = record {
  idempotency_key = "key-fedcba9876543210";
  amount = b'1' ∷ [];
  purpose = none;
  recipient = to_wallet "wallet";
}

abbrev owner_actor : Actor
owner_actor = record { actor_subject = owner; account_id = owner_account }

abbrev new_payment : PaymentRecord
new_payment = record waiting_payment {
  id = "p2";
  idempotency_key = "key-fedcba9876543210";
  amount_raw = pos 1000000;
}

creates :
    (create_for_wallet the_digest "mint" quiet_call wallet_request owner_actor "wallet" 1000000
      one_payment).0
    ≡ ok (to_public_payment_intent new_payment, true)
unfolding require_payment merge_evidence apply_evidence push_event append_event
    validate_actor_subject validate_create_payment index_key store_claim payment_of_input
    claim_checks claim_with claim_idempotency_key transition_details transition_checks
    transition_writes transition_payment legal_transitions validate_terminal_proof
    validate_payment_transition event_type_for_transition normalize_transition_evidence
    is_terminal_payment_status is_storable put trim concat byte_length utf16_length decimal is_hash
    get set values clone_json_object clone_json_value provision_external_identity
    provision_validations provision_checks provision_fresh validate_external_identity
    actor_subject_for_account is_uuid owner_of external_identity_key put_identity put_fresh_account
    append_event_unsafe security_event list_account_security_events incremented require_account
    resolve find_account_by_external_identity owned_identity identity_at list_external_identities
    require_active has_active_payment_access beta_allowlist_required lowers_to
    require_active_allowlist require_owned_payment require_matching_hash replay_result
    confirm_checks confirm_transition confirm_now after_conflict confirm_payment confirm_intent
    resolve_actor actor_of_account hashes_agree to_public_payment_intent create_for_wallet
    create_payment_request_hash canonical_request wallet_claim claim_answer
creates = refl

create_for_wallet_again_example :
    create_for_wallet the_digest "mint" quiet_call wallet_request owner_actor "wallet" 1000000
      (create_for_wallet the_digest "mint" quiet_call wallet_request owner_actor "wallet" 1000000
        one_payment).1
    ≡ (
      ok (to_public_payment_intent new_payment, false),
      (create_for_wallet the_digest "mint" quiet_call wallet_request owner_actor "wallet" 1000000
          one_payment).1,
    )
create_for_wallet_again_example =
    create_for_wallet_again the_digest "mint" quiet_call quiet_call wallet_request owner_actor
      "wallet" 1000000 one_payment (to_public_payment_intent new_payment) refl refl (λ x. refl)
      creates
