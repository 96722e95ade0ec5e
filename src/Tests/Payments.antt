-- ===== src/Tests/Payments.antt =====
-- The store of payments on concrete requests.

use zephipay_backend.Common.{
  decimal, eq_ℤ, false, ok, ◌==◌, ◌↔◌, true, List, String, [], byte_length, concat, get_or, is_hash,
  none, pos, refl, some, trim, utf16_length, ℤ, ◌∷◌, ◌≡◌,
}
use zephipay_backend.Store.Access.{beta_allowlist_required, has_active_payment_access, lowers_to}
use zephipay_backend.Store.State.{AllowlistEntry, PaymentReceipt, Clock, PaymentStore, empty_store}
use zephipay_backend.Common.Dict.{has, values, get, set}
use zephipay_backend.Json.{clone_json_value, is_storable, put, end, clone_json_object}
use zephipay_backend.Payments.Lifecycle.{
  event_type_for_transition, legal_transitions, normalize_transition_evidence,
  validate_payment_transition, validate_receipt_completion_transition, validate_terminal_proof,
  is_terminal_payment_status,
}
use zephipay_backend.Payments.Types.{
  completed, processing, CreatePaymentInput, PaymentRecord, failed, no_evidence,
  pre_submission_rejection,
}
use zephipay_backend.Store.Claims.{
  claim_outcome, claimed, CreateAllowlistEntryInput, DateParser, claim_checks,
  claim_idempotency_key, claim_with, create_allowlist_entry, index_key, payment_of_input,
  store_claim, validate_actor_subject, validate_create_payment,
}
use zephipay_backend.Store.Errors.{SameButNumber, returns, throws_atomic}
use zephipay_backend.Store.Events.{
  apply_evidence, merge_evidence, append_event, push_event, require_payment,
}
use zephipay_backend.Store.History.{
  Moved, completed_iff_receipt, perform-Moved, signatures_unique, terminal_absorbs, perform_all-Inv,
}
use zephipay_backend.Store.Idempotency.{claim_again}
use zephipay_backend.Store.Receipts.{
  receipt_checks, store_verified_receipt, validate_receipt, StoreReceiptInput,
}
use zephipay_backend.Store.Transitions.{
  transition_checks, transition_details, transition_payment, transition_writes,
  PaymentTransitionInput,
}
use zephipay_backend.Store.Versions.{stale_refused}
use zephipay_backend.Store.Machine.{finish, Request, admit, claim, move, perform, perform_all}
use zephipay_backend.Store.Invariant.{Inv, empty-Inv}

abbrev no_dates : DateParser
no_dates date = none

abbrev text_of : ℤ → String
text_of n = "0"

abbrev noon : Clock
noon n = "2026-01-01T12:00:00.000Z"

abbrev some_hash : String
some_hash = "0123456789abcdef0123456789abcdef0123456789abcdef0123456789abcdef"

abbrev payment_one : CreatePaymentInput
payment_one = record {
  id = "p1";
  actor_subject = "actor";
  idempotency_key = "key-0123456789abcdef";
  request_hash = some_hash;
  network = "solana-devnet";
  rail = "solana";
  asset = "USDC";
  mint_address = "mint";
  recipient_address = "wallet";
  amount_raw = pos 1500000;
  purpose = some "rent";
  recipient_type = none;
  recipient_account_id = none;
  recipient_synthetic_id = none;
  recipient_snapshot = none;
  recipient_snapshot_version = none;
  trust_confirmation_outcome = none;
}

abbrev admission : CreateAllowlistEntryInput
admission = record { actor_subject = "actor"; enabled = none; expires_at = none; note = none }

abbrev rejection : PaymentTransitionInput
rejection = record {
  payment_id = "p1";
  expected_version = pos 0;
  to_status = failed;
  evidence = record no_evidence {
    failed_at = some "2026-01-01T12:00:01.000Z";
    failure_code = some "REJECTED";
    terminal_proof = some (pre_submission_rejection "REJECTED" "the user declined");
  };
  request_id = none;
  details = none;
  occurred_at = none;
}

abbrev claimed_calls : List (Clock × Request)
claimed_calls = (noon, admit admission) ∷ (noon, claim payment_one) ∷ []

abbrev failed_calls : List (Clock × Request)
failed_calls = (noon, admit admission) ∷ (noon, claim payment_one) ∷ (noon, move rejection) ∷ []

abbrev store_of : List (Clock × Request) → PaymentStore
store_of calls = perform_all no_dates text_of empty_store calls

abbrev payment_in : PaymentStore → PaymentRecord
payment_in s = get_or (get "p1" s.payments) (payment_of_input "" payment_one)

claimed_there :
    get "p1" (store_of claimed_calls).payments ≡ some (payment_of_input (noon 0) payment_one)
unfolding require_payment merge_evidence apply_evidence push_event append_event
    validate_actor_subject create_allowlist_entry validate_create_payment index_key store_claim
    payment_of_input claim_checks claim_with claim_idempotency_key transition_details
    transition_checks transition_writes transition_payment validate_receipt receipt_checks
    store_verified_receipt legal_transitions validate_terminal_proof validate_payment_transition
    validate_receipt_completion_transition event_type_for_transition normalize_transition_evidence
    is_terminal_payment_status perform perform_all is_storable put trim concat byte_length
    utf16_length decimal is_hash get set values clone_json_object clone_json_value returns
claimed_there = refl

claimed-Inv : Inv (store_of claimed_calls)
claimed-Inv = perform_all-Inv no_dates text_of empty_store claimed_calls (tt, (refl, tt)) empty-Inv

abbrev confirmation : PaymentTransitionInput
confirmation = record {
  payment_id = "p1";
  expected_version = pos 0;
  to_status = processing;
  evidence = record no_evidence {
    user_confirmed_at = some "2026-01-01T12:00:01.000Z";
    execution_started_at = some "2026-01-01T12:00:02.000Z";
  };
  request_id = none;
  details = none;
  occurred_at = none;
}

abbrev chain_receipt : PaymentReceipt
chain_receipt = record {
  id = "r1";
  payment_id = "p1";
  network = "solana-devnet";
  program_id = "program";
  receipt_pda = "pda";
  solana_signature = "signature";
  slot = pos 7;
  mint_address = "mint";
  recipient_address = "wallet";
  amount_raw = pos 1500000;
  onchain_reference = some_hash;
  raw_receipt = end;
  verified_at = "2026-01-01T12:00:03.000Z";
  created_at = "2026-01-01T12:00:03.000Z";
}

abbrev completion : StoreReceiptInput
completion = record {
  payment_id = "p1";
  expected_version = pos 1;
  receipt = record { receipt = chain_receipt; created_at? = none };
  event = record { runtime_event_id = none; request_id = none; details = none; occurred_at = none };
}

abbrev completed_calls : List (Clock × Request)
completed_calls =
    (noon, admit admission)
    ∷ (noon, claim payment_one)
    ∷ (noon, move confirmation)
    ∷ (noon, finish completion)
    ∷ []

abbrev completed_payment : PaymentRecord
completed_payment = payment_in (store_of completed_calls)

completed_there : get "p1" (store_of completed_calls).payments ≡ some completed_payment
unfolding require_payment merge_evidence apply_evidence push_event append_event
    validate_actor_subject create_allowlist_entry validate_create_payment index_key store_claim
    payment_of_input claim_checks claim_with claim_idempotency_key transition_details
    transition_checks transition_writes transition_payment validate_receipt receipt_checks
    store_verified_receipt legal_transitions validate_terminal_proof validate_payment_transition
    validate_receipt_completion_transition event_type_for_transition normalize_transition_evidence
    is_terminal_payment_status perform perform_all is_storable put trim concat byte_length
    utf16_length decimal is_hash get set values clone_json_object clone_json_value returns
completed_there = refl

completed_signature : completed_payment.lifecycle.solana_signature ≡ some "signature"
unfolding require_payment merge_evidence apply_evidence push_event append_event
    validate_actor_subject create_allowlist_entry validate_create_payment index_key store_claim
    payment_of_input claim_checks claim_with claim_idempotency_key transition_details
    transition_checks transition_writes transition_payment validate_receipt receipt_checks
    store_verified_receipt legal_transitions validate_terminal_proof validate_payment_transition
    validate_receipt_completion_transition event_type_for_transition normalize_transition_evidence
    is_terminal_payment_status perform perform_all is_storable put trim concat byte_length
    utf16_length decimal is_hash get set values clone_json_object clone_json_value returns
completed_signature = refl

failed_there : get "p1" (store_of failed_calls).payments ≡ some (payment_in (store_of failed_calls))
unfolding require_payment merge_evidence apply_evidence push_event append_event
    validate_actor_subject create_allowlist_entry validate_create_payment index_key store_claim
    payment_of_input claim_checks claim_with claim_idempotency_key transition_details
    transition_checks transition_writes transition_payment validate_receipt receipt_checks
    store_verified_receipt legal_transitions validate_terminal_proof validate_payment_transition
    validate_receipt_completion_transition event_type_for_transition normalize_transition_evidence
    is_terminal_payment_status perform perform_all is_storable put trim concat byte_length
    utf16_length decimal is_hash get set values clone_json_object clone_json_value returns
failed_there = refl

failed_terminal : is_terminal_payment_status (payment_in (store_of failed_calls)).status ≡ true
unfolding require_payment merge_evidence apply_evidence push_event append_event
    validate_actor_subject create_allowlist_entry validate_create_payment index_key store_claim
    payment_of_input claim_checks claim_with claim_idempotency_key transition_details
    transition_checks transition_writes transition_payment validate_receipt receipt_checks
    store_verified_receipt legal_transitions validate_terminal_proof validate_payment_transition
    validate_receipt_completion_transition event_type_for_transition normalize_transition_evidence
    is_terminal_payment_status perform perform_all is_storable put trim concat byte_length
    utf16_length decimal is_hash get set values clone_json_object clone_json_value returns
failed_terminal = refl

failed_stale : returns no_dates text_of noon (move rejection) (store_of failed_calls) ≡ false
unfolding require_payment merge_evidence apply_evidence push_event append_event
    validate_actor_subject create_allowlist_entry validate_create_payment index_key store_claim
    payment_of_input claim_checks claim_with claim_idempotency_key transition_details
    transition_checks transition_writes transition_payment validate_receipt receipt_checks
    store_verified_receipt legal_transitions validate_terminal_proof validate_payment_transition
    validate_receipt_completion_transition event_type_for_transition normalize_transition_evidence
    is_terminal_payment_status perform perform_all is_storable put trim concat byte_length
    utf16_length decimal is_hash get set values clone_json_object clone_json_value returns
failed_stale = refl

failed_version : eq_ℤ (pos (payment_in (store_of failed_calls)).version) (pos 0) ≡ false
unfolding require_payment merge_evidence apply_evidence push_event append_event
    validate_actor_subject create_allowlist_entry validate_create_payment index_key store_claim
    payment_of_input claim_checks claim_with claim_idempotency_key transition_details
    transition_checks transition_writes transition_payment validate_receipt receipt_checks
    store_verified_receipt legal_transitions validate_terminal_proof validate_payment_transition
    validate_receipt_completion_transition event_type_for_transition normalize_transition_evidence
    is_terminal_payment_status perform perform_all is_storable put trim concat byte_length
    utf16_length decimal is_hash get set values clone_json_object clone_json_value returns
failed_version = refl

claim_again_passes :
    claim_checks payment_one
      (claim_idempotency_key noon payment_one (store_of ((noon, admit admission) ∷ []))).1
    ≡ ok tt
unfolding require_payment merge_evidence apply_evidence push_event append_event
    validate_actor_subject create_allowlist_entry validate_create_payment index_key store_claim
    payment_of_input claim_checks claim_with claim_idempotency_key transition_details
    transition_checks transition_writes transition_payment validate_receipt receipt_checks
    store_verified_receipt legal_transitions validate_terminal_proof validate_payment_transition
    validate_receipt_completion_transition event_type_for_transition normalize_transition_evidence
    is_terminal_payment_status perform perform_all is_storable put trim concat byte_length
    utf16_length decimal is_hash get set values clone_json_object clone_json_value returns
claim_again_passes = refl

first_claim :
    (claim_idempotency_key noon payment_one (store_of ((noon, admit admission) ∷ []))).0
    ≡ ok (record { outcome = claimed; payment = payment_of_input (noon 0) payment_one })
unfolding require_payment merge_evidence apply_evidence push_event append_event
    validate_actor_subject create_allowlist_entry validate_create_payment index_key store_claim
    payment_of_input claim_checks claim_with claim_idempotency_key transition_details
    transition_checks transition_writes transition_payment validate_receipt receipt_checks
    store_verified_receipt legal_transitions validate_terminal_proof validate_payment_transition
    validate_receipt_completion_transition event_type_for_transition normalize_transition_evidence
    is_terminal_payment_status perform perform_all is_storable put trim concat byte_length
    utf16_length decimal is_hash get set values clone_json_object clone_json_value returns
first_claim = refl

terminal_absorbs_example :
    get "p1" (perform_all no_dates text_of (store_of failed_calls) completed_calls).payments
    ≡ some (payment_in (store_of failed_calls))
terminal_absorbs_example =
    terminal_absorbs no_dates text_of (store_of failed_calls) completed_calls "p1"
      (payment_in (store_of failed_calls)) (tt, (refl, (tt, (tt, tt))))
      (perform_all-Inv no_dates text_of empty_store failed_calls (tt, (refl, (tt, tt))) empty-Inv)
      failed_there failed_terminal

perform-Moved_example :
    (q : PaymentRecord) × (get "p1"
        (perform no_dates text_of noon (move rejection) (store_of claimed_calls)).payments
      ≡ some q)
    × Moved (payment_of_input (noon 0) payment_one) q
perform-Moved_example =
    perform-Moved no_dates text_of noon (move rejection) (store_of claimed_calls) "p1"
      (payment_of_input (noon 0) payment_one) tt claimed-Inv claimed_there

completed_iff_receipt_example :
    (completed_payment.status ≡ completed) ↔ (has "p1" (store_of completed_calls).receipts ≡ true)
completed_iff_receipt_example =
    completed_iff_receipt no_dates text_of completed_calls "p1" completed_payment
      (tt, (refl, (tt, (tt, tt)))) completed_there

abbrev first_id : String
first_id = "p1"

signatures_unique_example : first_id ≡ first_id
signatures_unique_example =
    signatures_unique no_dates text_of completed_calls "p1" "p1" "signature" completed_payment
      completed_payment (tt, (refl, (tt, (tt, tt)))) completed_there completed_there
      completed_signature completed_signature refl

throws_atomic_example :
    SameButNumber
      (store_of failed_calls)
      (perform no_dates text_of noon (move rejection) (store_of failed_calls))
throws_atomic_example =
    throws_atomic no_dates text_of noon (move rejection) (store_of failed_calls) failed_stale

stale_refused_example :
    (returns no_dates text_of noon (move rejection) (store_of failed_calls) ≡ false)
    × (perform no_dates text_of noon (move rejection) (store_of failed_calls)
        ≡ store_of failed_calls)
stale_refused_example =
    stale_refused no_dates text_of noon (move rejection) (store_of failed_calls) "p1" (pos 0)
      (payment_in (store_of failed_calls)) refl failed_there failed_version

claim_again_example :
    claim_idempotency_key noon payment_one
      (claim_idempotency_key noon payment_one (store_of ((noon, admit admission) ∷ []))).1
    ≡ (
      ok (record {
        outcome = claim_outcome (some_hash == some_hash);
        payment = payment_of_input (noon 0) payment_one;
      }),
      (claim_idempotency_key noon payment_one (store_of ((noon, admit admission) ∷ []))).1,
    )
claim_again_example =
    claim_again noon noon payment_one payment_one (store_of ((noon, admit admission) ∷ []))
      (payment_of_input (noon 0) payment_one) refl first_claim refl refl claim_again_passes

abbrev an_entry : AllowlistEntry
an_entry = record {
  actor_subject = "actor";
  enabled = true;
  added_at = "2026-01-01T12:00:00.000Z";
  expires_at = none;
  revoked_at = none;
  note = none;
}

-- An entry without an expiry gives access; one that expires now does not.
access_lem :
    (has_active_payment_access
        (λ date. some (pos 5))
        (some " maybe ")
        (some an_entry)
        "2026-01-01T12:00:01.000Z"
      ≡ true)
    × (has_active_payment_access
          (λ date. some (pos 5))
          (some " maybe ")
          (some (record an_entry { expires_at = some "2026-01-01T12:00:01.000Z" }))
          "2026-01-01T12:00:01.000Z"
        ≡ false)
unfolding has_active_payment_access beta_allowlist_required lowers_to trim
access_lem = (refl, refl)
