-- ===== src/Store/Errors.antt =====
-- What a request leaves behind that throws.

use zephipay_backend.Common.{
  Option, Option-cases, none, Bool, Result-cases, String, arith, false, inl, inr, is_ok, ok, some,
  ℤ, ◌≡◌,
}
use zephipay_backend.Json.{object, put, JsonObject, clone_json_object}
use zephipay_backend.Payments.Lifecycle.Graph.{event_type_for_transition_lem}
use zephipay_backend.Payments.Types.{CreatePaymentInput, PaymentTerminalProof}
use zephipay_backend.Store.Claims.{
  claim_checks, claim_with, existing_id, store_claim, DateParser, claim_idempotency_key,
  create_allowlist_entry,
}
use zephipay_backend.Store.Machine.{
  perform, Request, admit, check, claim, confirm, finish, inform, move, observe,
}
use zephipay_backend.Store.Observations.{
  InformationalEventInput, SettlementCheckInput, SettlementConfirmationInput,
  SignatureObservationInput, confirmation_checks, confirmation_details, signature_checks,
  append_informational_event, record_settlement_check, record_settlement_confirmation,
  record_signature_observation,
}
use zephipay_backend.Store.Receipts.{
  Completion, StoreReceiptInput, receipt_checks, store_verified_receipt,
}
use zephipay_backend.Store.State.{json, rethrow, Clock, PaymentStore}
use zephipay_backend.Store.Transitions.{
  Change, details_or_empty, proof_if_failed, terminal_proof_to_json, transition_details,
  PaymentTransitionInput, transition_checks, transition_payment, transition_writes,
}
use zephipay_backend.Store.Updates.{transition_checks_valid}
use zephipay_backend.Json.Laws.{clone_json_object_again}
use zephipay_backend.Store.Events.{append_event, runtime_event_seen}

-- The same store, but for the number that the next event gets.
abbrev pub SameButNumber : PaymentStore → PaymentStore → Type 0
SameButNumber s t = t ≡ record s { next_event_id = t.next_event_id }

module _ (parse : DateParser) (decimal_text : ℤ → String) where
  -- Whether a request returns.
  unfoldable pub returns : Clock → Request → PaymentStore → Bool
  returns clock (admit input) s = is_ok (create_allowlist_entry parse clock input s).0
  returns clock (claim input) s = is_ok (claim_idempotency_key clock input s).0
  returns clock (move input) s = is_ok (transition_payment clock input s).0
  returns clock (observe input) s = is_ok (record_signature_observation clock input s).0
  returns clock (check input) s = is_ok (record_settlement_check clock input s).0
  returns clock (confirm input) s =
      is_ok (record_settlement_confirmation decimal_text clock input s).0
  returns clock (inform input) s = is_ok (append_informational_event clock input s).0
  returns clock (finish input) s = is_ok (store_verified_receipt clock input s).0

-- A copy that has been made can be made again.
copied_again :
    (fs gs : JsonObject)
    → rethrow json (clone_json_object fs) ≡ ok gs
    → clone_json_object gs ≡ ok gs
copied_again fs gs h = clone_json_object_again fs gs (ground arith)

transition_details-copied :
    (input : PaymentTransitionInput) (proof : Option PaymentTerminalProof) (gs : JsonObject)
    → transition_details input proof ≡ ok gs
    → clone_json_object gs ≡ ok gs
unfolding transition_details
transition_details-copied input none gs h = copied_again (details_or_empty input.details) gs h
transition_details-copied input (some proof) gs h =
    elim (Result-cases (rethrow json (clone_json_object (terminal_proof_to_json proof)))) [
      | inl (copy, e) ↦
          copied_again (put "terminalProof" (object copy) (details_or_empty input.details)) gs
            (ground arith)
      | inr (e, refused) ↦ absurd (ground arith)
    ]

module _ (clock : Clock) (s : PaymentStore) where
  move_details :
      (input : PaymentTransitionInput) (c : Change)
      → transition_checks (clock 0) input s ≡ ok c
      → transition_details input (proof_if_failed input) ≡ ok c.details
  unfolding transition_checks
  move_details input c h = ground arith

  move_atomic :
      (input : PaymentTransitionInput)
      → is_ok (transition_payment clock input s).0 ≡ false
      → (transition_payment clock input s).1 ≡ s
  unfolding transition_payment transition_writes append_event
  move_atomic input h = elim (Result-cases (transition_checks (clock 0) input s)) [
    | inl (c, passed) ↦ absurd (
        ground (
          arith,
          transition_details-copied input (proof_if_failed input) c.details
              (move_details input c passed),
          event_type_for_transition_lem c.before.status input.to_status input.evidence
              (transition_checks_valid (clock 0) input s c passed),
        ))
    | inr (e, refused) ↦ ground arith
  ]

  observe_details :
      (input : SignatureObservationInput) (c : Change)
      → signature_checks (clock 0) input s ≡ ok c
      → rethrow json (clone_json_object (details_or_empty input.details)) ≡ ok c.details
  unfolding signature_checks
  observe_details input c h = ground arith

  observe_atomic :
      (input : SignatureObservationInput)
      → is_ok (record_signature_observation clock input s).0 ≡ false
      → (record_signature_observation clock input s).1 ≡ s
  unfolding record_signature_observation append_event
  observe_atomic input h = elim (Result-cases (signature_checks (clock 0) input s)) [
    | inl (c, passed) ↦ absurd (
        ground (
          arith,
          copied_again (details_or_empty input.details) c.details (observe_details input c passed),
        ))
    | inr (e, refused) ↦ ground arith
  ]

  check_atomic :
      (input : SettlementCheckInput)
      → is_ok (record_settlement_check clock input s).0 ≡ false
      → (record_settlement_check clock input s).1 ≡ s
  unfolding record_settlement_check
  check_atomic input h = ground arith

  finish_details :
      (input : StoreReceiptInput) (done : Completion)
      → receipt_checks clock input s ≡ ok done
      → (rethrow json (clone_json_object (details_or_empty input.event.details)) ≡ ok done.details)
        × (runtime_event_seen s input.event.runtime_event_id ≡ false)
  unfolding receipt_checks
  finish_details input done h = ground arith

  finish_atomic :
      (input : StoreReceiptInput)
      → is_ok (store_verified_receipt clock input s).0 ≡ false
      → (store_verified_receipt clock input s).1 ≡ s
  unfolding store_verified_receipt append_event
  finish_atomic input h = elim (Result-cases (receipt_checks clock input s)) [
    | inl (done, passed) ↦ absurd (
        ground (
          arith,
          finish_details input done passed,
          copied_again (details_or_empty input.event.details) done.details
              (finish_details input done passed).0,
        ))
    | inr (e, refused) ↦ ground arith
  ]

  claim_atomic :
      (input : CreatePaymentInput)
      → is_ok (claim_idempotency_key clock input s).0 ≡ false
      → (claim_idempotency_key clock input s).1 ≡ s
  unfolding claim_idempotency_key claim_with store_claim append_event clone_json_object
  claim_atomic input h = elim (Result-cases (claim_checks input s)) [
    | inl (u, passed) ↦
        elim (Option-cases (existing_id s input.actor_subject input.idempotency_key)) [
          | inl unused ↦ ground arith
          | inr (id, used) ↦ ground arith
        ]
    | inr (e, refused) ↦ ground arith
  ]

  inform_atomic :
      (input : InformationalEventInput)
      → is_ok (append_informational_event clock input s).0 ≡ false
      → SameButNumber s (append_informational_event clock input s).1
  unfolding append_informational_event append_event
  inform_atomic input h = ground arith

module _ (decimal_text : ℤ → String) (clock : Clock) (s : PaymentStore) where
  confirm_details :
      (input : SettlementConfirmationInput) (c : Change)
      → confirmation_checks decimal_text (clock 0) input s ≡ ok c
      → rethrow json (clone_json_object (confirmation_details decimal_text input)) ≡ ok c.details
  unfolding confirmation_checks
  confirm_details input c h = ground arith

  confirm_atomic :
      (input : SettlementConfirmationInput)
      → is_ok (record_settlement_confirmation decimal_text clock input s).0 ≡ false
      → (record_settlement_confirmation decimal_text clock input s).1 ≡ s
  unfolding record_settlement_confirmation append_event
  confirm_atomic input h =
      elim (Result-cases (confirmation_checks decimal_text (clock 0) input s)) [
        | inl (c, passed) ↦ absurd (
            ground (
              arith,
              copied_again (confirmation_details decimal_text input) c.details
                  (confirm_details input c passed),
            ))
        | inr (e, refused) ↦ ground arith
      ]

same_of_eq : {s t : PaymentStore} → t ≡ s → SameButNumber s t
same_of_eq e = ground arith

-- A request that throws leaves the store as it found it, but for the number of the next event.
pub throws_atomic :
    (parse : DateParser) (decimal_text : ℤ → String) (clock : Clock) (request : Request)
    (s : PaymentStore)
    → returns parse decimal_text clock request s ≡ false
    → SameButNumber s (perform parse decimal_text clock request s)
unfolding returns perform create_allowlist_entry
throws_atomic parse decimal_text clock (admit input) s h = ground arith
throws_atomic parse decimal_text clock (claim input) s h = same_of_eq (claim_atomic clock s input h)
throws_atomic parse decimal_text clock (move input) s h = same_of_eq (move_atomic clock s input h)
throws_atomic parse decimal_text clock (observe input) s h =
    same_of_eq (observe_atomic clock s input h)
throws_atomic parse decimal_text clock (check input) s h = same_of_eq (check_atomic clock s input h)
throws_atomic parse decimal_text clock (confirm input) s h =
    same_of_eq (confirm_atomic decimal_text clock s input h)
throws_atomic parse decimal_text clock (inform input) s h = inform_atomic clock s input h
throws_atomic parse decimal_text clock (finish input) s h =
    same_of_eq (finish_atomic clock s input h)
