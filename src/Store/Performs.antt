-- ===== src/Store/Performs.antt =====
-- Every request is one write of `Writes`, whatever it returns.

use zephipay_backend.Common.{
  nonempty, true, Option-cases, Result-cases, String, arith, inl, inr, some, ℤ, ◌≡◌,
}
use zephipay_backend.Store.Machine.{
  IsNamed, admit, confirm, finish, move, Request, check, claim, inform, observe, perform,
}
use zephipay_backend.Store.Writes.{
  opened, Keyed, Write, allow-Write, check-Write, inform-Write, live-not_completed, observe-Write,
  settled, signature_of_set_signature, untouched, updated,
}
use zephipay_backend.Common.Dict.{get, get-set}
use zephipay_backend.Payments.Lifecycle.Graph.{
  completion-Step, event_type_for_transition_lem, transition-Step, transition-not_completed,
}
use zephipay_backend.Payments.Types.{CreatePaymentInput}
use zephipay_backend.Store.Claims.{
  DateParser, claim_checks, claim_idempotency_key, claim_with, existing_id, payment_of_input,
  store_claim,
}
use zephipay_backend.Store.Events.{append_event}
use zephipay_backend.Store.Flights.{
  confirmation_checks-IsUpdate, receipt_checks-IsUpdate, receipt_kept,
}
use zephipay_backend.Store.Observations.{
  SettlementConfirmationInput, confirmation_checks, record_settlement_confirmation,
}
use zephipay_backend.Store.Receipts.{StoreReceiptInput, receipt_checks, store_verified_receipt}
use zephipay_backend.Store.State.{Clock, PaymentStore}
use zephipay_backend.Store.Transitions.{
  PaymentTransitionInput, transition_checks, transition_payment, transition_writes,
}
use zephipay_backend.Store.Updates.{
  status-transition_checks, transition_checks-IsUpdate, transition_checks_valid,
}

module _ (decimal_text : ℤ → String) (clock : Clock) (s : PaymentStore) where
  confirm-Write :
      (input : SettlementConfirmationInput)
      → Write s (record_settlement_confirmation decimal_text clock input s).1
  unfolding record_settlement_confirmation append_event
  confirm-Write input = elim (Result-cases (confirmation_checks decimal_text (clock 0) input s)) [
    | inl (c, passed) ↦
        let (update, status) =
          confirmation_checks-IsUpdate decimal_text (clock 0) input s c passed in
        updated input.payment_id input.expected_version c.before c.after
          (some input.solana_signature)
          (record {
            update = update;
            edge = inl status;
            payments = ground arith;
            signatures = λ k h.
                ground (arith, get-set input.solana_signature k input.payment_id s.signatures);
            idempotency = ground arith;
          })
          (live-not_completed c.before.status c.after.status update.live status) (ground arith)
    | inr (e, refused) ↦ untouched (ground arith)
  ]

module _ (clock : Clock) (s : PaymentStore) where
  change-Write :
      (input : PaymentTransitionInput) → Keyed s → Write s (transition_payment clock input s).1
  unfolding transition_payment transition_writes append_event
  change-Write input keyed = elim (Result-cases (transition_checks (clock 0) input s)) [
    | inl (c, passed) ↦
        let update = transition_checks-IsUpdate (clock 0) input s c passed in
        let status = status-transition_checks (clock 0) input s c passed in
        let valid = transition_checks_valid (clock 0) input s c passed in
        let event =
          event_type_for_transition_lem c.before.status input.to_status input.evidence valid in
        let name : c.after.id ≡ input.payment_id =
          ground (arith, update.kept, keyed input.payment_id c.before update.found) in
        updated input.payment_id input.expected_version c.before c.after c.signature
          (record {
            update = update;
            edge =
                inr (
                  rw status (transition-Step c.before.status input.to_status input.evidence valid));
            payments = ground arith;
            signatures = λ k h.
                ground
                  (arith, signature_of_set_signature c.signature input.payment_id k s.signatures h);
            idempotency = ground arith;
          })
          (ground
            (arith, transition-not_completed c.before.status input.to_status input.evidence valid))
          (ground arith)
    | inr (e, refused) ↦ untouched (ground arith)
  ]

  complete-Write : (input : StoreReceiptInput) → Write s (store_verified_receipt clock input s).1
  unfolding store_verified_receipt append_event
  complete-Write input = elim (Result-cases (receipt_checks clock input s)) [
    | inl (done, passed) ↦
        let (update, status, flying, fresh, valid) =
          receipt_checks-IsUpdate clock input s done passed in
        let (signature, pda, same_id, amount, mint, address) =
          receipt_kept clock input s done passed in
        settled input.payment_id input.expected_version done.before done.after
          (some input.receipt.receipt.solana_signature) done.receipt
          (record {
            update = update;
            edge = inr (rw status (completion-Step done.before.status flying));
            payments = ground arith;
            signatures = λ k h. ground (
              arith,
              get-set input.receipt.receipt.solana_signature k input.payment_id s.signatures,
            );
            idempotency = ground arith;
          })
          status (ground arith) (ground arith)
    | inr (e, refused) ↦ untouched (ground arith)
  ]

  claim-Write :
      (input : CreatePaymentInput)
      → nonempty input.id ≡ true
      → Write s (claim_idempotency_key clock input s).1
  unfolding claim_idempotency_key claim_with store_claim append_event payment_of_input
  claim-Write input named = elim (Result-cases (claim_checks input s)) [
    | inl (u, passed) ↦
        elim (Option-cases (existing_id s input.actor_subject input.idempotency_key)) [
          | inl unused ↦ elim (Option-cases (get input.id s.payments)) [
            | inl fresh ↦ opened (payment_of_input (clock 0) input) (ground arith)
            | inr (p, taken) ↦ untouched (ground arith)
          ]
          | inr (id, used) ↦ untouched (ground arith)
        ]
    | inr (e, refused) ↦ untouched (ground arith)
  ]

pub perform-Write :
    (parse : DateParser) (decimal_text : ℤ → String) (clock : Clock) (request : Request)
    (s : PaymentStore)
    → Keyed s
    → IsNamed request
    → Write s (perform parse decimal_text clock request s)
unfolding perform
perform-Write parse decimal_text clock (admit input) s keyed named = allow-Write parse clock s input
perform-Write parse decimal_text clock (claim input) s keyed named = claim-Write clock s input named
perform-Write parse decimal_text clock (move input) s keyed named = change-Write clock s input keyed
perform-Write parse decimal_text clock (observe input) s keyed named =
    observe-Write parse clock s input
perform-Write parse decimal_text clock (check input) s keyed named = check-Write parse clock s input
perform-Write parse decimal_text clock (confirm input) s keyed named =
    confirm-Write decimal_text clock s input
perform-Write parse decimal_text clock (inform input) s keyed named =
    inform-Write parse clock s input
perform-Write parse decimal_text clock (finish input) s keyed named = complete-Write clock s input
