-- ===== src/Store/Machine.antt =====
-- The store as a machine: requests, and what one request does to the maps of payments, signatures
-- and receipts.

use zephipay_backend.Common.{nonempty, true, List, String, [], arith, ℤ, ◌∷◌, ◌≡◌}
use zephipay_backend.Payments.Types.{CreatePaymentInput}
use zephipay_backend.Store.Claims.{
  CreateAllowlistEntryInput, DateParser, claim_idempotency_key, create_allowlist_entry,
}
use zephipay_backend.Store.Events.{InternalPaymentEventInput, append_event}
use zephipay_backend.Store.Observations.{
  InformationalEventInput, SettlementCheckInput, SettlementConfirmationInput,
  SignatureObservationInput, append_informational_event, record_settlement_check,
  record_settlement_confirmation, record_signature_observation,
}
use zephipay_backend.Store.Receipts.{StoreReceiptInput, store_verified_receipt}
use zephipay_backend.Store.State.{Clock, PaymentStore}
use zephipay_backend.Store.Transitions.{PaymentTransitionInput, transition_payment}

pub data Request : Type 0 where
  admit : CreateAllowlistEntryInput → Request
  claim : CreatePaymentInput → Request
  move : PaymentTransitionInput → Request
  observe : SignatureObservationInput → Request
  check : SettlementCheckInput → Request
  confirm : SettlementConfirmationInput → Request
  inform : InformationalEventInput → Request
  finish : StoreReceiptInput → Request

module _ (parse : DateParser) (decimal_text : ℤ → String) where
  -- The state that a request leaves, whether it returns or throws.
  unfoldable pub perform : Clock → Request → PaymentStore → PaymentStore
  perform clock (admit input) s = (create_allowlist_entry parse clock input s).1
  perform clock (claim input) s = (claim_idempotency_key clock input s).1
  perform clock (move input) s = (transition_payment clock input s).1
  perform clock (observe input) s = (record_signature_observation clock input s).1
  perform clock (check input) s = (record_settlement_check clock input s).1
  perform clock (confirm input) s = (record_settlement_confirmation decimal_text clock input s).1
  perform clock (inform input) s = (append_informational_event clock input s).1
  perform clock (finish input) s = (store_verified_receipt clock input s).1

  unfoldable pub perform_all : PaymentStore → List (Clock × Request) → PaymentStore
  perform_all s [] = s
  perform_all s ((clock, request) ∷ rest) = perform_all (perform clock request s) rest

-- The maps that an append to the events leaves alone.
pub record SameMaps (s t : PaymentStore) : Type 0 where
  pub payments : t.payments ≡ s.payments
  pub signatures : t.signatures ≡ s.signatures
  pub receipts : t.receipts ≡ s.receipts
  pub idempotency : t.idempotency ≡ s.idempotency
  pub allowlist : t.allowlist ≡ s.allowlist

pub append_event-SameMaps :
    (now : String) (input : InternalPaymentEventInput) (s : PaymentStore)
    → SameMaps s (append_event now input s).1
unfolding append_event
append_event-SameMaps now input s = ground arith

-- A claim names its payment: the service makes the IDs, and none of them is empty.
abbrev pub IsNamed : Request → Type 0
IsNamed (claim input) = nonempty input.id ≡ true
IsNamed _ = Unit
