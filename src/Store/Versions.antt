-- ===== src/Store/Versions.antt =====
-- Requests made on a version of the payment that is not the present one.

-- The payment and the version that a request is made on.
use zephipay_backend.Common.{Option, String, arith, eq_ℤ, false, none, pos, some, ℤ, ◌≡◌}
use zephipay_backend.Common.Dict.{get}
use zephipay_backend.Payments.Types.{PaymentRecord}
use zephipay_backend.Store.Claims.{DateParser}
use zephipay_backend.Store.Errors.{returns}
use zephipay_backend.Store.Events.{require_payment}
use zephipay_backend.Store.Machine.{
  Request, admit, check, claim, confirm, finish, inform, move, observe, perform,
}
use zephipay_backend.Store.Observations.{
  confirmation_checks, record_settlement_check, record_settlement_confirmation,
  record_signature_observation, settlement_check_checks, signature_checks,
}
use zephipay_backend.Store.Receipts.{receipt_checks, store_verified_receipt}
use zephipay_backend.Store.State.{Clock, PaymentStore}
use zephipay_backend.Store.Transitions.{transition_checks, transition_payment}

abbrev pub expectation : Request → Option (String × ℤ)
expectation (move input) = some (input.payment_id, input.expected_version)
expectation (observe input) = some (input.payment_id, input.expected_version)
expectation (check input) = some (input.payment_id, input.expected_version)
expectation (confirm input) = some (input.payment_id, input.expected_version)
expectation (finish input) = some (input.payment_id, input.expected_version)
expectation _ = none

-- A request that expects a version of a payment which is not the present one throws and changes nothing.
pub stale_refused :
    (parse : DateParser) (decimal_text : ℤ → String) (clock : Clock) (request : Request)
    (s : PaymentStore) (id : String) (expected : ℤ) (p : PaymentRecord)
    → expectation request ≡ some (id, expected)
    → get id s.payments ≡ some p
    → eq_ℤ (pos p.version) expected ≡ false
    → (returns parse decimal_text clock request s ≡ false)
      × (perform parse decimal_text clock request s ≡ s)
unfolding returns perform require_payment
stale_refused parse decimal_text clock (admit input) s id expected p e h v = cc
stale_refused parse decimal_text clock (claim input) s id expected p e h v = cc
stale_refused parse decimal_text clock (move input) s id expected p e h v =
    unfold transition_payment transition_checks in (ground arith, ground arith)
stale_refused parse decimal_text clock (observe input) s id expected p e h v =
    unfold record_signature_observation signature_checks in (ground arith, ground arith)
stale_refused parse decimal_text clock (check input) s id expected p e h v =
    unfold record_settlement_check settlement_check_checks in (ground arith, ground arith)
stale_refused parse decimal_text clock (confirm input) s id expected p e h v =
    unfold record_settlement_confirmation confirmation_checks in (ground arith, ground arith)
stale_refused parse decimal_text clock (inform input) s id expected p e h v = cc
stale_refused parse decimal_text clock (finish input) s id expected p e h v =
    unfold store_verified_receipt receipt_checks in (ground arith, ground arith)
