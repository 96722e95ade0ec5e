-- ===== src/Store/Flights.antt =====
-- What the checks of the observations of a payment in flight establish, and those of a receipt.

use zephipay_backend.Store.Receipts.{
  clock_after, Completion, StoreReceiptInput, receipt_checks, receipt_evidence, validate_receipt,
}
use zephipay_backend.Common.{
  Result-cases, inl, inr, String, arith, eq_ℤ, false, none, ok, pos, refl, some, true, ℤ, ◌≡◌,
}
use zephipay_backend.Payments.Types.{
  completed, PaymentLifecycleEvidence, PaymentRecord, PaymentStatus, no_evidence,
}
use zephipay_backend.Store.Updates.{
  IsUpdate, require_payment_ok, status_of_applied, IsUpdate-of_applied,
}
use zephipay_backend.Common.Dict.{has}
use zephipay_backend.Payments.Lifecycle.{
  is_terminal_payment_status, validate_receipt_completion_transition,
}
use zephipay_backend.Store.Events.{apply_evidence, require_payment, runtime_event_seen}
use zephipay_backend.Store.Observations.{
  SettlementCheckInput, SettlementConfirmationInput, SignatureObservationInput, confirmation_checks,
  settlement_check_checks, signature_checks,
}
use zephipay_backend.Store.State.{Clock, PaymentStore}
use zephipay_backend.Store.Transitions.{Change, in_flight, owned_by_other, signature_taken}

in_flight-live :
    (status : PaymentStatus) → in_flight status ≡ true → is_terminal_payment_status status ≡ false
unfolding is_terminal_payment_status
in_flight-live status h = ground arith

module _ (now : String) (input : SignatureObservationInput) (s : PaymentStore) (c : Change) where
  signature_found :
      signature_checks now input s ≡ ok c
      → (require_payment s input.payment_id ≡ ok c.before)
        × (eq_ℤ (pos c.before.version) input.expected_version ≡ true)
        × (in_flight c.before.status ≡ true)
        × (signature_taken s (some input.solana_signature) input.payment_id ≡ false)
        × (c.signature ≡ some input.solana_signature)
  unfolding signature_checks
  signature_found h = ground arith

  abbrev observed : PaymentLifecycleEvidence
  observed = record no_evidence {
    solana_signature = some input.solana_signature;
    submitted_at = some input.submitted_at;
    submitted_slot = input.submitted_slot;
    recent_blockhash = input.recent_blockhash;
  }

  signature_applied :
      signature_checks now input s ≡ ok c
      → apply_evidence now c.before c.before.status observed ≡ ok c.after
  unfolding signature_checks
  signature_applied h = ground arith

  pub signature_checks-IsUpdate :
      signature_checks now input s ≡ ok c
      → IsUpdate s input.payment_id input.expected_version c.before c.after
          (some input.solana_signature)
        × (c.after.status ≡ c.before.status)
  signature_checks-IsUpdate h =
      let (found, current, flying, free, sig) = signature_found h in
      (
        IsUpdate-of_applied s now input.payment_id input.expected_version c.before c.after
            c.before.status observed (signature_applied h)
            (require_payment_ok s input.payment_id c.before found) current free
            (in_flight-live c.before.status flying),
        status_of_applied s now input.payment_id input.expected_version c.before c.after
            c.before.status observed (signature_applied h),
      )

module _ (now : String) (input : SettlementCheckInput) (s : PaymentStore)
    (after : PaymentRecord) where
  check_parts :
      settlement_check_checks now input s ≡ ok after
      → (before : PaymentRecord) × (require_payment s input.payment_id ≡ ok before)
        × (eq_ℤ (pos before.version) input.expected_version ≡ true)
        × (in_flight before.status ≡ true)
        × (apply_evidence now before before.status
              (record no_evidence { last_checked_at = some input.last_checked_at })
            ≡ ok after)
  unfolding settlement_check_checks
  check_parts h = elim (Result-cases (require_payment s input.payment_id)) [
    | inl (before, found) ↦ (before, found, ground arith, ground arith, ground arith)
    | inr (e, missing) ↦ absurd (ground arith)
  ]

  pub settlement_check_checks-IsUpdate :
      settlement_check_checks now input s ≡ ok after
      → (before : PaymentRecord) × IsUpdate s input.payment_id input.expected_version before after
          none
        × (after.status ≡ before.status)
  settlement_check_checks-IsUpdate h =
      let (before, found, current, flying, applied) = check_parts h in
      (
        before,
        IsUpdate-of_applied s now input.payment_id input.expected_version before after before.status
            (record no_evidence { last_checked_at = some input.last_checked_at }) applied
            (require_payment_ok s input.payment_id before found) current refl
            (in_flight-live before.status flying),
        status_of_applied s now input.payment_id input.expected_version before after before.status
            (record no_evidence { last_checked_at = some input.last_checked_at }) applied,
      )

module _ (decimal_text : ℤ → String) (now : String) (input : SettlementConfirmationInput)
    (s : PaymentStore) (c : Change) where
  confirmation_found :
      confirmation_checks decimal_text now input s ≡ ok c
      → (require_payment s input.payment_id ≡ ok c.before)
        × (eq_ℤ (pos c.before.version) input.expected_version ≡ true)
        × (in_flight c.before.status ≡ true)
        × (signature_taken s (some input.solana_signature) input.payment_id ≡ false)
        × (c.signature ≡ some input.solana_signature)
  unfolding confirmation_checks
  confirmation_found h = ground arith

  abbrev confirmed_evidence : PaymentLifecycleEvidence
  confirmed_evidence = record no_evidence {
    solana_signature = some input.solana_signature;
    confirmed_slot = some input.confirmed_slot;
    confirmation_status = some "confirmed";
    last_checked_at = some input.confirmed_at;
  }

  confirmation_applied :
      confirmation_checks decimal_text now input s ≡ ok c
      → apply_evidence now c.before c.before.status confirmed_evidence ≡ ok c.after
  unfolding confirmation_checks
  confirmation_applied h = ground arith

  pub confirmation_checks-IsUpdate :
      confirmation_checks decimal_text now input s ≡ ok c
      → IsUpdate s input.payment_id input.expected_version c.before c.after
          (some input.solana_signature)
        × (c.after.status ≡ c.before.status)
  confirmation_checks-IsUpdate h =
      let (found, current, flying, free, sig) = confirmation_found h in
      (
        IsUpdate-of_applied s now input.payment_id input.expected_version c.before c.after
            c.before.status confirmed_evidence (confirmation_applied h)
            (require_payment_ok s input.payment_id c.before found) current free
            (in_flight-live c.before.status flying),
        status_of_applied s now input.payment_id input.expected_version c.before c.after
            c.before.status confirmed_evidence (confirmation_applied h),
      )

completion-live :
    (from : PaymentStatus) (e : PaymentLifecycleEvidence)
    → validate_receipt_completion_transition from e ≡ ok tt
    → in_flight from ≡ true
unfolding validate_receipt_completion_transition
completion-live from e h = ground arith

module _ (clock : Clock) (input : StoreReceiptInput) (s : PaymentStore) (done : Completion) where
  receipt_found :
      receipt_checks clock input s ≡ ok done
      → (require_payment s input.payment_id ≡ ok done.before)
        × (eq_ℤ (pos done.before.version) input.expected_version ≡ true)
        × (has input.payment_id s.receipts ≡ false)
        × (validate_receipt done.before input.receipt.receipt ≡ ok tt)
        × (signature_taken s (some input.receipt.receipt.solana_signature) input.payment_id ≡ false)
        × (owned_by_other s.receipt_pdas input.receipt.receipt.receipt_pda input.payment_id ≡ false)
        × (runtime_event_seen s input.event.runtime_event_id ≡ false)
  unfolding receipt_checks
  receipt_found h = ground arith

  receipt_completes :
      receipt_checks clock input s ≡ ok done
      → validate_receipt_completion_transition done.before.status
          (receipt_evidence input.receipt.receipt)
        ≡ ok tt
  unfolding receipt_checks
  receipt_completes h = ground arith

  receipt_applied :
      receipt_checks clock input s ≡ ok done
      → apply_evidence
          (clock_after clock input.receipt.created_at?)
          done.before
          completed
          (receipt_evidence input.receipt.receipt)
        ≡ ok done.after
  unfolding receipt_checks
  receipt_applied h = ground arith

  -- The receipt that is kept is the input's, but for its time and the copy of its raw form.
  pub receipt_kept :
      receipt_checks clock input s ≡ ok done
      → (done.receipt.solana_signature ≡ input.receipt.receipt.solana_signature)
        × (done.receipt.receipt_pda ≡ input.receipt.receipt.receipt_pda)
        × (done.receipt.payment_id ≡ input.receipt.receipt.payment_id)
        × (done.receipt.amount_raw ≡ input.receipt.receipt.amount_raw)
        × (done.receipt.mint_address ≡ input.receipt.receipt.mint_address)
        × (done.receipt.recipient_address ≡ input.receipt.receipt.recipient_address)
  unfolding receipt_checks
  receipt_kept h = ground arith

  pub receipt_checks-IsUpdate :
      receipt_checks clock input s ≡ ok done
      → IsUpdate s input.payment_id input.expected_version done.before done.after
          (some input.receipt.receipt.solana_signature)
        × (done.after.status ≡ completed)
        × (in_flight done.before.status ≡ true)
        × (has input.payment_id s.receipts ≡ false)
        × (validate_receipt done.before input.receipt.receipt ≡ ok tt)
  receipt_checks-IsUpdate h =
      let (found, current, fresh, valid, free, pda, event) = receipt_found h in
      let flying =
        completion-live done.before.status (receipt_evidence input.receipt.receipt)
          (receipt_completes h) in
      let now = clock_after clock input.receipt.created_at? in
      (
        IsUpdate-of_applied s now input.payment_id input.expected_version done.before done.after
            completed (receipt_evidence input.receipt.receipt) (receipt_applied h)
            (require_payment_ok s input.payment_id done.before found) current free
            (in_flight-live done.before.status flying),
        status_of_applied s now input.payment_id input.expected_version done.before done.after
            completed (receipt_evidence input.receipt.receipt) (receipt_applied h),
        flying,
        fresh,
        valid,
      )
