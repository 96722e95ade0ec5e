-- ===== src/Store/Writes.antt =====
-- What one request does to the maps of payments, signatures, idempotency keys and receipts.

-- Every payment stands under its own ID.
use zephipay_backend.Payments.Lifecycle.{is_terminal_payment_status}
use zephipay_backend.Store.Flights.{signature_checks-IsUpdate, settlement_check_checks-IsUpdate}
use zephipay_backend.Store.Observations.{
  SignatureObservationInput, record_signature_observation, signature_checks,
  InformationalEventInput, SettlementCheckInput, append_informational_event,
  record_settlement_check, settlement_check_checks,
}
use zephipay_backend.Common.{
  Bool, Option, Result-cases, String, arith, eq_iff, false, if◌then◌else◌, inl, inr, none, nonempty,
  refl, some, true, ℤ, ◌==◌, ◌≡◌, ◌⊎◌,
}
use zephipay_backend.Common.Dict.{Dict, get, get-set, set}
use zephipay_backend.Payments.Lifecycle.Graph.{PaymentStep}
use zephipay_backend.Payments.Types.{
  PaymentRecord, PaymentStatus, awaiting_confirmation, completed, no_evidence, status_eq,
}
use zephipay_backend.Store.Claims.{
  CreateAllowlistEntryInput, DateParser, create_allowlist_entry, index_key,
}
use zephipay_backend.Store.Events.{append_event}
use zephipay_backend.Store.State.{Clock, PaymentReceipt, PaymentStore}
use zephipay_backend.Store.Transitions.{set_signature}
use zephipay_backend.Store.Updates.{IsUpdate}

abbrev pub Keyed : PaymentStore → Type 0
Keyed s = (k : String) (p : PaymentRecord) → get k s.payments ≡ some p → p.id ≡ k

abbrev pub text_is : Option String → String → Bool
text_is none k = false
text_is (some j) k = j == k

pub record Untouched (s t : PaymentStore) : Type 0 where
  pub payments : t.payments ≡ s.payments
  pub signatures : t.signatures ≡ s.signatures
  pub receipts : t.receipts ≡ s.receipts
  pub idempotency : t.idempotency ≡ s.idempotency

-- A payment is claimed under a new ID.
pub record Claimed (s t : PaymentStore) (p : PaymentRecord) : Type 0 where
  pub fresh : get p.id s.payments ≡ none
  pub awaiting : p.status ≡ awaiting_confirmation
  pub blank : p.lifecycle ≡ no_evidence
  pub first : p.version ≡ 0
  pub named : nonempty p.id ≡ true
  pub payments : t.payments ≡ set p.id p s.payments
  pub signatures : t.signatures ≡ s.signatures
  pub receipts : t.receipts ≡ s.receipts
  pub idempotency :
      t.idempotency ≡ set (index_key p.actor_subject p.idempotency_key) p.id s.idempotency

-- One payment is changed, and the signature that the evidence brings is indexed to it.
pub record Updated (s t : PaymentStore) (id : String) (expected : ℤ) (before after : PaymentRecord)
    (signature : Option String) : Type 0 where
  pub update : IsUpdate s id expected before after signature
  pub edge : (after.status ≡ before.status) ⊎ PaymentStep before.status after.status
  pub payments : t.payments ≡ set id after s.payments
  pub signatures :
      (k : String)
      → nonempty k ≡ true
      → get k t.signatures ≡ (if text_is signature k then some id else get k s.signatures)
  pub idempotency : t.idempotency ≡ s.idempotency

pub data Write (s t : PaymentStore) : Type 0 where
  untouched : Untouched s t → Write s t
  opened : (p : PaymentRecord) → Claimed s t p → Write s t
  updated :
      (id : String) (expected : ℤ) (before after : PaymentRecord) (signature : Option String)
      → Updated s t id expected before after signature
      → status_eq after.status completed ≡ false
      → t.receipts ≡ s.receipts
      → Write s t
  settled :
      (id : String) (expected : ℤ) (before after : PaymentRecord) (signature : Option String)
      (r : PaymentReceipt)
      → Updated s t id expected before after signature
      → after.status ≡ completed
      → get id s.receipts ≡ none
      → t.receipts ≡ set id r s.receipts
      → Write s t

signature_of_set :
    (id j k : String) (m : Dict String)
    → get k (set j id m) ≡ (if text_is (some j) k then some id else get k m)
signature_of_set id j k m = get-set j k id m

pub signature_of_set_signature :
    (signature : Option String) (id k : String) (m : Dict String)
    → nonempty k ≡ true
    → get k (set_signature signature id m) ≡ (if text_is signature k then some id else get k m)
signature_of_set_signature none id k m h = refl
signature_of_set_signature (some j) id k m h =
    ground (arith, get-set j k id m, eq_iff j k, eq_iff j "", eq_iff k "")

-- A payment that can still change is not completed, and stays so where its status stays.
pub live-not_completed :
    (before after : PaymentStatus)
    → is_terminal_payment_status before ≡ false
    → after ≡ before
    → status_eq after completed ≡ false
unfolding is_terminal_payment_status
live-not_completed before after h e = ground arith

module _ (parse : DateParser) (clock : Clock) (s : PaymentStore) where
  pub allow-Write :
      (input : CreateAllowlistEntryInput) → Write s (create_allowlist_entry parse clock input s).1
  unfolding create_allowlist_entry
  allow-Write input = untouched (ground arith)

  pub inform-Write :
      (input : InformationalEventInput) → Write s (append_informational_event clock input s).1
  unfolding append_informational_event append_event
  inform-Write input = untouched (ground arith)

  pub check-Write :
      (input : SettlementCheckInput) → Write s (record_settlement_check clock input s).1
  unfolding record_settlement_check
  check-Write input = elim (Result-cases (settlement_check_checks (clock 0) input s)) [
    | inl (after, passed) ↦
        let (before, update, status) =
          settlement_check_checks-IsUpdate (clock 0) input s after passed in
        updated input.payment_id input.expected_version before after none
          (record {
            update = update;
            edge = inl status;
            payments = ground arith;
            signatures = λ k h. ground arith;
            idempotency = ground arith;
          })
          (live-not_completed before.status after.status update.live status) (ground arith)
    | inr (e, refused) ↦ untouched (ground arith)
  ]

  pub observe-Write :
      (input : SignatureObservationInput) → Write s (record_signature_observation clock input s).1
  unfolding record_signature_observation append_event
  observe-Write input = elim (Result-cases (signature_checks (clock 0) input s)) [
    | inl (c, passed) ↦
        let (update, status) = signature_checks-IsUpdate (clock 0) input s c passed in
        updated input.payment_id input.expected_version c.before c.after
          (some input.solana_signature)
          (record {
            update = update;
            edge = inl status;
            payments = ground arith;
            signatures = λ k h.
                ground (arith, get-set input.solana_signature k input.payment_id s.signatures);
            idempotency = ground arith;
          })
          (live-not_completed c.before.status c.after.status update.live status) (ground arith)
    | inr (e, refused) ↦ untouched (ground arith)
  ]
