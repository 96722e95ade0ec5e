-- ===== src/Store/Updates.antt =====
-- What the checks of each operation establish.

-- The evidence is merged into a payment of the same identity, one version on.
use zephipay_backend.Payments.Lifecycle.Graph.{transition-live}
use zephipay_backend.Payments.Types.{PaymentLifecycleEvidence, PaymentRecord, PaymentStatus}
use zephipay_backend.Store.Transitions.{
  Change, PaymentTransitionInput, signature_taken, transition_checks,
}
use zephipay_backend.Payments.Lifecycle.{
  normalize_transition_evidence, validate_payment_transition, is_terminal_payment_status,
}
use zephipay_backend.Common.{
  Option, eq_ℤ, false, or_else, pos, true, ℤ, String, arith, ok, some, ◌+◌, ◌≡◌,
}
use zephipay_backend.Common.Dict.{get}
use zephipay_backend.Store.Events.{apply_evidence, merge_evidence, require_payment}
use zephipay_backend.Store.State.{PaymentStore}

pub apply_evidence_ok :
    (now : String) (current : PaymentRecord) (status : PaymentStatus)
    (evidence : PaymentLifecycleEvidence) (p : PaymentRecord)
    → apply_evidence now current status evidence ≡ ok p
    → p ≡ record current {
      status = status;
      version = current.version + 1;
      updated_at = now;
      lifecycle =
          merge_evidence evidence current.lifecycle p.lifecycle.chain_error
            p.lifecycle.terminal_proof;
    }
unfolding apply_evidence
apply_evidence_ok now current status evidence p h = ground arith

pub require_payment_ok :
    (s : PaymentStore) (id : String) (p : PaymentRecord)
    → require_payment s id ≡ ok p
    → get id s.payments ≡ some p
unfolding require_payment
require_payment_ok s id p h = ground arith

-- A change of one payment that the checks of an operation let through. `signature` is the signature
-- that the evidence brings.
pub record IsUpdate (s : PaymentStore) (id : String) (expected : ℤ) (before after : PaymentRecord)
    (signature : Option String) : Type 0 where
  pub found : get id s.payments ≡ some before
  pub current : eq_ℤ (pos before.version) expected ≡ true
  pub kept : after ≡ record before {
    status = after.status;
    version = before.version + 1;
    updated_at = after.updated_at;
    lifecycle = after.lifecycle;
  }
  pub merged :
      after.lifecycle.solana_signature ≡ or_else signature before.lifecycle.solana_signature
  pub free : signature_taken s signature id ≡ false
  pub live : is_terminal_payment_status before.status ≡ false

module _ (s : PaymentStore) (now id : String) (expected : ℤ) (before after : PaymentRecord)
    (status : PaymentStatus) (evidence : PaymentLifecycleEvidence)
    (applied : apply_evidence now before status evidence ≡ ok after) where
  pub after_eq : after ≡ record before {
    status = status;
    version = before.version + 1;
    updated_at = now;
    lifecycle =
        merge_evidence evidence before.lifecycle after.lifecycle.chain_error
          after.lifecycle.terminal_proof;
  }
  after_eq = apply_evidence_ok now before status evidence after applied

  pub IsUpdate-of_applied :
      get id s.payments ≡ some before
      → eq_ℤ (pos before.version) expected ≡ true
      → signature_taken s evidence.solana_signature id ≡ false
      → is_terminal_payment_status before.status ≡ false
      → IsUpdate s id expected before after evidence.solana_signature
  unfolding merge_evidence
  IsUpdate-of_applied found current free live = record {
    found = found;
    current = current;
    kept = ground (arith, after_eq);
    merged = ground (arith, after_eq);
    free = free;
    live = live;
  }

  pub status_of_applied : after.status ≡ status
  status_of_applied = ground (arith, after_eq)

module _ (now : String) (input : PaymentTransitionInput) (s : PaymentStore) (c : Change) where
  abbrev evidence_in : PaymentLifecycleEvidence
  evidence_in = normalize_transition_evidence input.to_status input.evidence

  transition_applied :
      transition_checks now input s ≡ ok c
      → apply_evidence now c.before input.to_status evidence_in ≡ ok c.after
  unfolding transition_checks
  transition_applied h = ground arith

  transition_found :
      transition_checks now input s ≡ ok c → require_payment s input.payment_id ≡ ok c.before
  unfolding transition_checks
  transition_found h = ground arith

  transition_valid :
      transition_checks now input s ≡ ok c
      → validate_payment_transition c.before.status input.to_status input.evidence ≡ ok tt
  unfolding transition_checks
  transition_valid h = ground arith

  transition_guards :
      transition_checks now input s ≡ ok c
      → (eq_ℤ (pos c.before.version) input.expected_version ≡ true)
        × (c.signature ≡ evidence_in.solana_signature)
        × (signature_taken s c.signature input.payment_id ≡ false)
  unfolding transition_checks
  transition_guards h = ground arith

  pub transition_checks-IsUpdate :
      transition_checks now input s ≡ ok c
      → IsUpdate s input.payment_id input.expected_version c.before c.after c.signature
  transition_checks-IsUpdate h =
      let (current, sig, free) = transition_guards h in
      rw sig (
        IsUpdate-of_applied s now input.payment_id input.expected_version c.before c.after
          input.to_status evidence_in (transition_applied h)
          (require_payment_ok s input.payment_id c.before (transition_found h)) current
          (rw (← sig) free)
          (transition-live c.before.status input.to_status input.evidence (transition_valid h)))

  pub status-transition_checks :
      transition_checks now input s ≡ ok c → c.after.status ≡ input.to_status
  status-transition_checks h =
      status_of_applied s now input.payment_id input.expected_version c.before c.after
        input.to_status evidence_in (transition_applied h)

  pub transition_checks_valid :
      transition_checks now input s ≡ ok c
      → validate_payment_transition c.before.status input.to_status input.evidence ≡ ok tt
  transition_checks_valid h = transition_valid h
