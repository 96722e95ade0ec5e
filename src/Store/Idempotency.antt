-- ===== src/Store/Idempotency.antt =====
-- A claim that is made again under its key.

-- What the first claim leaves: its payment under its ID, and its ID under its key.
use zephipay_backend.Common.{
  String, ◌==◌, Option-cases, Result-cases, arith, eq_refl, inl, inr, nonempty, ok, some, true, ◌≡◌,
}
use zephipay_backend.Store.Claims.{
  claim_outcome, claim_checks, claim_idempotency_key, claim_with, claimed, existing_id, index_key,
  payment_of_input, store_claim,
}
use zephipay_backend.Store.Events.{require_payment, append_event}
use zephipay_backend.Common.Dict.{get, get-set}
use zephipay_backend.Json.{clone_json_object}
use zephipay_backend.Payments.Types.{CreatePaymentInput, PaymentRecord}
use zephipay_backend.Store.State.{Clock, PaymentStore}

claim_leaves :
    (clock : Clock) (input : CreatePaymentInput) (s : PaymentStore) (p : PaymentRecord)
    → nonempty input.id ≡ true
    → (claim_idempotency_key clock input s).0 ≡ ok (record { outcome = claimed; payment = p })
    → (get input.id (claim_idempotency_key clock input s).1.payments ≡ some p)
      × (existing_id
            (claim_idempotency_key clock input s).1
            input.actor_subject
            input.idempotency_key
          ≡ some input.id)
      × (p.request_hash ≡ input.request_hash)
unfolding claim_idempotency_key claim_with store_claim append_event payment_of_input
    clone_json_object
claim_leaves clock input s p named h = elim (Result-cases (claim_checks input s)) [
  | inl (u, passed) ↦
      elim (Option-cases (existing_id s input.actor_subject input.idempotency_key)) [
        | inl unused ↦ ground (
          arith,
          get-set input.id input.id (payment_of_input (clock 0) input) s.payments,
          get-set (index_key input.actor_subject input.idempotency_key)
              (index_key input.actor_subject input.idempotency_key) input.id s.idempotency,
          eq_refl input.id,
          eq_refl (index_key input.actor_subject input.idempotency_key),
        )
        | inr (id, used) ↦ ground arith
      ]
  | inr (e, refused) ↦ ground arith
]

claim_of_existing :
    (clock : Clock) (input : CreatePaymentInput) (t : PaymentStore) (id : String)
    (p : PaymentRecord) (hash : String)
    → claim_checks input t ≡ ok tt
    → existing_id t input.actor_subject input.idempotency_key ≡ some id
    → get id t.payments ≡ some p
    → p.request_hash ≡ hash
    → claim_idempotency_key clock input t
      ≡ (ok (record { outcome = claim_outcome (hash == input.request_hash); payment = p }), t)
unfolding claim_idempotency_key claim_with require_payment
claim_of_existing clock input t id p hash passed used kept e = ground arith

-- After a claim that took its key, any claim by the same actor under the same key that passes the
-- checks of its own input returns the payment of the first, EXISTING if the request hashes are
-- equal and HASH_CONFLICT if not, and leaves the store as it is.
pub claim_again :
    (clock clock' : Clock) (first second : CreatePaymentInput) (s : PaymentStore)
    (p : PaymentRecord)
    → nonempty first.id ≡ true
    → (claim_idempotency_key clock first s).0 ≡ ok (record { outcome = claimed; payment = p })
    → second.actor_subject ≡ first.actor_subject
    → second.idempotency_key ≡ first.idempotency_key
    → claim_checks second (claim_idempotency_key clock first s).1 ≡ ok tt
    → claim_idempotency_key clock' second (claim_idempotency_key clock first s).1 ≡ (
      ok (record {
        outcome = claim_outcome (first.request_hash == second.request_hash);
        payment = p;
      }),
      (claim_idempotency_key clock first s).1,
    )
claim_again clock clock' first second s p named h actor key passed =
    let (kept, indexed, hash) = claim_leaves clock first s p named h in
    claim_of_existing clock' second (claim_idempotency_key clock first s).1 first.id p
      first.request_hash passed (rw (actor, key) indexed) kept hash
