-- ===== src/Intents/Recreated.antt =====
-- A payment to a wallet that is created again.

use zephipay_backend.Common.{
  Bool, Result, Result-cases, String, ap, eq_refl, err, false, inl, inr, nonempty, refl, subst, sym,
  true, ℕ, ◌>>=◌, ◌∙◌, arith, ok, ◌≡◌,
}
use zephipay_backend.Intents.Service.{IntentError, Actor, Surroundings, store_threw}
use zephipay_backend.Intents.Create.{
  CreateIntentInput, canonical_request, claim_answer, create_for_wallet, store_error, wallet_claim,
}
use zephipay_backend.Intents.Hashes.{
  CanonicalPaymentRequest, DirectDigest, create_payment_request_hash,
}
use zephipay_backend.Intents.Public.{PublicPaymentIntent, to_public_payment_intent}
use zephipay_backend.Payments.Replay.{HashError}
use zephipay_backend.Store.Claims.{
  claimed, IdempotencyClaim, claim_checks, claim_idempotency_key, claim_with, store_claim,
  validate_create_payment,
}
use zephipay_backend.Store.Idempotency.{claim_again}
use zephipay_backend.Payments.Types.{CreatePaymentInput}
use zephipay_backend.Store.Events.{append_event}
use zephipay_backend.Store.State.{Clock, PaymentStore}

checks_of_allowlist :
    (first second : CreatePaymentInput) (s t : PaymentStore)
    → second ≡ record first { id = second.id }
    → t.allowlist ≡ s.allowlist
    → claim_checks first s ≡ ok tt
    → claim_checks second t ≡ ok tt
unfolding claim_checks validate_create_payment
checks_of_allowlist first second s t same kept h = ground (arith, same, kept, h)

claim_keeps_allowlist :
    (clock : Clock) (input : CreatePaymentInput) (s : PaymentStore)
    → (claim_idempotency_key clock input s).1.allowlist ≡ s.allowlist
unfolding claim_idempotency_key claim_with store_claim append_event
claim_keeps_allowlist clock input s = ground arith

claim_passed :
    (clock : Clock) (input : CreatePaymentInput) (s : PaymentStore) (found : IdempotencyClaim)
    → (claim_idempotency_key clock input s).0 ≡ ok found
    → claim_checks input s ≡ ok tt
unfolding claim_idempotency_key
claim_passed clock input s found h = ground arith

-- A claim that was answered as created has taken its key.
created_claim :
    (found : IdempotencyClaim) (intent : PublicPaymentIntent)
    → claim_answer found ≡ ok (intent, true)
    → (found ≡ record { outcome = claimed; payment = found.payment })
      × (intent ≡ to_public_payment_intent found.payment)
unfolding claim_answer
created_claim found intent h = (ground arith, ground arith)

-- What `create` makes of the claim of a wallet, where no other call runs before it.
wallet_answer :
    (direct_digest : DirectDigest) (mint : String) (around : Surroundings)
    (input : CreateIntentInput) (actor : Actor) (recipient : String) (raw : ℕ)
    (store : PaymentStore) (hash : String)
    → around.meanwhile 0 store ≡ store
    → create_payment_request_hash direct_digest
        (canonical_request mint input actor.actor_subject recipient raw)
      ≡ ok hash
    → (wish : CreatePaymentInput)
    → wish
      ≡ wallet_claim around.new_payment_id input actor.actor_subject
          (canonical_request mint input actor.actor_subject recipient raw)
          hash
    → create_for_wallet direct_digest mint around input actor recipient raw store ≡ (
      store_error store_threw (claim_idempotency_key around.store_clock wish store).0
          >>= claim_answer,
      (claim_idempotency_key around.store_clock wish store).1,
    )
unfolding create_for_wallet
wallet_answer direct_digest mint around input actor recipient raw store hash alone hashed wish
      is_it =
    ground (arith, alone, hashed, is_it)

-- The claim made again under another ID, with what `create` answers.
claim_repeats :
    (clock clock' : Clock) (first second : CreatePaymentInput) (s : PaymentStore)
    (intent : PublicPaymentIntent)
    → second ≡ record first { id = second.id }
    → nonempty first.id ≡ true
    → (store_error store_threw (claim_idempotency_key clock first s).0 >>= claim_answer)
      ≡ ok (intent, true)
    → ◌≡◌ {A = Result IntentError (PublicPaymentIntent × Bool) × PaymentStore}
        (
          store_error store_threw
                (claim_idempotency_key clock' second (claim_idempotency_key clock first s).1).0
              >>= claim_answer,
          (claim_idempotency_key clock' second (claim_idempotency_key clock first s).1).1,
        )
        (ok (intent, false), (claim_idempotency_key clock first s).1)
unfolding claim_answer
claim_repeats clock clock' first second s intent same named h =
    elim (Result-cases (claim_idempotency_key clock first s).0) [
      | inr (e, refused) ↦ absurd (ground (arith, refused, h))
      | inl (found, returned) ↦
          let answered : claim_answer found ≡ ok (intent, true) = ground (arith, returned, h) in
          let (is_claimed, shown) = created_claim found intent answered in
          let t = (claim_idempotency_key clock first s).1 in
          let again =
            claim_again clock clock' first second s found.payment named
              (returned ∙ ap (λ c. ok c) is_claimed) (ap (λ x. x.actor_subject) same)
              (ap (λ x. x.idempotency_key) same)
              (checks_of_allowlist first second s t same (claim_keeps_allowlist clock first s)
                (claim_passed clock first s found returned)) in
          let same_hash : second.request_hash ≡ first.request_hash =
            ap (λ x. x.request_hash) same in
          ground (arith, again, shown, same_hash, eq_refl first.request_hash)
    ]

wallet_claims_agree :
    (around around' : Surroundings) (input : CreateIntentInput) (actor : String)
    (canonical : CanonicalPaymentRequest) (hash : String)
    → wallet_claim around'.new_payment_id input actor canonical hash
      ≡ record (wallet_claim around.new_payment_id input actor canonical hash) {
        id = (wallet_claim around'.new_payment_id input actor canonical hash).id;
      }
unfolding wallet_claim
wallet_claims_agree around around' input actor canonical hash = refl

unhashed :
    (direct_digest : DirectDigest) (mint : String) (around : Surroundings)
    (input : CreateIntentInput) (actor : Actor) (recipient : String) (raw : ℕ)
    (store : PaymentStore) (intent : PublicPaymentIntent) (e : HashError)
    → create_payment_request_hash direct_digest
        (canonical_request mint input actor.actor_subject recipient raw)
      ≡ err e
    → (create_for_wallet direct_digest mint around input actor recipient raw store).0
      ≡ ok (intent, true)
    → ⊥
unfolding create_for_wallet
unhashed direct_digest mint around input actor recipient raw store intent e refused h =
    ground (arith, refused, h)

-- After a payment to a wallet was created, under an ID that is not empty and with no other call while it
-- was and while it is created again: the same request under the same key, with another new ID, shows the
-- payment intent of the first, as not created, and writes nothing.
pub create_for_wallet_again :
    (direct_digest : DirectDigest) (mint : String) (around around' : Surroundings)
    (input : CreateIntentInput) (actor : Actor) (recipient : String) (raw : ℕ)
    (store : PaymentStore) (intent : PublicPaymentIntent)
    → nonempty around.new_payment_id ≡ true
    → around.meanwhile 0 store ≡ store
    → ((x : PaymentStore) → around'.meanwhile 0 x ≡ x)
    → (create_for_wallet direct_digest mint around input actor recipient raw store).0
      ≡ ok (intent, true)
    → create_for_wallet direct_digest mint around' input actor recipient raw
        (create_for_wallet direct_digest mint around input actor recipient raw store).1
      ≡ (
        ok (intent, false),
        (create_for_wallet direct_digest mint around input actor recipient raw store).1,
      )
unfolding wallet_claim
create_for_wallet_again direct_digest mint around around' input actor recipient raw store intent
      named alone alone' h =
    let canonical = canonical_request mint input actor.actor_subject recipient raw in
    elim (Result-cases (create_payment_request_hash direct_digest canonical)) [
      | inr (e, refused) ↦
          absurd
            (unhashed direct_digest mint around input actor recipient raw store intent e refused h)
      | inl (hash, hashed) ↦
          let wish = wallet_claim around.new_payment_id input actor.actor_subject canonical hash in
          let wish' =
            wallet_claim around'.new_payment_id input actor.actor_subject canonical hash in
          let first =
            wallet_answer direct_digest mint around input actor recipient raw store hash alone
              hashed wish refl in
          let final = (claim_idempotency_key around.store_clock wish store).1 in
          let second =
            wallet_answer direct_digest mint around' input actor recipient raw final hash
              (alone' final) hashed wish' refl in
          let repeat =
            claim_repeats around.store_clock around'.store_clock wish wish' store intent
              (wallet_claims_agree around around' input actor.actor_subject canonical hash) named
              (sym (ap (λ r. r.0) first) ∙ h) in
          let is_final : (create_for_wallet direct_digest mint around input actor recipient raw
                store).1
              ≡ final =
            ap (λ r. r.1) first in
          subst
            (λ t.
              create_for_wallet direct_digest mint around' input actor recipient raw t
              ≡ (ok (intent, false), t))
            (sym is_final) (second ∙ repeat)
    ]
