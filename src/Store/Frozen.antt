-- ===== src/Store/Frozen.antt =====
-- Replays of a claim on a payment identity: they read the payment that the claim froze, and not the
-- directory.

use zephipay_backend.Store.Matches.{directory-matches}
use zephipay_backend.Store.Identity.{
  trust_asked, directory_details, ask_directory, claim_directory_with, accept_resolved,
  claim_payment_identity_key, replay_existing, replay_on, store_made, ClaimPaymentIdentityInput,
  ResolvedIdentity, directory_payment, replay_request, trust_of, IdentityClaimBase,
  identity_payment,
}
use zephipay_backend.Common.{
  ◌>>=◌, Result, err, nonempty, Result-cases, inl, inr, Bool, false, not, ok, ◌&&◌, Option, String,
  arith, eq_refl, none, some, true, ◌≡◌,
}
use zephipay_backend.Common.Dict.{get, get-set}
use zephipay_backend.Json.{JsonObject}
use zephipay_backend.Payments.Replay.{
  PaymentIdentityReplayRequest, PaymentIdentityHashInput, matches_frozen_payment_identity_request,
  trust_eq,
}
use zephipay_backend.Store.Claims.{claimed, existing, existing_id, index_key, store_claim}
use zephipay_backend.Store.Events.{append_event, require_payment}
use zephipay_backend.Store.State.{Clock, PaymentStore, StoreError}
use zephipay_backend.Payments.Types.{SnapshotVerification, PaymentRecord, acknowledged}

module _ (digest : PaymentIdentityHashInput → String) (is_time : String → Bool) where
  store_made-leaves :
      (clock : Clock) (made : Result StoreError PaymentRecord) (details : JsonObject)
      (s : PaymentStore) (p : PaymentRecord)
      → (store_made digest is_time clock made details s).0
        ≡ ok (record { outcome = claimed; payment = p })
      → nonempty p.id ≡ true
      → (get p.id (store_made digest is_time clock made details s).1.payments ≡ some p)
        × (existing_id
              (store_made digest is_time clock made details s).1
              p.actor_subject
              p.idempotency_key
            ≡ some p.id)
  unfolding store_made store_claim append_event
  store_made-leaves clock (ok q) details s p h named = ground (
    arith,
    get-set q.id q.id q s.payments,
    get-set (index_key q.actor_subject q.idempotency_key)
        (index_key q.actor_subject q.idempotency_key) q.id s.idempotency,
    eq_refl q.id,
    eq_refl (index_key q.actor_subject q.idempotency_key),
  )
  store_made-leaves clock (err e) details s p h named = absurd (ground arith)

  replay-kept :
      (s : PaymentStore) (p : PaymentRecord) (request : PaymentIdentityReplayRequest)
      → get p.id s.payments ≡ some p
      → matches_frozen_payment_identity_request digest is_time p request ≡ ok true
      → replay_existing digest is_time s p.id request
        ≡ ok (record { outcome = existing; payment = p })
  unfolding replay_existing replay_on require_payment
  replay-kept s p request kept same = ground arith

  ask-trust :
      (resolve : Option (ClaimPaymentIdentityInput → Option ResolvedIdentity))
      (input : ClaimPaymentIdentityInput) (found : ResolvedIdentity) (v : SnapshotVerification)
      → ask_directory resolve input ≡ ok (found, v)
      → trust_eq (trust_of v) acknowledged && not input.trust_acknowledged ≡ false
  unfolding ask_directory accept_resolved
  ask-trust resolve input found v h = ground arith

  directory_payment-keys :
      (now : String) (input : ClaimPaymentIdentityInput)
      (found : ResolvedIdentity × SnapshotVerification) (p : PaymentRecord)
      → directory_payment digest is_time now input found ≡ ok p
      → (p.id ≡ input.base.id)
        × (p.actor_subject ≡ input.base.actor_subject)
        × (p.idempotency_key ≡ input.base.idempotency_key)
  unfolding directory_payment identity_payment
  directory_payment-keys now input (found, v) p h = ground arith

  claimed_anew :
      (s : PaymentStore) (id : String) (request : PaymentIdentityReplayRequest) (p : PaymentRecord)
      → replay_existing digest is_time s id request ≡ ok (record { outcome = claimed; payment = p })
      → ⊥
  unfolding replay_existing replay_on
  claimed_anew s id request p h = ground arith

  directory_again :
      (resolve : Option (ClaimPaymentIdentityInput → Option ResolvedIdentity)) (clock : Clock)
      (input : ClaimPaymentIdentityInput) (t : PaymentStore) (p : PaymentRecord)
      → existing_id t input.base.actor_subject input.base.idempotency_key ≡ some p.id
      → get p.id t.payments ≡ some p
      → matches_frozen_payment_identity_request digest is_time p
          (replay_request input.base input.recipient_account_id input.trust_acknowledged)
        ≡ ok true
      → claim_payment_identity_key digest is_time resolve clock input t
        ≡ (ok (record { outcome = existing; payment = p }), t)
  unfolding claim_payment_identity_key claim_directory_with
  directory_again resolve clock input t p used kept same =
      let again =
        replay-kept t p
          (replay_request input.base input.recipient_account_id input.trust_acknowledged) kept
          same in
      ground (arith, again)

  -- What a claim that took its key leaves behind.
  record Kept (base : IdentityClaimBase) (request : PaymentIdentityReplayRequest)
      (p : PaymentRecord) (t : PaymentStore) : Type 0 where
    kept : get p.id t.payments ≡ some p
    used : existing_id t base.actor_subject base.idempotency_key ≡ some p.id
    same : matches_frozen_payment_identity_request digest is_time p request ≡ ok true

  store_made-made :
      (clock : Clock) (made : Result StoreError PaymentRecord) (details : JsonObject)
      (s : PaymentStore) (p : PaymentRecord)
      → (store_made digest is_time clock made details s).0
        ≡ ok (record { outcome = claimed; payment = p })
      → made ≡ ok p
  unfolding store_made store_claim append_event
  store_made-made clock (ok q) details s p h = ground arith
  store_made-made clock (err e) details s p h = absurd (ground arith)

  asked-matches :
      (resolve : Option (ClaimPaymentIdentityInput → Option ResolvedIdentity)) (now : String)
      (input : ClaimPaymentIdentityInput) (p : PaymentRecord)
      → (ask_directory resolve input >>= directory_payment digest is_time now input) ≡ ok p
      → (matches_frozen_payment_identity_request digest is_time p
            (replay_request input.base input.recipient_account_id input.trust_acknowledged)
          ≡ ok true)
        × (p.id ≡ input.base.id)
        × (p.actor_subject ≡ input.base.actor_subject)
        × (p.idempotency_key ≡ input.base.idempotency_key)
  asked-matches resolve now input p h = elim (Result-cases (ask_directory resolve input)) [
    | inl ((found, v), asked) ↦
        let made : directory_payment digest is_time now input (found, v) ≡ ok p = cc in
        let keys = directory_payment-keys now input (found, v) p made in
        (
          directory-matches digest is_time now input found v p made
              (ask-trust resolve input found v asked),
          keys.0,
          keys.1,
          keys.2,
        )
    | inr (e, refused) ↦ absurd (ground arith)
  ]

  directory_made-Kept :
      (resolve : Option (ClaimPaymentIdentityInput → Option ResolvedIdentity)) (clock : Clock)
      (input : ClaimPaymentIdentityInput) (s : PaymentStore) (p : PaymentRecord)
      → nonempty input.base.id ≡ true
      → (claim_directory_with digest is_time resolve clock input none s).0
        ≡ ok (record { outcome = claimed; payment = p })
      → Kept input.base
          (replay_request input.base input.recipient_account_id input.trust_acknowledged)
          p
          (claim_directory_with digest is_time resolve clock input none s).1
  unfolding claim_directory_with
  directory_made-Kept resolve clock input s p named h =
      let answer = ask_directory resolve input in
      let details = directory_details input.recipient_account_id (trust_asked answer) in
      let made =
        store_made-made clock (answer >>= directory_payment digest is_time (clock 0) input) details
          s p h in
      let (same, id, actor, key) = asked-matches resolve (clock 0) input p made in
      let (kept, used) =
        store_made-leaves clock (answer >>= directory_payment digest is_time (clock 0) input)
          details s p h (cc (named, id)) in
      record { kept = kept; used = cc; same = same }

  directory_claim-Kept :
      (resolve : Option (ClaimPaymentIdentityInput → Option ResolvedIdentity)) (clock : Clock)
      (input : ClaimPaymentIdentityInput) (s : PaymentStore) (p : PaymentRecord)
      → nonempty input.base.id ≡ true
      → (o : Option String)
      → (claim_directory_with digest is_time resolve clock input o s).0
        ≡ ok (record { outcome = claimed; payment = p })
      → Kept input.base
          (replay_request input.base input.recipient_account_id input.trust_acknowledged)
          p
          (claim_directory_with digest is_time resolve clock input o s).1
  directory_claim-Kept resolve clock input s p named none h =
      directory_made-Kept resolve clock input s p named h
  directory_claim-Kept resolve clock input s p named (some id) h = absurd (
      claimed_anew s id
        (replay_request input.base input.recipient_account_id input.trust_acknowledged) p
        (unfold claim_directory_with in h))

  -- After a claim on the directory that took its key for a payment with an ID that is not empty, the
  -- same claim again returns the payment of the first as EXISTING and leaves the store as it is,
  -- whatever the directory says by then.
  pub claim_payment_identity_again :
      (resolve resolve' : Option (ClaimPaymentIdentityInput → Option ResolvedIdentity))
      (clock clock' : Clock) (input : ClaimPaymentIdentityInput) (s : PaymentStore)
      (p : PaymentRecord)
      → nonempty input.base.id ≡ true
      → (claim_payment_identity_key digest is_time resolve clock input s).0
        ≡ ok (record { outcome = claimed; payment = p })
      → claim_payment_identity_key digest is_time resolve' clock' input
          (claim_payment_identity_key digest is_time resolve clock input s).1
        ≡ (
          ok (record { outcome = existing; payment = p }),
          (claim_payment_identity_key digest is_time resolve clock input s).1,
        )
  unfolding claim_payment_identity_key
  claim_payment_identity_again resolve resolve' clock clock' input s p named h =
      let k =
        directory_claim-Kept resolve clock input s p named
          (existing_id s input.base.actor_subject input.base.idempotency_key) h in
      directory_again resolve' clock' input
        (claim_payment_identity_key digest is_time resolve clock input s).1 p k.used k.kept k.same
