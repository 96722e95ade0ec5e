-- ===== src/Store/Matches.antt =====
-- A payment that a claim on an identity froze matches the request of that claim.

use zephipay_backend.Store.Identity.{
  directory_recipient, directory_snapshot, identity_hash_input, synthetic_address,
  synthetic_recipient, synthetic_snapshot, ClaimPaymentIdentityInput,
  ClaimSyntheticPaymentIdentityInput, ResolvedIdentity, directory_payment, replay_request,
  synthetic_payment, trust_of, IdentityClaimBase, identity_payment,
}
use zephipay_backend.Common.{
  Result-cases, inl, inr, Bool, false, not, ok, or_else, ◌&&◌, Option, String, arith, eq_refl, eq_ℤ,
  negsuc, none, pos, refl, some, true, ℤ, ◌≡◌,
}
use zephipay_backend.Payments.Replay.{
  PaymentIdentityHashInput, create_payment_identity_request_hash, frozen_fields_match,
  matches_frozen_payment_identity_request, text_eq?, trust_eq,
}
use zephipay_backend.Payments.Types.{
  PaymentRecipient, SnapshotVerification, payment_identity, PaymentIdentitySnapshot, PaymentRecord,
  TrustOutcome, acknowledged, not_required,
}

eq_ℤ-refl : (n : ℤ) → eq_ℤ n n ≡ true
eq_ℤ-refl (pos n) = ground arith
eq_ℤ-refl (negsuc n) = ground arith

text_eq?-refl : (o : Option String) → text_eq? o o ≡ true
text_eq?-refl none = refl
text_eq?-refl (some t) = eq_refl t

trust_eq_refl : (t : TrustOutcome) → trust_eq t t ≡ true
trust_eq_refl not_required = refl
trust_eq_refl acknowledged = refl

module _ (digest : PaymentIdentityHashInput → String) (is_time : String → Bool) where
  frozen_fields-made :
      (now hash : String) (base : IdentityClaimBase) (recipient : PaymentRecipient)
      (snapshot : PaymentIdentitySnapshot) (trust : TrustOutcome) (account : String)
      (trusted : Bool)
      → recipient.recipient_type ≡ payment_identity
      → or_else recipient.recipient_account_id recipient.recipient_synthetic_id ≡ some account
      → recipient.recipient_snapshot_version ≡ some 1
      → snapshot.account_id ≡ account
      → snapshot.trust_outcome ≡ trust
      → frozen_fields_match digest is_time
          (identity_payment now base hash recipient)
          snapshot
          trust
          (replay_request base account trusted)
        ≡ true
  unfolding frozen_fields_match identity_payment replay_request
  frozen_fields-made now hash base recipient snapshot trust account trusted k o v a t = ground (
    arith,
    eq_refl account,
    eq_refl base.actor_subject,
    eq_refl base.idempotency_key,
    eq_refl base.network,
    eq_refl base.rail,
    eq_refl base.asset,
    eq_refl base.mint_address,
    eq_ℤ-refl base.amount_raw,
    text_eq?-refl base.purpose,
    trust_eq_refl trust,
  )

  match-made :
      (now hash : String) (base : IdentityClaimBase) (recipient : PaymentRecipient)
      (snapshot : PaymentIdentitySnapshot) (trust : TrustOutcome) (account : String)
      (trusted : Bool)
      → frozen_fields_match digest is_time
          (identity_payment now base hash recipient)
          snapshot
          trust
          (replay_request base account trusted)
        ≡ true
      → recipient.recipient_snapshot ≡ some snapshot
      → recipient.trust_confirmation_outcome ≡ some trust
      → create_payment_identity_request_hash digest is_time
          (identity_hash_input base recipient.recipient_address account snapshot trust)
        ≡ ok hash
      → trust_eq trust acknowledged && not trusted ≡ false
      → matches_frozen_payment_identity_request digest is_time
          (identity_payment now base hash recipient)
          (replay_request base account trusted)
        ≡ ok true
  unfolding matches_frozen_payment_identity_request identity_payment replay_request
      identity_hash_input
  match-made now hash base recipient snapshot trust account trusted fields s t made acknowledges =
      ground (arith, eq_refl hash)

  pub directory-matches :
      (now : String) (input : ClaimPaymentIdentityInput) (found : ResolvedIdentity)
      (v : SnapshotVerification) (p : PaymentRecord)
      → directory_payment digest is_time now input (found, v) ≡ ok p
      → trust_eq (trust_of v) acknowledged && not input.trust_acknowledged ≡ false
      → matches_frozen_payment_identity_request digest is_time p
          (replay_request input.base input.recipient_account_id input.trust_acknowledged)
        ≡ ok true
  unfolding directory_payment directory_snapshot
  directory-matches now input found v p made trusted =
      let snapshot = directory_snapshot input found v in
      let address = found.destination_address in
      let account = input.recipient_account_id in
      let recipient = directory_recipient input address snapshot (trust_of v) in
      elim (Result-cases (
        create_payment_identity_request_hash digest is_time
          (identity_hash_input input.base address account snapshot (trust_of v)))) [
            | inl (hash, e) ↦
                let fields =
                  frozen_fields-made now hash input.base recipient snapshot (trust_of v) account
                    input.trust_acknowledged refl refl refl refl refl in
                let same =
                  match-made now hash input.base recipient snapshot (trust_of v) account
                    input.trust_acknowledged fields refl refl e trusted in
                ground (arith, same)
            | inr (e, refused) ↦ absurd (ground arith)
          ]

  pub synthetic-matches :
      (now : String) (input : ClaimSyntheticPaymentIdentityInput) (p : PaymentRecord)
      → synthetic_payment digest is_time now input ≡ ok p
      → matches_frozen_payment_identity_request digest is_time p
          (replay_request input.base input.synthetic_id false)
        ≡ ok true
  unfolding synthetic_payment synthetic_snapshot
  synthetic-matches now input p made =
      let snapshot = synthetic_snapshot input in
      let account = input.synthetic_id in
      let recipient = synthetic_recipient input snapshot in
      elim (Result-cases (
        create_payment_identity_request_hash digest is_time (
          identity_hash_input input.base (synthetic_address account) account snapshot
            not_required))) [
              | inl (hash, e) ↦
                  let fields =
                    frozen_fields-made now hash input.base recipient snapshot not_required account
                      false refl refl refl refl refl in
                  let same =
                    match-made now hash input.base recipient snapshot not_required account false
                      fields refl refl e refl in
                  ground (arith, same)
              | inr (e, refused) ↦ absurd (ground arith)
            ]
