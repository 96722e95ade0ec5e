-- ===== src/Intents/Create.antt =====
-- `create` of services/paymentIntentService.ts: a payment to a wallet, or to a payment identity.
-- `digest` and `is_time` are those of `Payments.Replay`, `directory` and `synthetic` the directories of
-- identities, `mint` the address of the asset that the service is set up with.

use zephipay_backend.Accounts.Queries.{Collation, ExternalPrincipal}
use zephipay_backend.Amounts.{usdc_amount_to_raw, Units}
use zephipay_backend.Common.{
  ◌>>◌, Bool, Option, Result, String, err, false, none, ok, pos, some, true, ℕ, ◌>>=◌,
}
use zephipay_backend.Intents.Service.{
  IntentOp, amount_threw, require_active_allowlist, resolve_actor, Actor, IntentError, PaymentOp,
  Surroundings, intent_conflict, intent_not_found, key_reused, store_threw, trust_missing,
}
use zephipay_backend.Payments.Replay.{PaymentIdentityHashInput}
use zephipay_backend.Store.Claims.{
  DateParser, IdempotencyClaim, claim_idempotency_key, claimed, existing, hash_conflict,
}
use zephipay_backend.Store.Identity.{
  ClaimPaymentIdentityInput, IdentityClaimBase, ResolvedIdentity, claim_payment_identity_key,
  claim_synthetic_payment_identity_key, replay_payment_identity_key, replay_request,
}
use zephipay_backend.Store.State.{
  Clock, PaymentStore, StoreError, hashing, recipient_unavailable, trust_acknowledgment_required,
}
use zephipay_backend.Intents.Hashes.{
  CanonicalPaymentRequest, DirectDigest, create_payment_request_hash,
}
use zephipay_backend.Intents.Public.{PublicPaymentIntent, to_public_payment_intent}
use zephipay_backend.Payments.Types.{CreatePaymentInput, direct_wallet}

pub data IntentRecipient : Type 0 where
  to_wallet : String → IntentRecipient
  -- the account or synthetic ID, and whether trust is acknowledged
  to_identity : String → Bool → IntentRecipient

pub record CreateIntentInput : Type 0 where
  pub idempotency_key : String
  pub amount : Units
  pub purpose : Option String
  pub recipient : IntentRecipient

pub record SyntheticIdentity : Type 0 where
  pub synthetic_id : String
  pub username : String
  pub display_name : String

-- `claimResult`
unfoldable pub claim_answer : IdempotencyClaim → Result IntentError (PublicPaymentIntent × Bool)
claim_answer found = elim found.outcome [
  | hash_conflict ↦ err (intent_conflict key_reused)
  | claimed ↦ ok (to_public_payment_intent found.payment, true)
  | existing ↦ ok (to_public_payment_intent found.payment, false)
]

-- What the service makes of an error of a claim on an identity.
unfoldable pub identity_claim_error : StoreError → IntentError
identity_claim_error trust_acknowledgment_required = intent_conflict trust_missing
identity_claim_error recipient_unavailable = intent_not_found
identity_claim_error e = store_threw e

abbrev pub store_error :
    {A : Type 0} → (StoreError → IntentError) → Result StoreError A → Result IntentError A
store_error f (ok a) = ok a
store_error f (err e) = err (f e)

unfoldable pub canonical_request :
    String → CreateIntentInput → String → String → ℕ → CanonicalPaymentRequest
canonical_request mint input actor recipient raw = record {
  actor_subject = actor;
  network = "solana-devnet";
  mint_address = mint;
  recipient_address = recipient;
  amount_raw = pos raw;
  purpose = input.purpose;
}

unfoldable pub wallet_claim :
    String → CreateIntentInput → String → CanonicalPaymentRequest → String → CreatePaymentInput
wallet_claim id input actor canonical hash = record {
  id = id;
  actor_subject = actor;
  idempotency_key = input.idempotency_key;
  request_hash = hash;
  network = canonical.network;
  rail = "solana";
  asset = "USDC";
  mint_address = canonical.mint_address;
  recipient_address = canonical.recipient_address;
  amount_raw = canonical.amount_raw;
  purpose = canonical.purpose;
  recipient_type = some direct_wallet;
  recipient_account_id = none;
  recipient_synthetic_id = none;
  recipient_snapshot = none;
  recipient_snapshot_version = none;
  trust_confirmation_outcome = none;
}

unfoldable pub create_for_wallet :
    DirectDigest
    → String
    → Surroundings
    → CreateIntentInput
    → Actor
    → String
    → ℕ
    → PaymentOp (PublicPaymentIntent × Bool)
create_for_wallet direct_digest mint around input actor recipient raw store =
    let canonical = canonical_request mint input actor.actor_subject recipient raw in
    elim (create_payment_request_hash direct_digest canonical) [
      | err e ↦ (err (store_threw (hashing e)), store)
      | ok hash ↦
          let (answer, store') =
            claim_idempotency_key around.store_clock
              (wallet_claim around.new_payment_id input actor.actor_subject canonical hash)
              (around.meanwhile 0 store) in
          (store_error store_threw answer >>= claim_answer, store')
    ]

unfoldable pub claim_base :
    String → String → CreateIntentInput → Actor → Surroundings → ℕ → IdentityClaimBase
claim_base mint id input actor around raw = record {
  id = id;
  actor_subject = actor.actor_subject;
  sender_account_id = actor.account_id;
  idempotency_key = input.idempotency_key;
  network = "solana-devnet";
  rail = "solana";
  asset = "USDC";
  mint_address = mint;
  amount_raw = pos raw;
  purpose = input.purpose;
  captured_at = around.occurred_at;
}

module _ (digest : PaymentIdentityHashInput → String) (is_time : String → Bool)
    (directory : Option (ClaimPaymentIdentityInput → Option ResolvedIdentity))
    (synthetic : Option (String → Option SyntheticIdentity)) where
  -- `this.syntheticIdentityStore?.findById(...)`
  abbrev find_synthetic : String → Option SyntheticIdentity
  find_synthetic id = elim synthetic [ none ↦ none | some find_by_id ↦ find_by_id id ]

  unfoldable pub claim_identity :
      Clock
      → IdentityClaimBase
      → String
      → Bool
      → PaymentStore
      → Result StoreError IdempotencyClaim × PaymentStore
  claim_identity clock base recipient trusted store = elim (find_synthetic recipient) [
    | some found ↦
        claim_synthetic_payment_identity_key digest is_time clock
          (record {
            base = base;
            synthetic_id = found.synthetic_id;
            username = found.username;
            display_name = found.display_name;
          })
          store
    | none ↦
        claim_payment_identity_key digest is_time directory clock
          (record { base = base; recipient_account_id = recipient; trust_acknowledged = trusted })
          store
  ]

  unfoldable pub create_for_identity :
      String
      → Surroundings
      → CreateIntentInput
      → Actor
      → String
      → Bool
      → ℕ
      → PaymentOp (PublicPaymentIntent × Bool)
  create_for_identity mint around input actor recipient trusted raw store =
      let base = claim_base mint around.new_payment_id input actor around raw in
      let (replay, store') =
        replay_payment_identity_key digest is_time (replay_request base recipient trusted) store in
      elim replay [
        | err e ↦ (err (store_threw e), store')
        | ok (some found) ↦ (claim_answer found, store')
        | ok none ↦
            let (answer, store'') =
              claim_identity around.store_clock base recipient trusted
                (around.meanwhile 0 store') in
            (store_error identity_claim_error answer >>= claim_answer, store'')
      ]

  -- `create` after the actor was admitted.
  unfoldable pub create_payment :
      DirectDigest
      → String
      → Surroundings
      → CreateIntentInput
      → Actor
      → PaymentOp (PublicPaymentIntent × Bool)
  create_payment direct_digest mint around input actor store =
      elim (usdc_amount_to_raw input.amount) [
        | err e ↦ (err (amount_threw e), store)
        | ok raw ↦ elim input.recipient [
          | to_wallet recipient ↦
              create_for_wallet direct_digest mint around input actor recipient raw store
          | to_identity recipient trusted ↦
              create_for_identity mint around input actor recipient trusted raw store
        ]
      ]

  unfoldable pub create_intent :
      DateParser
      → Collation
      → Option String
      → DirectDigest
      → String
      → Surroundings
      → ExternalPrincipal
      → CreateIntentInput
      → IntentOp (PublicPaymentIntent × Bool)
  create_intent parse collate setting direct_digest mint around principal input s =
      let (who, s') = resolve_actor parse collate around principal s in
      elim (who >>= λ actor.
      require_active_allowlist parse setting around s'.payment_store actor.actor_subject
      >> ok actor) [
        | err e ↦ (err e, s')
        | ok actor ↦
            let (answer, store) =
              create_payment direct_digest mint around input actor s'.payment_store in
            (answer, record s' { payment_store = store })
      ]
