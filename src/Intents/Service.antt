-- ===== src/Intents/Service.antt =====
-- services/paymentIntentService.ts: who may use the service, and the confirmation of a payment.

-- The two stores that the service works on.
use zephipay_backend.Accounts.Queries.{Collation, ExternalPrincipal, resolve}
use zephipay_backend.Accounts.State.{IdentityStore}
use zephipay_backend.Accounts.Types.{
  Account, ExternalIdentity, IdentityError, account_access_denied,
}
use zephipay_backend.Amounts.{AmountError}
use zephipay_backend.Common.{
  Bool, List, Option, Result, String, eq_ℤ, err, false, if◌then◌else◌, none, not, ok, pos, some,
  throw_if, true, ℕ, ℤ, ◌==◌, ◌>>=◌, ◌>>◌,
}
use zephipay_backend.Common.Dict.{get}
use zephipay_backend.Intents.Hashes.{hashes_agree}
use zephipay_backend.Intents.Public.{PublicPaymentIntent, to_public_payment_intent}
use zephipay_backend.Payments.Types.{
  PaymentRecord, awaiting_confirmation, completed, failed, no_evidence, processing, unknown,
}
use zephipay_backend.Store.Access.{has_active_payment_access}
use zephipay_backend.Store.Claims.{DateParser}
use zephipay_backend.Store.State.{Clock, PaymentStore, StoreError, version_conflict}
use zephipay_backend.Store.Transitions.{PaymentTransitionInput, transition_payment}

pub record ServiceState : Type 0 where
  pub identity_store : IdentityStore
  pub payment_store : PaymentStore

pub data ConflictReason : Type 0 where
  key_reused hash_differs version_stale failed_intent not_confirmable trust_missing : ConflictReason

-- `PaymentIntentApplicationError`, and what is thrown on from the layers below.
pub data IntentError : Type 0 where
  access_denied intent_not_found : IntentError
  intent_conflict : ConflictReason → IntentError
  store_threw : StoreError → IntentError
  identity_threw : IdentityError → IntentError
  amount_threw : AmountError → IntentError

abbrev pub IntentOp : Type 0 → Type 0
IntentOp A = ServiceState → Result IntentError A × ServiceState

pub record Actor : Type 0 where
  pub actor_subject : String
  pub account_id : String

-- What one call of the service reads from outside: clocks, random IDs, and what the other calls do to
-- the payments while this one waits.
pub record Surroundings : Type 0 where
  pub identity_now : String
  pub new_account_id : String
  pub new_identity_id : String
  pub access_now : String
  pub occurred_at : String
  pub new_payment_id : String
  pub store_clock : Clock
  pub meanwhile : ℕ → PaymentStore → PaymentStore

-- `if (error instanceof AccountAccessDeniedError)`
unfoldable pub actor_of_account :
    Result IdentityError (Account × List ExternalIdentity) → Result IntentError Actor
actor_of_account (ok (account, ids)) =
    ok (record { actor_subject = account.actor_subject; account_id = account.account_id })
actor_of_account (err account_access_denied) = err access_denied
actor_of_account (err e) = err (identity_threw e)

-- The call of the accounts, with the error of an account that is not active.
unfoldable pub resolve_actor :
    DateParser → Collation → Surroundings → ExternalPrincipal → IntentOp Actor
resolve_actor parse collate around principal s =
    let (answer, accounts) =
      resolve parse collate around.identity_now around.new_account_id around.new_identity_id
        principal s.identity_store in
    (actor_of_account answer, record s { identity_store = accounts })

-- `setting` is the variable of the environment that `hasActivePaymentAccess` reads.
unfoldable pub require_active_allowlist :
    DateParser
    → Option String
    → Surroundings
    → PaymentStore
    → String
    → Result IntentError (Unit {0})
require_active_allowlist parse setting around store actor =
    throw_if
      (not (has_active_payment_access parse setting (get actor store.allowlist) around.access_now))
      access_denied

unfoldable pub require_owned_payment :
    PaymentStore → String → String → Result IntentError PaymentRecord
require_owned_payment store id actor = elim (get id store.payments) [
  | none ↦ err intent_not_found
  | some payment ↦ throw_if (not (payment.actor_subject == actor)) intent_not_found >> ok payment
]

unfoldable pub require_matching_hash : String → String → Result IntentError (Unit {0})
require_matching_hash stored submitted =
    throw_if (not (hashes_agree stored submitted)) (intent_conflict hash_differs)

-- What is answered without a transition: `none` if the payment still awaits its confirmation.
unfoldable pub replay_result :
    PaymentRecord → Result IntentError (Option (PublicPaymentIntent × Bool))
replay_result payment = elim payment.status [
  | processing ↦ ok (some (to_public_payment_intent payment, false))
  | unknown ↦ ok (some (to_public_payment_intent payment, false))
  | completed ↦ ok (some (to_public_payment_intent payment, false))
  | failed ↦ err (intent_conflict failed_intent)
  | awaiting_confirmation ↦ ok none
]

pub record ConfirmInput : Type 0 where
  pub payment_id : String
  pub request_hash : String
  pub expected_version : ℤ
  pub request_id : Option String

-- What comes before the transition: the payment, and the answer if it is a replay.
unfoldable pub confirm_checks :
    ConfirmInput
    → PaymentStore
    → String
    → Result IntentError (PaymentRecord × Option (PublicPaymentIntent × Bool))
confirm_checks input store actor = do
  current ← require_owned_payment store input.payment_id actor
  require_matching_hash current.request_hash input.request_hash
  replay ← replay_result current
  ok (current, replay)

unfoldable pub confirm_transition :
    Surroundings → ConfirmInput → PaymentRecord → PaymentTransitionInput
confirm_transition around input current = record {
  payment_id = current.id;
  expected_version = input.expected_version;
  to_status = processing;
  evidence = record no_evidence {
    user_confirmed_at = some around.occurred_at;
    execution_started_at = some around.occurred_at;
  };
  request_id = input.request_id;
  details = none;
  occurred_at = some around.occurred_at;
}

-- After a conflict of versions the payment is read again.
unfoldable pub after_conflict :
    ConfirmInput → PaymentStore → String → Result IntentError (PublicPaymentIntent × Bool)
after_conflict input store actor = do
  (confirmed_one, replay) ← confirm_checks input store actor
  elim replay [ some answer ↦ ok answer | none ↦ err (intent_conflict version_stale) ]

abbrev pub is_version_conflict : StoreError → Bool
is_version_conflict version_conflict = true
is_version_conflict _ = false

abbrev pub PaymentOp : Type 0 → Type 0
PaymentOp A = PaymentStore → Result IntentError A × PaymentStore

-- The transition, and what is made of what it returns or throws.
unfoldable pub confirm_now :
    Surroundings → ConfirmInput → String → PaymentRecord → PaymentOp (PublicPaymentIntent × Bool)
confirm_now around input actor current store =
    let (answer, store') =
      transition_payment around.store_clock (confirm_transition around input current)
        (around.meanwhile 1 store) in
    elim answer [
      | ok confirmed_one ↦ (ok (to_public_payment_intent confirmed_one, true), store')
      | err e ↦
          if not (is_version_conflict e)
          then (err (store_threw e), store')
          else let store'' = around.meanwhile 2 store' in
            (after_conflict input store'' actor, store'')
    ]

-- `confirm` from the read of the payment on.
unfoldable pub confirm_payment :
    Surroundings → ConfirmInput → String → PaymentOp (PublicPaymentIntent × Bool)
confirm_payment around input actor store = elim (confirm_checks input store actor) [
  | err e ↦ (err e, store)
  | ok (current, some replay) ↦ (ok replay, store)
  | ok (current, none) ↦
      if not (eq_ℤ (pos current.version) input.expected_version)
      then (err (intent_conflict version_stale), store)
      else confirm_now around input actor current store
]

unfoldable pub confirm_intent :
    DateParser
    → Collation
    → Option String
    → Surroundings
    → ExternalPrincipal
    → ConfirmInput
    → IntentOp (PublicPaymentIntent × Bool)
confirm_intent parse collate setting around principal input s =
    let (who, s') = resolve_actor parse collate around principal s in
    elim (who >>= λ actor.
    require_active_allowlist parse setting around s'.payment_store actor.actor_subject
    >> ok actor) [
      | err e ↦ (err e, s')
      | ok actor ↦
          let (answer, store) =
            confirm_payment around input actor.actor_subject
              (around.meanwhile 0 s'.payment_store) in
          (answer, record s' { payment_store = store })
    ]

unfoldable pub find_intent :
    DateParser
    → Collation
    → Surroundings
    → ExternalPrincipal
    → String
    → IntentOp PublicPaymentIntent
find_intent parse collate around principal id s =
    let (who, s') = resolve_actor parse collate around principal s in
    (
      who >>= λ actor. require_owned_payment s'.payment_store id actor.actor_subject >>= λ payment.
          ok (to_public_payment_intent payment),
      s',
    )
