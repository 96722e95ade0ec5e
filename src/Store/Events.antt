-- ===== src/Store/Events.antt =====
-- `requirePayment`, `applyEvidence` and `appendEventUnsafe`.

use zephipay_backend.Common.{
  Bool, List, Option, Result, String, [], any, err, false, get_or, if◌then◌else◌, length, none,
  nonempty, not, ok, or_else, some, ℕ, ◌&&◌, ◌++◌, ◌+◌, ◌==◌, ◌>>=◌, ◌∷◌,
}
use zephipay_backend.Common.Dict.{get, set}
use zephipay_backend.Json.{JsonObject, JsonValue, clone_json_object, clone_json_value, end}
use zephipay_backend.Payments.Types.{
  PaymentEvent, PaymentEventType, PaymentLifecycleEvidence, PaymentRecord, PaymentStatus,
  PaymentTerminalProof, solana_transaction_error,
}
use zephipay_backend.Store.State.{
  Op, PaymentStore, StoreError, json, payment_missing, rethrow, runtime_event_exists,
}

unfoldable pub require_payment : PaymentStore → String → Result StoreError PaymentRecord
require_payment s id = elim (get id s.payments) [ none ↦ err payment_missing | some p ↦ ok p ]

-- `clone` of an optional JSON value, `undefined` left alone.
clone_optional : Option JsonValue → Option JsonValue → Result StoreError (Option JsonValue)
clone_optional none previous = ok previous
clone_optional (some value) previous = do
  copy ← rethrow json (clone_json_value value)
  ok (some copy)

clone_proof :
    Option PaymentTerminalProof
    → Option PaymentTerminalProof
    → Result StoreError (Option PaymentTerminalProof)
clone_proof none previous = ok previous
clone_proof (some (solana_transaction_error signature slot chain)) previous = do
  copy ← rethrow json (clone_json_value chain)
  ok (some (solana_transaction_error signature slot copy))
clone_proof (some proof) previous = ok (some proof)

-- The fields of the evidence that are defined replace those of the payment.
unfoldable pub merge_evidence :
    PaymentLifecycleEvidence
    → PaymentLifecycleEvidence
    → Option JsonValue
    → Option PaymentTerminalProof
    → PaymentLifecycleEvidence
merge_evidence e current chain proof = record {
  runtime_id = or_else e.runtime_id current.runtime_id;
  runtime_payment_id = or_else e.runtime_payment_id current.runtime_payment_id;
  runtime_transaction_id = or_else e.runtime_transaction_id current.runtime_transaction_id;
  user_confirmed_at = or_else e.user_confirmed_at current.user_confirmed_at;
  execution_started_at = or_else e.execution_started_at current.execution_started_at;
  submitted_at = or_else e.submitted_at current.submitted_at;
  last_checked_at = or_else e.last_checked_at current.last_checked_at;
  completed_at = or_else e.completed_at current.completed_at;
  failed_at = or_else e.failed_at current.failed_at;
  solana_signature = or_else e.solana_signature current.solana_signature;
  recent_blockhash = or_else e.recent_blockhash current.recent_blockhash;
  submitted_slot = or_else e.submitted_slot current.submitted_slot;
  confirmed_slot = or_else e.confirmed_slot current.confirmed_slot;
  confirmation_status = or_else e.confirmation_status current.confirmation_status;
  chain_error = chain;
  receipt_pda = or_else e.receipt_pda current.receipt_pda;
  failure_code = or_else e.failure_code current.failure_code;
  failure_reason = or_else e.failure_reason current.failure_reason;
  terminal_proof = proof;
}

unfoldable pub apply_evidence :
    String
    → PaymentRecord
    → PaymentStatus
    → PaymentLifecycleEvidence
    → Result StoreError PaymentRecord
unfolding clone_optional clone_proof merge_evidence
apply_evidence now current status evidence = do
  chain ← clone_optional evidence.chain_error current.lifecycle.chain_error
  proof ← clone_proof evidence.terminal_proof current.lifecycle.terminal_proof
  ok (record current {
    status = status;
    version = current.version + 1;
    updated_at = now;
    lifecycle = merge_evidence evidence current.lifecycle chain proof;
  })

pub record InternalPaymentEventInput : Type 0 where
  pub payment_id : String
  pub event_type : PaymentEventType
  pub from_status : Option PaymentStatus
  pub to_status : Option PaymentStatus
  pub runtime_event_id : Option String
  pub request_id : Option String
  pub details : Option JsonObject
  pub occurred_at : Option String

abbrev pub contains : List String → String → Bool
contains xs k = any (λ x. x == k) xs

-- `input.runtimeEventId && this.runtimeEventIds.has(input.runtimeEventId)`
abbrev pub runtime_event_seen : PaymentStore → Option String → Bool
runtime_event_seen s none = false
runtime_event_seen s (some k) = nonempty k && contains s.runtime_event_ids k

-- `if (input.runtimeEventId) this.runtimeEventIds.add(input.runtimeEventId)`
abbrev remember : Option String → List String → List String
remember none seen = seen
remember (some k) seen = if nonempty k && not (contains seen k) then seen ++ k ∷ [] else seen

abbrev pub events_of : PaymentStore → String → List PaymentEvent
events_of s id = get_or (get id s.events) []

abbrev pub new_event : String → InternalPaymentEventInput → JsonObject → ℕ → ℕ → PaymentEvent
new_event now input details event_id before = record {
  id = event_id;
  payment_id = input.payment_id;
  sequence_number = before + 1;
  event_type = input.event_type;
  from_status = input.from_status;
  to_status = input.to_status;
  runtime_event_id = input.runtime_event_id;
  request_id = input.request_id;
  details = details;
  occurred_at = get_or input.occurred_at now;
}

-- The event goes to the end of the payment's list.
unfoldable pub push_event : PaymentEvent → PaymentStore → PaymentStore
push_event event s = record s {
  events = set event.payment_id (events_of s event.payment_id ++ event ∷ []) s.events;
  runtime_event_ids = remember event.runtime_event_id s.runtime_event_ids;
}

-- The number is taken before the details are copied, so it is used up if the copy throws.
unfoldable pub append_event : String → InternalPaymentEventInput → Op PaymentEvent
unfolding push_event
append_event now input s =
    if runtime_event_seen s input.runtime_event_id
    then (err runtime_event_exists, s)
    else let s' = record s { next_event_id = s.next_event_id + 1 } in
      elim (clone_json_object (get_or input.details end)) [
        | err e ↦ (err (json e), s')
        | ok details ↦
            let event =
              new_event now input details s.next_event_id (length (events_of s input.payment_id)) in
            (ok event, push_event event s')
      ]
