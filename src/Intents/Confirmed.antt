-- ===== src/Intents/Confirmed.antt =====
-- What a confirmation of a payment does, alone and while other calls run.

-- What a transition that returned has found and left.
use zephipay_backend.Common.{
  negsuc, ℤ, Bool, Bool-cases, Option, String, false, none, Result-cases, ap, arith, eq_iff, eq_ℤ,
  inl, inr, ok, pos, some, subst, sym, true, ◌+◌, ◌∙◌, ◌≡◌,
}
use zephipay_backend.Intents.Hashes.{hashes_agree-bytes, hex_bytes, hashes_agree}
use zephipay_backend.Intents.Public.{PublicPaymentIntent, to_public_payment_intent}
use zephipay_backend.Intents.Service.{
  ConfirmInput, Surroundings, after_conflict, confirm_checks, confirm_now, confirm_payment,
  confirm_transition, is_version_conflict, replay_result, require_matching_hash,
  require_owned_payment,
}
use zephipay_backend.Payments.Types.{awaiting_confirmation, processing, PaymentRecord}
use zephipay_backend.Common.Dict.{get, get-set}
use zephipay_backend.Store.Events.{append_event}
use zephipay_backend.Store.State.{Clock, PaymentStore}
use zephipay_backend.Store.Transitions.{
  PaymentTransitionInput, transition_checks, transition_payment, transition_writes,
}
use zephipay_backend.Store.Updates.{status-transition_checks, transition_checks-IsUpdate}
use zephipay_backend.Store.Writes.{Keyed}

pub transition_done :
    (clock : Clock) (input : PaymentTransitionInput) (s : PaymentStore) (p : PaymentRecord)
    → Keyed s
    → (transition_payment clock input s).0 ≡ ok p
    → (before : PaymentRecord) × (get input.payment_id s.payments ≡ some before)
      × (eq_ℤ (pos before.version) input.expected_version ≡ true)
      × (p ≡ record before {
        status = p.status;
        version = before.version + 1;
        updated_at = p.updated_at;
        lifecycle = p.lifecycle;
      })
      × (get input.payment_id (transition_payment clock input s).1.payments ≡ some p)
      × (p.status ≡ input.to_status)
unfolding transition_payment transition_writes append_event
transition_done clock input s p keyed h =
    elim (Result-cases (transition_checks (clock 0) input s)) [
      | inr (e, refused) ↦ absurd (ground arith)
      | inl (c, passed) ↦
          let update = transition_checks-IsUpdate (clock 0) input s c passed in
          let status = status-transition_checks (clock 0) input s c passed in
          let is_p : c.after ≡ p = ground (arith, passed, h) in
          let name : c.after.id ≡ input.payment_id =
            ground (arith, update.kept, keyed input.payment_id c.before update.found) in
          (
            c.before,
            update.found,
            update.current,
            subst
                (λ q. q ≡ record (c.before) {
                  status = q.status;
                  version = c.before.version + 1;
                  updated_at = q.updated_at;
                  lifecycle = q.lifecycle;
                })
                is_p update.kept,
            ground (
              arith,
              name,
              is_p,
              get-set c.after.id input.payment_id c.after s.payments,
              eq_iff c.after.id input.payment_id,
            ),
            ap (λ q. q.status) (sym is_p) ∙ status,
          )
    ]

-- The payment that the checks let through.
pub record Admitted (input : ConfirmInput) (store : PaymentStore) (actor : String)
    (p : PaymentRecord) : Type 0 where
  pub there : get input.payment_id store.payments ≡ some p
  pub owned : p.actor_subject ≡ actor
  pub agrees : hashes_agree p.request_hash input.request_hash ≡ true

pub confirm_checks-Admitted :
    (input : ConfirmInput) (store : PaymentStore) (actor : String) (p : PaymentRecord)
    (replay : Option (PublicPaymentIntent × Bool))
    → confirm_checks input store actor ≡ ok (p, replay)
    → Admitted input store actor p × (replay_result p ≡ ok replay)
unfolding confirm_checks require_owned_payment require_matching_hash
confirm_checks-Admitted input store actor p replay h = (
  record {
    there = ground arith;
    owned = ground (arith, eq_iff p.actor_subject actor);
    agrees = ground arith;
  },
  ground arith,
)

pub replay_not_applied :
    (p : PaymentRecord) (intent : PublicPaymentIntent) (applied : Bool)
    → replay_result p ≡ ok (some (intent, applied))
    → (applied ≡ false) × (intent ≡ to_public_payment_intent p)
unfolding replay_result
replay_not_applied p intent applied h = (ground arith, ground arith)

pub awaiting_only :
    (p : PaymentRecord) → replay_result p ≡ ok none → p.status ≡ awaiting_confirmation
unfolding replay_result
awaiting_only p h = ground arith

conflict_not_applied :
    (input : ConfirmInput) (store : PaymentStore) (actor : String) (intent : PublicPaymentIntent)
    (applied : Bool)
    → after_conflict input store actor ≡ ok (intent, applied)
    → applied ≡ false
unfolding after_conflict
conflict_not_applied input store actor intent applied h =
    elim (Result-cases (confirm_checks input store actor)) [
      | inr (e, refused) ↦ absurd (ground arith)
      | inl ((p, none), checked) ↦ absurd (ground arith)
      | inl ((p, some (shown, b)), checked) ↦
          let (admitted, replayed) =
            confirm_checks-Admitted input store actor p (some (shown, b)) checked in
          let (not_true, same) = replay_not_applied p shown b replayed in ground (arith, not_true)
    ]

-- A transition that was applied, in the second part of a confirmation.
pub confirm_now_applied :
    (around : Surroundings) (input : ConfirmInput) (actor : String) (current : PaymentRecord)
    (store : PaymentStore) (intent : PublicPaymentIntent)
    → (confirm_now around input actor current store).0 ≡ ok (intent, true)
    → (after : PaymentRecord) × ((transition_payment around.store_clock
          (confirm_transition around input current)
          (around.meanwhile 1 store)).0
        ≡ ok after)
      × ((confirm_now around input actor current store).1
          ≡ (transition_payment around.store_clock
              (confirm_transition around input current)
              (around.meanwhile 1 store)).1)
      × (intent ≡ to_public_payment_intent after)
unfolding confirm_now
confirm_now_applied around input actor current store intent h =
    let moved_one =
      transition_payment around.store_clock (confirm_transition around input current)
        (around.meanwhile 1 store) in
    elim (Result-cases moved_one.0) [
      | inl (after, returned) ↦
          (after, returned, ground (arith, returned), ground (arith, returned, h))
      | inr (e, threw) ↦ elim (Bool-cases (is_version_conflict e)) [
        | inr other ↦ absurd (ground (arith, threw, other, h))
        | inl conflict ↦
            let again = after_conflict input (around.meanwhile 2 moved_one.1) actor in
            let answer : again ≡ ok (intent, true) = ground (arith, threw, conflict, h) in
            absurd (
              ground (
                arith,
                conflict_not_applied input (around.meanwhile 2 moved_one.1) actor intent true
                    answer,
              ))
      ]
    ]

eq_ℤ-eq : (a b : ℤ) → eq_ℤ a b ≡ true → a ≡ b
eq_ℤ-eq (pos a) (pos b) h = ground arith
eq_ℤ-eq (negsuc a) (negsuc b) h = ground arith
eq_ℤ-eq (pos a) (negsuc b) h = absurd (ground arith)
eq_ℤ-eq (negsuc a) (pos b) h = absurd (ground arith)

-- A confirmation that answers that it was applied has found the actor's own payment, awaiting its
-- confirmation, at the version expected and with a request hash of the same bytes as the one
-- submitted, and leaves a payment in PROCESSING under its ID, which is the one that it shows; payments
-- stand under their own IDs before the call and when its transition starts.
pub confirm_applies :
    (around : Surroundings) (input : ConfirmInput) (actor : String) (store : PaymentStore)
    (intent : PublicPaymentIntent)
    → Keyed store
    → Keyed (around.meanwhile 1 store)
    → (confirm_payment around input actor store).0 ≡ ok (intent, true)
    → (found : PaymentRecord) × (after : PaymentRecord) × (get input.payment_id store.payments
        ≡ some found)
      × (found.actor_subject ≡ actor)
      × (hex_bytes found.request_hash ≡ hex_bytes input.request_hash)
      × (found.status ≡ awaiting_confirmation)
      × (pos found.version ≡ input.expected_version)
      × (get input.payment_id (confirm_payment around input actor store).1.payments ≡ some after)
      × (after.status ≡ processing)
      × (intent ≡ to_public_payment_intent after)
unfolding confirm_payment confirm_transition
confirm_applies around input actor store intent keyed keyed' h =
    elim (Result-cases (confirm_checks input store actor)) [
      | inr (e, refused) ↦ absurd (ground arith)
      | inl ((p, some (shown, b)), checked) ↦
          let (admitted, replayed) =
            confirm_checks-Admitted input store actor p (some (shown, b)) checked in
          let (not_true, same) = replay_not_applied p shown b replayed in
          absurd (ground (arith, not_true))
      | inl ((p, none), checked) ↦
          let (admitted, replayed) = confirm_checks-Admitted input store actor p none checked in
          let at_version : eq_ℤ (pos p.version) input.expected_version ≡ true = ground arith in
          let (after, returned, left, shown) =
            confirm_now_applied around input actor p store intent (ground arith) in
          let (before, there, version, same, now_there, status) =
            transition_done around.store_clock (confirm_transition around input p)
              (around.meanwhile 1 store) after keyed' returned in
          let name = keyed input.payment_id p admitted.there in
          (
            p,
            after,
            admitted.there,
            admitted.owned,
            hashes_agree-bytes p.request_hash input.request_hash admitted.agrees,
            awaiting_only p replayed,
            eq_ℤ-eq (pos p.version) input.expected_version at_version,
            ground (arith, left, now_there, name, checked, at_version),
            status,
            shown,
          )
    ]
