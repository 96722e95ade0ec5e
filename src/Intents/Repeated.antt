-- ===== src/Intents/Repeated.antt =====
-- A confirmation that is made again, and one that loses a race.

use zephipay_backend.Common.{
  err, Bool, Result-cases, String, ap, arith, eq_iff, eq_ℤ, false, inl, inr, none, ok, pos, some,
  subst, sym, true, ℕ, ◌∙◌, ◌≡◌,
}
use zephipay_backend.Intents.Confirmed.{
  Admitted, confirm_checks-Admitted, confirm_now_applied, replay_not_applied, transition_done,
}
use zephipay_backend.Intents.Service.{
  after_conflict, ConfirmInput, Surroundings, confirm_checks, confirm_now, confirm_payment,
  confirm_transition, replay_result, require_matching_hash, require_owned_payment,
}
use zephipay_backend.Store.Events.{require_payment}
use zephipay_backend.Store.State.{Clock, version_conflict, PaymentStore}
use zephipay_backend.Store.Transitions.{
  PaymentTransitionInput, transition_checks, transition_payment,
}
use zephipay_backend.Common.Dict.{get}
use zephipay_backend.Intents.Hashes.{hashes_agree}
use zephipay_backend.Intents.Public.{PublicPaymentIntent, to_public_payment_intent}
use zephipay_backend.Payments.Types.{PaymentRecord, PaymentStatus, completed, processing, unknown}
use zephipay_backend.Store.Writes.{Keyed}

replayed_at_once :
    (around : Surroundings) (input : ConfirmInput) (actor : String) (store : PaymentStore)
    (p : PaymentRecord) (answer : PublicPaymentIntent × Bool)
    → confirm_checks input store actor ≡ ok (p, some answer)
    → confirm_payment around input actor store ≡ (ok answer, store)
unfolding confirm_payment
replayed_at_once around input actor store p answer h = ground arith

checks_of_same :
    (input again : ConfirmInput) (store : PaymentStore) (actor : String)
    → again.payment_id ≡ input.payment_id
    → again.request_hash ≡ input.request_hash
    → confirm_checks again store actor ≡ confirm_checks input store actor
unfolding confirm_checks
checks_of_same input again store actor same_id same_hash = ground (arith, same_id, same_hash)

-- Whether a payment is past its confirmation and not failed.
abbrev pub is_confirmed : PaymentStatus → Bool
is_confirmed processing = true
is_confirmed unknown = true
is_confirmed completed = true
is_confirmed _ = false

checks_of_confirmed :
    (input : ConfirmInput) (store : PaymentStore) (actor : String) (p : PaymentRecord)
    → get input.payment_id store.payments ≡ some p
    → p.actor_subject ≡ actor
    → hashes_agree p.request_hash input.request_hash ≡ true
    → is_confirmed p.status ≡ true
    → confirm_checks input store actor ≡ ok (p, some (to_public_payment_intent p, false))
unfolding confirm_checks require_owned_payment require_matching_hash replay_result
checks_of_confirmed input store actor p there owned agrees past =
    ground (arith, there, agrees, eq_iff p.actor_subject actor, owned)

conflict_checks :
    (input : ConfirmInput) (store : PaymentStore) (actor : String)
    (answer : PublicPaymentIntent × Bool)
    → after_conflict input store actor ≡ ok answer
    → (q : PaymentRecord) × (confirm_checks input store actor ≡ ok (q, some answer))
unfolding after_conflict
conflict_checks input store actor answer h =
    elim (Result-cases (confirm_checks input store actor)) [
      | inr (e, refused) ↦ absurd (ground arith)
      | inl ((q, none), checked) ↦ absurd (ground arith)
      | inl ((q, some shown), checked) ↦ (q, ground (arith, checked, h))
    ]

now_conflict :
    (around : Surroundings) (input : ConfirmInput) (actor : String) (p : PaymentRecord)
    (store : PaymentStore) (intent : PublicPaymentIntent)
    → (confirm_now around input actor p store).0 ≡ ok (intent, false)
    → after_conflict input (confirm_now around input actor p store).1 actor ≡ ok (intent, false)
unfolding confirm_now
now_conflict around input actor p store intent h = ground arith

-- The same of a confirmation that was applied.
applied_leaves_replay :
    (around : Surroundings) (input : ConfirmInput) (actor : String) (store : PaymentStore)
    (p : PaymentRecord) (intent : PublicPaymentIntent)
    → Keyed store
    → ((n : ℕ) (x : PaymentStore) → around.meanwhile n x ≡ x)
    → Admitted input store actor p
    → (confirm_now around input actor p store).0 ≡ ok (intent, true)
    → (q : PaymentRecord) × (confirm_checks input (confirm_now around input actor p store).1 actor
        ≡ ok (q, some (intent, false)))
unfolding confirm_transition
applied_leaves_replay around input actor store p intent keyed alone admitted h =
    let (after, returned, final, shown) = confirm_now_applied around input actor p store intent h in
    let (before, there, version, same, now_there, status) =
      transition_done around.store_clock (confirm_transition around input p)
        (around.meanwhile 1 store) after (subst Keyed (sym (alone 1 store)) keyed) returned in
    let name = keyed input.payment_id p admitted.there in
    let is_p : before ≡ p = ground (arith, there, alone 1 store, admitted.there, name) in
    let checks =
      checks_of_confirmed input (confirm_now around input actor p store).1 actor after
        (ground (arith, final, now_there, name))
        (ap (λ q. q.actor_subject) same ∙ ap (λ q. q.actor_subject) is_p ∙ admitted.owned)
        (ap (λ q. hashes_agree q.request_hash input.request_hash) same
          ∙ ap (λ q. hashes_agree q.request_hash input.request_hash) is_p
          ∙ admitted.agrees)
        (ap is_confirmed status) in
    (after, ground (arith, checks, shown))

now_leaves_replay :
    (around : Surroundings) (input : ConfirmInput) (actor : String) (store : PaymentStore)
    (p : PaymentRecord) (intent : PublicPaymentIntent) (applied : Bool)
    → Keyed store
    → ((n : ℕ) (x : PaymentStore) → around.meanwhile n x ≡ x)
    → Admitted input store actor p
    → (confirm_now around input actor p store).0 ≡ ok (intent, applied)
    → (q : PaymentRecord) × (confirm_checks input (confirm_now around input actor p store).1 actor
        ≡ ok (q, some (intent, false)))
now_leaves_replay around input actor store p intent true keyed alone admitted h =
    applied_leaves_replay around input actor store p intent keyed alone admitted h
now_leaves_replay around input actor store p intent false keyed alone admitted h =
    conflict_checks input (confirm_now around input actor p store).1 actor (intent, false)
      (now_conflict around input actor p store intent h)

-- What a confirmation that returned leaves, with no other call between: the checks answer it again.
leaves_replay :
    (around : Surroundings) (input : ConfirmInput) (actor : String) (store : PaymentStore)
    (intent : PublicPaymentIntent) (applied : Bool)
    → Keyed store
    → ((n : ℕ) (x : PaymentStore) → around.meanwhile n x ≡ x)
    → (confirm_payment around input actor store).0 ≡ ok (intent, applied)
    → (p : PaymentRecord) × (confirm_checks input (confirm_payment around input actor store).1 actor
        ≡ ok (p, some (intent, false)))
unfolding confirm_payment
leaves_replay around input actor store intent applied keyed alone h =
    elim (Result-cases (confirm_checks input store actor)) [
      | inr (e, refused) ↦ absurd (ground arith)
      | inl ((p, some (shown, b)), checked) ↦
          let (admitted, replayed) =
            confirm_checks-Admitted input store actor p (some (shown, b)) checked in
          let (never, same) = replay_not_applied p shown b replayed in
          (p, ground (arith, checked, never))
      | inl ((p, none), checked) ↦
          let (admitted, replayed) = confirm_checks-Admitted input store actor p none checked in
          let at_version : eq_ℤ (pos p.version) input.expected_version ≡ true = ground arith in
          let left : (confirm_payment around input actor store).1
              ≡ (confirm_now around input actor p store).1 =
            ground (arith, checked, at_version) in
          let (q, checks) =
            now_leaves_replay around input actor store p intent applied keyed alone admitted
              (ground (arith, checked, at_version)) in
          (q, ground (arith, left, checks))
    ]

-- After a confirmation that returned, with no other call while it ran and payments under their own IDs,
-- a confirmation by the same actor of the same payment and request hash, at whatever expected version,
-- shows the same payment intent, as not applied, and writes nothing.
pub confirm_again :
    (around around' : Surroundings) (input again : ConfirmInput) (actor : String)
    (store : PaymentStore) (intent : PublicPaymentIntent) (applied : Bool)
    → Keyed store
    → ((n : ℕ) (x : PaymentStore) → around.meanwhile n x ≡ x)
    → again.payment_id ≡ input.payment_id
    → again.request_hash ≡ input.request_hash
    → (confirm_payment around input actor store).0 ≡ ok (intent, applied)
    → confirm_payment around' again actor (confirm_payment around input actor store).1
      ≡ (ok (intent, false), (confirm_payment around input actor store).1)
confirm_again around around' input again actor store intent applied keyed alone same_id same_hash
      h =
    let final = (confirm_payment around input actor store).1 in
    let (q, checks) = leaves_replay around input actor store intent applied keyed alone h in
    replayed_at_once around' again actor final q (intent, false)
      (checks_of_same input again final actor same_id same_hash ∙ checks)

stale_transition :
    (clock : Clock) (input : PaymentTransitionInput) (s : PaymentStore) (p : PaymentRecord)
    → get input.payment_id s.payments ≡ some p
    → eq_ℤ (pos p.version) input.expected_version ≡ false
    → transition_payment clock input s ≡ (err version_conflict, s)
unfolding transition_payment transition_checks require_payment
stale_transition clock input s p there stale = ground arith

-- A confirmation that reads a payment of the actor's that awaits it, at the version expected, and then
-- finds that another call has confirmed it, at another version and under the same actor and hash, with
-- nothing more before it reads again, shows the payment that the other call left, as not applied, and
-- writes nothing.
pub confirm_race :
    (around : Surroundings) (input : ConfirmInput) (actor : String) (store : PaymentStore)
    (p q : PaymentRecord)
    → Keyed store
    → confirm_checks input store actor ≡ ok (p, none)
    → eq_ℤ (pos p.version) input.expected_version ≡ true
    → get input.payment_id (around.meanwhile 1 store).payments ≡ some q
    → q.actor_subject ≡ p.actor_subject
    → q.request_hash ≡ p.request_hash
    → is_confirmed q.status ≡ true
    → eq_ℤ (pos q.version) input.expected_version ≡ false
    → around.meanwhile 2 (around.meanwhile 1 store) ≡ around.meanwhile 1 store
    → confirm_payment around input actor store
      ≡ (ok (to_public_payment_intent q, false), around.meanwhile 1 store)
unfolding confirm_payment confirm_now after_conflict confirm_transition
confirm_race around input actor store p q keyed checked at_version there same_actor same_hash past
      stale quiet =
    let (admitted, replayed) = confirm_checks-Admitted input store actor p none checked in
    let name = keyed input.payment_id p admitted.there in
    let refused =
      stale_transition around.store_clock (confirm_transition around input p)
        (around.meanwhile 1 store) q (ground (arith, there, name)) stale in
    let again =
      checks_of_confirmed input (around.meanwhile 1 store) actor q there
        (same_actor ∙ admitted.owned)
        (ap (λ h. hashes_agree h input.request_hash) same_hash ∙ admitted.agrees) past in
    ground (arith, refused, again, quiet, checked, at_version)
