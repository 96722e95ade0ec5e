-- ===== src/Intents/Composed.antt =====
-- The service as a whole, called again: accounts, access and payments together.

-- `confirm` once its principal is resolved and admitted.
use zephipay_backend.Accounts.Again.{resolve_again}
use zephipay_backend.Common.{
  ap, false, subst, sym, ℕ, ◌∙◌, Bool, List, Option, Result-cases, String, arith, inl, inr, ok, ◌≡◌,
}
use zephipay_backend.Intents.Repeated.{confirm_again}
use zephipay_backend.Store.State.{PaymentStore}
use zephipay_backend.Store.Writes.{Keyed}
use zephipay_backend.Accounts.Queries.{Collation, ExternalPrincipal, resolve}
use zephipay_backend.Accounts.State.{IdentityStore}
use zephipay_backend.Accounts.Types.{Account, ExternalIdentity}
use zephipay_backend.Intents.Public.{PublicPaymentIntent}
use zephipay_backend.Intents.Service.{
  ConfirmInput, ServiceState, Surroundings, actor_of_account, confirm_intent, confirm_payment,
  require_active_allowlist, resolve_actor,
}
use zephipay_backend.Store.Claims.{DateParser}

confirm_of_resolved :
    (parse : DateParser) (collate : Collation) (setting : Option String) (around : Surroundings)
    (principal : ExternalPrincipal) (input : ConfirmInput) (s : ServiceState) (a : Account)
    (ids : List ExternalIdentity) (accounts : IdentityStore)
    → resolve parse collate around.identity_now around.new_account_id around.new_identity_id
        principal s.identity_store
      ≡ (ok (a, ids), accounts)
    → require_active_allowlist parse setting around s.payment_store a.actor_subject ≡ ok tt
    → confirm_intent parse collate setting around principal input s ≡ (
      (confirm_payment around input a.actor_subject (around.meanwhile 0 s.payment_store)).0,
      record {
        identity_store = accounts;
        payment_store =
            (confirm_payment around input a.actor_subject (around.meanwhile 0 s.payment_store)).1;
      },
    )
unfolding confirm_intent resolve_actor actor_of_account
confirm_of_resolved parse collate setting around principal input s a ids accounts resolved
      admitted =
    ground (arith, resolved, admitted)

-- What a confirmation that returned has resolved and passed.
confirm_passed :
    (parse : DateParser) (collate : Collation) (setting : Option String) (around : Surroundings)
    (principal : ExternalPrincipal) (input : ConfirmInput) (s : ServiceState)
    (answer : PublicPaymentIntent × Bool)
    → (confirm_intent parse collate setting around principal input s).0 ≡ ok answer
    → (a : Account) × (ids : List ExternalIdentity) × ((resolve parse collate around.identity_now
          around.new_account_id around.new_identity_id principal s.identity_store).0
        ≡ ok (a, ids))
      × (require_active_allowlist parse setting around s.payment_store a.actor_subject ≡ ok tt)
unfolding confirm_intent resolve_actor actor_of_account
confirm_passed parse collate setting around principal input s answer h =
    let found =
      resolve parse collate around.identity_now around.new_account_id around.new_identity_id
        principal s.identity_store in
    elim (Result-cases found.0) [
      | inr (e, refused) ↦ absurd (ground (arith, refused, h))
      | inl ((a, ids), resolved) ↦ (a, ids, resolved, ground (arith, resolved, h))
    ]

-- After a confirmation by a principal that returned, with no other call while it and the second one run,
-- on payments under their own IDs: a second one of the same payment and request hash, while the actor's
-- access lasts, shows the same payment intent, as not applied, and changes neither store.
pub confirm_intent_again :
    (parse : DateParser) (collate : Collation) (setting : Option String)
    (around around' : Surroundings) (principal : ExternalPrincipal) (input again : ConfirmInput)
    (s : ServiceState) (intent : PublicPaymentIntent) (applied : Bool)
    → Keyed s.payment_store
    → ((n : ℕ) (x : PaymentStore) → around.meanwhile n x ≡ x)
    → ((n : ℕ) (x : PaymentStore) → around'.meanwhile n x ≡ x)
    → again.payment_id ≡ input.payment_id
    → again.request_hash ≡ input.request_hash
    → ((actor : String)
        → require_active_allowlist parse setting around s.payment_store actor ≡ ok tt
        → require_active_allowlist parse setting around'
            (confirm_intent parse collate setting around principal input s).1.payment_store
            actor
          ≡ ok tt)
    → (confirm_intent parse collate setting around principal input s).0 ≡ ok (intent, applied)
    → confirm_intent parse collate setting around' principal again
        (confirm_intent parse collate setting around principal input s).1
      ≡ (ok (intent, false), (confirm_intent parse collate setting around principal input s).1)
confirm_intent_again parse collate setting around around' principal input again s intent applied
      keyed alone alone' same_id same_hash lasts h =
    let (a, ids, resolved, admitted) =
      confirm_passed parse collate setting around principal input s (intent, applied) h in
    let found =
      resolve parse collate around.identity_now around.new_account_id around.new_identity_id
        principal s.identity_store in
    let both : found ≡ (ok (a, ids), found.1) = ap (λ r. (r, found.1)) resolved in
    let first =
      confirm_of_resolved parse collate setting around principal input s a ids found.1 both
        admitted in
    let store = around.meanwhile 0 s.payment_store in
    let answer = confirm_payment around input a.actor_subject store in
    let left : ServiceState = record { identity_store = found.1; payment_store = answer.1 } in
    let is_left : (confirm_intent parse collate setting around principal input s).1 ≡ left =
      ap (λ r. r.1) first in
    let returned : answer.0 ≡ ok (intent, applied) = sym (ap (λ r. r.0) first) ∙ h in
    let repeat =
      confirm_again around around' input again a.actor_subject store intent applied
        (subst Keyed (sym (alone 0 s.payment_store)) keyed) alone same_id same_hash returned in
    let resolved_again =
      resolve_again parse collate around.identity_now around'.identity_now around.new_account_id
        around.new_identity_id around'.new_account_id around'.new_identity_id principal
        s.identity_store a ids resolved in
    let still =
      ap (λ x. require_active_allowlist parse setting around' x.payment_store a.actor_subject)
        (sym is_left)
      ∙ lasts a.actor_subject admitted in
    let second =
      confirm_of_resolved parse collate setting around' principal again left a ids found.1
        resolved_again still in
    subst
      (λ t.
        confirm_intent parse collate setting around' principal again t ≡ (ok (intent, false), t))
      (sym is_left) (ground (arith, second, repeat, alone' 0 answer.1))
