-- ===== src/Accounts/Queries.antt =====
-- The queries of storage/memory/inMemoryIdentityPersistence.ts, and identity/accountProvisioningService.ts
-- over the store. `collate` is `localeCompare`, which depends on the locale.

use zephipay_backend.Accounts.Links.{owned_identity, owner_of, provision_external_identity}
use zephipay_backend.Accounts.State.{IdentityOp, IdentityStore}
use zephipay_backend.Accounts.Types.{
  Account, AccountSession, ExternalIdentity, IdentityError, ProvisionExternalIdentityInput,
  account_access_denied, active, same_account_status, validate_external_identity,
}
use zephipay_backend.Common.{
  List, Option, Result, String, [], err, if◌then◌else◌, is_positive, none, not, ok, pos, select,
  some, throw_if, zero, ℤ, ◌==◌, ◌>>=◌, ◌>>◌, ◌∷◌,
}
use zephipay_backend.Common.Dict.{get, values}
use zephipay_backend.Store.Claims.{DateParser}

abbrev pub Collation : Type 0
Collation = String → String → ℤ

-- `a || b` of two numbers: zero is falsy.
abbrev or_number : ℤ → ℤ → ℤ
or_number (pos zero) b = b
or_number a b = a

pub insert_sorted : {A : Type 0} → (A → A → ℤ) → A → List A → List A
insert_sorted order x [] = x ∷ []
insert_sorted order x (y ∷ ys) =
    let rest = insert_sorted order x ys in if is_positive (order x y) then y ∷ rest else x ∷ y ∷ ys

-- `Array.prototype.sort`, which is stable.
pub sort_by : {A : Type 0} → (A → A → ℤ) → List A → List A
sort_by order [] = []
sort_by order (x ∷ xs) = insert_sorted order x (sort_by order xs)

abbrev by_link : Collation → ExternalIdentity → ExternalIdentity → ℤ
by_link collate left right =
    or_number (collate left.linked_at right.linked_at) (collate left.identity_id right.identity_id)

unfoldable pub list_external_identities : Collation → String → IdentityStore → List ExternalIdentity
unfolding insert_sorted sort_by
list_external_identities collate account_id s =
    sort_by (by_link collate) (select (λ i. i.account_id == account_id) (values s.identities))

abbrev by_creation : Collation → AccountSession → AccountSession → ℤ
by_creation collate left right =
    or_number (collate right.created_at left.created_at) (collate left.session_id right.session_id)

unfoldable pub list_account_sessions : Collation → String → IdentityStore → List AccountSession
unfolding insert_sorted sort_by
list_account_sessions collate account_id s =
    sort_by (by_creation collate) (select (λ x. x.account_id == account_id) (values s.sessions))

unfoldable pub find_external_identity : String → String → IdentityStore → Option ExternalIdentity
find_external_identity issuer subject s = elim (owner_of issuer subject s) [
  | none ↦ none
  | some id ↦ get id s.identities
]

unfoldable pub find_account_by_external_identity :
    Collation
    → String
    → String
    → IdentityStore
    → Result IdentityError (Option (Account × List ExternalIdentity))
find_account_by_external_identity collate issuer subject s =
    validate_external_identity issuer subject >> elim (owner_of issuer subject s) [
      | none ↦ ok none
      | some id ↦ owned_identity id s >>= λ (account, identity).
          ok (some (account, list_external_identities collate identity.account_id s))
    ]

pub record ExternalPrincipal : Type 0 where
  pub issuer : String
  pub provider_subject : String

-- `requireActive`
unfoldable pub require_active :
    Account × List ExternalIdentity → Result IdentityError (Account × List ExternalIdentity)
require_active (account, ids) =
    throw_if (not (same_account_status account.status active)) account_access_denied
    >> ok (account, ids)

abbrev pub provisioning : String → String → ExternalPrincipal → ProvisionExternalIdentityInput
provisioning account_id identity_id principal = record {
  account_id = account_id;
  identity_id = identity_id;
  issuer = principal.issuer;
  subject = principal.provider_subject;
  occurred_at = none;
}

-- `resolve`, with the two random IDs that it makes.
unfoldable pub resolve :
    DateParser
    → Collation
    → String
    → String
    → String
    → ExternalPrincipal
    → IdentityOp (Account × List ExternalIdentity)
resolve parse collate now account_id identity_id principal s =
    elim (find_account_by_external_identity collate principal.issuer principal.provider_subject s) [
      | err e ↦ (err e, s)
      | ok (some already) ↦ (require_active already, s)
      | ok none ↦
          let (answer, t) =
            provision_external_identity parse now (provisioning account_id identity_id principal)
              s in
          (
            answer >>= λ (account, identity, fresh).
                require_active (account, list_external_identities collate account.account_id t),
            t,
          )
    ]
