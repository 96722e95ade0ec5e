-- ===== src/Accounts/Links.antt =====
-- storage/memory/inMemoryIdentityPersistence.ts: linking and provisioning external identities.

use zephipay_backend.Accounts.State.{
  IdentityOp, IdentityStore, append_event_unsafe, external_identity_key, fresh_account, incremented,
  put_account, put_fresh_account, require_account, require_version,
}
use zephipay_backend.Accounts.Types.{
  Account, ExternalIdentity, IdentityError, LinkExternalIdentityInput,
  ProvisionExternalIdentityInput, actor_subject_for_account, external_identity_conflict,
  external_identity_linked, identity_missing, provisioning_ids_exist, validate_external_identity,
  validate_timestamp, validate_uuid,
}
use zephipay_backend.Common.{
  Bool, Option, Result, String, err, false, get_or, if◌then◌else◌, none, ok, some, throw_if, true,
  truthy, ◌>>=◌, ◌>>◌, ◌||◌,
}
use zephipay_backend.Common.Dict.{get, has, set}
use zephipay_backend.Json.{end}
use zephipay_backend.Store.Claims.{DateParser}

unfoldable pub link_checks :
    DateParser
    → String
    → LinkExternalIdentityInput
    → IdentityStore
    → Result IdentityError (Account × ExternalIdentity)
link_checks parse now input s = do
  validate_uuid input.identity_id "Identity ID"
  validate_external_identity input.issuer input.subject
  account ← require_version s input.account_id input.expected_account_version
  throw_if
      (has input.identity_id s.identities
        || has (external_identity_key input.issuer input.subject) s.identity_owners)
      (external_identity_conflict input.issuer input.subject)
  let at = get_or input.linked_at now
  validate_timestamp parse at "Identity link time"
  ok (
    account,
    record {
      identity_id = input.identity_id;
      issuer = input.issuer;
      subject = input.subject;
      account_id = input.account_id;
      linked_at = at;
    },
  )

-- What linking and provisioning both write of an identity, for an account that is there.
unfoldable pub put_identity : Account → ExternalIdentity → IdentityStore → IdentityStore
put_identity account identity s =
    let after = incremented account identity.linked_at in
    append_event_unsafe after external_identity_linked end identity.linked_at none
      (some identity.identity_id)
      (record (put_account after s) {
        identities = set identity.identity_id identity s.identities;
        identity_owners =
            set (external_identity_key identity.issuer identity.subject) identity.identity_id
              s.identity_owners;
      })

unfoldable pub link_external_identity :
    DateParser → String → LinkExternalIdentityInput → IdentityOp (Account × ExternalIdentity)
link_external_identity parse now input s = elim (link_checks parse now input s) [
  | err e ↦ (err e, s)
  | ok (account, identity) ↦
      (ok (incremented account identity.linked_at, identity), put_identity account identity s)
]

-- `this.identityOwners.get(key)` where it is truthy.
unfoldable pub owner_of : String → String → IdentityStore → Option String
owner_of issuer subject s =
    let found = get (external_identity_key issuer subject) s.identity_owners in
    if truthy found then found else none

unfoldable pub identity_at : IdentityStore → String → Result IdentityError ExternalIdentity
identity_at s id = elim (get id s.identities) [ none ↦ err identity_missing | some i ↦ ok i ]

-- An identity that is kept, with its account.
unfoldable pub owned_identity :
    String → IdentityStore → Result IdentityError (Account × ExternalIdentity)
owned_identity id s = do
  identity ← identity_at s id
  account ← require_account s identity.account_id
  ok (account, identity)

unfoldable pub provision_validations :
    ProvisionExternalIdentityInput → Result IdentityError (Unit {0})
provision_validations input = do
  validate_uuid input.account_id "Account ID"
  validate_uuid input.identity_id "Identity ID"
  validate_external_identity input.issuer input.subject

unfoldable pub provision_checks :
    DateParser
    → String
    → ProvisionExternalIdentityInput
    → IdentityStore
    → Result IdentityError (Account × ExternalIdentity)
provision_checks parse now input s = do
  throw_if (has input.account_id s.accounts || has input.identity_id s.identities)
      provisioning_ids_exist
  let at = get_or input.occurred_at now
  validate_timestamp parse at "Provisioning time"
  actor ← actor_subject_for_account input.account_id
  ok (
    fresh_account input.account_id actor at,
    record {
      identity_id = input.identity_id;
      issuer = input.issuer;
      subject = input.subject;
      account_id = input.account_id;
      linked_at = at;
    },
  )

unfoldable pub provision_fresh :
    DateParser
    → String
    → ProvisionExternalIdentityInput
    → IdentityOp (Account × ExternalIdentity × Bool)
provision_fresh parse now input s = elim (provision_checks parse now input s) [
  | err e ↦ (err e, s)
  | ok (base, identity) ↦ (
    ok (incremented base identity.linked_at, identity, true),
    put_identity base identity (put_fresh_account base identity.linked_at s),
  )
]

unfoldable pub provision_external_identity :
    DateParser
    → String
    → ProvisionExternalIdentityInput
    → IdentityOp (Account × ExternalIdentity × Bool)
provision_external_identity parse now input s = elim (provision_validations input) [
  | err e ↦ (err e, s)
  | ok checked ↦ elim (owner_of input.issuer input.subject s) [
    | some id ↦ (owned_identity id s >>= λ (account, identity). ok (account, identity, false), s)
    | none ↦ provision_fresh parse now input s
  ]
]
