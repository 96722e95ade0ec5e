-- ===== src/Accounts/Again.antt =====
-- What is found of an identity after it has been provisioned, and resolving a principal again.

-- What a provisioning that went through its checks leaves, as it is found again.
use zephipay_backend.Common.{
  ap, subst, sym, ◌∙◌, none, refl, Bool, List, Option-cases, Result-cases, false, inl, inr, String,
  arith, eq_refl, nonempty, ok, some, true, ◌≡◌,
}
use zephipay_backend.Accounts.Queries.{
  list_external_identities, require_active, Collation, ExternalPrincipal,
  find_account_by_external_identity, provisioning, resolve,
}
use zephipay_backend.Accounts.Types.{
  validate_external_identity, uuid_nonempty, Account, ExternalIdentity,
  ProvisionExternalIdentityInput,
}
use zephipay_backend.Accounts.Links.{
  provision_external_identity, provision_validations, identity_at, owned_identity, owner_of,
  provision_checks, provision_fresh, put_identity,
}
use zephipay_backend.Accounts.State.{
  IdentityStore, append_event_unsafe, external_identity_key, incremented, put_fresh_account,
  require_account,
}
use zephipay_backend.Common.Dict.{get-set, set}
use zephipay_backend.Store.Claims.{DateParser}

provisioned :
    (parse : DateParser) (now : String) (input : ProvisionExternalIdentityInput) (s : IdentityStore)
    (a : Account) (i : ExternalIdentity)
    → nonempty input.identity_id ≡ true
    → provision_checks parse now input s ≡ ok (a, i)
    → (owner_of input.issuer input.subject (provision_fresh parse now input s).1
        ≡ some input.identity_id)
      × (owned_identity input.identity_id (provision_fresh parse now input s).1
          ≡ ok (incremented a i.linked_at, i))
      × (i.account_id ≡ a.account_id)
unfolding provision_fresh provision_checks put_identity put_fresh_account append_event_unsafe
    owner_of owned_identity identity_at require_account incremented
provisioned parse now input s a i some_id checked =
    let key = external_identity_key input.issuer input.subject in
    let same_issuer : i.issuer ≡ input.issuer = ground arith in
    let same_subject : i.subject ≡ input.subject = ground arith in
    let same_id : i.identity_id ≡ input.identity_id = ground arith in
    let same_account : i.account_id ≡ a.account_id = ground arith in
    (
      ground (
        arith,
        some_id,
        same_issuer,
        same_subject,
        same_id,
        get-set key key input.identity_id s.identity_owners,
        eq_refl key,
      ),
      ground (
        arith,
        same_id,
        same_account,
        get-set input.identity_id input.identity_id i s.identities,
        eq_refl input.identity_id,
        get-set a.account_id a.account_id (incremented a i.linked_at)
            (set a.account_id a s.accounts),
        eq_refl a.account_id,
      ),
      same_account,
    )

-- After a provisioning that returned, another of the same issuer and subject, under any canonical IDs
-- and at any time, returns the same account and identity, as not created, and writes nothing.
pub provision_again :
    (parse : DateParser) (now now2 : String) (input again : ProvisionExternalIdentityInput)
    (s : IdentityStore) (a : Account) (i : ExternalIdentity) (fresh : Bool)
    → again.issuer ≡ input.issuer
    → again.subject ≡ input.subject
    → provision_validations again ≡ ok tt
    → (provision_external_identity parse now input s).0 ≡ ok (a, i, fresh)
    → provision_external_identity parse now2 again (provision_external_identity parse now input s).1
      ≡ (ok (a, i, false), (provision_external_identity parse now input s).1)
unfolding provision_external_identity provision_fresh provision_validations
provision_again parse now now2 input again s a i fresh same_issuer same_subject valid h =
    elim (Option-cases (owner_of input.issuer input.subject s)) [
      | inr (id, owned) ↦ ground (arith, same_issuer, same_subject)
      | inl unowned ↦ elim (Result-cases (provision_checks parse now input s)) [
        | inr (e, refused) ↦ absurd (ground arith)
        | inl ((b, j), checked) ↦
            let some_id = uuid_nonempty input.identity_id (ground arith) in
            ground
              (arith, same_issuer, same_subject, provisioned parse now input s b j some_id checked)
      ]
    ]

find_provisioned :
    (parse : DateParser) (collate : Collation) (now account_id identity_id : String)
    (principal : ExternalPrincipal) (s : IdentityStore) (b : Account) (j : ExternalIdentity)
    → validate_external_identity principal.issuer principal.provider_subject ≡ ok tt
    → nonempty identity_id ≡ true
    → provision_checks parse now (provisioning account_id identity_id principal) s ≡ ok (b, j)
    → (t : IdentityStore)
    → t ≡ (provision_fresh parse now (provisioning account_id identity_id principal) s).1
    → find_account_by_external_identity collate principal.issuer principal.provider_subject t
      ≡ ok (some (incremented b j.linked_at, list_external_identities collate b.account_id t))
unfolding find_account_by_external_identity
find_provisioned parse collate now account_id identity_id principal s b j valid some_id checked t
      at =
    let input = provisioning account_id identity_id principal in
    let found = provisioned parse now input s b j some_id checked in
    ground (arith, at, valid, found)

provisioned_answer :
    (parse : DateParser) (now : String) (input : ProvisionExternalIdentityInput) (s : IdentityStore)
    (b : Account) (j : ExternalIdentity)
    → provision_validations input ≡ ok tt
    → owner_of input.issuer input.subject s ≡ none
    → provision_checks parse now input s ≡ ok (b, j)
    → provision_external_identity parse now input s
      ≡ (ok (incremented b j.linked_at, j, true), (provision_fresh parse now input s).1)
unfolding provision_external_identity provision_fresh
provisioned_answer parse now input s b j checks unowned checked = ground arith

resolves_fresh :
    (parse : DateParser) (collate : Collation) (now account_id identity_id : String)
    (principal : ExternalPrincipal) (s : IdentityStore) (a : Account) (j : ExternalIdentity)
    (t : IdentityStore)
    → owner_of principal.issuer principal.provider_subject s ≡ none
    → validate_external_identity principal.issuer principal.provider_subject ≡ ok tt
    → provision_external_identity parse now (provisioning account_id identity_id principal) s
      ≡ (ok (a, j, true), t)
    → resolve parse collate now account_id identity_id principal s
      ≡ (require_active (a, list_external_identities collate a.account_id t), t)
unfolding resolve find_account_by_external_identity
resolves_fresh parse collate now account_id identity_id principal s a j t unowned valid made =
    ground arith

resolves_found :
    (parse : DateParser) (collate : Collation) (now account_id identity_id : String)
    (principal : ExternalPrincipal) (t : IdentityStore) (x : Account × List ExternalIdentity)
    → find_account_by_external_identity collate principal.issuer principal.provider_subject t
      ≡ ok (some x)
    → resolve parse collate now account_id identity_id principal t ≡ (require_active x, t)
unfolding resolve
resolves_found parse collate now account_id identity_id principal t x found = ground arith

resolved_fresh :
    (parse : DateParser) (collate : Collation) (now now2 : String)
    (account_id identity_id account_id' identity_id' : String) (principal : ExternalPrincipal)
    (s : IdentityStore) (a : Account) (ids : List ExternalIdentity) (b : Account)
    (j : ExternalIdentity)
    → provision_validations (provisioning account_id identity_id principal) ≡ ok tt
    → owner_of principal.issuer principal.provider_subject s ≡ none
    → validate_external_identity principal.issuer principal.provider_subject ≡ ok tt
    → provision_checks parse now (provisioning account_id identity_id principal) s ≡ ok (b, j)
    → (resolve parse collate now account_id identity_id principal s).0 ≡ ok (a, ids)
    → resolve parse collate now2 account_id' identity_id' principal
        (resolve parse collate now account_id identity_id principal s).1
      ≡ (ok (a, ids), (resolve parse collate now account_id identity_id principal s).1)
unfolding provision_validations incremented
resolved_fresh parse collate now now2 account_id identity_id account_id' identity_id' principal s a
      ids b j checks unowned valid checked h =
    let input = provisioning account_id identity_id principal in
    let some_id = uuid_nonempty identity_id (ground arith) in
    let t = (provision_fresh parse now input s).1 in
    let after = incremented b j.linked_at in
    let made : provision_external_identity parse now input s ≡ (ok (after, j, true), t) =
      provisioned_answer parse now input s b j checks unowned checked in
    let listed = list_external_identities collate after.account_id t in
    let first : resolve parse collate now account_id identity_id principal s
        ≡ (require_active (after, listed), t) =
      resolves_fresh parse collate now account_id identity_id principal s after j t unowned valid
        made in
    let found =
      find_provisioned parse collate now account_id identity_id principal s b j valid some_id
        checked t refl in
    let second =
      resolves_found parse collate now2 account_id' identity_id' principal t (after, listed)
        found in
    let answered : require_active (after, listed) ≡ ok (a, ids) = sym (ap (λ r. r.0) first) ∙ h in
    subst
      (λ r. resolve parse collate now2 account_id' identity_id' principal r.1 ≡ (ok (a, ids), r.1))
      (sym first)
      (subst (λ r. resolve parse collate now2 account_id' identity_id' principal t ≡ (r, t))
        answered second)

-- After a principal was resolved, resolving it again, at any time and whatever the random IDs, returns
-- the same account and identities and writes nothing.
pub resolve_again :
    (parse : DateParser) (collate : Collation) (now now2 : String)
    (account_id identity_id account_id' identity_id' : String) (principal : ExternalPrincipal)
    (s : IdentityStore) (a : Account) (ids : List ExternalIdentity)
    → (resolve parse collate now account_id identity_id principal s).0 ≡ ok (a, ids)
    → resolve parse collate now2 account_id' identity_id' principal
        (resolve parse collate now account_id identity_id principal s).1
      ≡ (ok (a, ids), (resolve parse collate now account_id identity_id principal s).1)
unfolding resolve find_account_by_external_identity provision_external_identity provision_fresh
    provision_validations
resolve_again parse collate now now2 account_id identity_id account_id' identity_id' principal s a
      ids h =
    let input = provisioning account_id identity_id principal in
    elim (Option-cases (owner_of principal.issuer principal.provider_subject s)) [
      | inr (id, owned) ↦ ground arith
      | inl unowned ↦ elim (Result-cases (provision_checks parse now input s)) [
        | inr (e, refused) ↦ absurd (ground arith)
        | inl ((b, j), checked) ↦
            resolved_fresh parse collate now now2 account_id identity_id account_id' identity_id'
              principal s a ids b j (ground arith) unowned (ground arith) checked h
      ]
    ]
