-- ===== src/Tests/Accounts.antt =====
-- The store of accounts on concrete requests.

use zephipay_backend.Accounts.Again.{provision_again, resolve_again}
use zephipay_backend.Accounts.Invariant.{AuditTrail}
use zephipay_backend.Accounts.Links.{
  identity_at, owned_identity, owner_of, provision_checks, provision_external_identity,
  provision_fresh, provision_validations, put_identity,
}
use zephipay_backend.Accounts.Machine.{
  IdentityRequest, move_account, open_account, open_session, provision, revoke_session, serve,
}
use zephipay_backend.Accounts.Queries.{
  Collation, ExternalPrincipal, find_account_by_external_identity, list_external_identities,
  require_active, resolve,
}
use zephipay_backend.Accounts.Repository.{
  create_account, create_account_checks, update_account_status, update_status_checks,
}
use zephipay_backend.Accounts.Runs.{
  every_change_audited, empty-IdentityInv, one_owner, revoked_stays, serve_all,
  serve_all-IdentityInv,
}
use zephipay_backend.Accounts.Serves.{serve_throws}
use zephipay_backend.Accounts.Sessions.{
  create_account_session, put_session, revoke_account_session, revoke_checks, session_checks,
  session_of,
}
use zephipay_backend.Accounts.State.{
  IdentityStore, append_event_unsafe, empty_identities, external_identity_key, incremented,
  list_account_security_events, put_fresh_account, require_account, require_version, security_event,
}
use zephipay_backend.Accounts.Types.{
  Account, AccountSession, CreateAccountSessionInput, ExternalIdentity,
  ProvisionExternalIdentityInput, RevokeAccountSessionInput, UpdateStatusInput,
  account_version_conflict, active, actor_subject_for_account, is_uuid, suspended,
  validate_external_identity,
}
use zephipay_backend.Common.{
  List, String, [], concat, err, false, if◌then◌else◌, is_some, none, ok, pos, refl, some, trim,
  true, utf16_length, ◌==◌, ◌∷◌, ◌≡◌,
}
use zephipay_backend.Common.Dict.{get, set, values}
use zephipay_backend.Store.Claims.{DateParser}

abbrev first_id : String
first_id = "0a000000-0000-4000-8000-000000000001"

abbrev second_id : String
second_id = "0a000000-0000-4000-8000-000000000002"

abbrev identity_id : String
identity_id = "0b000000-0000-4000-9000-000000000001"

abbrev session_id : String
session_id = "0c000000-0000-4000-a000-000000000001"

-- A parser of three times.
abbrev parse_times : DateParser
parse_times s =
    if s == "noon"
    then some (pos 12)
    else if s == "one"
    then some (pos 13)
    else if s == "two"
    then some (pos 14)
    else none

abbrev same_everywhere : Collation
same_everywhere a b = pos 0

abbrev provision_input : ProvisionExternalIdentityInput
provision_input = record {
  account_id = first_id;
  identity_id = identity_id;
  issuer = "https://issuer";
  subject = "user-1";
  occurred_at = none;
}

abbrev second_input : ProvisionExternalIdentityInput
second_input = record provision_input { account_id = second_id; identity_id = second_id }

abbrev session_input : CreateAccountSessionInput
session_input = record {
  session_id = session_id;
  account_id = first_id;
  expected_account_version = 1;
  expires_at = "two";
  created_at = none;
}

abbrev revocation : RevokeAccountSessionInput
revocation = record {
  session_id = session_id;
  account_id = first_id;
  expected_account_version = 2;
  revoked_at = some "one";
}

abbrev suspension : UpdateStatusInput
suspension = record {
  account_id = first_id;
  expected_version = 3;
  status = suspended;
  occurred_at = none;
}

abbrev day : List IdentityRequest
day =
    provision "noon" provision_input
    ∷ open_session "noon" session_input
    ∷ revoke_session "two" revocation
    ∷ move_account "two" suspension
    ∷ []

abbrev evening : IdentityStore
evening = serve_all parse_times day empty_identities

abbrev the_account : Account
the_account = record {
  account_id = first_id;
  actor_subject = "zp:account:0a000000-0000-4000-8000-000000000001";
  status = suspended;
  version = 4;
  created_at = "noon";
  updated_at = "two";
}

account_there : get first_id evening.accounts ≡ some the_account
unfolding serve_all serve create_account update_account_status update_status_checks
    provision_external_identity provision_validations provision_checks provision_fresh
    validate_external_identity actor_subject_for_account is_uuid trim utf16_length concat owner_of
    external_identity_key put_identity put_fresh_account append_event_unsafe security_event
    list_account_security_events incremented require_account require_version create_account_session
    session_checks put_session revoke_account_session revoke_checks session_of get set
account_there = refl

every_change_audited_example : AuditTrail first_id 4 (list_account_security_events evening first_id)
every_change_audited_example =
    every_change_audited parse_times day first_id the_account account_there

abbrev the_identity : ExternalIdentity
the_identity = record {
  identity_id = identity_id;
  issuer = "https://issuer";
  subject = "user-1";
  account_id = first_id;
  linked_at = "noon";
}

identity_there : get identity_id evening.identities ≡ some the_identity
unfolding serve_all serve create_account update_account_status update_status_checks
    provision_external_identity provision_validations provision_checks provision_fresh
    validate_external_identity actor_subject_for_account is_uuid trim utf16_length concat owner_of
    external_identity_key put_identity put_fresh_account append_event_unsafe security_event
    list_account_security_events incremented require_account require_version create_account_session
    session_checks put_session revoke_account_session revoke_checks session_of get set
identity_there = refl

one_owner_example :
    (identity_id ≡ identity_id)
    × (the_identity ≡ the_identity)
    × (is_some (get first_id evening.accounts) ≡ true)
one_owner_example =
    one_owner parse_times day identity_id identity_id the_identity the_identity identity_there
      identity_there refl refl

abbrev the_session : AccountSession
the_session = record {
  session_id = session_id;
  account_id = first_id;
  created_at = "noon";
  expires_at = "two";
  revoked_at = some "one";
}

session_there : get session_id evening.sessions ≡ some the_session
unfolding serve_all serve create_account update_account_status update_status_checks
    provision_external_identity provision_validations provision_checks provision_fresh
    validate_external_identity actor_subject_for_account is_uuid trim utf16_length concat owner_of
    external_identity_key put_identity put_fresh_account append_event_unsafe security_event
    list_account_security_events incremented require_account require_version create_account_session
    session_checks put_session revoke_account_session revoke_checks session_of get set
session_there = refl

revoked_stays_example :
    get session_id
      (serve_all parse_times
        (revoke_session "two" (record revocation { expected_account_version = 4 }) ∷ [])
        evening).sessions
    ≡ some the_session
revoked_stays_example =
    revoked_stays parse_times
      (revoke_session "two" (record revocation { expected_account_version = 4 }) ∷ []) evening
      session_id the_session
      (serve_all-IdentityInv parse_times day empty_identities empty-IdentityInv) session_there refl

stale :
    (serve parse_times (move_account "two" suspension) evening).0
    ≡ err (account_version_conflict first_id)
unfolding serve_all serve create_account update_account_status update_status_checks
    provision_external_identity provision_validations provision_checks provision_fresh
    validate_external_identity actor_subject_for_account is_uuid trim utf16_length concat owner_of
    external_identity_key put_identity put_fresh_account append_event_unsafe security_event
    list_account_security_events incremented require_account require_version create_account_session
    session_checks put_session revoke_account_session revoke_checks session_of get set
stale = refl

serve_throws_example : (serve parse_times (move_account "two" suspension) evening).1 ≡ evening
serve_throws_example =
    serve_throws parse_times (move_account "two" suspension) evening
      (account_version_conflict first_id) stale

abbrev provisioned_account : Account
provisioned_account = record the_account { status = active; version = 1; updated_at = "noon" }

provisioned_once :
    (provision_external_identity parse_times "noon" provision_input empty_identities).0
    ≡ ok (provisioned_account, the_identity, true)
unfolding serve_all serve create_account update_account_status update_status_checks
    provision_external_identity provision_validations provision_checks provision_fresh
    validate_external_identity actor_subject_for_account is_uuid trim utf16_length concat owner_of
    external_identity_key put_identity put_fresh_account append_event_unsafe security_event
    list_account_security_events incremented require_account require_version create_account_session
    session_checks put_session revoke_account_session revoke_checks session_of get set
provisioned_once = refl

second_valid : provision_validations second_input ≡ ok tt
unfolding serve_all serve create_account update_account_status update_status_checks
    provision_external_identity provision_validations provision_checks provision_fresh
    validate_external_identity actor_subject_for_account is_uuid trim utf16_length concat owner_of
    external_identity_key put_identity put_fresh_account append_event_unsafe security_event
    list_account_security_events incremented require_account require_version create_account_session
    session_checks put_session revoke_account_session revoke_checks session_of get set
second_valid = refl

provision_again_example :
    provision_external_identity parse_times "one" second_input
      (provision_external_identity parse_times "noon" provision_input empty_identities).1
    ≡ (
      ok (provisioned_account, the_identity, false),
      (provision_external_identity parse_times "noon" provision_input empty_identities).1,
    )
provision_again_example =
    provision_again parse_times "noon" "one" provision_input second_input empty_identities
      provisioned_account the_identity true refl refl second_valid provisioned_once

abbrev principal : ExternalPrincipal
principal = record { issuer = "https://issuer"; provider_subject = "user-1" }

resolved_once :
    (resolve parse_times same_everywhere "noon" first_id identity_id principal empty_identities).0
    ≡ ok (provisioned_account, the_identity ∷ [])
unfolding serve_all serve create_account update_account_status update_status_checks
    provision_external_identity provision_validations provision_checks provision_fresh
    validate_external_identity actor_subject_for_account is_uuid trim utf16_length concat owner_of
    external_identity_key put_identity put_fresh_account append_event_unsafe security_event
    list_account_security_events incremented require_account require_version create_account_session
    session_checks put_session revoke_account_session revoke_checks session_of get set values
    resolve find_account_by_external_identity owned_identity identity_at list_external_identities
    require_active
resolved_once = refl

resolve_again_example :
    resolve parse_times same_everywhere "one" second_id second_id principal
      (resolve parse_times same_everywhere "noon" first_id identity_id principal empty_identities).1
    ≡ (
      ok (provisioned_account, the_identity ∷ []),
      (resolve parse_times same_everywhere "noon" first_id identity_id principal
          empty_identities).1,
    )
resolve_again_example =
    resolve_again parse_times same_everywhere "noon" "one" first_id identity_id second_id second_id
      principal empty_identities provisioned_account (the_identity ∷ []) resolved_once

-- Two IDs that differ in their case are two accounts with one actor subject, and the later one takes
-- the subject over.
abbrev upper_id : String
upper_id = "0A000000-0000-4000-8000-000000000001"

abbrev two_cases : IdentityStore
two_cases =
    serve_all parse_times
      (open_account "noon" (record { account_id = first_id; created_at = none })
        ∷ open_account "noon" (record { account_id = upper_id; created_at = none })
        ∷ [])
      empty_identities

one_subject_two_accounts :
    (get first_id two_cases.accounts
      ≡ some (record the_account { status = active; version = 0; updated_at = "noon" }))
    × (get "zp:account:0a000000-0000-4000-8000-000000000001" two_cases.actor_subjects
        ≡ some upper_id)
unfolding serve_all serve create_account update_account_status update_status_checks
    provision_external_identity provision_validations provision_checks provision_fresh
    validate_external_identity actor_subject_for_account is_uuid trim utf16_length concat owner_of
    external_identity_key put_identity put_fresh_account append_event_unsafe security_event
    list_account_security_events incremented require_account require_version create_account_session
    session_checks put_session revoke_account_session revoke_checks session_of get set
    create_account_checks
one_subject_two_accounts = (refl, refl)
