-- ===== src/Accounts/Sessions.antt =====
-- storage/memory/inMemoryIdentityPersistence.ts: sessions of an account.

use zephipay_backend.Accounts.State.{
  IdentityOp, IdentityStore, append_event_unsafe, incremented, put_account, require_version,
}
use zephipay_backend.Accounts.Types.{
  Account, AccountSecurityEventType, AccountSession, CreateAccountSessionInput, IdentityError,
  RevokeAccountSessionInput, expiry_before_creation, revocation_before_creation,
  session_already_revoked, session_created, session_exists, session_missing, session_revoked,
  validate_timestamp, validate_uuid,
}
use zephipay_backend.Common.{
  Result, String, err, get_or, none, not, ok, some, throw_if, truthy, ◌==◌, ◌>>=◌, ◌>>◌,
}
use zephipay_backend.Common.Dict.{get, has, set}
use zephipay_backend.Json.{end}
use zephipay_backend.Store.Access.{date_after}
use zephipay_backend.Store.Claims.{DateParser, date_le}

unfoldable pub session_checks :
    DateParser
    → String
    → CreateAccountSessionInput
    → IdentityStore
    → Result IdentityError (Account × AccountSession)
session_checks parse now input s = do
  validate_uuid input.session_id "Session ID"
  account ← require_version s input.account_id input.expected_account_version
  throw_if (has input.session_id s.sessions) (session_exists input.session_id)
  let at = get_or input.created_at now
  validate_timestamp parse at "Session creation time"
  validate_timestamp parse input.expires_at "Session expiry time"
  throw_if (date_le (parse input.expires_at) (parse at)) expiry_before_creation
  ok (
    account,
    record {
      session_id = input.session_id;
      account_id = input.account_id;
      created_at = at;
      expires_at = input.expires_at;
      revoked_at = none;
    },
  )

-- What a change of a session writes: the account's next version, the session and the event.
unfoldable pub put_session :
    Account → AccountSecurityEventType → AccountSession → String → IdentityStore → IdentityStore
put_session account type session at s =
    let after = incremented account at in
    append_event_unsafe after type end at (some session.session_id) none
      (record (put_account after s) { sessions = set session.session_id session s.sessions })

unfoldable pub create_account_session :
    DateParser → String → CreateAccountSessionInput → IdentityOp (Account × AccountSession)
create_account_session parse now input s = elim (session_checks parse now input s) [
  | err e ↦ (err e, s)
  | ok (account, session) ↦ (
    ok (incremented account session.created_at, session),
    put_session account session_created session session.created_at s,
  )
]

-- `!current || current.accountId !== input.accountId`
unfoldable pub session_of : IdentityStore → String → String → Result IdentityError AccountSession
session_of s id account_id = elim (get id s.sessions) [
  | none ↦ err (session_missing id)
  | some session ↦
      throw_if (not (session.account_id == account_id)) (session_missing id) >> ok session
]

unfoldable pub revoke_checks :
    DateParser
    → String
    → RevokeAccountSessionInput
    → IdentityStore
    → Result IdentityError (Account × AccountSession × String)
revoke_checks parse now input s = do
  account ← require_version s input.account_id input.expected_account_version
  current ← session_of s input.session_id input.account_id
  throw_if (truthy current.revoked_at) (session_already_revoked input.session_id)
  let at = get_or input.revoked_at now
  validate_timestamp parse at "Session revocation time"
  throw_if (date_after (parse current.created_at) (parse at)) revocation_before_creation
  ok (account, current, at)

unfoldable pub revoke_account_session :
    DateParser → String → RevokeAccountSessionInput → IdentityOp (Account × AccountSession)
revoke_account_session parse now input s = elim (revoke_checks parse now input s) [
  | err e ↦ (err e, s)
  | ok (account, current, at) ↦
      let session = record current { revoked_at = some at } in
      (ok (incremented account at, session), put_session account session_revoked session at s)
]
