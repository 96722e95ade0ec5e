-- ===== src/Accounts/Repository.antt =====
-- storage/memory/inMemoryIdentityPersistence.ts: accounts. `now` is the reading of the clock in an
-- operation; what an operation checks comes before what it writes.

use zephipay_backend.Accounts.State.{
  IdentityOp, IdentityStore, append_event_unsafe, fresh_account, incremented, put_account,
  put_fresh_account, require_account, require_version,
}
use zephipay_backend.Accounts.Types.{
  Account, AccountStatus, CreateAccountInput, IdentityError, UpdateStatusInput, account_exists,
  account_status_changed, actor_subject_for_account, same_account_status, status_text,
  status_unchanged, validate_timestamp, validate_uuid,
}
use zephipay_backend.Common.{
  Option, Result, String, err, get_or, if◌then◌else◌, none, nonempty, ok, some, throw_if, ◌>>=◌,
  ◌>>◌,
}
use zephipay_backend.Common.Dict.{get, has}
use zephipay_backend.Json.{JsonObject, end, field, text}
use zephipay_backend.Store.Claims.{DateParser}

unfoldable pub create_account_checks :
    DateParser
    → String
    → CreateAccountInput
    → IdentityStore
    → Result IdentityError (Account × String)
create_account_checks parse now input s = do
  validate_uuid input.account_id "Account ID"
  throw_if (has input.account_id s.accounts) (account_exists input.account_id)
  let at = get_or input.created_at now
  validate_timestamp parse at "Account creation time"
  actor ← actor_subject_for_account input.account_id
  ok (fresh_account input.account_id actor at, at)

unfoldable pub create_account : DateParser → String → CreateAccountInput → IdentityOp Account
create_account parse now input s = elim (create_account_checks parse now input s) [
  | err e ↦ (err e, s)
  | ok (account, at) ↦ (ok account, put_fresh_account account at s)
]

unfoldable pub find_account : String → IdentityStore → Option Account
find_account id s = get id s.accounts

unfoldable pub find_account_by_actor_subject :
    String → IdentityStore → Result IdentityError (Option Account)
find_account_by_actor_subject actor s = elim (get actor s.actor_subjects) [
  | none ↦ ok none
  | some id ↦ if nonempty id then (require_account s id >>= λ a. ok (some a)) else ok none
]

unfoldable pub update_status_checks :
    DateParser
    → String
    → UpdateStatusInput
    → IdentityStore
    → Result IdentityError (Account × String)
update_status_checks parse now input s = do
  account ← require_version s input.account_id input.expected_version
  throw_if (same_account_status account.status input.status) status_unchanged
  let at = get_or input.occurred_at now
  validate_timestamp parse at "Account status event time"
  ok (account, at)

abbrev pub status_details : AccountStatus → AccountStatus → JsonObject
status_details from to =
    field "previousStatus" (text (status_text from)) (field "status" (text (status_text to)) end)

unfoldable pub update_account_status : DateParser → String → UpdateStatusInput → IdentityOp Account
update_account_status parse now input s = elim (update_status_checks parse now input s) [
  | err e ↦ (err e, s)
  | ok (account, at) ↦
      let after = record (incremented account at) { status = input.status } in
      (
        ok after,
        append_event_unsafe after account_status_changed
            (status_details account.status input.status) at none none (put_account after s),
      )
]
