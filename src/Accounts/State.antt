-- ===== src/Accounts/State.antt =====
-- storage/memory/inMemoryIdentityPersistence.ts: the maps, what is required of an account, and the
-- events of the audit trail. The queue that makes operations exclusive is the order of the calls; a
-- copy of an immutable value is the value.

use zephipay_backend.Accounts.Types.{
  Account, AccountSecurityEvent, AccountSecurityEventType, AccountSession, ExternalIdentity,
  IdentityError, account_created, account_missing, account_version_conflict, active,
}
use zephipay_backend.Common.{
  List, Option, Result, String, [], concat, eqb, err, get_or, length, none, not, ok, some, throw_if,
  ℕ, ◌++◌, ◌+◌, ◌>>=◌, ◌>>◌, ◌∷◌,
}
use zephipay_backend.Common.Dict.{Dict, get, set}
use zephipay_backend.Json.{JsonObject, end}

pub record IdentityStore : Type 0 where
  pub accounts : Dict Account
  pub actor_subjects : Dict String
  pub identities : Dict ExternalIdentity
  pub identity_owners : Dict String
  pub sessions : Dict AccountSession
  pub events : Dict (List AccountSecurityEvent)
  pub next_event_id : ℕ

abbrev pub empty_identities : IdentityStore
empty_identities = record {
  accounts = [];
  actor_subjects = [];
  identities = [];
  identity_owners = [];
  sessions = [];
  events = [];
  next_event_id = 1;
}

abbrev pub IdentityOp : Type 0 → Type 0
IdentityOp A = IdentityStore → Result IdentityError A × IdentityStore

-- `externalIdentityKey`: the two texts with U+0000 between them.
unfoldable pub external_identity_key : String → String → String
external_identity_key issuer subject = concat issuer (concat "\0" subject)

unfoldable pub require_account : IdentityStore → String → Result IdentityError Account
require_account s id = elim (get id s.accounts) [ none ↦ err (account_missing id) | some a ↦ ok a ]

unfoldable pub require_version : IdentityStore → String → ℕ → Result IdentityError Account
require_version s id expected = do
  account ← require_account s id
  throw_if (not (eqb account.version expected)) (account_version_conflict id)
  ok account

unfoldable pub list_account_security_events : IdentityStore → String → List AccountSecurityEvent
list_account_security_events s id = get_or (get id s.events) []

-- `{ ...account, version: account.version + 1n, updatedAt }`
unfoldable pub incremented : Account → String → Account
incremented account at = record account { version = account.version + 1; updated_at = at }

abbrev pub put_account : Account → IdentityStore → IdentityStore
put_account account s = record s { accounts = set account.account_id account s.accounts }

unfoldable pub security_event :
    Account
    → AccountSecurityEventType
    → JsonObject
    → String
    → Option String
    → Option String
    → IdentityStore
    → AccountSecurityEvent
security_event account type details at session identity s = record {
  event_id = s.next_event_id;
  account_id = account.account_id;
  sequence_number = length (list_account_security_events s account.account_id) + 1;
  event_type = type;
  account_version = account.version;
  session_id = session;
  identity_id = identity;
  details = details;
  occurred_at = at;
}

unfoldable pub append_event_unsafe :
    Account
    → AccountSecurityEventType
    → JsonObject
    → String
    → Option String
    → Option String
    → IdentityStore
    → IdentityStore
append_event_unsafe account type details at session identity s = record s {
  events =
      set account.account_id
        (list_account_security_events s account.account_id
          ++ security_event account type details at session identity s ∷ [])
        s.events;
  next_event_id = s.next_event_id + 1;
}

abbrev pub fresh_account : String → String → String → Account
fresh_account id actor now = record {
  account_id = id;
  actor_subject = actor;
  status = active;
  version = 0;
  created_at = now;
  updated_at = now;
}

-- What `createAccount` and a provisioning both write of a new account.
unfoldable pub put_fresh_account : Account → String → IdentityStore → IdentityStore
put_fresh_account account now s =
    append_event_unsafe account account_created end now none none (record (put_account account s) {
      actor_subjects = set account.actor_subject account.account_id s.actor_subjects;
    })
