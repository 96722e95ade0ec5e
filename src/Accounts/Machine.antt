-- ===== src/Accounts/Machine.antt =====
-- The store of accounts as a machine: its requests, and what one write does to an account with its
-- audit trail, to the identities with their index, and to the sessions.

-- Each request with the reading of the clock that it uses where its input gives no time.
use zephipay_backend.Common.{
  nonempty, Result, String, [], err, false, is_some, length, none, ok, some, true, truthy, ◌++◌,
  ◌+◌, ◌∷◌, ◌≡◌,
}
use zephipay_backend.Accounts.Links.{link_external_identity, provision_external_identity}
use zephipay_backend.Accounts.Repository.{create_account, update_account_status}
use zephipay_backend.Accounts.Sessions.{create_account_session, revoke_account_session}
use zephipay_backend.Accounts.State.{
  IdentityOp, IdentityStore, external_identity_key, list_account_security_events,
}
use zephipay_backend.Accounts.Types.{
  Account, AccountSecurityEvent, AccountSession, CreateAccountInput, CreateAccountSessionInput,
  ExternalIdentity, IdentityError, LinkExternalIdentityInput, ProvisionExternalIdentityInput,
  RevokeAccountSessionInput, UpdateStatusInput,
}
use zephipay_backend.Common.Dict.{get, set}
use zephipay_backend.Store.Claims.{DateParser}

pub data IdentityRequest : Type 0 where
  open_account : String → CreateAccountInput → IdentityRequest
  move_account : String → UpdateStatusInput → IdentityRequest
  link_identity : String → LinkExternalIdentityInput → IdentityRequest
  provision : String → ProvisionExternalIdentityInput → IdentityRequest
  open_session : String → CreateAccountSessionInput → IdentityRequest
  revoke_session : String → RevokeAccountSessionInput → IdentityRequest

-- Whether a request returned, or the error that it threw.
abbrev done :
    {A : Type 0}
    → Result IdentityError A × IdentityStore
    → Result IdentityError (Unit {0}) × IdentityStore
done (ok a, s) = (ok tt, s)
done (err e, s) = (err e, s)

unfoldable pub serve : DateParser → IdentityRequest → IdentityOp (Unit {0})
serve parse (open_account now input) s = done (create_account parse now input s)
serve parse (move_account now input) s = done (update_account_status parse now input s)
serve parse (link_identity now input) s = done (link_external_identity parse now input s)
serve parse (provision now input) s = done (provision_external_identity parse now input s)
serve parse (open_session now input) s = done (create_account_session parse now input s)
serve parse (revoke_session now input) s = done (revoke_account_session parse now input s)

-- The event that a write adds to the trail of an account.
pub record Logged (a : Account) (s t : IdentityStore) : Type 0 where
  pub event : AccountSecurityEvent
  pub of_account : event.account_id ≡ a.account_id
  pub at_version : event.account_version ≡ a.version
  pub in_sequence : event.sequence_number ≡ length (list_account_security_events s a.account_id) + 1
  pub logged :
      t.events
      ≡ set a.account_id (list_account_security_events s a.account_id ++ event ∷ []) s.events

-- What a change leaves of an account.
pub record Bumped (a a' : Account) : Type 0 where
  pub same_account : a'.account_id ≡ a.account_id
  pub same_actor_subject : a'.actor_subject ≡ a.actor_subject
  pub same_creation : a'.created_at ≡ a.created_at
  pub next_version : a'.version ≡ a.version + 1

pub data AccountWrite (s t : IdentityStore) : Type 0 where
  opens :
      (a : Account)
      → get a.account_id s.accounts ≡ none
      → a.version ≡ 0
      → t.accounts ≡ set a.account_id a s.accounts
      → Logged a s t
      → AccountWrite s t
  bumps :
      (a a' : Account)
      → get a.account_id s.accounts ≡ some a
      → Bumped a a'
      → t.accounts ≡ set a.account_id a' s.accounts
      → Logged a' s t
      → AccountWrite s t

pub data LinkWrite (s t : IdentityStore) : Type 0 where
  links_kept : t.identities ≡ s.identities → t.identity_owners ≡ s.identity_owners → LinkWrite s t
  links :
      (i : ExternalIdentity)
      → nonempty i.identity_id ≡ true
      → get i.identity_id s.identities ≡ none
      → get (external_identity_key i.issuer i.subject) s.identity_owners ≡ none
      → is_some (get i.account_id t.accounts) ≡ true
      → t.identities ≡ set i.identity_id i s.identities
      → t.identity_owners
        ≡ set (external_identity_key i.issuer i.subject) i.identity_id s.identity_owners
      → LinkWrite s t

pub data SessionWrite (s t : IdentityStore) : Type 0 where
  sessions_kept : t.sessions ≡ s.sessions → SessionWrite s t
  session_opens :
      (x : AccountSession)
      → get x.session_id s.sessions ≡ none
      → t.sessions ≡ set x.session_id x s.sessions
      → SessionWrite s t
  session_ends :
      (x : AccountSession) (at : String)
      → get x.session_id s.sessions ≡ some x
      → truthy x.revoked_at ≡ false
      → t.sessions ≡ set x.session_id (record x { revoked_at = some at }) s.sessions
      → SessionWrite s t

pub record IdentityWrite (s t : IdentityStore) : Type 0 where
  pub on_account : AccountWrite s t
  pub on_links : LinkWrite s t
  pub on_sessions : SessionWrite s t

-- What a request leaves: the store as it was, or after one write, or, after a provisioning, two.
pub data Served (s t : IdentityStore) : Type 0 where
  as_it_was : t ≡ s → Served s t
  written : IdentityWrite s t → Served s t
  twice : (m : IdentityStore) → IdentityWrite s m → IdentityWrite m t → Served s t

-- Every account and every session stands under its own ID.
pub record WellKept (s : IdentityStore) : Type 0 where
  pub own_account_id : (k : String) (a : Account) → get k s.accounts ≡ some a → a.account_id ≡ k
  pub own_session_id :
      (k : String) (x : AccountSession) → get k s.sessions ≡ some x → x.session_id ≡ k
