-- ===== src/Accounts/Writes.antt =====
-- What each request on the store of accounts writes, on a store whose maps are well kept.

use zephipay_backend.Common.{
  nonempty, Result-cases, inl, inr, subst, Bool, Option, Result, String, arith, eq_iff, false, none,
  ok, refl, some, throw_if, true, ℕ, ◌>>◌, ◌≡◌,
}
use zephipay_backend.Accounts.Machine.{
  as_it_was, Served, SessionWrite, WellKept, written, Bumped, IdentityWrite, Logged, bumps, links,
  links_kept, opens, sessions_kept,
}
use zephipay_backend.Accounts.Repository.{
  create_account, create_account_checks, status_details, update_account_status,
  update_status_checks,
}
use zephipay_backend.Accounts.Sessions.{put_session}
use zephipay_backend.Accounts.Types.{
  AccountSession, CreateAccountInput, UpdateStatusInput, account_status_changed, Account,
  AccountSecurityEventType, ExternalIdentity, IdentityError, account_created,
  external_identity_linked,
}
use zephipay_backend.Store.Claims.{DateParser}
use zephipay_backend.Accounts.Links.{put_identity}
use zephipay_backend.Accounts.State.{
  IdentityStore, append_event_unsafe, external_identity_key, incremented,
  list_account_security_events, put_account, put_fresh_account, require_account, require_version,
  security_event,
}
use zephipay_backend.Common.Dict.{get, get-set, set}
use zephipay_backend.Json.{JsonObject, end}

append-Logged :
    (a : Account) (type : AccountSecurityEventType) (details : JsonObject) (at : String)
    (session identity : Option String) (s m : IdentityStore)
    → m.events ≡ s.events
    → Logged a s (append_event_unsafe a type details at session identity m)
unfolding append_event_unsafe security_event list_account_security_events
append-Logged a type details at session identity s m h = record {
  event = security_event a type details at session identity m;
  of_account = refl;
  at_version = refl;
  in_sequence = ground (arith, h);
  logged = ground (arith, h);
}

-- `throw_if` passed.
passed :
    {A : Type 0} (b : Bool) (e : IdentityError) (r : Result IdentityError A) (a : A)
    → (throw_if b e >> r) ≡ ok a
    → (b ≡ false) × (r ≡ ok a)
passed true e r a h = absurd (ground arith)
passed false e r a h = (refl, h)

pub required :
    (s : IdentityStore) (id : String) (expected : ℕ) (a : Account)
    → require_version s id expected ≡ ok a
    → get id s.accounts ≡ some a
unfolding require_version require_account
required s id expected a h = ground arith

pub opens_fresh :
    (a : Account) (now : String) (s : IdentityStore)
    → get a.account_id s.accounts ≡ none
    → a.version ≡ 0
    → IdentityWrite s (put_fresh_account a now s)
unfolding put_fresh_account append_event_unsafe
opens_fresh a now s fresh zeroth = record {
  on_account = opens a fresh zeroth refl (
      append-Logged a account_created end now none none s
        (record (put_account a s) {
          actor_subjects = set a.actor_subject a.account_id s.actor_subjects;
        })
        refl);
  on_links = links_kept refl refl;
  on_sessions = sessions_kept refl;
}

incremented-Bumped : (a : Account) (at : String) → Bumped a (incremented a at)
unfolding incremented
incremented-Bumped a at = record {
  same_account = refl;
  same_actor_subject = refl;
  same_creation = refl;
  next_version = refl;
}

pub links_identity :
    (a : Account) (i : ExternalIdentity) (s : IdentityStore)
    → get a.account_id s.accounts ≡ some a
    → i.account_id ≡ a.account_id
    → nonempty i.identity_id ≡ true
    → get i.identity_id s.identities ≡ none
    → get (external_identity_key i.issuer i.subject) s.identity_owners ≡ none
    → IdentityWrite s (put_identity a i s)
unfolding put_identity append_event_unsafe incremented
links_identity a i s there same some_id fresh unowned =
    let a' = incremented a i.linked_at in
    record {
      on_account = bumps a a' there (incremented-Bumped a i.linked_at) refl (
          append-Logged a' external_identity_linked end i.linked_at none (some i.identity_id) s
            (record (put_account a' s) {
              identities = set i.identity_id i s.identities;
              identity_owners =
                  set (external_identity_key i.issuer i.subject) i.identity_id s.identity_owners;
            })
            refl);
      on_links =
          links i some_id fresh unowned
            (ground (
              arith,
              same,
              get-set a.account_id i.account_id a' s.accounts,
              eq_iff a.account_id i.account_id,
            ))
            refl refl;
      on_sessions = sessions_kept refl;
    }

bumps_account :
    (a a' : Account) (type : AccountSecurityEventType) (details : JsonObject) (at : String)
    (s : IdentityStore)
    → get a.account_id s.accounts ≡ some a
    → Bumped a a'
    → IdentityWrite s (
        append_event_unsafe a' type details at none none
          (record s { accounts = set a.account_id a' s.accounts }))
unfolding append_event_unsafe
bumps_account a a' type details at s there bumped = record {
  on_account = bumps a a' there bumped refl (
      append-Logged a' type details at none none s
        (record s { accounts = set a.account_id a' s.accounts }) refl);
  on_links = links_kept refl refl;
  on_sessions = sessions_kept refl;
}

pub writes_session :
    (a : Account) (x : AccountSession) (type : AccountSecurityEventType) (at : String)
    (s : IdentityStore)
    → get a.account_id s.accounts ≡ some a
    → SessionWrite s (put_session a type x at s)
    → IdentityWrite s (put_session a type x at s)
unfolding put_session append_event_unsafe incremented
writes_session a x type at s there moved =
    let a' = incremented a at in
    record {
      on_account = bumps a a' there (incremented-Bumped a at) refl (
          append-Logged a' type end at (some x.session_id) none s
            (record (put_account a' s) { sessions = set x.session_id x s.sessions }) refl);
      on_links = links_kept refl refl;
      on_sessions = moved;
    }

pub create_account-Served :
    (parse : DateParser) (now : String) (input : CreateAccountInput) (s : IdentityStore)
    → Served s (create_account parse now input s).1
unfolding create_account create_account_checks
create_account-Served parse now input s =
    elim (Result-cases (create_account_checks parse now input s)) [
      | inr (e, refused) ↦ as_it_was (ground arith)
      | inl ((a, at), checked) ↦
          subst (Served s) (ground arith)
            (written (opens_fresh a at s (ground arith) (ground arith)))
    ]

pub update_account_status-Served :
    (parse : DateParser) (now : String) (input : UpdateStatusInput) (s : IdentityStore)
    → WellKept s
    → Served s (update_account_status parse now input s).1
unfolding update_account_status update_status_checks incremented
update_account_status-Served parse now input s kept =
    elim (Result-cases (update_status_checks parse now input s)) [
      | inr (e, refused) ↦ as_it_was (ground arith)
      | inl ((a, at), checked) ↦
          let there = required s input.account_id input.expected_version a (ground arith) in
          let a' = record (incremented a at) { status = input.status } in
          subst (Served s) (ground arith) (
            written (
              bumps_account a a' account_status_changed (status_details a.status input.status) at s
                (ground (arith, there, kept.own_account_id input.account_id a there))
                (record {
                  same_account = refl;
                  same_actor_subject = refl;
                  same_creation = refl;
                  next_version = refl;
                })))
    ]
