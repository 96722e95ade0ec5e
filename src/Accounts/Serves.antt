-- ===== src/Accounts/Serves.antt =====
-- What each request on identities and sessions writes, and a request of any kind.

use zephipay_backend.Accounts.Types.{
  uuid_nonempty, IdentityError, AccountSession, CreateAccountSessionInput,
  LinkExternalIdentityInput, ProvisionExternalIdentityInput, RevokeAccountSessionInput,
  session_created, session_revoked,
}
use zephipay_backend.Common.{
  nonempty, true, err, Option-cases, Result-cases, String, arith, eq_iff, eq_refl, inl, inr, none,
  ok, refl, some, subst, ◌≡◌,
}
use zephipay_backend.Accounts.Machine.{
  IdentityRequest, link_identity, move_account, open_account, open_session, provision,
  revoke_session, serve, as_it_was, Served, WellKept, session_ends, session_opens, twice, written,
}
use zephipay_backend.Accounts.Repository.{create_account, update_account_status}
use zephipay_backend.Accounts.Writes.{
  create_account-Served, update_account_status-Served, links_identity, opens_fresh, required,
  writes_session,
}
use zephipay_backend.Accounts.Links.{
  link_checks, link_external_identity, owner_of, provision_checks, provision_external_identity,
  provision_fresh, provision_validations,
}
use zephipay_backend.Accounts.Sessions.{
  create_account_session, put_session, revoke_account_session, revoke_checks, session_checks,
  session_of,
}
use zephipay_backend.Accounts.State.{
  IdentityStore, append_event_unsafe, external_identity_key, put_fresh_account,
}
use zephipay_backend.Common.Dict.{get, get-set}
use zephipay_backend.Store.Claims.{DateParser}

link_external_identity-Served :
    (parse : DateParser) (now : String) (input : LinkExternalIdentityInput) (s : IdentityStore)
    → WellKept s
    → Served s (link_external_identity parse now input s).1
unfolding link_external_identity link_checks
link_external_identity-Served parse now input s kept =
    elim (Result-cases (link_checks parse now input s)) [
      | inr (e, refused) ↦ as_it_was (ground arith)
      | inl ((a, i), checked) ↦
          let there = required s input.account_id input.expected_account_version a (ground arith) in
          let named = kept.own_account_id input.account_id a there in
          subst (Served s) (ground arith) (
            written (
              links_identity a i s (ground (arith, there, named)) (ground (arith, named))
                (uuid_nonempty i.identity_id (ground arith)) (ground arith) (ground arith)))
    ]

provision_fresh-Served :
    (parse : DateParser) (now : String) (input : ProvisionExternalIdentityInput) (s : IdentityStore)
    → get (external_identity_key input.issuer input.subject) s.identity_owners ≡ none
    → nonempty input.identity_id ≡ true
    → Served s (provision_fresh parse now input s).1
unfolding provision_fresh provision_checks put_fresh_account append_event_unsafe
provision_fresh-Served parse now input s unowned some_id =
    elim (Result-cases (provision_checks parse now input s)) [
      | inr (e, refused) ↦ as_it_was (ground arith)
      | inl ((a, i), checked) ↦
          let m = put_fresh_account a i.linked_at s in
          subst (Served s) (ground arith) (
            twice m (opens_fresh a i.linked_at s (ground arith) (ground arith)) (
              links_identity a i m
                (ground
                  (arith, get-set a.account_id a.account_id a s.accounts, eq_refl a.account_id))
                (ground arith) (ground (arith, some_id)) (ground arith) (ground arith)))
    ]

unowned_key :
    (input : ProvisionExternalIdentityInput) (s : IdentityStore)
    → ((key : String) → get key s.identity_owners ≡ some "" → ⊥)
    → owner_of input.issuer input.subject s ≡ none
    → get (external_identity_key input.issuer input.subject) s.identity_owners ≡ none
unfolding owner_of
unowned_key input s named unowned =
    let key = external_identity_key input.issuer input.subject in
    elim (Option-cases (get key s.identity_owners)) [
      | inl nobody ↦ nobody
      | inr (id, held) ↦ absurd (named key (ground (arith, eq_iff id "")))
    ]

provision_external_identity-Served :
    (parse : DateParser) (now : String) (input : ProvisionExternalIdentityInput) (s : IdentityStore)
    → ((key : String) → get key s.identity_owners ≡ some "" → ⊥)
    → Served s (provision_external_identity parse now input s).1
unfolding provision_external_identity owner_of provision_validations
provision_external_identity-Served parse now input s named =
    elim (Result-cases (provision_validations input)) [
      | inr (e, refused) ↦ as_it_was (ground arith)
      | inl (u, valid) ↦ elim (Option-cases (owner_of input.issuer input.subject s)) [
        | inr (id, owned) ↦ as_it_was (ground arith)
        | inl unowned ↦
            let nobody = unowned_key input s named unowned in
            let some_id = uuid_nonempty input.identity_id (ground arith) in
            subst (Served s) (ground arith)
              (provision_fresh-Served parse now input s nobody some_id)
      ]
    ]

create_account_session-Served :
    (parse : DateParser) (now : String) (input : CreateAccountSessionInput) (s : IdentityStore)
    → WellKept s
    → Served s (create_account_session parse now input s).1
unfolding create_account_session session_checks put_session append_event_unsafe
create_account_session-Served parse now input s kept =
    elim (Result-cases (session_checks parse now input s)) [
      | inr (e, refused) ↦ as_it_was (ground arith)
      | inl ((a, x), checked) ↦
          let there = required s input.account_id input.expected_account_version a (ground arith) in
          subst (Served s) (ground arith) (
            written (
              writes_session a x session_created x.created_at s
                (ground (arith, there, kept.own_account_id input.account_id a there))
                (session_opens x (ground arith) refl)))
    ]

pub found_session :
    (s : IdentityStore) (id account : String) (x : AccountSession)
    → session_of s id account ≡ ok x
    → get id s.sessions ≡ some x
unfolding session_of
found_session s id account x h = ground arith

revoke_account_session-Served :
    (parse : DateParser) (now : String) (input : RevokeAccountSessionInput) (s : IdentityStore)
    → WellKept s
    → Served s (revoke_account_session parse now input s).1
unfolding revoke_account_session revoke_checks put_session append_event_unsafe
revoke_account_session-Served parse now input s kept =
    elim (Result-cases (revoke_checks parse now input s)) [
      | inr (e, refused) ↦ as_it_was (ground arith)
      | inl ((a, x, at), checked) ↦
          let there = required s input.account_id input.expected_account_version a (ground arith) in
          let current = found_session s input.session_id input.account_id x (ground arith) in
          let named = kept.own_session_id input.session_id x current in
          let x' = record x { revoked_at = some at } in
          subst (Served s) (ground arith) (
            written (
              writes_session a x' session_revoked at s
                (ground (arith, there, kept.own_account_id input.account_id a there))
                (session_ends x at (ground (arith, named, current)) (ground arith) refl)))
    ]

-- Every request writes one of the three ways, on maps that are well kept and an index without the
-- empty ID.
pub serve-Served :
    (parse : DateParser) (request : IdentityRequest) (s : IdentityStore)
    → WellKept s
    → ((key : String) → get key s.identity_owners ≡ some "" → ⊥)
    → Served s (serve parse request s).1
unfolding serve
serve-Served parse (open_account now input) s kept named =
    subst (Served s) (ground arith) (create_account-Served parse now input s)
serve-Served parse (move_account now input) s kept named =
    subst (Served s) (ground arith) (update_account_status-Served parse now input s kept)
serve-Served parse (link_identity now input) s kept named =
    subst (Served s) (ground arith) (link_external_identity-Served parse now input s kept)
serve-Served parse (provision now input) s kept named =
    subst (Served s) (ground arith) (provision_external_identity-Served parse now input s named)
serve-Served parse (open_session now input) s kept named =
    subst (Served s) (ground arith) (create_account_session-Served parse now input s kept)
serve-Served parse (revoke_session now input) s kept named =
    subst (Served s) (ground arith) (revoke_account_session-Served parse now input s kept)

-- A request that throws leaves the store as it was, whatever the store and the request.
pub serve_throws :
    (parse : DateParser) (request : IdentityRequest) (s : IdentityStore) (e : IdentityError)
    → (serve parse request s).0 ≡ err e
    → (serve parse request s).1 ≡ s
unfolding serve create_account update_account_status link_external_identity
    provision_external_identity provision_fresh create_account_session revoke_account_session
serve_throws parse (open_account now input) s e h = ground arith
serve_throws parse (move_account now input) s e h = ground arith
serve_throws parse (link_identity now input) s e h = ground arith
serve_throws parse (provision now input) s e h = ground arith
serve_throws parse (open_session now input) s e h = ground arith
serve_throws parse (revoke_session now input) s e h = ground arith
