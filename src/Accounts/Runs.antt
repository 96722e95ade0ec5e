-- ===== src/Accounts/Runs.antt =====
-- Runs of requests on the store of accounts.

use zephipay_backend.Accounts.Kept.{write-IdentityInv}
use zephipay_backend.Accounts.Invariant.{AuditTrail, IdentityInv}
use zephipay_backend.Accounts.Machine.{
  IdentityRequest, Served, SessionWrite, as_it_was, serve, session_ends, session_opens,
  sessions_kept, twice, written,
}
use zephipay_backend.Accounts.Serves.{serve-Served}
use zephipay_backend.Accounts.State.{IdentityStore, empty_identities, list_account_security_events}
use zephipay_backend.Accounts.Types.{Account, AccountSession, ExternalIdentity}
use zephipay_backend.Common.{
  List, String, [], arith, eq_iff, is_some, refl, some, subst, sym, true, truthy, ◌∷◌, ◌≡◌,
}
use zephipay_backend.Common.Dict.{get, get-set}
use zephipay_backend.Store.Claims.{DateParser}

pub Served-IdentityInv : (s t : IdentityStore) → IdentityInv s → Served s t → IdentityInv t
Served-IdentityInv s t inv (as_it_was same) = subst IdentityInv (sym same) inv
Served-IdentityInv s t inv (written w) = write-IdentityInv s t inv w
Served-IdentityInv s t inv (twice m v w) = write-IdentityInv m t (write-IdentityInv s m inv v) w

no_blank_owner :
    (s : IdentityStore) → IdentityInv s → (key : String) → get key s.identity_owners ≡ some "" → ⊥
no_blank_owner s inv key h = let owned = inv.owners_linked key "" h in ground (arith, owned.3)

served :
    (parse : DateParser) (request : IdentityRequest) (s : IdentityStore)
    → IdentityInv s
    → Served s (serve parse request s).1
served parse request s inv = serve-Served parse request s inv.well_kept (no_blank_owner s inv)

-- A request keeps the invariant, one that throws included.
pub serve-IdentityInv :
    (parse : DateParser) (request : IdentityRequest) (s : IdentityStore)
    → IdentityInv s
    → IdentityInv (serve parse request s).1
serve-IdentityInv parse request s inv =
    Served-IdentityInv s (serve parse request s).1 inv (served parse request s inv)

-- What a list of requests leaves, each served whether those before it threw or not.
unfoldable pub serve_all : DateParser → List IdentityRequest → IdentityStore → IdentityStore
serve_all parse [] s = s
serve_all parse (r ∷ rs) s = serve_all parse rs (serve parse r s).1

pub serve_all-IdentityInv :
    (parse : DateParser) (rs : List IdentityRequest) (s : IdentityStore)
    → IdentityInv s
    → IdentityInv (serve_all parse rs s)
unfolding serve_all
serve_all-IdentityInv parse [] s inv = inv
serve_all-IdentityInv parse (r ∷ rs) s inv =
    serve_all-IdentityInv parse rs (serve parse r s).1 (serve-IdentityInv parse r s inv)

pub empty-IdentityInv : IdentityInv empty_identities
unfolding get list_account_security_events
empty-IdentityInv = record {
  well_kept = record {
    own_account_id = λ k a h. absurd (ground arith);
    own_session_id = λ k x h. absurd (ground arith);
  };
  audited = λ k a h. absurd (ground arith);
  silent = λ k h. refl;
  linked = λ k i h. absurd (ground arith);
  owners_linked = λ key k h. absurd (ground arith);
}

-- After any list of requests on the empty store, the audit trail of an account that is there is
-- whole: as many events as its version and one more, each the account's own, numbered from 1 in order,
-- the event of number n + 1 at version n.
pub every_change_audited :
    (parse : DateParser) (rs : List IdentityRequest) (k : String) (a : Account)
    → get k (serve_all parse rs empty_identities).accounts ≡ some a
    → AuditTrail k a.version (list_account_security_events (serve_all parse rs empty_identities) k)
every_change_audited parse rs k a h =
    (serve_all-IdentityInv parse rs empty_identities empty-IdentityInv).audited k a h

-- After any list of requests on the empty store, two external identities with the same issuer and
-- subject are one, and its account is there.
pub one_owner :
    (parse : DateParser) (rs : List IdentityRequest) (k l : String) (i j : ExternalIdentity)
    → get k (serve_all parse rs empty_identities).identities ≡ some i
    → get l (serve_all parse rs empty_identities).identities ≡ some j
    → i.issuer ≡ j.issuer
    → i.subject ≡ j.subject
    → (k ≡ l)
      × (i ≡ j)
      × (is_some (get i.account_id (serve_all parse rs empty_identities).accounts) ≡ true)
one_owner parse rs k l i j at_k at_l same_issuer same_subject =
    let inv = serve_all-IdentityInv parse rs empty_identities empty-IdentityInv in
    let (i_named, i_owner, there) = inv.linked k i at_k in
    let (j_named, j_owner, j_there) = inv.linked l j at_l in
    let same : k ≡ l = ground (arith, i_owner, j_owner, same_issuer, same_subject) in
    (same, ground (arith, same), there)

session_stays :
    (k : String) (x : AccountSession) (s t : IdentityStore)
    → get k s.sessions ≡ some x
    → truthy x.revoked_at ≡ true
    → SessionWrite s t
    → get k t.sessions ≡ some x
session_stays k x s t h closed_at (sessions_kept w) = ground (arith, w)
session_stays k x s t h closed_at (session_opens y fresh w) =
    ground (arith, w, get-set y.session_id k y s.sessions, eq_iff y.session_id k)
session_stays k x s t h closed_at (session_ends y at there running w) = ground (
  arith,
  w,
  get-set y.session_id k (record y { revoked_at = some at }) s.sessions,
  eq_iff y.session_id k,
)

Served-session_stays :
    (k : String) (x : AccountSession) (s t : IdentityStore)
    → get k s.sessions ≡ some x
    → truthy x.revoked_at ≡ true
    → Served s t
    → get k t.sessions ≡ some x
Served-session_stays k x s t h closed_at (as_it_was same) = ground (arith, same)
Served-session_stays k x s t h closed_at (written w) =
    session_stays k x s t h closed_at w.on_sessions
Served-session_stays k x s t h closed_at (twice m v w) =
    session_stays k x m t (session_stays k x s m h closed_at v.on_sessions) closed_at w.on_sessions

-- On a store that satisfies the invariant, a session that has been revoked, at a time that is not the
-- empty text, is left in every field as it is by any list of requests.
pub revoked_stays :
    (parse : DateParser) (rs : List IdentityRequest) (s : IdentityStore) (k : String)
    (x : AccountSession)
    → IdentityInv s
    → get k s.sessions ≡ some x
    → truthy x.revoked_at ≡ true
    → get k (serve_all parse rs s).sessions ≡ some x
unfolding serve_all
revoked_stays parse [] s k x inv h closed_at = h
revoked_stays parse (r ∷ rs) s k x inv h closed_at =
    let t = (serve parse r s).1 in
    revoked_stays parse rs t k x (serve-IdentityInv parse r s inv)
      (Served-session_stays k x s t h closed_at (served parse r s inv)) closed_at
