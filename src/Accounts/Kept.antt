-- ===== src/Accounts/Kept.antt =====
-- Every request on the store of accounts keeps its invariant, and so do runs of requests.

-- An account that is there stays, with at least its version, its actor subject and its creation.
use zephipay_backend.Accounts.Machine.{
  AccountWrite, IdentityWrite, LinkWrite, SessionWrite, WellKept, bumps, links, links_kept, opens,
  session_ends, session_opens, sessions_kept,
}
use zephipay_backend.Accounts.Invariant.{
  AuditTrail, IdentityInv, bumps-AuditTrail, get-written, list_after_log, opens-AuditTrail,
}
use zephipay_backend.Accounts.State.{
  IdentityStore, external_identity_key, list_account_security_events,
}
use zephipay_backend.Accounts.Types.{Account, AccountSession, ExternalIdentity}
use zephipay_backend.Common.{
  Bool-cases, Option-cases, String, [], ap, arith, eq_iff, inl, inr, is_some, none, nonempty, refl,
  some, subst, sym, true, ◌==◌, ◌∙◌, ◌≡◌, ◌≤◌,
}
use zephipay_backend.Common.Dict.{get, get-set}

pub record StaysWith (k : String) (a : Account) (t : IdentityStore) : Type 0 where
  pub after : Account
  pub still_there : get k t.accounts ≡ some after
  pub same_subject : after.actor_subject ≡ a.actor_subject
  pub same_start : after.created_at ≡ a.created_at
  pub no_older : a.version ≤ after.version

pub written-StaysWith :
    (k : String) (a : Account) (s t : IdentityStore)
    → get k s.accounts ≡ some a
    → AccountWrite s t
    → StaysWith k a t
written-StaysWith k a s t h (opens b fresh v w log) = record {
  after = a;
  still_there = ground (arith, get-written k b.account_id b s t w, eq_iff b.account_id k);
  same_subject = refl;
  same_start = refl;
  no_older = omega arith;
}
written-StaysWith k a s t h (bumps b b' there bump w log) = elim (Bool-cases (b.account_id == k)) [
  | inl same ↦
      let is_a : b ≡ a = ground (arith, there, h, same, eq_iff b.account_id k) in
      record {
        after = b';
        still_there = ground (arith, get-written k b.account_id b' s t w);
        same_subject = bump.same_actor_subject ∙ ap (λ x. x.actor_subject) is_a;
        same_start = bump.same_creation ∙ ap (λ x. x.created_at) is_a;
        no_older = omega (arith, bump.next_version, ap (λ x. x.version) is_a);
      }
  | inr other ↦ record {
    after = a;
    still_there = ground (arith, get-written k b.account_id b' s t w);
    same_subject = refl;
    same_start = refl;
    no_older = omega arith;
  }
]

stays_there :
    (k : String) (s t : IdentityStore)
    → AccountWrite s t
    → is_some (get k s.accounts) ≡ true
    → is_some (get k t.accounts) ≡ true
stays_there k s t w h = elim (Option-cases (get k s.accounts)) [
  | inl nobody ↦ absurd (ground arith)
  | inr (a, there) ↦
      let next = written-StaysWith k a s t there w in ground (arith, next.still_there)
]

own_account_id_again :
    (k : String) (b : Account) (s t : IdentityStore)
    → WellKept s
    → AccountWrite s t
    → get k t.accounts ≡ some b
    → b.account_id ≡ k
own_account_id_again k b s t kept (opens a fresh v w log) h =
    ground
      (arith, get-written k a.account_id a s t w, eq_iff a.account_id k, kept.own_account_id k b)
own_account_id_again k b s t kept (bumps a a' there bump w log) h = ground (
  arith,
  get-written k a.account_id a' s t w,
  eq_iff a.account_id k,
  bump.same_account,
  kept.own_account_id k b,
)

own_session_id_again :
    (k : String) (y : AccountSession) (s t : IdentityStore)
    → WellKept s
    → SessionWrite s t
    → get k t.sessions ≡ some y
    → y.session_id ≡ k
own_session_id_again k y s t kept (sessions_kept w) h = kept.own_session_id k y (ground (arith, w))
own_session_id_again k y s t kept (session_opens x fresh w) h =
    ground (
      arith,
      w,
      get-set x.session_id k x s.sessions,
      eq_iff x.session_id k,
      kept.own_session_id k y,
    )
own_session_id_again k y s t kept (session_ends x at there running w) h = ground (
  arith,
  w,
  get-set x.session_id k (record x { revoked_at = some at }) s.sessions,
  eq_iff x.session_id k,
  kept.own_session_id k y,
)

silent_again :
    (k : String) (s t : IdentityStore)
    → IdentityInv s
    → AccountWrite s t
    → get k t.accounts ≡ none
    → list_account_security_events t k ≡ []
silent_again k s t inv (opens a fresh v w log) h =
    ground (arith, get-written k a.account_id a s t w, list_after_log k a s t log, inv.silent k)
silent_again k s t inv (bumps a a' there bump w log) h = ground (
  arith,
  get-written k a.account_id a' s t w,
  list_after_log k a' s t log,
  bump.same_account,
  inv.silent k,
)

audited_again :
    (k : String) (b : Account) (s t : IdentityStore)
    → IdentityInv s
    → AccountWrite s t
    → get k t.accounts ≡ some b
    → AuditTrail k b.version (list_account_security_events t k)
audited_again k b s t inv (opens a fresh v w log) h = opens-AuditTrail k a b s t inv fresh v w log h
audited_again k b s t inv (bumps a a' there bump w log) h =
    bumps-AuditTrail k a a' b s t inv there bump w log h

linked_again :
    (k : String) (i : ExternalIdentity) (s t : IdentityStore)
    → IdentityInv s
    → AccountWrite s t
    → LinkWrite s t
    → get k t.identities ≡ some i
    → (i.identity_id ≡ k)
      × (get (external_identity_key i.issuer i.subject) t.identity_owners ≡ some k)
      × (is_some (get i.account_id t.accounts) ≡ true)
linked_again k i s t inv on_account (links_kept w o) h =
    let (named, owner, there) = inv.linked k i (ground (arith, w)) in
    (named, ground (arith, owner, o), stays_there i.account_id s t on_account there)
linked_again k i s t inv on_account (links j some_id fresh unowned there w o) h =
    let key = external_identity_key i.issuer i.subject in
    let new_key = external_identity_key j.issuer j.subject in
    let written = get-set new_key key j.identity_id s.identity_owners in
    elim (Bool-cases (j.identity_id == k)) [
      | inl same ↦
          let is_i : j ≡ i = ground (arith, w, get-set j.identity_id k j s.identities) in
          let at : new_key ≡ key = ap (λ x. external_identity_key x.issuer x.subject) is_i in
          let named : j.identity_id ≡ k = ground (arith, eq_iff j.identity_id k) in
          (
            sym (ap (λ x. x.identity_id) is_i) ∙ named,
            ground (arith, o, written, at, eq_iff new_key key, named),
            subst (λ x. is_some (get x.account_id t.accounts) ≡ true) is_i there,
          )
      | inr other ↦
          let before = inv.linked k i (ground (arith, w, get-set j.identity_id k j s.identities)) in
          (
            before.0,
            ground (arith, o, written, eq_iff new_key key, before.1, unowned),
            stays_there i.account_id s t on_account before.2,
          )
    ]

owners_again :
    (key k : String) (s t : IdentityStore)
    → IdentityInv s
    → LinkWrite s t
    → get key t.identity_owners ≡ some k
    → (i : ExternalIdentity) × (get k t.identities ≡ some i)
      × (external_identity_key i.issuer i.subject ≡ key)
      × (nonempty k ≡ true)
owners_again key k s t inv (links_kept w o) h =
    let (i, there, same, some_id) = inv.owners_linked key k (ground (arith, o)) in
    (i, ground (arith, w, there), same, some_id)
owners_again key k s t inv (links j some_id fresh unowned there w o) h =
    let new_key = external_identity_key j.issuer j.subject in
    let written = get-set new_key key j.identity_id s.identity_owners in
    let at = get-set j.identity_id k j s.identities in
    elim (Bool-cases (new_key == key)) [
      | inl same ↦
          let named : j.identity_id ≡ k = ground (arith, o, written) in
          (
            j,
            ground (arith, w, at, eq_iff j.identity_id k, named),
            ground (arith, eq_iff new_key key),
            ground (arith, named, some_id),
          )
      | inr other ↦
          let before = inv.owners_linked key k (ground (arith, o, written)) in
          (
            before.0,
            ground (arith, w, at, eq_iff j.identity_id k, before.1, fresh),
            before.2,
            before.3,
          )
    ]

pub write-IdentityInv : (s t : IdentityStore) → IdentityInv s → IdentityWrite s t → IdentityInv t
write-IdentityInv s t inv w = record {
  well_kept = record {
    own_account_id = λ k b h. own_account_id_again k b s t inv.well_kept w.on_account h;
    own_session_id = λ k x h. own_session_id_again k x s t inv.well_kept w.on_sessions h;
  };
  audited = λ k b h. audited_again k b s t inv w.on_account h;
  silent = λ k h. silent_again k s t inv w.on_account h;
  linked = λ k i h. linked_again k i s t inv w.on_account w.on_links h;
  owners_linked = λ key k h. owners_again key k s t inv w.on_links h;
}
