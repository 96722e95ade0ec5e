-- ===== src/Accounts/Invariant.antt =====
-- The invariant of the store of accounts, and that every write keeps it.

-- Events of one account, numbered from n + 1 and at the versions from n on.
use zephipay_backend.Accounts.Machine.{Bumped, Logged, WellKept}
use zephipay_backend.Common.{
  Bool-cases, ap, eq_refl, inl, inr, subst, sym, ◌∙◌, List, String, [], arith, eq_iff,
  if◌then◌else◌, is_some, length, length-append, none, nonempty, some, suc, true, ℕ, ◌++◌, ◌+◌,
  ◌==◌, ◌∷◌, ◌≡◌,
}
use zephipay_backend.Common.Dict.{set, get, get-set}
use zephipay_backend.Accounts.State.{
  IdentityStore, external_identity_key, list_account_security_events,
}
use zephipay_backend.Accounts.Types.{Account, AccountSecurityEvent, ExternalIdentity}

unfoldable pub Numbered : String → ℕ → List AccountSecurityEvent → Type 0
Numbered k n [] = Unit
Numbered k n (e ∷ es) =
    (e.account_id ≡ k)
    × (e.sequence_number ≡ n + 1)
    × (e.account_version ≡ n)
    × Numbered k (suc n) es

-- The whole audit trail of an account at a version: one event for each version, in order.
pub record AuditTrail (k : String) (v : ℕ) (es : List AccountSecurityEvent) : Type 0 where
  pub complete : length es ≡ v + 1
  pub numbered : Numbered k 0 es

pub record IdentityInv (s : IdentityStore) : Type 0 where
  pub well_kept : WellKept s
  pub audited :
      (k : String) (a : Account)
      → get k s.accounts ≡ some a
      → AuditTrail k a.version (list_account_security_events s k)
  pub silent : (k : String) → get k s.accounts ≡ none → list_account_security_events s k ≡ []
  pub linked :
      (k : String) (i : ExternalIdentity)
      → get k s.identities ≡ some i
      → (i.identity_id ≡ k)
        × (get (external_identity_key i.issuer i.subject) s.identity_owners ≡ some k)
        × (is_some (get i.account_id s.accounts) ≡ true)
  pub owners_linked :
      (key k : String)
      → get key s.identity_owners ≡ some k
      → (i : ExternalIdentity) × (get k s.identities ≡ some i)
        × (external_identity_key i.issuer i.subject ≡ key)
        × (nonempty k ≡ true)

Numbered-append :
    (k : String) (n : ℕ) (es : List AccountSecurityEvent) (e : AccountSecurityEvent)
    → Numbered k n es
    → e.account_id ≡ k
    → e.sequence_number ≡ n + length es + 1
    → e.account_version ≡ n + length es
    → Numbered k n (es ++ e ∷ [])
unfolding Numbered
Numbered-append k n [] e h id seq v = (id, omega arith, omega arith, tt)
Numbered-append k n (f ∷ es) e h id seq v =
    (h.0, h.1, h.2, Numbered-append k (suc n) es e h.3 id (omega arith) (omega arith))

-- The trail of any account after an event of one is logged.
pub list_after_log :
    (k : String) (a : Account) (s t : IdentityStore) (log : Logged a s t)
    → list_account_security_events t k ≡ (
        if a.account_id == k
        then list_account_security_events s k ++ log.event ∷ []
        else list_account_security_events s k)
unfolding list_account_security_events
list_after_log k a s t log = ground (
  arith,
  log.logged,
  get-set a.account_id k (list_account_security_events s a.account_id ++ log.event ∷ []) s.events,
  eq_iff a.account_id k,
)

AuditTrail-append :
    (k : String) (es : List AccountSecurityEvent) (e : AccountSecurityEvent)
    → Numbered k 0 es
    → e.account_id ≡ k
    → e.sequence_number ≡ length es + 1
    → e.account_version ≡ length es
    → AuditTrail k (length es) (es ++ e ∷ [])
AuditTrail-append k es e h id seq v = record {
  complete = omega (arith, length-append es (e ∷ []));
  numbered = Numbered-append k 0 es e h id (omega arith) (omega arith);
}

pub get-written :
    (k j : String) (a : Account) (s t : IdentityStore)
    → t.accounts ≡ set j a s.accounts
    → get k t.accounts ≡ (if j == k then some a else get k s.accounts)
get-written k j a s t h = ground (arith, h, get-set j k a s.accounts)

pub opens-AuditTrail :
    (k : String) (a b : Account) (s t : IdentityStore)
    → IdentityInv s
    → get a.account_id s.accounts ≡ none
    → a.version ≡ 0
    → t.accounts ≡ set a.account_id a s.accounts
    → Logged a s t
    → get k t.accounts ≡ some b
    → AuditTrail k b.version (list_account_security_events t k)
unfolding Numbered
opens-AuditTrail k a b s t inv fresh first_version w log h = elim (Bool-cases (a.account_id == k)) [
  | inl same ↦
      let at : a.account_id ≡ k = ground (arith, same, eq_iff a.account_id k) in
      let is_b : a ≡ b = ground (arith, get-written k a.account_id a s t w) in
      let quiet = inv.silent a.account_id fresh in
      let trail =
        AuditTrail-append k [] log.event tt (ground (arith, log.of_account, at))
          (ground (arith, log.in_sequence, quiet)) (ground (arith, log.at_version)) in
      let events : list_account_security_events t k ≡ log.event ∷ [] =
        ground (arith, list_after_log k a s t log, quiet, at) in
      let v : b.version ≡ 0 = ground (arith, is_b) in
      subst (λ es. AuditTrail k b.version es) (sym events)
        (subst (λ n. AuditTrail k n (log.event ∷ [])) (sym v) trail)
  | inr other ↦
      let there : get k s.accounts ≡ some b = ground (arith, get-written k a.account_id a s t w) in
      subst (λ es. AuditTrail k b.version es) (sym (ground (arith, list_after_log k a s t log)))
        (inv.audited k b there)
]

pub bumps-AuditTrail :
    (k : String) (a a' b : Account) (s t : IdentityStore)
    → IdentityInv s
    → get a.account_id s.accounts ≡ some a
    → Bumped a a'
    → t.accounts ≡ set a.account_id a' s.accounts
    → Logged a' s t
    → get k t.accounts ≡ some b
    → AuditTrail k b.version (list_account_security_events t k)
bumps-AuditTrail k a a' b s t inv there bump w log h = elim (Bool-cases (a.account_id == k)) [
  | inl same ↦
      let at : a.account_id ≡ k = ground (arith, same, eq_iff a.account_id k) in
      let before = inv.audited k a (ground (arith, at, there)) in
      let es = list_account_security_events s k in
      let at' : a'.account_id ≡ k = bump.same_account ∙ at in
      let listed : list_account_security_events s a'.account_id ≡ es =
        ap (list_account_security_events s) at' in
      let is_b : a' ≡ b = ground (arith, get-written k a.account_id a' s t w) in
      let v : b.version ≡ length es =
        omega (arith, ap (λ x. x.version) is_b, bump.next_version, before.complete) in
      let trail =
        AuditTrail-append k es log.event before.numbered (log.of_account ∙ at')
          (ground (arith, log.in_sequence, listed))
          (omega (arith, log.at_version, bump.next_version, before.complete)) in
      let events : list_account_security_events t k ≡ es ++ log.event ∷ [] =
        ground (arith, list_after_log k a' s t log, at', eq_refl k) in
      subst (λ es'. AuditTrail k b.version es') (sym events)
        (subst (λ n. AuditTrail k n (es ++ log.event ∷ [])) (sym v) trail)
  | inr other ↦
      let before : get k s.accounts ≡ some b =
        ground (arith, get-written k a.account_id a' s t w) in
      let events : list_account_security_events t k ≡ list_account_security_events s k =
        ground (arith, list_after_log k a' s t log, bump.same_account, other) in
      subst (λ es. AuditTrail k b.version es) (sym events) (inv.audited k b before)
]
