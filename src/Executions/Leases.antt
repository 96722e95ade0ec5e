-- ===== src/Executions/Leases.antt =====
-- Leases: what a claim takes, and how long it is kept from other claims.

use zephipay_backend.Common.{
  Bool, Bool-cases, List, Option, Option-cases, String, [], any, arith, eq_iff, eq_refl, false, inl,
  inr, none, nonempty, not, ok, some, text_le, true, ◌&&◌, ◌+◌, ◌==◌, ◌∷◌, ◌≡◌,
}
use zephipay_backend.Common.Dict.{get, get-set}
use zephipay_backend.Executions.History.{ExecutionInv, execute-ExecutionInv}
use zephipay_backend.Executions.Machine.{execute, take_one}
use zephipay_backend.Executions.Repository.{
  ExecutionStore, append_execution_event, claim_execution, find_claimable, is_claimable, is_due,
  leased,
}
use zephipay_backend.Executions.Types.{
  ExecutionAttempt, ExecutionStatus, PaymentExecution, same_status,
}
use zephipay_backend.Executions.Writes.{find_keyed}
use mathlib.Core.List.{Memᴰ}
use mathlib.Core.List.Memᴰ.{head, tail}

-- No time, the empty text, or a text that does not come after `now`.
pub data Past (now : String) : Option String → Type 0 where
  no_time : Past now none
  empty_time : (time : String) → time ≡ "" → Past now (some time)
  not_after : (time : String) → text_le time now ≡ true → Past now (some time)

any-Memᴰ :
    (a : ExecutionStatus) (statuses : List ExecutionStatus)
    → any (same_status a) statuses ≡ true
    → Memᴰ a statuses
any-Memᴰ a [] h = absurd (ground arith)
any-Memᴰ a (b ∷ rest) h = elim (Bool-cases (same_status a b)) [
  | inl same ↦ head (ground arith)
  | inr other ↦ tail (any-Memᴰ a rest (ground arith))
]

is_due-Past : (time : Option String) (now : String) → is_due time now ≡ true → Past now time
is_due-Past none now h = no_time
is_due-Past (some time) now h = elim (Bool-cases (nonempty time)) [
  | inl given ↦ not_after time (ground arith)
  | inr empty ↦ empty_time time (ground (arith, eq_iff time ""))
]

-- What a claim looks for.
pub record Claimable (statuses : List ExecutionStatus) (now : String) (e : PaymentExecution)
    : Type 0 where
  pub asked : Memᴰ e.status statuses
  pub due : Past now e.next_attempt_at
  pub unleased : Past now e.lease_expires_at

-- On a store that satisfies the invariant, a claim that takes an execution takes one that is there, in
-- one of the statuses asked for, whose next attempt is due, and with no lease that lasts beyond the
-- time of the claim; it leaves it under the worker's lease with the next version and attempt.
pub claim_takes :
    (attempt : String) (statuses : List ExecutionStatus) (worker now expires : String)
    (s : ExecutionStore) (e : PaymentExecution) (a : ExecutionAttempt)
    → ExecutionInv s
    → (claim_execution attempt statuses worker now expires s).0 ≡ ok (some (e, a))
    → (current : PaymentExecution) × (get e.execution_id s.executions ≡ some current)
      × Claimable statuses now current
      × (get e.execution_id (claim_execution attempt statuses worker now expires s).1.executions
          ≡ some e)
      × (e.lease_owner ≡ some worker)
      × (e.lease_expires_at ≡ some expires)
      × (e.version ≡ current.version + 1)
      × (a.attempt_number ≡ current.attempt_count + 1)
unfolding claim_execution leased append_execution_event
claim_takes attempt statuses worker now expires s e a inv h =
    elim (Option-cases (find_claimable statuses now s)) [
      | inl nobody ↦ absurd (ground arith)
      | inr (current, found) ↦
          let (there, due) =
            find_keyed (is_claimable statuses now) current s.executions inv.well_keyed found in
          let written =
            get-set current.execution_id current.execution_id (leased worker now expires current)
              s.executions in
          (
            current,
            ground (arith, there),
            record {
              asked = any-Memᴰ current.status statuses (ground arith);
              due = is_due-Past current.next_attempt_at now (ground arith);
              unleased = is_due-Past current.lease_expires_at now (ground arith);
            },
            ground (arith, written, eq_refl current.execution_id),
            ground arith,
            ground arith,
            ground arith,
            ground arith,
          )
    ]

-- A claim by a worker, with the ID of its attempt, the time and the expiry of its lease.
pub record ExecutionClaim : Type 0 where
  pub attempt : String
  pub statuses : List ExecutionStatus
  pub worker : String
  pub now : String
  pub expires : String

abbrev pub claim_of : ExecutionClaim → ExecutionStore → ExecutionStore
claim_of c s = (claim_execution c.attempt c.statuses c.worker c.now c.expires s).1

unfoldable pub claim_all : List ExecutionClaim → ExecutionStore → ExecutionStore
claim_all [] s = s
claim_all (c ∷ rest) s = claim_all rest (claim_of c s)

-- Every claim is at a time before the one given.
unfoldable pub all_before : String → List ExecutionClaim → Bool
all_before time [] = true
all_before time (c ∷ rest) = not (text_le time c.now) && all_before time rest

claim_of-ExecutionInv :
    (c : ExecutionClaim) (s : ExecutionStore) → ExecutionInv s → ExecutionInv (claim_of c s)
unfolding execute
claim_of-ExecutionInv c s inv =
    execute-ExecutionInv (take_one c.attempt c.statuses c.worker c.now c.expires) s inv tt

-- A claim at a time before the end of a lease leaves the execution that is under it.
claim_leaves :
    (c : ExecutionClaim) (k time : String) (s : ExecutionStore) (e : PaymentExecution)
    → ExecutionInv s
    → get k s.executions ≡ some e
    → e.lease_expires_at ≡ some time
    → nonempty time ≡ true
    → text_le time c.now ≡ false
    → get k (claim_of c s).executions ≡ some e
unfolding claim_execution append_execution_event
claim_leaves c k time s e inv there lease given lasts =
    elim (Option-cases (find_claimable c.statuses c.now s)) [
      | inl nobody ↦ ground (arith, there)
      | inr (current, found) ↦
          let (held, due) =
            find_keyed (is_claimable c.statuses c.now) current s.executions inv.well_keyed found in
          let written =
            get-set current.execution_id k (leased c.worker c.now c.expires current) s.executions in
          let other : (current.execution_id == k) ≡ false =
            ground (arith, held, there, due, lease, given, lasts, eq_iff current.execution_id k) in
          ground (arith, written, other, there, found)
    ]

all_claims_leave :
    (claims : List ExecutionClaim) (k time : String) (s : ExecutionStore) (e : PaymentExecution)
    → ExecutionInv s
    → get k s.executions ≡ some e
    → e.lease_expires_at ≡ some time
    → nonempty time ≡ true
    → all_before time claims ≡ true
    → get k (claim_all claims s).executions ≡ some e
unfolding claim_all all_before
all_claims_leave [] k time s e inv there lease given before = there
all_claims_leave (c ∷ rest) k time s e inv there lease given before =
    all_claims_leave rest k time (claim_of c s) e (claim_of-ExecutionInv c s inv)
      (claim_leaves c k time s e inv there lease given (ground arith)) lease given (ground arith)

-- On a store that satisfies the invariant, the execution that a claim takes under a lease with an
-- expiry is as the claim left it after any list of claims, by any workers, at times before the expiry.
pub lease_excludes :
    (c : ExecutionClaim) (claims : List ExecutionClaim) (s : ExecutionStore) (e : PaymentExecution)
    (a : ExecutionAttempt)
    → ExecutionInv s
    → (claim_execution c.attempt c.statuses c.worker c.now c.expires s).0 ≡ ok (some (e, a))
    → nonempty c.expires ≡ true
    → all_before c.expires claims ≡ true
    → get e.execution_id (claim_all claims (claim_of c s)).executions ≡ some e
lease_excludes c claims s e a inv took given before =
    let (current, there, claimable, left, owner, lease, version, count) =
      claim_takes c.attempt c.statuses c.worker c.now c.expires s e a inv took in
    all_claims_leave claims e.execution_id c.expires (claim_of c s) e
      (claim_of-ExecutionInv c s inv) left lease given before
