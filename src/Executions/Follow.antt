-- ===== src/Executions/Follow.antt =====
-- What a write to the executions leaves of an execution that is there.

use zephipay_backend.Common.{
  subst, Bool, ap, eq_iff, false, ◌∙◌, ◌≤◌, Bool-cases, String, [], arith, if◌then◌else◌, inl, inr,
  refl, some, true, ◌==◌, ◌∷◌, ◌≡◌,
}
use zephipay_backend.Executions.Machine.{
  Advances, ExecutionWrite, advanced, kept_all, opened, settled_with, stays, ExecutionStep,
  WellKeyed,
}
use zephipay_backend.Common.Dict.{Dict, get, get-set, set}
use zephipay_backend.Executions.Repository.{ExecutionStore}
use zephipay_backend.Executions.Types.{ExecutionStatus, PaymentExecution, settled_out}

set_branch-WellKeyed :
    (j : String) (v e : PaymentExecution) (m : Dict PaymentExecution)
    → WellKeyed ((j, v) ∷ m)
    → WellKeyed (set e.execution_id e m)
    → (b : Bool) → (j == e.execution_id) ≡ b
    → WellKeyed (if b then (e.execution_id, e) ∷ m else (j, v) ∷ set e.execution_id e m)
unfolding WellKeyed
set_branch-WellKeyed j v e m w rest true same =
    (refl, ground (arith, w.1, eq_iff j e.execution_id), w.2)
set_branch-WellKeyed j v e m w rest false other = (
  w.0,
  ground
      (arith, w.1, get-set e.execution_id j e m, eq_iff j e.execution_id, eq_iff e.execution_id j),
  rest,
)

pub set-WellKeyed :
    (e : PaymentExecution) (m : Dict PaymentExecution)
    → WellKeyed m
    → WellKeyed (set e.execution_id e m)
unfolding WellKeyed set get
set-WellKeyed e [] w = (refl, refl, tt)
set-WellKeyed e ((j, v) ∷ m) w =
    set_branch-WellKeyed j v e m w (set-WellKeyed e m w.2) (j == e.execution_id) refl

pub still_settled : (a b : ExecutionStatus) → ExecutionStep a b → a ≡ settled_out → b ≡ settled_out
still_settled a b stays h = h
still_settled a b _ h = ground arith

pub set_at-WellKeyed :
    (k : String) (e : PaymentExecution) (m : Dict PaymentExecution)
    → e.execution_id ≡ k
    → WellKeyed m
    → WellKeyed (set k e m)
set_at-WellKeyed k e m h w =
    let at_id = set-WellKeyed e m w in subst (λ j. WellKeyed (set j e m)) h at_id

-- A set over an execution that is there, read at any key.
pub get-advanced :
    (k : String) (e e' : PaymentExecution) (s t : ExecutionStore)
    → t.executions ≡ set e.execution_id e' s.executions
    → get k t.executions ≡ (if e.execution_id == k then some e' else get k s.executions)
get-advanced k e e' s t h = ground (arith, h, get-set e.execution_id k e' s.executions)

-- What a request leaves of an execution that is there.
pub record Follows (k : String) (e : PaymentExecution) (t : ExecutionStore) : Type 0 where
  pub next : PaymentExecution
  pub there : get k t.executions ≡ some next
  pub next_steps : ExecutionStep e.status next.status
  pub next_intent : next.payment_intent_id ≡ e.payment_intent_id
  pub next_actor : next.actor_subject ≡ e.actor_subject
  pub next_version : e.version ≤ next.version

unmoved-Follows :
    (k : String) (e : PaymentExecution) (t : ExecutionStore)
    → get k t.executions ≡ some e
    → Follows k e t
unmoved-Follows k e t h = record {
  next = e;
  there = h;
  next_steps = stays;
  next_intent = refl;
  next_actor = refl;
  next_version = omega arith;
}

advanced-Follows :
    (k : String) (e a a' : PaymentExecution) (s t : ExecutionStore)
    → get k s.executions ≡ some e
    → get a.execution_id s.executions ≡ some a
    → Advances a a'
    → t.executions ≡ set a.execution_id a' s.executions
    → Follows k e t
advanced-Follows k e a a' s t h g adv w = elim (Bool-cases (a.execution_id == k)) [
  | inl same ↦
      let e_is : a ≡ e = ground (arith, eq_iff a.execution_id k) in
      record {
        next = a';
        there = ground (arith, get-advanced k a a' s t w);
        next_steps = subst (λ x. ExecutionStep x.status a'.status) e_is adv.steps;
        next_intent = adv.same_intent ∙ ap (λ x. x.payment_intent_id) e_is;
        next_actor = adv.same_actor ∙ ap (λ x. x.actor_subject) e_is;
        next_version = omega (arith, adv.counts, ap (λ x. x.version) e_is);
      }
  | inr other ↦ unmoved-Follows k e t (ground (arith, get-advanced k a a' s t w))
]

pub write-Follows :
    (k : String) (e : PaymentExecution) (s t : ExecutionStore)
    → get k s.executions ≡ some e
    → ExecutionWrite s t
    → Follows k e t
write-Follows k e s t h (kept_all w i r) = unmoved-Follows k e t (ground arith)
write-Follows k e s t h (opened q fresh named unowned w i r) =
    unmoved-Follows k e t
      (ground (arith, w, get-set q.execution_id k q s.executions, eq_iff q.execution_id k))
write-Follows k e s t h (advanced a a' g adv w i r) = advanced-Follows k e a a' s t h g adv w
write-Follows k e s t h (settled_with a a' q g adv f i' c fresh w i r) =
    advanced-Follows k e a a' s t h g adv w
