-- ===== src/Executions/Runs.antt =====
-- Runs of the repository of executions, its leases, and repeated completions.

use zephipay_backend.Common.{Bool, String, [], arith, false, refl, some, subst, sym, true, ◌∙◌, ◌≡◌}
use zephipay_backend.Common.Dict.{get}
use zephipay_backend.Executions.History.{ExecutionInv, execute-ExecutionInv, execute-Follows}
use zephipay_backend.Executions.Machine.{
  ExecutionRequest, ExecutionStep, HasFreshId, WellKeyed, execute, stays,
}
use zephipay_backend.Executions.Repository.{ExecutionStore}
use zephipay_backend.Executions.Types.{
  ExecutionReceipt, ExecutionStatus, PaymentExecution, cancelled, failed_out, settled_out,
}

unfoldable pub empty_executions : ExecutionStore
empty_executions = record {
  executions = [];
  by_intent = [];
  attempts = [];
  events = [];
  receipts = [];
  next_event_id = 1;
}

-- The stores that a run of requests leads to, every new execution under an ID of its own.
pub data Reaches (s : ExecutionStore) : ExecutionStore → Type 0 where
  at_once : Reaches s s
  later :
      {t : ExecutionStore} (request : ExecutionRequest)
      → Reaches s t
      → HasFreshId request t
      → Reaches s (execute request t)

pub empty-ExecutionInv : ExecutionInv empty_executions
unfolding empty_executions get WellKeyed
empty-ExecutionInv = record {
  well_keyed = tt;
  owned = λ k e h. ground arith;
  settled_receipts = λ i r h. absurd (ground arith);
}

pub Reaches-ExecutionInv : (s t : ExecutionStore) → ExecutionInv s → Reaches s t → ExecutionInv t
Reaches-ExecutionInv s t inv at_once = inv
Reaches-ExecutionInv s t inv (later {t = u} request before fresh) =
    execute-ExecutionInv request u (Reaches-ExecutionInv s u inv before) fresh

-- In every store that a run leads to from the empty one, every new execution under a fresh ID, two
-- executions of one payment are the same.
pub one_execution_per_intent :
    (s : ExecutionStore) (k j : String) (e f : PaymentExecution)
    → Reaches empty_executions s
    → get k s.executions ≡ some e
    → get j s.executions ≡ some f
    → e.payment_intent_id ≡ f.payment_intent_id
    → k ≡ j
one_execution_per_intent s k j e f run h g same =
    let inv = Reaches-ExecutionInv empty_executions s empty-ExecutionInv run in
    ground (arith, (inv.owned k e h).1, (inv.owned j f g).1)

-- In every store that a run leads to from the empty one, every new execution under a fresh ID, a
-- receipt of a payment has a settled execution of that payment and of the receipt's actor.
pub receipt_has_settlement :
    (s : ExecutionStore) (i : String) (r : ExecutionReceipt)
    → Reaches empty_executions s
    → get i s.receipts ≡ some r
    → (k : String) × (e : PaymentExecution) × (get k s.executions ≡ some e)
      × (e.status ≡ settled_out)
      × (e.payment_intent_id ≡ i)
      × (e.actor_subject ≡ r.actor_subject)
receipt_has_settlement s i r run h =
    (Reaches-ExecutionInv empty_executions s empty-ExecutionInv run).settled_receipts i r h

abbrev pub is_final : ExecutionStatus → Bool
is_final settled_out = true
is_final failed_out = true
is_final cancelled = true
is_final _ = false

final_stays : (a b : ExecutionStatus) → ExecutionStep a b → is_final a ≡ true → b ≡ a
final_stays a b stays h = refl
final_stays a b _ h = ground arith

-- From a store that satisfies the invariant, a settled, failed or cancelled execution has that status
-- after any run in which every new execution has a fresh ID.
pub final_absorbs :
    (s t : ExecutionStore) (k : String) (e : PaymentExecution)
    → ExecutionInv s
    → Reaches s t
    → get k s.executions ≡ some e
    → is_final e.status ≡ true
    → (f : PaymentExecution) × (get k t.executions ≡ some f) × (f.status ≡ e.status)
final_absorbs s t k e inv at_once h final = (e, h, refl)
final_absorbs s t k e inv (later {t = u} request before fresh) h final =
    let (f, there, same) = final_absorbs s u k e inv before h final in
    let next = execute-Follows request u k f (Reaches-ExecutionInv s u inv before) fresh there in
    (
      next.next,
      next.there,
      final_stays f.status next.next.status next.next_steps
            (subst (λ x. is_final x ≡ true) (sym same) final)
          ∙ same,
    )
