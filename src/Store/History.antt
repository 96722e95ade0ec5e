-- ===== src/Store/History.antt =====
-- What holds of the store after any requests, in any order.

-- The identity of a payment, what was claimed and for whom, is never written again.
use zephipay_backend.Common.{
  All, Bool-cases, List, Option, String, [], arith, eq_iff, false, inl, inr, nonempty, refl, some,
  true, ℤ, ◌+◌, ◌==◌, ◌↔◌, ◌∷◌, ◌≡◌, ◌⊎◌,
}
use zephipay_backend.Common.Dict.{get, get-set, has}
use zephipay_backend.Payments.Lifecycle.{is_terminal_payment_status}
use zephipay_backend.Payments.Lifecycle.Graph.{PaymentStep}
use zephipay_backend.Payments.Types.{PaymentRecord, completed}
use zephipay_backend.Store.Claims.{DateParser}
use zephipay_backend.Store.Invariant.{
  Inv, claimed-Inv, empty-Inv, settled-Inv, Untouched-Inv, updated-Inv,
}
use zephipay_backend.Store.Machine.{IsNamed, Request, perform, perform_all}
use zephipay_backend.Store.Performs.{perform-Write}
use zephipay_backend.Store.State.{Clock, PaymentStore, empty_store}
use zephipay_backend.Store.Writes.{Updated, Write, opened, settled, untouched, updated}

pub record SameClaim (p q : PaymentRecord) : Type 0 where
  pub id : q.id ≡ p.id
  pub actor_subject : q.actor_subject ≡ p.actor_subject
  pub idempotency_key : q.idempotency_key ≡ p.idempotency_key
  pub request_hash : q.request_hash ≡ p.request_hash
  pub mint_address : q.mint_address ≡ p.mint_address
  pub amount_raw : q.amount_raw ≡ p.amount_raw
  pub purpose : q.purpose ≡ p.purpose
  pub recipient : q.recipient ≡ p.recipient
  pub created_at : q.created_at ≡ p.created_at

-- What one request may do to one payment: nothing, or one version on along the diagram.
pub data Moved (p q : PaymentRecord) : Type 0 where
  still : q ≡ p → Moved p q
  advanced :
      SameClaim p q
      → q.version ≡ p.version + 1
      → is_terminal_payment_status p.status ≡ false
      → (q.status ≡ p.status) ⊎ PaymentStep p.status q.status
      → Moved p q

Moved-of_Updated :
    {s t : PaymentStore} (id : String) (expected : ℤ) (before after : PaymentRecord)
    (signature : Option String)
    → Updated s t id expected before after signature
    → Moved before after
Moved-of_Updated id expected before after signature u =
    advanced (ground (arith, u.update.kept)) (ground (arith, u.update.kept)) u.update.live u.edge

Updated-Moved :
    {s t : PaymentStore} (k : String) (p : PaymentRecord) (id : String) (expected : ℤ)
    (before after : PaymentRecord) (signature : Option String)
    → Updated s t id expected before after signature
    → get k s.payments ≡ some p
    → (q : PaymentRecord) × (get k t.payments ≡ some q) × Moved p q
Updated-Moved {s} k p id expected before after signature u h = elim (Bool-cases (id == k)) [
  | inl same ↦
      let old : before ≡ p = ground (arith, eq_iff id k, u.update.found) in
      (
        after,
        ground (arith, u.payments, eq_iff id k, get-set id k after s.payments),
        rw old at (Moved-of_Updated id expected before after signature u),
      )
  | inr other ↦ (p, ground (arith, u.payments, get-set id k after s.payments), still refl)
]

Write-Moved :
    {s t : PaymentStore} (k : String) (p : PaymentRecord)
    → Write s t
    → get k s.payments ≡ some p
    → (q : PaymentRecord) × (get k t.payments ≡ some q) × Moved p q
Write-Moved k p (untouched u) h = (p, ground (arith, u.payments), still refl)
Write-Moved {s} k p (opened q c) h =
    (p, ground (arith, c.payments, c.fresh, eq_iff q.id k, get-set q.id k q s.payments), still refl)
Write-Moved k p (updated id expected before after signature u running receipts) h =
    Updated-Moved k p id expected before after signature u h
Write-Moved k p (settled id expected before after signature r u done fresh receipts) h =
    Updated-Moved k p id expected before after signature u h

Write-Inv : {s t : PaymentStore} → Inv s → Write s t → Inv t
Write-Inv inv (untouched u) = Untouched-Inv inv u
Write-Inv inv (opened q c) = claimed-Inv inv q c c.named
Write-Inv inv (updated id expected before after signature u running receipts) =
    updated-Inv inv id expected before after signature u running receipts
Write-Inv inv (settled id expected before after signature r u done fresh receipts) =
    settled-Inv inv id expected before after signature u r done receipts

abbrev pub IsNamedCall : Clock × Request → Type 0
IsNamedCall call = IsNamed call.1

-- One version on, and on along the diagram, any number of times.
pub data Follows (p : PaymentRecord) : PaymentRecord → Type 0 where
  here : Follows p p
  next : {q r : PaymentRecord} → Follows p q → Moved q r → Follows p r

module _ (parse : DateParser) (decimal_text : ℤ → String) where
  -- Every request, whether it returns or throws, keeps the store's invariant.
  pub perform-Inv :
      (clock : Clock) (request : Request) (s : PaymentStore)
      → IsNamed request
      → Inv s
      → Inv (perform parse decimal_text clock request s)
  perform-Inv clock request s named inv =
      Write-Inv inv (perform-Write parse decimal_text clock request s inv.keyed named)

  pub perform_all-Inv :
      (s : PaymentStore) (calls : List (Clock × Request))
      → All IsNamedCall calls
      → Inv s
      → Inv (perform_all parse decimal_text s calls)
  unfolding perform_all
  perform_all-Inv s [] named inv = inv
  perform_all-Inv s ((clock, request) ∷ rest) named inv =
      perform_all-Inv (perform parse decimal_text clock request s) rest named.1
        (perform-Inv clock request s named.0 inv)

  -- On a store that satisfies the invariant, one request, which names its payment if it is a claim,
  -- leaves a payment that is there as it was, or takes it one version on along the lifecycle diagram,
  -- out of a status that is not terminal, with its claim unchanged.
  pub perform-Moved :
      (clock : Clock) (request : Request) (s : PaymentStore) (k : String) (p : PaymentRecord)
      → IsNamed request
      → Inv s
      → get k s.payments ≡ some p
      → (q : PaymentRecord) × (get k (perform parse decimal_text clock request s).payments ≡ some q)
        × Moved p q
  perform-Moved clock request s k p named inv h =
      Write-Moved k p (perform-Write parse decimal_text clock request s inv.keyed named) h

  -- From a store that satisfies the invariant, no run of requests, whose claims name their payments,
  -- changes a payment that is completed or failed in any field.
  pub terminal_absorbs :
      (s : PaymentStore) (calls : List (Clock × Request)) (k : String) (p : PaymentRecord)
      → All IsNamedCall calls
      → Inv s
      → get k s.payments ≡ some p
      → is_terminal_payment_status p.status ≡ true
      → get k (perform_all parse decimal_text s calls).payments ≡ some p
  unfolding perform_all
  terminal_absorbs s [] k p named inv h terminal = h
  terminal_absorbs s ((clock, request) ∷ rest) k p named inv h terminal =
      let (q, found, moved) = perform-Moved clock request s k p named.0 inv h in
      terminal_absorbs (perform parse decimal_text clock request s) rest k p named.1
        (perform-Inv clock request s named.0 inv) (rw (← same q moved) found) terminal
    where
      same : (q : PaymentRecord) → Moved p q → q ≡ p
      same q (still e) = e
      same q (advanced identity version live edge) = cc

  -- After any run of requests from the empty store, whose claims name their payments, two payments
  -- with the same Solana signature, not the empty text, are one.
  pub signatures_unique :
      (calls : List (Clock × Request)) (j k signature : String) (p q : PaymentRecord)
      → All IsNamedCall calls
      → get j (perform_all parse decimal_text empty_store calls).payments ≡ some p
      → get k (perform_all parse decimal_text empty_store calls).payments ≡ some q
      → p.lifecycle.solana_signature ≡ some signature
      → q.lifecycle.solana_signature ≡ some signature
      → nonempty signature ≡ true
      → j ≡ k
  signatures_unique calls j k signature p q named hp hq ep eq n =
      let inv = perform_all-Inv empty_store calls named empty-Inv in
      ground (arith, inv.indexed j signature p hp ep n, inv.indexed k signature q hq eq n)

  -- After any run of requests from the empty store, whose claims name their payments, a payment is
  -- completed exactly if a verified receipt is kept for it.
  pub completed_iff_receipt :
      (calls : List (Clock × Request)) (k : String) (p : PaymentRecord)
      → All IsNamedCall calls
      → get k (perform_all parse decimal_text empty_store calls).payments ≡ some p
      → (p.status ≡ completed)
        ↔ (has k (perform_all parse decimal_text empty_store calls).receipts ≡ true)
  completed_iff_receipt calls k p named h =
      let inv = perform_all-Inv empty_store calls named empty-Inv in
      ((λ e. ground (arith, inv.receipted k p h)), (λ e. ground (arith, inv.receipted k p h)))
