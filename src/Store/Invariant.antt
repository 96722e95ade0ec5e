-- ===== src/Store/Invariant.antt =====
-- What holds of the store between two requests.

use zephipay_backend.Common.Dict.{set, get, get-set, has}
use zephipay_backend.Payments.Lifecycle.{is_terminal_payment_status}
use zephipay_backend.Store.State.{PaymentReceipt, PaymentStore, empty_store}
use zephipay_backend.Store.Transitions.{signature_taken}
use zephipay_backend.Common.{
  Option, eq_iff, eq_refl, ℤ, Bool-cases, String, arith, false, if◌then◌else◌, inl, inr, none,
  nonempty, some, true, ◌==◌, ◌≡◌,
}
use zephipay_backend.Store.Writes.{Updated, text_is, Claimed, Keyed, Untouched}
use zephipay_backend.Payments.Types.{PaymentRecord, completed, status_eq}

pub record Inv (s : PaymentStore) : Type 0 where
  pub keyed : Keyed s
  pub named : (k : String) (p : PaymentRecord) → get k s.payments ≡ some p → nonempty k ≡ true
  pub indexed :
      (k j : String) (p : PaymentRecord)
      → get k s.payments ≡ some p
      → p.lifecycle.solana_signature ≡ some j
      → nonempty j ≡ true
      → get j s.signatures ≡ some k
  pub receipted :
      (k : String) (p : PaymentRecord)
      → get k s.payments ≡ some p
      → status_eq p.status completed ≡ has k s.receipts
  pub orphanless : (k : String) → get k s.payments ≡ none → has k s.receipts ≡ false

pub empty-Inv : Inv empty_store
unfolding get
empty-Inv = record {
  keyed = λ k p h. ground arith;
  named = λ k p h. ground arith;
  indexed = λ k j p h e n. ground arith;
  receipted = λ k p h. ground arith;
  orphanless = λ k h. ground arith;
}

-- A signature that is indexed to another payment is taken.
taken_of_owner :
    (s : PaymentStore) (signature : Option String) (id k j : String)
    → text_is signature j ≡ true
    → nonempty j ≡ true
    → get j s.signatures ≡ some k
    → nonempty k ≡ true
    → (id == k) ≡ false
    → signature_taken s signature id ≡ true
taken_of_owner s none id k j same nj e nk other = cc
taken_of_owner s (some i) id k j same nj e nk other =
    ground (arith, eq_iff i j, eq_iff k id, eq_iff id k)

module _ {s t : PaymentStore} (inv : Inv s) where
  pub Untouched-Inv : Untouched s t → Inv t
  Untouched-Inv u = record {
    keyed = λ k p h. inv.keyed k p (ground (arith, u.payments));
    named = λ k p h. inv.named k p (ground (arith, u.payments));
    indexed = λ k j p h e n.
        ground (arith, u.signatures, inv.indexed k j p (ground (arith, u.payments)) e n);
    receipted = λ k p h. ground (arith, u.receipts, inv.receipted k p (ground (arith, u.payments)));
    orphanless = λ k h. ground (arith, u.receipts, inv.orphanless k (ground (arith, u.payments)));
  }

  module _ (q : PaymentRecord) (c : Claimed s t q) (new_name : nonempty q.id ≡ true) where
    pub claimed_get :
        (k : String) → get k t.payments ≡ (if q.id == k then some q else get k s.payments)
    claimed_get k = ground (arith, c.payments, get-set q.id k q s.payments)

    claimed_indexed :
        (k j : String) (p : PaymentRecord)
        → get k t.payments ≡ some p
        → p.lifecycle.solana_signature ≡ some j
        → nonempty j ≡ true
        → get j t.signatures ≡ some k
    claimed_indexed k j p h e n = elim (Bool-cases (q.id == k)) [
      | inl same ↦ absurd (ground (arith, claimed_get k, c.blank))
      | inr other ↦ ground (arith, c.signatures, claimed_get k, inv.indexed k j p)
    ]

    pub claimed-Inv : Inv t
    claimed-Inv = record {
      keyed = λ k p h. ground (arith, claimed_get k, eq_iff q.id k, inv.keyed k p);
      named = λ k p h. ground (arith, claimed_get k, eq_iff q.id k, inv.named k p);
      indexed = claimed_indexed;
      receipted = λ k p h. ground (
        arith,
        claimed_get k,
        eq_iff q.id k,
        c.receipts,
        c.awaiting,
        c.fresh,
        inv.receipted k p,
        inv.orphanless k,
      );
      orphanless = λ k h. ground (arith, claimed_get k, c.receipts, inv.orphanless k);
    }

  module _ (id : String) (expected : ℤ) (before after : PaymentRecord) (signature : Option String)
      (u : Updated s t id expected before after signature) where
    pub updated_get :
        (k : String) → get k t.payments ≡ (if id == k then some after else get k s.payments)
    updated_get k = ground (arith, u.payments, get-set id k after s.payments)

    found : get id s.payments ≡ some before
    found = u.update.found

    pub name_after : after.id ≡ id
    name_after = ground (arith, u.update.kept, inv.keyed id before found)

    updated_indexed_self :
        (j : String)
        → after.lifecycle.solana_signature ≡ some j
        → nonempty j ≡ true
        → get j t.signatures ≡ some id
    updated_indexed_self j e n =
        ground (arith, u.signatures j n, u.update.merged, eq_refl j, inv.indexed id j before found)

    -- A signature that is indexed to another payment is not brought by the evidence.
    updated_indexed_other :
        (k j : String)
        → (id == k) ≡ false
        → nonempty k ≡ true
        → nonempty j ≡ true
        → get j s.signatures ≡ some k
        → get j t.signatures ≡ some k
    updated_indexed_other k j other nk nj e = elim (Bool-cases (text_is signature j)) [
      | inl brought ↦ cc (u.update.free, taken_of_owner s signature id k j brought nj e nk other)
      | inr kept ↦ ground (arith, u.signatures j nj)
    ]

    updated_indexed :
        (k j : String) (p : PaymentRecord)
        → get k t.payments ≡ some p
        → p.lifecycle.solana_signature ≡ some j
        → nonempty j ≡ true
        → get j t.signatures ≡ some k
    updated_indexed k j p h e n = elim (Bool-cases (id == k)) [
      | inl same ↦ ground (
        arith,
        updated_get k,
        eq_iff id k,
        updated_indexed_self j (ground (arith, updated_get k)) n,
      )
      | inr other ↦
          let old : get k s.payments ≡ some p = ground (arith, updated_get k) in
          updated_indexed_other k j other (inv.named k p old) n (inv.indexed k j p old e n)
    ]

    updated-Keyed : Keyed t
    updated-Keyed k p h = ground (arith, updated_get k, eq_iff id k, name_after, inv.keyed k p)

    updated_named : (k : String) (p : PaymentRecord) → get k t.payments ≡ some p → nonempty k ≡ true
    updated_named k p h =
        ground (arith, updated_get k, eq_iff id k, inv.named k p, inv.named id before found)

    updated_present : (k : String) → get k t.payments ≡ none → get k s.payments ≡ none
    updated_present k h = ground (arith, updated_get k)

    pub updated-Inv : status_eq after.status completed ≡ false → t.receipts ≡ s.receipts → Inv t
    unfolding is_terminal_payment_status
    updated-Inv running receipts = record {
      keyed = updated-Keyed;
      named = updated_named;
      indexed = updated_indexed;
      receipted = λ k p h. ground (
        arith,
        receipts,
        updated_get k,
        eq_iff id k,
        inv.receipted k p,
        inv.receipted id before found,
        u.update.live,
      );
      orphanless = λ k h. ground (arith, receipts, inv.orphanless k (updated_present k h));
    }

    pub settled-Inv :
        (r : PaymentReceipt) → after.status ≡ completed → t.receipts ≡ set id r s.receipts → Inv t
    settled-Inv r done receipts = record {
      keyed = updated-Keyed;
      named = updated_named;
      indexed = updated_indexed;
      receipted = λ k p h. ground (
        arith,
        receipts,
        updated_get k,
        eq_iff id k,
        get-set id k r s.receipts,
        inv.receipted k p,
      );
      orphanless = λ k h. ground (
        arith,
        receipts,
        updated_get k,
        eq_iff id k,
        get-set id k r s.receipts,
        inv.orphanless k (updated_present k h),
      );
    }
