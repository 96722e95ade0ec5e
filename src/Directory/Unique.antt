-- ===== src/Directory/Unique.antt =====
-- What is unique in the directory: usernames, addresses, and the primary destination of an account.

use zephipay_backend.Common.{
  ap, sym, ◌∙◌, ◌⊎◌, Bool, Bool-cases, Option, String, [], any, arith, eq_iff, false, if◌then◌else◌,
  inl, inr, none, refl, some, true, ◌==◌, ◌∷◌, ◌≡◌,
}
use zephipay_backend.Common.Dict.{get-set, set, Dict, get, values}
use zephipay_backend.Directory.Repository.{
  DirectoryStore, demote_primary, demoted, demoted_for, is_demoted,
}
use zephipay_backend.Directory.Types.{
  EconomicIdentity, PaymentDestination, UpsertSolanaDestinationInput,
}

pub any_none :
    {V : Type 0} (p : V → Bool) (k : String) (v : V) (m : Dict V)
    → any p (values m) ≡ false
    → get k m ≡ some v
    → p v ≡ false
unfolding get values
any_none p k v [] h g = absurd (ground arith)
any_none p k v ((j, w) ∷ m) h g = elim (Bool-cases (j == k)) [
  | inl same ↦ ground arith
  | inr other ↦ any_none p k v m (ground arith) (ground arith)
]

pub record DirectoryInv (s : DirectoryStore) : Type 0 where
  pub own_id : (k : String) (i : EconomicIdentity) → get k s.identities ≡ some i → i.account_id ≡ k
  pub own_destination :
      (k : String) (d : PaymentDestination) → get k s.destinations ≡ some d → d.destination_id ≡ k
  pub one_name :
      (k l : String) (i j : EconomicIdentity)
      → get k s.identities ≡ some i
      → get l s.identities ≡ some j
      → i.normalized_username ≡ j.normalized_username
      → k ≡ l
  pub one_address :
      (k l : String) (d e : PaymentDestination)
      → get k s.destinations ≡ some d
      → get l s.destinations ≡ some e
      → d.address ≡ e.address
      → k ≡ l
  pub one_primary :
      (k l : String) (d e : PaymentDestination)
      → get k s.destinations ≡ some d
      → get l s.destinations ≡ some e
      → d.account_id ≡ e.account_id
      → d.primary ≡ true
      → e.primary ≡ true
      → k ≡ l

get-demote_primary :
    (account at k : String) (except : Option String) (m : Dict PaymentDestination)
    (e : PaymentDestination)
    → get k (demote_primary account at except m) ≡ some e
    → (d : PaymentDestination) × (get k m ≡ some d)
      × (e ≡ (if is_demoted account except k d then demoted at d else d))
unfolding get demote_primary
get-demote_primary account at k except [] e h = absurd (ground arith)
get-demote_primary account at k except ((j, w) ∷ m) e h = elim (Bool-cases (j == k)) [
  | inl same ↦
      let at_k : j ≡ k = ground (arith, same, eq_iff j k) in
      (w, ground (arith, same), ground (arith, same, h, at_k))
  | inr other ↦
      let (d, there, is_e) =
        get-demote_primary account at k except m e (ground (arith, other, h)) in
      (d, ground (arith, other, there), is_e)
]

-- A destination after a demotion, against what it was before.
pub record Kept (k : String) (m : Dict PaymentDestination) (e : PaymentDestination) : Type 0 where
  pub before : PaymentDestination
  pub was_there : get k m ≡ some before
  pub same_destination : e.destination_id ≡ before.destination_id
  pub same_owner : e.account_id ≡ before.account_id
  pub same_address : e.address ≡ before.address
  pub no_promotion : e.primary ≡ true → before.primary ≡ true

pub demoted_for-Kept :
    (input : UpsertSolanaDestinationInput) (d : PaymentDestination) (fresh : Bool)
    (m : Dict PaymentDestination) (k : String) (e : PaymentDestination)
    → get k (demoted_for input d fresh m) ≡ some e
    → Kept k m e
unfolding demoted_for
demoted_for-Kept input d fresh m k e h = elim (Bool-cases d.primary) [
  | inr secondary ↦ record {
    before = e;
    was_there = ground (arith, secondary, h);
    same_destination = refl;
    same_owner = refl;
    same_address = refl;
    no_promotion = λ p. p;
  }
  | inl first ↦
      let except : Option String = if fresh then none else some input.destination_id in
      let (b, there, is_e) =
        get-demote_primary input.account_id d.updated_at k except m e (ground (arith, first, h)) in
      record {
        before = b;
        was_there = there;
        same_destination = ground (arith, is_e);
        same_owner = ground (arith, is_e);
        same_address = ground (arith, is_e);
        no_promotion = λ p. ground (arith, is_e, p);
      }
]

-- A primary destination leaves no other primary one of its account.
pub others_demoted :
    (input : UpsertSolanaDestinationInput) (d : PaymentDestination) (fresh : Bool)
    (m : Dict PaymentDestination) (k : String) (e : PaymentDestination)
    → d.primary ≡ true
    → get k (demoted_for input d fresh m) ≡ some e
    → (input.destination_id == k) ≡ false
    → e.account_id ≡ input.account_id
    → e.primary ≡ false
unfolding demoted_for
others_demoted input d fresh m k e first h other same_account =
    let except : Option String = if fresh then none else some input.destination_id in
    let (b, there, is_e) =
      get-demote_primary input.account_id d.updated_at k except m e (ground (arith, first, h)) in
    ground (
      arith,
      is_e,
      eq_iff b.account_id input.account_id,
      eq_iff k input.destination_id,
      eq_iff input.destination_id k,
    )

-- A read after a write, by the key.
pub read_set :
    {V : Type 0} (id k : String) (v w : V) (m : Dict V)
    → get k (set id v m) ≡ some w
    → ((id ≡ k) × (v ≡ w)) ⊎ (((id == k) ≡ false) × (get k m ≡ some w))
read_set id k v w m h = elim (Bool-cases (id == k)) [
  | inl same ↦ inl (ground (arith, same, eq_iff id k), ground (arith, same, h, get-set id k v m))
  | inr other ↦ inr (other, ground (arith, other, h, get-set id k v m))
]

-- A write of a destination that keeps addresses and primary destinations unique.
pub record DestinationWrite (id : String) (d : PaymentDestination) (m : Dict PaymentDestination)
    (s : DirectoryStore) : Type 0 where
  pub named : d.destination_id ≡ id
  pub kept : (k : String) (e : PaymentDestination) → get k m ≡ some e → Kept k s.destinations e
  pub free :
      (k : String) (e : PaymentDestination)
      → get k s.destinations ≡ some e
      → (id == k) ≡ false
      → e.address ≡ d.address
      → ⊥
  pub sole :
      (k : String) (e : PaymentDestination)
      → get k m ≡ some e
      → (id == k) ≡ false
      → e.account_id ≡ d.account_id
      → d.primary ≡ true
      → e.primary ≡ false

module _ (id : String) (d : PaymentDestination) (m : Dict PaymentDestination) (s : DirectoryStore)
    (inv : DirectoryInv s) (w : DestinationWrite id d m s) where
  own_destination_again :
      (k : String) (e : PaymentDestination) → get k (set id d m) ≡ some e → e.destination_id ≡ k
  own_destination_again k e h = elim (read_set id k d e m h) [
    | inl (at, is_e) ↦ sym (ap (λ x. x.destination_id) is_e) ∙ w.named ∙ at
    | inr (other, there) ↦
        let before = w.kept k e there in
        before.same_destination ∙ inv.own_destination k before.before before.was_there
  ]

  one_address_again :
      (k l : String) (e f : PaymentDestination)
      → get k (set id d m) ≡ some e
      → get l (set id d m) ≡ some f
      → e.address ≡ f.address
      → k ≡ l
  one_address_again k l e f h g same = elim (read_set id k d e m h) [
    | inl (at, is_e) ↦ elim (read_set id l d f m g) [
      | inl (at', is_f) ↦ sym at ∙ at'
      | inr (other, there) ↦
          let before = w.kept l f there in
          absurd (
            w.free l before.before before.was_there other
              (sym before.same_address ∙ sym same ∙ sym (ap (λ x. x.address) is_e)))
    ]
    | inr (other, there) ↦
        let before = w.kept k e there in
        elim (read_set id l d f m g) [
          | inl (at', is_f) ↦ absurd (
              w.free k before.before before.was_there other
                (sym before.same_address ∙ same ∙ sym (ap (λ x. x.address) is_f)))
          | inr (other', there') ↦
              let before' = w.kept l f there' in
              inv.one_address k l before.before before'.before before.was_there before'.was_there
                (sym before.same_address ∙ same ∙ before'.same_address)
        ]
  ]

  one_primary_again :
      (k l : String) (e f : PaymentDestination)
      → get k (set id d m) ≡ some e
      → get l (set id d m) ≡ some f
      → e.account_id ≡ f.account_id
      → e.primary ≡ true
      → f.primary ≡ true
      → k ≡ l
  one_primary_again k l e f h g same first first' = elim (read_set id k d e m h) [
    | inl (at, is_e) ↦ elim (read_set id l d f m g) [
      | inl (at', is_f) ↦ sym at ∙ at'
      | inr (other, there) ↦
          let second =
            w.sole l f there other (sym same ∙ sym (ap (λ x. x.account_id) is_e))
              (ap (λ x. x.primary) is_e ∙ first) in
          absurd (ground (arith, second, first'))
    ]
    | inr (other, there) ↦
        let before = w.kept k e there in
        elim (read_set id l d f m g) [
          | inl (at', is_f) ↦
              let second =
                w.sole k e there other (same ∙ sym (ap (λ x. x.account_id) is_f))
                  (ap (λ x. x.primary) is_f ∙ first') in
              absurd (ground (arith, second, first))
          | inr (other', there') ↦
              let before' = w.kept l f there' in
              inv.one_primary k l before.before before'.before before.was_there before'.was_there
                (sym before.same_owner ∙ same ∙ before'.same_owner) (before.no_promotion first)
                (before'.no_promotion first')
        ]
  ]

  pub write-DirectoryInv : DirectoryInv (record s { destinations = set id d m })
  write-DirectoryInv = record {
    own_id = inv.own_id;
    own_destination = own_destination_again;
    one_name = inv.one_name;
    one_address = one_address_again;
    one_primary = one_primary_again;
  }
