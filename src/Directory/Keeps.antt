-- ===== src/Directory/Keeps.antt =====
-- Every operation of the directory keeps what is unique in it.

use zephipay_backend.Common.{
  Bool-cases, Option-cases, eq_refl, eqb, get_or, not, ok, refl, ◌+◌, ◌||◌, Bool, Option,
  Result-cases, String, any, ap, arith, eq_iff, false, inl, inr, some, subst, sym, ◌==◌, ◌∙◌, ◌≡◌,
}
use zephipay_backend.Common.Dict.{Dict, get, set, values}
use zephipay_backend.Directory.Repository.{
  demoted_for, destination_checks, takes_address, update_destination_state, update_identity_state,
  upsert_solana_destination, DirectoryStore, identity_checks, takes_username,
  upsert_economic_identity,
}
use zephipay_backend.Directory.Types.{
  PaymentDestination, UpdateDestinationStateInput, UpdateIdentityStateInput,
  UpsertSolanaDestinationInput, EconomicIdentity, UpsertEconomicIdentityInput,
}
use zephipay_backend.Directory.Unique.{
  Kept, demoted_for-Kept, others_demoted, write-DirectoryInv, DirectoryInv, any_none, read_set,
}

own_id_again :
    (id : String) (i : EconomicIdentity) (s : DirectoryStore)
    → DirectoryInv s
    → i.account_id ≡ id
    → (k : String) (j : EconomicIdentity) → get k (set id i s.identities) ≡ some j
    → j.account_id ≡ k
own_id_again id i s inv named k j h = elim (read_set id k i j s.identities h) [
  | inl (at, is_j) ↦ sym (ap (λ x. x.account_id) is_j) ∙ named ∙ at
  | inr (other, there) ↦ inv.own_id k j there
]

one_name_again :
    (id : String) (i : EconomicIdentity) (s : DirectoryStore)
    → DirectoryInv s
    → ((k : String) (j : EconomicIdentity)
        → get k s.identities ≡ some j
        → (id == k) ≡ false
        → j.normalized_username ≡ i.normalized_username
        → ⊥)
    → (k l : String) (j n : EconomicIdentity) → get k (set id i s.identities) ≡ some j
    → get l (set id i s.identities) ≡ some n
    → j.normalized_username ≡ n.normalized_username
    → k ≡ l
one_name_again id i s inv free k l j n h g same = elim (read_set id k i j s.identities h) [
  | inl (at, is_j) ↦ elim (read_set id l i n s.identities g) [
    | inl (at', is_n) ↦ sym at ∙ at'
    | inr (other, there) ↦
        absurd (free l n there other (sym same ∙ sym (ap (λ x. x.normalized_username) is_j)))
  ]
  | inr (other, there) ↦ elim (read_set id l i n s.identities g) [
    | inl (at', is_n) ↦
        absurd (free k j there other (same ∙ sym (ap (λ x. x.normalized_username) is_n)))
    | inr (other', there') ↦ inv.one_name k l j n there there' same
  ]
]

-- A write of an identity whose username no other one has.
identity-DirectoryInv :
    (id : String) (i : EconomicIdentity) (s : DirectoryStore)
    → DirectoryInv s
    → i.account_id ≡ id
    → ((k : String) (j : EconomicIdentity)
        → get k s.identities ≡ some j
        → (id == k) ≡ false
        → j.normalized_username ≡ i.normalized_username
        → ⊥)
    → DirectoryInv (record s { identities = set id i s.identities })
identity-DirectoryInv id i s inv named free = record {
  own_id = λ k j h. own_id_again id i s inv named k j h;
  own_destination = inv.own_destination;
  one_name = λ k l j n h g same. one_name_again id i s inv free k l j n h g same;
  one_address = inv.one_address;
  one_primary = inv.one_primary;
}

pub upsert_identity-DirectoryInv :
    (is_wallet : String → Bool) (url_protocol : String → Option String)
    (has_account : Option (String → Bool)) (now : String) (input : UpsertEconomicIdentityInput)
    (s : DirectoryStore)
    → DirectoryInv s
    → DirectoryInv (upsert_economic_identity is_wallet url_protocol has_account now input s).1
unfolding upsert_economic_identity identity_checks
upsert_identity-DirectoryInv is_wallet url_protocol has_account now input s inv =
    elim (Result-cases (identity_checks is_wallet url_protocol has_account now input s)) [
      | inr (e, refused) ↦ subst DirectoryInv (sym (ground (arith, refused))) inv
      | inl ((i, fresh), checked) ↦
          let free : any (takes_username input.normalized_username input.account_id)
                (values s.identities)
              ≡ false =
            ground arith in
          let name : i.normalized_username ≡ input.normalized_username = ground arith in
          let named : i.account_id ≡ input.account_id =
            elim (Option-cases (get input.account_id s.identities)) [
              | inl absent ↦ ground (arith, absent)
              | inr (c, there) ↦ ground (arith, there, inv.own_id input.account_id c there)
            ] in
          subst DirectoryInv (sym (ground (arith, checked))) (
            identity-DirectoryInv input.account_id i s inv named (λ k j there other same.
              let taken =
                any_none (takes_username input.normalized_username input.account_id) k j
                  s.identities free there in
              ground (
                arith,
                taken,
                same,
                name,
                other,
                inv.own_id k j there,
                eq_iff j.normalized_username input.normalized_username,
                eq_iff j.account_id input.account_id,
                eq_iff input.account_id k,
              )))
    ]

pub update_identity-DirectoryInv :
    (now : String) (input : UpdateIdentityStateInput) (s : DirectoryStore)
    → DirectoryInv s
    → DirectoryInv (update_identity_state now input s).1
unfolding update_identity_state
update_identity-DirectoryInv now input s inv =
    elim (Option-cases (get input.account_id s.identities)) [
      | inl absent ↦ subst DirectoryInv (sym (ground (arith, absent))) inv
      | inr (c, there) ↦ elim (Bool-cases (eqb c.version input.expected_version)) [
        | inr stale ↦ subst DirectoryInv (sym (ground (arith, there, stale))) inv
        | inl current ↦
            let i = record c {
              public_identity_status = input.public_identity_status;
              verification_state = input.verification_state;
              payability_state = input.payability_state;
              version = c.version + 1;
              updated_at = get_or input.occurred_at now;
            } in
            subst DirectoryInv (sym (ground (arith, there, current))) (
              identity-DirectoryInv input.account_id i s inv (inv.own_id input.account_id c there)
                (λ k j there' other same.
                  let one = inv.one_name k input.account_id j c there' there same in
                  ground (arith, one, other, eq_refl k)))
      ]
    ]

-- A destination that is not touched is kept.
unmoved-Kept :
    (k : String) (m : Dict PaymentDestination) (e : PaymentDestination)
    → get k m ≡ some e
    → Kept k m e
unmoved-Kept k m e h = record {
  before = e;
  was_there = h;
  same_destination = refl;
  same_owner = refl;
  same_address = refl;
  no_promotion = λ p. p;
}

pub update_destination-DirectoryInv :
    (now : String) (input : UpdateDestinationStateInput) (s : DirectoryStore)
    → DirectoryInv s
    → DirectoryInv (update_destination_state now input s).1
unfolding update_destination_state
update_destination-DirectoryInv now input s inv =
    elim (Option-cases (get input.destination_id s.destinations)) [
      | inl absent ↦ subst DirectoryInv (sym (ground (arith, absent))) inv
      | inr (c, there) ↦
          elim (Bool-cases (
            not (c.account_id == input.account_id) || not (eqb c.version input.expected_version))) [
              | inl refused ↦ subst DirectoryInv (sym (ground (arith, there, refused))) inv
              | inr accepts ↦
                  let d = record c {
                    status = input.status;
                    ownership_state = input.ownership_state;
                    version = c.version + 1;
                    updated_at = get_or input.occurred_at now;
                  } in
                  subst DirectoryInv (sym (ground (arith, there, accepts))) (
                    write-DirectoryInv input.destination_id d s.destinations s inv (record {
                      named = inv.own_destination input.destination_id c there;
                      kept = λ k e h. unmoved-Kept k s.destinations e h;
                      free = λ k e h other same.
                          let one = inv.one_address k input.destination_id e c h there same in
                          ground (arith, one, other, eq_refl k);
                      sole = λ k e h other same first. elim (Bool-cases e.primary) [
                        | inr second ↦ second
                        | inl again ↦
                            let one =
                              inv.one_primary k input.destination_id e c h there same again first in
                            absurd (ground (arith, one, other, eq_refl k))
                      ];
                    }))
            ]
    ]

destination_fields :
    (is_wallet : String → Bool) (has_account : Option (String → Bool)) (now : String)
    (input : UpsertSolanaDestinationInput) (s : DirectoryStore)
    → DirectoryInv s
    → (d : PaymentDestination) (fresh : Bool)
    → destination_checks is_wallet has_account now input s ≡ ok (d, fresh)
    → (d.destination_id ≡ input.destination_id)
      × (d.account_id ≡ input.account_id)
      × (d.address ≡ input.address)
unfolding destination_checks
destination_fields is_wallet has_account now input s inv d fresh h =
    elim (Option-cases (get input.destination_id s.destinations)) [
      | inl absent ↦
          (ground (arith, absent, h), ground (arith, absent, h), ground (arith, absent, h))
      | inr (c, there) ↦
          let name = inv.own_destination input.destination_id c there in
          (
            ground (arith, there, h, name),
            ground (arith, there, h, eq_iff c.account_id input.account_id),
            ground (arith, there, h, eq_iff c.address input.address),
          )
    ]

pub upsert_destination-DirectoryInv :
    (is_wallet : String → Bool) (has_account : Option (String → Bool)) (now : String)
    (input : UpsertSolanaDestinationInput) (s : DirectoryStore)
    → DirectoryInv s
    → DirectoryInv (upsert_solana_destination is_wallet has_account now input s).1
unfolding upsert_solana_destination destination_checks
upsert_destination-DirectoryInv is_wallet has_account now input s inv =
    elim (Result-cases (destination_checks is_wallet has_account now input s)) [
      | inr (e, refused) ↦ subst DirectoryInv (sym (ground (arith, refused))) inv
      | inl ((d, fresh), checked) ↦
          let unused : any (takes_address input.address input.destination_id)
                (values s.destinations)
              ≡ false =
            ground arith in
          let fields = destination_fields is_wallet has_account now input s inv d fresh checked in
          let m = demoted_for input d fresh s.destinations in
          subst DirectoryInv (sym (ground (arith, checked))) (
            write-DirectoryInv input.destination_id d m s inv (record {
              named = fields.0;
              kept = λ k e h. demoted_for-Kept input d fresh s.destinations k e h;
              free = λ k e h other same.
                  let taken =
                    any_none (takes_address input.address input.destination_id) k e s.destinations
                      unused h in
                  ground (
                    arith,
                    taken,
                    same,
                    fields.2,
                    other,
                    inv.own_destination k e h,
                    eq_iff e.address input.address,
                    eq_iff e.destination_id input.destination_id,
                    eq_iff input.destination_id k,
                  );
              sole = λ k e h other same first.
                  others_demoted input d fresh s.destinations k e first h other (same ∙ fields.1);
            }))
    ]
