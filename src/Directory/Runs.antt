-- ===== src/Directory/Runs.antt =====
-- Runs of requests on the directory, each with the reading of its clock.

use zephipay_backend.Common.{
  Bool, List, Option, String, [], arith, inl, inr, some, sym, true, ◌∙◌, ◌∷◌, ◌≡◌, ◌⊎◌,
}
use zephipay_backend.Common.Dict.{get}
use zephipay_backend.Directory.Keeps.{
  update_destination-DirectoryInv, update_identity-DirectoryInv, upsert_destination-DirectoryInv,
  upsert_identity-DirectoryInv,
}
use zephipay_backend.Directory.Repository.{
  DirectoryStore, empty_directory, update_destination_state, update_identity_state,
  upsert_economic_identity, upsert_solana_destination,
}
use zephipay_backend.Directory.Types.{
  EconomicIdentity, PaymentDestination, UpdateDestinationStateInput, UpdateIdentityStateInput,
  UpsertEconomicIdentityInput, UpsertSolanaDestinationInput,
}
use zephipay_backend.Directory.Unique.{DirectoryInv}

pub data DirectoryRequest : Type 0 where
  put_identity_of : String → UpsertEconomicIdentityInput → DirectoryRequest
  set_identity_state : String → UpdateIdentityStateInput → DirectoryRequest
  put_destination_of : String → UpsertSolanaDestinationInput → DirectoryRequest
  set_destination_state : String → UpdateDestinationStateInput → DirectoryRequest

module _ (is_wallet : String → Bool) (url_protocol : String → Option String)
    (has_account : Option (String → Bool)) where
  -- The directory that a request leaves, whether it returns or throws.
  unfoldable pub direct : DirectoryRequest → DirectoryStore → DirectoryStore
  direct (put_identity_of now input) s =
      (upsert_economic_identity is_wallet url_protocol has_account now input s).1
  direct (set_identity_state now input) s = (update_identity_state now input s).1
  direct (put_destination_of now input) s =
      (upsert_solana_destination is_wallet has_account now input s).1
  direct (set_destination_state now input) s = (update_destination_state now input s).1

  unfoldable pub direct_all : List DirectoryRequest → DirectoryStore → DirectoryStore
  direct_all [] s = s
  direct_all (r ∷ rs) s = direct_all rs (direct r s)

  direct-DirectoryInv :
      (r : DirectoryRequest) (s : DirectoryStore) → DirectoryInv s → DirectoryInv (direct r s)
  unfolding direct
  direct-DirectoryInv (put_identity_of now input) s inv =
      upsert_identity-DirectoryInv is_wallet url_protocol has_account now input s inv
  direct-DirectoryInv (set_identity_state now input) s inv =
      update_identity-DirectoryInv now input s inv
  direct-DirectoryInv (put_destination_of now input) s inv =
      upsert_destination-DirectoryInv is_wallet has_account now input s inv
  direct-DirectoryInv (set_destination_state now input) s inv =
      update_destination-DirectoryInv now input s inv

  pub direct_all-DirectoryInv :
      (rs : List DirectoryRequest) (s : DirectoryStore)
      → DirectoryInv s
      → DirectoryInv (direct_all rs s)
  unfolding direct_all
  direct_all-DirectoryInv [] s inv = inv
  direct_all-DirectoryInv (r ∷ rs) s inv =
      direct_all-DirectoryInv rs (direct r s) (direct-DirectoryInv r s inv)

pub empty-DirectoryInv : DirectoryInv empty_directory
unfolding get
empty-DirectoryInv = record {
  own_id = λ k i h. absurd (ground arith);
  own_destination = λ k d h. absurd (ground arith);
  one_name = λ k l i j h g same. absurd (ground arith);
  one_address = λ k l d e h g same. absurd (ground arith);
  one_primary = λ k l d e h g same first first'. absurd (ground arith);
}

-- After any list of requests on the empty directory, two identities with the same normalized username
-- are of one account.
pub usernames_unique :
    (is_wallet : String → Bool) (url_protocol : String → Option String)
    (has_account : Option (String → Bool)) (rs : List DirectoryRequest) (k l : String)
    (i j : EconomicIdentity)
    → get k (direct_all is_wallet url_protocol has_account rs empty_directory).identities ≡ some i
    → get l (direct_all is_wallet url_protocol has_account rs empty_directory).identities ≡ some j
    → i.normalized_username ≡ j.normalized_username
    → i.account_id ≡ j.account_id
usernames_unique is_wallet url_protocol has_account rs k l i j h g same =
    let inv =
      direct_all-DirectoryInv is_wallet url_protocol has_account rs empty_directory
        empty-DirectoryInv in
    inv.own_id k i h ∙ inv.one_name k l i j h g same ∙ sym (inv.own_id l j g)

-- After any list of requests on the empty directory, two destinations with the same address are one,
-- and so are two primary destinations of one account.
pub destinations_unique :
    (is_wallet : String → Bool) (url_protocol : String → Option String)
    (has_account : Option (String → Bool)) (rs : List DirectoryRequest) (k l : String)
    (d e : PaymentDestination)
    → get k (direct_all is_wallet url_protocol has_account rs empty_directory).destinations ≡ some d
    → get l (direct_all is_wallet url_protocol has_account rs empty_directory).destinations ≡ some e
    → (d.address ≡ e.address)
      ⊎ ((d.account_id ≡ e.account_id) × (d.primary ≡ true) × (e.primary ≡ true))
    → (k ≡ l) × (d ≡ e)
destinations_unique is_wallet url_protocol has_account rs k l d e h g alike =
    let inv =
      direct_all-DirectoryInv is_wallet url_protocol has_account rs empty_directory
        empty-DirectoryInv in
    let same : k ≡ l = elim alike [
      | inl address ↦ inv.one_address k l d e h g address
      | inr (account, first, first') ↦ inv.one_primary k l d e h g account first first'
    ] in
    (same, ground (arith, same))
