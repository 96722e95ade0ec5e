-- ===== src/Directory/Repository.antt =====
-- storage/memory/inMemoryEconomicIdentityPersistence.ts. The queue that makes operations exclusive is
-- the order of the calls. `is_wallet` and `url_protocol` are those of the validation, `has_account`
-- the option `accountExists`, `now` the reading of the clock.

use zephipay_backend.Common.{
  Bool, Option, Result, String, [], any, eqb, err, false, find, get_or, if◌then◌else◌, is_some,
  none, not, ok, some, throw_if, true, ℕ, ◌&&◌, ◌+◌, ◌==◌, ◌>>◌, ◌||◌, ◌∷◌,
}
use zephipay_backend.Common.Dict.{Dict, get, set, values}
use zephipay_backend.Directory.Types.{
  DirectoryError, EconomicIdentity, PaymentDestination, UpdateDestinationStateInput,
  UpdateIdentityStateInput, UpsertEconomicIdentityInput, UpsertSolanaDestinationInput,
  active_destination, address_taken, destination_reassigned, destination_stale,
  destination_unavailable, directory_account_missing, identity_version_conflict, not_verified,
  ownership_unverified, shown, unavailable, username_taken,
}
use zephipay_backend.Directory.Validation.{validate_destination, validate_economic_identity}

pub record DirectoryStore : Type 0 where
  pub identities : Dict EconomicIdentity
  pub destinations : Dict PaymentDestination

abbrev pub empty_directory : DirectoryStore
empty_directory = record { identities = []; destinations = [] }

abbrev pub DirectoryOp : Type 0 → Type 0
DirectoryOp A = DirectoryStore → Result DirectoryError A × DirectoryStore

unfoldable pub require_existing : Option (String → Bool) → String → Result DirectoryError (Unit {0})
require_existing none id = ok tt
require_existing (some exists) id = throw_if (not (exists id)) directory_account_missing

unfoldable pub find_by_username : String → DirectoryStore → Option EconomicIdentity
find_by_username name s = find (λ i. i.normalized_username == name) (values s.identities)

-- Another account's identity of the same normalized username.
abbrev pub takes_username : String → String → EconomicIdentity → Bool
takes_username name account i = i.normalized_username == name && not (i.account_id == account)

-- `expected === undefined || expected !== version`
abbrev pub expects_other : Option ℕ → ℕ → Bool
expects_other none version = true
expects_other (some expected) version = not (eqb expected version)

abbrev pub new_identity : UpsertEconomicIdentityInput → String → EconomicIdentity
new_identity input now = record {
  account_id = input.account_id;
  account_type = input.account_type;
  username = input.username;
  normalized_username = input.normalized_username;
  display_name = input.display_name;
  avatar_url = input.avatar_url;
  public_identity_status = shown;
  discoverability = input.discoverability;
  verification_state = not_verified;
  payability_state = unavailable;
  version = 0;
  created_at = now;
  updated_at = now;
}

abbrev pub changed_identity :
    EconomicIdentity → UpsertEconomicIdentityInput → String → EconomicIdentity
changed_identity current input now = record current {
  username = input.username;
  normalized_username = input.normalized_username;
  display_name = input.display_name;
  avatar_url = input.avatar_url;
  discoverability = input.discoverability;
  version = current.version + 1;
  updated_at = now;
}

-- The identity to store, and whether it is a new one.
unfoldable pub identity_checks :
    (String → Bool)
    → (String → Option String)
    → Option (String → Bool)
    → String
    → UpsertEconomicIdentityInput
    → DirectoryStore
    → Result DirectoryError (EconomicIdentity × Bool)
identity_checks is_wallet url_protocol has_account now input s = do
  validate_economic_identity is_wallet url_protocol input
  require_existing has_account input.account_id
  throw_if (any (takes_username input.normalized_username input.account_id) (values s.identities))
      username_taken
  let at = get_or input.occurred_at now
  elim (get input.account_id s.identities) [
    | none ↦
        throw_if (is_some input.expected_version) identity_version_conflict
        >> ok (new_identity input at, true)
    | some current ↦
        throw_if (expects_other input.expected_version current.version) identity_version_conflict
        >> ok (changed_identity current input at, false)
  ]

unfoldable pub upsert_economic_identity :
    (String → Bool)
    → (String → Option String)
    → Option (String → Bool)
    → String
    → UpsertEconomicIdentityInput
    → DirectoryOp (EconomicIdentity × Bool)
upsert_economic_identity is_wallet url_protocol has_account now input s =
    elim (identity_checks is_wallet url_protocol has_account now input s) [
      | err e ↦ (err e, s)
      | ok (i, fresh) ↦
          (ok (i, fresh), record s { identities = set input.account_id i s.identities })
    ]

unfoldable pub update_identity_state :
    String → UpdateIdentityStateInput → DirectoryOp EconomicIdentity
update_identity_state now input s = elim (get input.account_id s.identities) [
  | none ↦ (err identity_version_conflict, s)
  | some current ↦
      if not (eqb current.version input.expected_version)
      then (err identity_version_conflict, s)
      else let i = record current {
        public_identity_status = input.public_identity_status;
        verification_state = input.verification_state;
        payability_state = input.payability_state;
        version = current.version + 1;
        updated_at = get_or input.occurred_at now;
      } in
        (ok i, record s { identities = set input.account_id i s.identities })
]

-- Another destination of the same address.
abbrev pub takes_address : String → String → PaymentDestination → Bool
takes_address address id d = d.address == address && not (d.destination_id == id)

abbrev pub demoted : String → PaymentDestination → PaymentDestination
demoted at d = record d { primary = false; version = d.version + 1; updated_at = at }

-- Whether `demotePrimary` takes its place from a destination.
abbrev pub is_demoted : String → Option String → String → PaymentDestination → Bool
is_demoted account except id d =
    not (elim except [ none ↦ false | some kept ↦ id == kept ])
    && d.account_id == account
    && d.primary

-- `demotePrimary`: the loop over the map, which keeps every entry in its place.
unfoldable pub demote_primary :
    String → String → Option String → Dict PaymentDestination → Dict PaymentDestination
demote_primary account at except [] = []
demote_primary account at except ((id, d) ∷ rest) =
    (id, if is_demoted account except id d then demoted at d else d)
    ∷ demote_primary account at except rest

abbrev pub new_destination : UpsertSolanaDestinationInput → String → PaymentDestination
new_destination input now = record {
  destination_id = input.destination_id;
  account_id = input.account_id;
  address = input.address;
  status = active_destination;
  ownership_state = ownership_unverified;
  primary = input.primary;
  version = 0;
  created_at = now;
  updated_at = now;
}

abbrev pub changed_destination : PaymentDestination → Bool → String → PaymentDestination
changed_destination current primary now = record current {
  primary = primary;
  version = current.version + 1;
  updated_at = now;
}

-- The destination to store, whether it is a new one, and the time.
unfoldable pub destination_checks :
    (String → Bool)
    → Option (String → Bool)
    → String
    → UpsertSolanaDestinationInput
    → DirectoryStore
    → Result DirectoryError (PaymentDestination × Bool)
destination_checks is_wallet has_account now input s = do
  require_existing has_account input.account_id
  validate_destination is_wallet input
  throw_if (any (takes_address input.address input.destination_id) (values s.destinations))
      address_taken
  let at = get_or input.occurred_at now
  elim (get input.destination_id s.destinations) [
    | none ↦
        throw_if (is_some input.expected_version) destination_stale
        >> ok (new_destination input at, true)
    | some current ↦ do
      throw_if
          (not (current.account_id == input.account_id) || not (current.address == input.address))
          destination_reassigned
      throw_if (expects_other input.expected_version current.version) destination_stale
      ok (changed_destination current input.primary at, false)
  ]

-- The destinations once a primary one has taken the place of the others of its account.
unfoldable pub demoted_for :
    UpsertSolanaDestinationInput
    → PaymentDestination
    → Bool
    → Dict PaymentDestination
    → Dict PaymentDestination
demoted_for input d fresh m =
    if d.primary
    then demote_primary input.account_id d.updated_at
        (if fresh then none else some input.destination_id) m
    else m

unfoldable pub upsert_solana_destination :
    (String → Bool)
    → Option (String → Bool)
    → String
    → UpsertSolanaDestinationInput
    → DirectoryOp (PaymentDestination × Bool)
upsert_solana_destination is_wallet has_account now input s =
    elim (destination_checks is_wallet has_account now input s) [
      | err e ↦ (err e, s)
      | ok (d, fresh) ↦ (
        ok (d, fresh),
        record s {
          destinations = set input.destination_id d (demoted_for input d fresh s.destinations);
        },
      )
    ]

unfoldable pub update_destination_state :
    String → UpdateDestinationStateInput → DirectoryOp PaymentDestination
update_destination_state now input s = elim (get input.destination_id s.destinations) [
  | none ↦ (err destination_unavailable, s)
  | some current ↦
      if not (current.account_id == input.account_id)
        || not (eqb current.version input.expected_version)
      then (err destination_unavailable, s)
      else let d = record current {
        status = input.status;
        ownership_state = input.ownership_state;
        version = current.version + 1;
        updated_at = get_or input.occurred_at now;
      } in
        (ok d, record s { destinations = set input.destination_id d s.destinations })
]
