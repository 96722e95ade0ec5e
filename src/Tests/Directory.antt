-- ===== src/Tests/Directory.antt =====
-- The directory on concrete requests.

use zephipay_backend.Accounts.Types.{is_uuid}
use zephipay_backend.Common.{
  Bool, List, Option, String, [], false, inr, none, ok, refl, some, trim, true, utf16_length, ◌==◌,
  ◌||◌, ◌∷◌, ◌≡◌,
}
use zephipay_backend.Common.Dict.{get, set, values}
use zephipay_backend.Directory.Repository.{
  DirectoryStore, demote_primary, demoted_for, destination_checks, empty_directory, identity_checks,
  require_existing, update_destination_state, update_identity_state, upsert_economic_identity,
  upsert_solana_destination,
}
use zephipay_backend.Directory.Runs.{
  DirectoryRequest, destinations_unique, direct, direct_all, put_destination_of, put_identity_of,
  usernames_unique,
}
use zephipay_backend.Directory.Types.{
  EconomicIdentity, PaymentDestination, UpsertEconomicIdentityInput, UpsertSolanaDestinationInput,
  active_destination, not_verified, ownership_unverified, personal_type, public_level, shown,
  unavailable,
}
use zephipay_backend.Directory.Validation.{
  matches_username, normalize_username, validate_avatar_url, validate_destination,
  validate_display_name, validate_economic_identity, validate_solana_address, validate_username,
}

abbrev first_account : String
first_account = "0a000000-0000-4000-8000-000000000001"

abbrev first_wallet : String
first_wallet = "0d000000-0000-4000-8000-000000000001"

abbrev second_wallet : String
second_wallet = "0d000000-0000-4000-8000-000000000002"

-- A wallet's text is one of two.
abbrev wallets : String → Bool
wallets s = s == "wallet-one" || s == "wallet-two"

abbrev no_urls : String → Option String
no_urls s = none

abbrev ada : UpsertEconomicIdentityInput
ada = record {
  account_id = first_account;
  expected_version = none;
  account_type = personal_type;
  username = "Ada_1";
  normalized_username = "ada_1";
  display_name = "Ada L";
  avatar_url = none;
  discoverability = public_level;
  occurred_at = none;
}

abbrev first_destination : UpsertSolanaDestinationInput
first_destination = record {
  destination_id = first_wallet;
  account_id = first_account;
  expected_version = none;
  address = "wallet-one";
  primary = true;
  occurred_at = none;
}

abbrev second_destination : UpsertSolanaDestinationInput
second_destination = record first_destination {
  destination_id = second_wallet;
  address = "wallet-two";
}

abbrev morning : List DirectoryRequest
morning =
    put_identity_of "noon" ada
    ∷ put_destination_of "noon" first_destination
    ∷ put_destination_of "one" second_destination
    ∷ []

abbrev full_directory : DirectoryStore
full_directory = direct_all wallets no_urls none morning empty_directory

abbrev ada_there : EconomicIdentity
ada_there = record {
  account_id = first_account;
  account_type = personal_type;
  username = "Ada_1";
  normalized_username = "ada_1";
  display_name = "Ada L";
  avatar_url = none;
  public_identity_status = shown;
  discoverability = public_level;
  verification_state = not_verified;
  payability_state = unavailable;
  version = 0;
  created_at = "noon";
  updated_at = "noon";
}

finds_ada : get first_account full_directory.identities ≡ some ada_there
unfolding direct direct_all upsert_economic_identity identity_checks upsert_solana_destination
    destination_checks demoted_for demote_primary update_identity_state update_destination_state
    require_existing validate_economic_identity validate_destination validate_solana_address
    validate_avatar_url validate_display_name validate_username matches_username normalize_username
    is_uuid trim utf16_length get set values
finds_ada = refl

usernames_unique_example : first_account ≡ first_account
usernames_unique_example =
    usernames_unique wallets no_urls none morning first_account first_account ada_there ada_there
      finds_ada finds_ada refl

abbrev primary_there : PaymentDestination
primary_there = record {
  destination_id = second_wallet;
  account_id = first_account;
  address = "wallet-two";
  status = active_destination;
  ownership_state = ownership_unverified;
  primary = true;
  version = 0;
  created_at = "one";
  updated_at = "one";
}

finds_primary : get second_wallet full_directory.destinations ≡ some primary_there
unfolding direct direct_all upsert_economic_identity identity_checks upsert_solana_destination
    destination_checks demoted_for demote_primary update_identity_state update_destination_state
    require_existing validate_economic_identity validate_destination validate_solana_address
    validate_avatar_url validate_display_name validate_username matches_username normalize_username
    is_uuid trim utf16_length get set values
finds_primary = refl

destinations_unique_example : (second_wallet ≡ second_wallet) × (primary_there ≡ primary_there)
destinations_unique_example =
    destinations_unique wallets no_urls none morning second_wallet second_wallet primary_there
      primary_there finds_primary finds_primary (inr (refl, refl, refl))

-- The first destination has lost its place as the primary one.
first_demoted :
    get first_wallet full_directory.destinations
    ≡ some (record {
      destination_id = first_wallet;
      account_id = first_account;
      address = "wallet-one";
      status = active_destination;
      ownership_state = ownership_unverified;
      primary = false;
      version = 1;
      created_at = "noon";
      updated_at = "one";
    })
unfolding direct direct_all upsert_economic_identity identity_checks upsert_solana_destination
    destination_checks demoted_for demote_primary update_identity_state update_destination_state
    require_existing validate_economic_identity validate_destination validate_solana_address
    validate_avatar_url validate_display_name validate_username matches_username normalize_username
    is_uuid trim utf16_length get set values
first_demoted = refl

-- A username with the sign of the kelvin, which is not ASCII, is accepted.
kelvin_accepted : validate_username wallets "Kate" ≡ ok ("Kate", "kate")
unfolding direct direct_all upsert_economic_identity identity_checks upsert_solana_destination
    destination_checks demoted_for demote_primary update_identity_state update_destination_state
    require_existing validate_economic_identity validate_destination validate_solana_address
    validate_avatar_url validate_display_name validate_username matches_username normalize_username
    is_uuid trim utf16_length get set values
kelvin_accepted = refl
