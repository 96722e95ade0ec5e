-- ===== src/Directory/Types.antt =====
-- economicIdentity/economicIdentityTypes.ts, and the errors and inputs of
-- economicIdentity/economicIdentityStorageContracts.ts. A destination is a Solana wallet by its type.

use zephipay_backend.Common.{Bool, List, Option, String, [], ℕ, ◌∷◌}

pub data EconomicAccountType : Type 0 where
  personal_type creator_type business_type ai_agent_type : EconomicAccountType

pub data Discoverability : Type 0 where
  private_level username_only public_level : Discoverability

pub data IdentityVerificationState : Type 0 where
  not_verified verification_pending is_verified verification_refused : IdentityVerificationState

pub data PayabilityState : Type 0 where
  available unavailable pay_restricted : PayabilityState

pub data PublicIdentityStatus : Type 0 where
  shown hidden : PublicIdentityStatus

pub data DestinationStatus : Type 0 where
  active_destination inactive_destination restricted_destination : DestinationStatus

pub data DestinationOwnershipState : Type 0 where
  ownership_unverified ownership_verified ownership_rejected : DestinationOwnershipState

pub record EconomicIdentity : Type 0 where
  pub account_id : String
  pub account_type : EconomicAccountType
  pub username : String
  pub normalized_username : String
  pub display_name : String
  pub avatar_url : Option String
  pub public_identity_status : PublicIdentityStatus
  pub discoverability : Discoverability
  pub verification_state : IdentityVerificationState
  pub payability_state : PayabilityState
  pub version : ℕ
  pub created_at : String
  pub updated_at : String

pub record PaymentDestination : Type 0 where
  pub destination_id : String
  pub account_id : String
  pub address : String
  pub status : DestinationStatus
  pub ownership_state : DestinationOwnershipState
  pub primary : Bool
  pub version : ℕ
  pub created_at : String
  pub updated_at : String

pub record UpsertEconomicIdentityInput : Type 0 where
  pub account_id : String
  pub expected_version : Option ℕ
  pub account_type : EconomicAccountType
  pub username : String
  pub normalized_username : String
  pub display_name : String
  pub avatar_url : Option String
  pub discoverability : Discoverability
  pub occurred_at : Option String

pub record UpdateIdentityStateInput : Type 0 where
  pub account_id : String
  pub expected_version : ℕ
  pub public_identity_status : PublicIdentityStatus
  pub verification_state : IdentityVerificationState
  pub payability_state : PayabilityState
  pub occurred_at : Option String

pub record UpsertSolanaDestinationInput : Type 0 where
  pub destination_id : String
  pub account_id : String
  pub expected_version : Option ℕ
  pub address : String
  pub primary : Bool
  pub occurred_at : Option String

pub record UpdateDestinationStateInput : Type 0 where
  pub destination_id : String
  pub account_id : String
  pub expected_version : ℕ
  pub status : DestinationStatus
  pub ownership_state : DestinationOwnershipState
  pub occurred_at : Option String

pub data DirectoryError : Type 0 where
  username_malformed username_reserved username_like_id username_like_wallet : DirectoryError
  username_inconsistent display_name_length display_name_control : DirectoryError
  display_name_not_canonical avatar_url_invalid avatar_url_not_https : DirectoryError
  bad_account_id bad_destination_id bad_address : DirectoryError
  directory_account_missing username_taken identity_version_conflict : DirectoryError
  address_taken destination_reassigned destination_stale destination_unavailable : DirectoryError

-- `RESERVED`
abbrev pub reserved_names : List String
reserved_names =
    "admin" ∷ "administrator" ∷ "api" ∷ "auth" ∷ "billing" ∷ "help" ∷ "official" ∷ "payments"
    ∷ "recipient" ∷ "recipients" ∷ "root" ∷ "security" ∷ "support" ∷ "system" ∷ "zephi" ∷ "zephipay"
    ∷ "zephyon" ∷ []
