-- ===== src/Accounts/Types.antt =====
-- identity/identityTypes.ts: accounts, external identities, sessions, the events of the audit trail,
-- and the validators; the errors of identity/identityStorageContracts.ts.

use zephipay_backend.Common.{
  lower_char, Bool-cases, inl, inr, subst, arith, eq_iff, nonempty, ◌≡◌, Bool, Option, Result,
  String, concat, eqb, false, if◌then◌else◌, is_digit, is_some, leb, ltb, not, ok, throw_if, trim,
  true, utf16_length, ℕ, ◌&&◌, ◌+◌, ◌==◌, ◌>>◌, ◌||◌,
}
use zephipay_backend.Json.{JsonObject}
use zephipay_backend.Store.Claims.{DateParser}
use Prim.Native.Char.{code}
use Prim.Native.String.{String as Text, [], ◌∷◌}

pub data AccountStatus : Type 0 where
  active suspended deletion_pending deleted : AccountStatus

pub data AccountSecurityEventType : Type 0 where
  account_created account_status_changed external_identity_linked : AccountSecurityEventType
  session_created session_revoked : AccountSecurityEventType

pub record Account : Type 0 where
  pub account_id : String
  pub actor_subject : String
  pub status : AccountStatus
  pub version : ℕ
  pub created_at : String
  pub updated_at : String

pub record ExternalIdentity : Type 0 where
  pub identity_id : String
  pub issuer : String
  pub subject : String
  pub account_id : String
  pub linked_at : String

pub record AccountSession : Type 0 where
  pub session_id : String
  pub account_id : String
  pub created_at : String
  pub expires_at : String
  pub revoked_at : Option String

pub record AccountSecurityEvent : Type 0 where
  pub event_id : ℕ
  pub account_id : String
  pub sequence_number : ℕ
  pub event_type : AccountSecurityEventType
  pub account_version : ℕ
  pub session_id : Option String
  pub identity_id : Option String
  pub details : JsonObject
  pub occurred_at : String

pub record CreateAccountInput : Type 0 where
  pub account_id : String
  pub created_at : Option String

pub record UpdateStatusInput : Type 0 where
  pub account_id : String
  pub expected_version : ℕ
  pub status : AccountStatus
  pub occurred_at : Option String

pub record LinkExternalIdentityInput : Type 0 where
  pub identity_id : String
  pub account_id : String
  pub expected_account_version : ℕ
  pub issuer : String
  pub subject : String
  pub linked_at : Option String

pub record ProvisionExternalIdentityInput : Type 0 where
  pub account_id : String
  pub identity_id : String
  pub issuer : String
  pub subject : String
  pub occurred_at : Option String

pub record CreateAccountSessionInput : Type 0 where
  pub session_id : String
  pub account_id : String
  pub expected_account_version : ℕ
  pub expires_at : String
  pub created_at : Option String

pub record RevokeAccountSessionInput : Type 0 where
  pub session_id : String
  pub account_id : String
  pub expected_account_version : ℕ
  pub revoked_at : Option String

-- What the errors name: the identifier or the time that is refused.
pub data IdentityError : Type 0 where
  not_canonical_uuid not_a_timestamp : String → IdentityError
  invalid_issuer invalid_subject : IdentityError
  account_exists account_missing account_version_conflict : String → IdentityError
  status_unchanged : IdentityError
  external_identity_conflict : String → String → IdentityError
  provisioning_ids_exist identity_missing : IdentityError
  session_exists session_missing session_already_revoked : String → IdentityError
  expiry_before_creation revocation_before_creation account_access_denied : IdentityError

abbrev pub same_account_status : AccountStatus → AccountStatus → Bool
same_account_status active active = true
same_account_status suspended suspended = true
same_account_status deletion_pending deletion_pending = true
same_account_status deleted deleted = true
same_account_status _ _ = false

-- The classes of the expression for UUIDs, which has the flag `i`.
abbrev is_hex : ℕ → Bool
is_hex c = is_digit c || (leb b'a' c && leb c b'f') || (leb b'A' c && leb c b'F')

abbrev is_version : ℕ → Bool
is_version c = leb b'1' c && leb c b'5'

abbrev is_variant : ℕ → Bool
is_variant c = eqb c b'8' || eqb c b'9' || eqb c b'a' || eqb c b'b' || eqb c b'A' || eqb c b'B'

-- Whether a character may stand at a place of a UUID.
abbrev uuid_place : ℕ → ℕ → Bool
uuid_place i c =
    if eqb i 8 || eqb i 13 || eqb i 18 || eqb i 23
    then eqb c b'-'
    else if eqb i 14
    then is_version c
    else if eqb i 19
    then is_variant c
    else is_hex c

pub uuid_from : ℕ → Text → Bool
uuid_from i [] = eqb i 36
uuid_from i (c ∷ s) = ltb i 36 && uuid_place i (code c) && uuid_from (i + 1) s

unfoldable pub is_uuid : String → Bool
unfolding uuid_from
is_uuid given = uuid_from 0 given

pub uuid_nonempty : (id : String) → is_uuid id ≡ true → nonempty id ≡ true
unfolding is_uuid uuid_from
uuid_nonempty id h = elim (Bool-cases (id == "")) [
  | inl blank ↦
      let same : id ≡ "" = ground (arith, blank, eq_iff id "") in
      let at_blank : is_uuid "" ≡ true = subst (λ s. is_uuid s ≡ true) same h in
      absurd (ground (arith, at_blank))
  | inr named ↦ ground (arith, named)
]

abbrev pub validate_uuid : String → String → Result IdentityError (Unit {0})
validate_uuid given name = throw_if (not (is_uuid given)) (not_canonical_uuid name)

-- `toLowerCase` of a UUID, whose letters are ASCII.
pub lower_ascii : Text → Text
lower_ascii [] = []
lower_ascii (c ∷ s) = lower_char c ∷ lower_ascii s

unfoldable pub actor_subject_for_account : String → Result IdentityError String
unfolding lower_ascii
actor_subject_for_account account_id =
    validate_uuid account_id "Account ID" >> ok (concat "zp:account:" (lower_ascii account_id))

abbrev outside_512 : String → Bool
outside_512 s = not (trim s == s) || ltb (utf16_length s) 1 || ltb 512 (utf16_length s)

unfoldable pub validate_external_identity : String → String → Result IdentityError (Unit {0})
validate_external_identity issuer subject =
    throw_if (outside_512 issuer) invalid_issuer >> throw_if (outside_512 subject) invalid_subject

-- `none` is NaN.
abbrev pub validate_timestamp : DateParser → String → String → Result IdentityError (Unit {0})
validate_timestamp parse given name = throw_if (not (is_some (parse given))) (not_a_timestamp name)

-- The status as the text that an event gives.
abbrev pub status_text : AccountStatus → String
status_text active = "ACTIVE"
status_text suspended = "SUSPENDED"
status_text deletion_pending = "DELETION_PENDING"
status_text deleted = "DELETED"
