-- ===== src/Directory/Validation.antt =====
-- economicIdentity/economicIdentityValidation.ts, on texts. `is_wallet` tells whether a text is the
-- canonical base58 of a public key; `url_protocol` is the protocol of a URL, if it can be parsed.
use zephipay_backend.Accounts.Types.{is_uuid}
use zephipay_backend.Common.{
  Bool, Option, Result, String, all_chars, any, char_at, eqb, err, false, if◌then◌else◌, is_digit,
  is_space, leb, lower_char, ltb, none, not, ok, some, throw_if, trim, true, utf16_length, ℕ, ◌&&◌,
  ◌+◌, ◌==◌, ◌>>=◌, ◌>>◌, ◌||◌,
}
use zephipay_backend.Directory.Types.{
  DirectoryError, UpsertEconomicIdentityInput, UpsertSolanaDestinationInput, avatar_url_invalid,
  avatar_url_not_https, bad_account_id, bad_address, bad_destination_id, display_name_control,
  display_name_length, display_name_not_canonical, reserved_names, username_inconsistent,
  username_like_id, username_like_wallet, username_malformed, username_reserved,
}
use Prim.Native.Char.{code}
use Prim.Native.String.{[], ◌∷◌}

-- `toLowerCase`, on the letters whose lower case is ASCII: A to Z, and the sign of the kelvin. Any
-- other letter has a lower case that no username may hold.
pub lower_name : String → String
lower_name [] = []
lower_name (c ∷ s) = (if eqb (code c) 0x212a then char_at "k" 0 else lower_char c) ∷ lower_name s

unfoldable pub normalize_username : String → String
unfolding lower_name
normalize_username given = lower_name (trim given)

abbrev is_lower : ℕ → Bool
is_lower c = leb b'a' c && leb c b'z'

abbrev is_name_char : ℕ → Bool
is_name_char c = is_lower c || is_digit c || eqb c b'_'

-- /^[a-z][a-z0-9_]{2,29}$/
unfoldable pub matches_username : String → Bool
matches_username [] = false
matches_username (c ∷ s) =
    is_lower (code c)
    && all_chars is_name_char s
    && leb 2 (utf16_length s)
    && leb (utf16_length s) 29

pub starts_with : String → String → Bool
starts_with [] s = true
starts_with (c ∷ p) [] = false
starts_with (c ∷ p) (d ∷ s) = eqb (code c) (code d) && starts_with p s

unfoldable pub validate_username :
    (String → Bool) → String → Result DirectoryError (String × String)
unfolding starts_with
validate_username is_wallet given = do
  let username = trim given
  let normalized = normalize_username username
  throw_if
      (ltb (utf16_length username) 3
        || ltb 30 (utf16_length username)
        || not (matches_username normalized))
      username_malformed
  throw_if (any (λ name. name == normalized) reserved_names) username_reserved
  throw_if
      (is_uuid normalized
        || starts_with "zp_account_" normalized
        || starts_with "zp:account:" normalized)
      username_like_id
  throw_if (is_wallet username) username_like_wallet
  ok (username, normalized)

-- `replace(/\s+/g, " ")`: `inside` tells that the character before was a space.
pub collapse : Bool → String → String
collapse inside [] = []
collapse inside (c ∷ s) =
    let after_space = collapse true s in
    let after_other = collapse false s in
    if is_space (code c)
    then (if inside then after_space else char_at " " 0 ∷ after_space)
    else c ∷ after_other

-- `Array.from(text).length`
pub code_points : String → ℕ
code_points [] = 0
code_points (c ∷ s) = 1 + code_points s

-- /\p{Cc}/u
pub has_control : String → Bool
has_control [] = false
has_control (c ∷ s) = leb (code c) 0x1f || (leb 0x7f (code c) && leb (code c) 0x9f) || has_control s

unfoldable pub validate_display_name : String → Result DirectoryError String
unfolding collapse code_points has_control
validate_display_name given = do
  let name = collapse false (trim given)
  throw_if (ltb (code_points name) 1 || ltb 80 (code_points name)) display_name_length
  throw_if (has_control name) display_name_control
  ok name

unfoldable pub validate_avatar_url :
    (String → Option String) → Option String → Result DirectoryError (Unit {0})
validate_avatar_url url_protocol none = ok tt
validate_avatar_url url_protocol (some given) =
    if given == ""
    then ok tt
    else if ltb 2048 (utf16_length given) || not (trim given == given)
    then err avatar_url_invalid
    else elim (url_protocol given) [
      | none ↦ err avatar_url_invalid
      | some protocol ↦ throw_if (not (protocol == "https:")) avatar_url_not_https
    ]

unfoldable pub validate_solana_address : (String → Bool) → String → Result DirectoryError (Unit {0})
validate_solana_address is_wallet given =
    throw_if (not (trim given == given)) bad_address >> throw_if (not (is_wallet given)) bad_address

unfoldable pub validate_economic_identity :
    (String → Bool)
    → (String → Option String)
    → UpsertEconomicIdentityInput
    → Result DirectoryError (Unit {0})
validate_economic_identity is_wallet url_protocol input = do
  throw_if (not (is_uuid input.account_id)) bad_account_id
  (username, normalized) ← validate_username is_wallet input.username
  throw_if (not (username == input.username) || not (normalized == input.normalized_username))
      username_inconsistent
  name ← validate_display_name input.display_name
  throw_if (not (name == input.display_name)) display_name_not_canonical
  validate_avatar_url url_protocol input.avatar_url

unfoldable pub validate_destination :
    (String → Bool) → UpsertSolanaDestinationInput → Result DirectoryError (Unit {0})
validate_destination is_wallet input = do
  throw_if (not (is_uuid input.destination_id)) bad_destination_id
  throw_if (not (is_uuid input.account_id)) bad_account_id
  validate_solana_address is_wallet input.address
