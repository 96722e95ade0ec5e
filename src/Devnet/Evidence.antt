-- ===== src/Devnet/Evidence.antt =====
-- The assertions and the lifecycle of devnet/devnetExecutionState.ts.
use zephipay_backend.Common.{
  Bool, Option, Result, String, all_chars, eqb, err, false, is_digit, is_hash, is_some, leb, length,
  ltb, none, nonempty, not, ok, pos, some, throw_if, trim, true, utf16_length, ℕ, ◌&&◌, ◌==◌, ◌>>◌,
  ◌||◌,
}
use zephipay_backend.Devnet.Types.{
  ContactCertainty, DevnetError, DevnetLifecycleState, DevnetReconciliationOutcome,
  DevnetSubmissionOutcome, PersistDevnetPreparationInput, ReconciliationInput, SubmissionInput,
  abandoned_pre_contact, accepted_outcome, accepted_pending, amount_metadata_invalid,
  artifact_incomplete, certainty_contradicts, commitment_required, contact_accepted, devnet_failed,
  devnet_settled, envelope_invalid, fence_invalid, finalized_not_terminal, found_failed,
  found_pending, found_settled, found_unknown, not_chain_evidence, not_finalized_evidence,
  not_started, preparation_identity_invalid, prepared_not_contacted, provider_id_invalid,
  providers_not_distinct, reconciliation_evidence_invalid, reconciliation_required,
  rejected_outcome, settled_outcome, signer_metadata_incomplete, submission_evidence_invalid,
  submission_identity_invalid, terminal_truth_fixed, validation_failed,
}
use zephipay_backend.Json.{Double, integer}
use zephipay_backend.Store.Claims.{DateParser}
use Prim.Native.Char.{code}
use Prim.Native.String.{[], ◌∷◌}

abbrev is_letter : ℕ → Bool
is_letter c = (leb b'A' c && leb c b'Z') || (leb b'a' c && leb c b'z')

abbrev is_status_char : ℕ → Bool
is_status_char c = is_letter c || is_digit c || eqb c b'_' || eqb c b'-'

abbrev is_error_char : ℕ → Bool
is_error_char c = is_status_char c || eqb c b'.' || eqb c b':'

-- /^[1-9]\d*$/
unfoldable pub is_positive_text : String → Bool
is_positive_text [] = false
is_positive_text (c ∷ s) = leb b'1' (code c) && leb (code c) b'9' && all_chars is_digit s

-- /^(0|[1-9]\d*)$/
unfoldable pub is_natural_text : String → Bool
is_natural_text s = s == "0" || is_positive_text s

-- /^[A-Za-z0-9_-]{1,32}$/
unfoldable pub is_status_text : String → Bool
is_status_text s = all_chars is_status_char s && leb 1 (utf16_length s) && leb (utf16_length s) 32

-- /^[A-Za-z0-9_.:-]{1,64}$/
unfoldable pub is_error_text : String → Bool
is_error_text s = all_chars is_error_char s && leb 1 (utf16_length s) && leb (utf16_length s) 64

abbrev trimmed : String → Bool
trimmed s = nonempty s && trim s == s

unfoldable pub assert_provider_identities : String → String → Result DevnetError (Unit {0})
assert_provider_identities submission reconciliation = do
  throw_if (not (trimmed submission)) provider_id_invalid
  throw_if (not (trimmed reconciliation)) provider_id_invalid
  throw_if (submission == reconciliation) providers_not_distinct

-- `Number.isInteger(n) && n >= 1`
abbrev pub is_generation : Double → Bool
is_generation (integer (pos n)) = leb 1 n
is_generation _ = false

-- `Number.isInteger(n) && 0 <= n && n <= 255`
abbrev pub is_byte : Double → Bool
is_byte (integer (pos n)) = leb n 255
is_byte _ = false

unfoldable pub assert_prepared_artifact :
    PersistDevnetPreparationInput → Result DevnetError (Unit {0})
assert_prepared_artifact input = do
  let a = input.artifact
  let encrypted = input.encrypted_signed_transaction
  assert_provider_identities a.submission_provider_id a.reconciliation_provider_id
  throw_if (not (a.cluster == "solana-devnet") || not (is_generation input.generation))
      preparation_identity_invalid
  throw_if
      (not (nonempty a.signature)
        || not (is_hash a.signed_transaction_digest)
        || not (nonempty a.source_token_account)
        || not (nonempty a.mint)
        || not (nonempty a.destination)
        || not (is_positive_text a.raw_amount))
      artifact_incomplete
  throw_if (not (is_byte a.decimals) || not (is_natural_text a.last_valid_block_height))
      amount_metadata_invalid
  throw_if
      (not (nonempty a.recent_blockhash)
        || not (nonempty a.signer_key_id)
        || not (nonempty a.signer_key_version)
        || not (nonempty a.signer_public_key)
        || not (is_hash a.policy_hash))
      signer_metadata_incomplete
  throw_if
      (not (encrypted.algorithm == "aes-256-gcm")
        || not (trimmed encrypted.key_version)
        || not (eqb (length encrypted.initialization_vector) 12)
        || not (eqb (length encrypted.authentication_tag) 16)
        || eqb (length encrypted.ciphertext) 0)
      envelope_invalid

unfoldable pub reconciliation_lifecycle :
    DevnetLifecycleState → DevnetReconciliationOutcome → Result DevnetError DevnetLifecycleState
reconciliation_lifecycle prepared_not_contacted outcome = err commitment_required
reconciliation_lifecycle abandoned_pre_contact outcome = err commitment_required
reconciliation_lifecycle devnet_settled outcome = err terminal_truth_fixed
reconciliation_lifecycle devnet_failed outcome = err terminal_truth_fixed
reconciliation_lifecycle _ found_settled = ok devnet_settled
reconciliation_lifecycle _ found_failed = ok devnet_failed
reconciliation_lifecycle _ found_pending = ok accepted_pending
reconciliation_lifecycle _ _ = ok reconciliation_required

unfoldable pub submission_lifecycle :
    DevnetLifecycleState → DevnetSubmissionOutcome → Result DevnetError DevnetLifecycleState
submission_lifecycle prepared_not_contacted outcome = err commitment_required
submission_lifecycle abandoned_pre_contact outcome = err commitment_required
submission_lifecycle devnet_settled outcome = err terminal_truth_fixed
submission_lifecycle devnet_failed outcome = err terminal_truth_fixed
submission_lifecycle _ settled_outcome = ok devnet_settled
submission_lifecycle _ rejected_outcome = ok devnet_failed
submission_lifecycle _ accepted_outcome = ok accepted_pending
submission_lifecycle accepted_pending _ = ok accepted_pending
submission_lifecycle _ _ = ok reconciliation_required

-- Whether an optional text is there and fails a test.
abbrev given_bad : (String → Bool) → Option String → Bool
given_bad test none = false
given_bad test (some s) = not (test s)

abbrev is_found_failed : DevnetReconciliationOutcome → Bool
is_found_failed found_failed = true
is_found_failed _ = false

abbrev may_have_error : DevnetReconciliationOutcome → Bool
may_have_error found_failed = true
may_have_error found_unknown = true
may_have_error _ = false

abbrev is_terminal_outcome : DevnetReconciliationOutcome → Bool
is_terminal_outcome found_settled = true
is_terminal_outcome found_failed = true
is_terminal_outcome _ = false

abbrev text_is_some : String → Option String → Bool
text_is_some s none = false
text_is_some s (some given) = given == s

unfoldable pub assert_reconciliation_evidence :
    DateParser → ReconciliationInput → Result DevnetError (Unit {0})
assert_reconciliation_evidence parse input = do
  throw_if
      (not (trimmed input.evidence.provider_id)
        || ltb 128 (utf16_length input.evidence.provider_id))
      reconciliation_evidence_invalid
  throw_if
      (not (trimmed input.evidence.signature) || ltb 256 (utf16_length input.evidence.signature))
      reconciliation_evidence_invalid
  throw_if (not (is_some (parse input.evidence.observed_at))) reconciliation_evidence_invalid
  throw_if (given_bad is_natural_text input.evidence.slot) reconciliation_evidence_invalid
  throw_if (given_bad is_status_text input.evidence.confirmation_status)
      reconciliation_evidence_invalid
  throw_if
      ((is_found_failed input.evidence.outcome && not (is_some input.evidence.error_code))
        || (is_some input.evidence.error_code && not (may_have_error input.evidence.outcome))
        || given_bad is_error_text input.evidence.error_code)
      reconciliation_evidence_invalid
  throw_if
      (is_found_failed input.evidence.outcome
        && not (text_is_some "PROVIDER_REPORTED_FAILURE" input.evidence.error_code))
      not_chain_evidence
  throw_if
      (is_terminal_outcome input.evidence.outcome
        && (not (text_is_some "finalized" input.evidence.confirmation_status)
            || not (is_some input.evidence.slot)))
      not_finalized_evidence
  throw_if
      (not (is_terminal_outcome input.evidence.outcome)
        && text_is_some "finalized" input.evidence.confirmation_status)
      finalized_not_terminal
  throw_if
      (not (trimmed input.recovery_fence.lease_owner)
        || ltb 128 (utf16_length input.recovery_fence.lease_owner)
        || not (is_some (parse input.recovery_fence.lease_claimed_at)))
      fence_invalid

abbrev same_bool : Bool → Bool → Bool
same_bool true b = b
same_bool false b = not b

abbrev is_validation_failed : DevnetSubmissionOutcome → Bool
is_validation_failed validation_failed = true
is_validation_failed _ = false

abbrev is_accepted_outcome : DevnetSubmissionOutcome → Bool
is_accepted_outcome accepted_outcome = true
is_accepted_outcome settled_outcome = true
is_accepted_outcome _ = false

abbrev is_not_started : ContactCertainty → Bool
is_not_started not_started = true
is_not_started _ = false

abbrev is_contact_accepted : ContactCertainty → Bool
is_contact_accepted contact_accepted = true
is_contact_accepted _ = false

unfoldable pub assert_submission_evidence : SubmissionInput → Result DevnetError (Unit {0})
assert_submission_evidence input = do
  throw_if
      (not (trimmed input.evidence.provider_id)
        || ltb 128 (utf16_length input.evidence.provider_id)
        || not (trimmed input.evidence.signature))
      submission_identity_invalid
  throw_if (given_bad is_error_text input.evidence.provider_error_code) submission_evidence_invalid
  throw_if (given_bad is_natural_text input.evidence.slot) submission_evidence_invalid
  throw_if (given_bad is_status_text input.evidence.confirmation_status) submission_evidence_invalid
  throw_if
      (not (
          same_bool (is_validation_failed input.evidence.outcome)
            (is_not_started input.evidence.contact_certainty))
        || not (
            same_bool (is_accepted_outcome input.evidence.outcome)
              (is_contact_accepted input.evidence.contact_certainty)))
      certainty_contradicts
