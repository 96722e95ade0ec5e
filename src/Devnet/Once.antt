-- ===== src/Devnet/Once.antt =====
-- A submission to the devnet is authorized once for an execution.

use zephipay_backend.Common.{
  Result-cases, inl, inr, Option, if◌then◌else◌, ◌==◌, is_some, not, ap, eq_iff, some, ◌∙◌, List,
  String, [], arith, false, ok, ◌∷◌, ◌≡◌,
}
use zephipay_backend.Devnet.Repository.{
  commit_checks, commitment_of, put_commitment, DevnetStore, commit_submission, persist_preparation,
  repeated_commit, replace_expired_preparation,
}
use zephipay_backend.Devnet.Types.{
  PersistedDevnetPreparation, CommitDevnetSubmissionResult, DevnetSubmissionCommitmentRecord,
  CommitInput, PersistDevnetPreparationInput, ReconciliationInput, ReplaceInput, SubmissionInput,
}
use zephipay_backend.Common.Dict.{get-set, get}
use zephipay_backend.Devnet.Observations.{
  record_reconciliation_observation, record_submission_observation,
}
use zephipay_backend.Store.Claims.{DateParser}

pub data DevnetRequest : Type 0 where
  prepare : PersistDevnetPreparationInput → DevnetRequest
  replace : ReplaceInput → DevnetRequest
  commit : CommitInput → DevnetRequest
  reconcile : ReconciliationInput → DevnetRequest
  observe_submission : SubmissionInput → DevnetRequest

-- The store that a request leaves, whether it returns or throws.
unfoldable pub devnet_step : DateParser → DevnetRequest → DevnetStore → DevnetStore
devnet_step parse (prepare input) s = (persist_preparation input s).1
devnet_step parse (replace input) s = (replace_expired_preparation input s).1
devnet_step parse (commit input) s = (commit_submission input s).1
devnet_step parse (reconcile input) s = (record_reconciliation_observation parse input s).1
devnet_step parse (observe_submission input) s = (record_submission_observation input s).1

unfoldable pub devnet_run : DateParser → List DevnetRequest → DevnetStore → DevnetStore
devnet_run parse [] s = s
devnet_run parse (r ∷ rs) s = devnet_run parse rs (devnet_step parse r s)

persist-commitments :
    (input : PersistDevnetPreparationInput) (s : DevnetStore)
    → (persist_preparation input s).1.commitments ≡ s.commitments
unfolding persist_preparation
persist-commitments input s = ground arith

replace-commitments :
    (input : ReplaceInput) (s : DevnetStore)
    → (replace_expired_preparation input s).1.commitments ≡ s.commitments
unfolding replace_expired_preparation
replace-commitments input s = ground arith

reconcile-commitments :
    (parse : DateParser) (input : ReconciliationInput) (s : DevnetStore)
    → (record_reconciliation_observation parse input s).1.commitments ≡ s.commitments
unfolding record_reconciliation_observation
reconcile-commitments parse input s = ground arith

observe-commitments :
    (input : SubmissionInput) (s : DevnetStore)
    → (record_submission_observation input s).1.commitments ≡ s.commitments
unfolding record_submission_observation
observe-commitments input s = ground arith

abbrev put_at :
    String
    → CommitInput
    → PersistedDevnetPreparation
    → DevnetStore
    → Option DevnetSubmissionCommitmentRecord
put_at k input p s = get k (put_commitment input p s).commitments

put_at_lem :
    (k : String) (input : CommitInput) (p : PersistedDevnetPreparation) (s : DevnetStore)
    → put_at k input p s
      ≡ (if input.execution_id == k then some (commitment_of input p) else get k s.commitments)
put_at_lem k input p s = get-set input.execution_id k (commitment_of input p) s.commitments

commit-commitments :
    (input : CommitInput) (s : DevnetStore) (k : String) (c : DevnetSubmissionCommitmentRecord)
    → get k s.commitments ≡ some c
    → get k (commit_submission input s).1.commitments ≡ some c
unfolding commit_submission
commit-commitments input s k c h = elim (Result-cases (commit_checks input s)) [
  | inr (e, refused) ↦ ground (arith, h, refused)
  | inl (p, passed) ↦ ground (arith, h, passed, put_at_lem k input p s, eq_iff input.execution_id k)
]

-- A commitment that is there stays as it is.
step-commitments :
    (parse : DateParser) (r : DevnetRequest) (s : DevnetStore) (k : String)
    (c : DevnetSubmissionCommitmentRecord)
    → get k s.commitments ≡ some c
    → get k (devnet_step parse r s).commitments ≡ some c
unfolding devnet_step
step-commitments parse (prepare input) s k c h = ap (get k) (persist-commitments input s) ∙ h
step-commitments parse (replace input) s k c h = ap (get k) (replace-commitments input s) ∙ h
step-commitments parse (commit input) s k c h = commit-commitments input s k c h
step-commitments parse (reconcile input) s k c h =
    ap (get k) (reconcile-commitments parse input s) ∙ h
step-commitments parse (observe_submission input) s k c h =
    ap (get k) (observe-commitments input s) ∙ h

run-commitments :
    (parse : DateParser) (rs : List DevnetRequest) (s : DevnetStore) (k : String)
    (c : DevnetSubmissionCommitmentRecord)
    → get k s.commitments ≡ some c
    → get k (devnet_run parse rs s).commitments ≡ some c
unfolding devnet_run
run-commitments parse [] s k c h = h
run-commitments parse (r ∷ rs) s k c h =
    run-commitments parse rs (devnet_step parse r s) k c (step-commitments parse r s k c h)

-- A commit that answers stores its commitment, or has found it.
answered-commitment :
    (input : CommitInput) (s : DevnetStore) (answer : CommitDevnetSubmissionResult)
    → (commit_submission input s).0 ≡ ok answer
    → get input.execution_id (commit_submission input s).1.commitments ≡ some answer.commitment
unfolding commit_submission repeated_commit
answered-commitment input s answer h = elim (Result-cases (commit_checks input s)) [
  | inr (e, refused) ↦ ground (arith, h, refused)
  | inl (p, passed) ↦ ground (
    arith,
    h,
    passed,
    put_at_lem input.execution_id input p s,
    eq_iff input.execution_id input.execution_id,
  )
]

authorized_lem :
    (input : CommitInput) (s : DevnetStore) (answer : CommitDevnetSubmissionResult)
    → (commit_submission input s).0 ≡ ok answer
    → answer.submission_authorized ≡ not (is_some (get input.execution_id s.commitments))
unfolding commit_submission repeated_commit
authorized_lem input s answer h = ground (arith, h)

found-commitment :
    (input : CommitInput) (s : DevnetStore) (c : DevnetSubmissionCommitmentRecord)
    (answer : CommitDevnetSubmissionResult)
    → get input.execution_id s.commitments ≡ some c
    → (commit_submission input s).0 ≡ ok answer
    → (answer.submission_authorized ≡ false) × (answer.commitment ≡ c)
unfolding commit_submission repeated_commit
found-commitment input s c answer there h = ground (arith, there, h)

-- On any store, a commit that is answered is authorized to submit just when its execution had no
-- commitment; then, after any list of requests, a commit for the same execution that is answered is
-- not authorized, and its commitment is the first one.
pub authorized_once :
    (parse : DateParser) (input : CommitInput) (s : DevnetStore)
    (answer : CommitDevnetSubmissionResult) (rs : List DevnetRequest) (input' : CommitInput)
    (answer' : CommitDevnetSubmissionResult)
    → (commit_submission input s).0 ≡ ok answer
    → input'.execution_id ≡ input.execution_id
    → (commit_submission input' (devnet_run parse (commit input ∷ rs) s)).0 ≡ ok answer'
    → (answer.submission_authorized ≡ not (is_some (get input.execution_id s.commitments)))
      × (answer'.submission_authorized ≡ false)
      × (answer'.commitment ≡ answer.commitment)
unfolding devnet_run devnet_step
authorized_once parse input s answer rs input' answer' h same h' =
    let kept =
      run-commitments parse rs (commit_submission input s).1 input.execution_id answer.commitment
        (answered-commitment input s answer h) in
    let found =
      found-commitment input' (devnet_run parse rs (commit_submission input s).1) answer.commitment
        answer'
        (ap (λ k. get k (devnet_run parse rs (commit_submission input s).1).commitments) same
          ∙ kept)
        h' in
    (authorized_lem input s answer h, found.0, found.1)
