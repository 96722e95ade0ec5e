-- ===== src/Growth/Coordinator.antt =====
-- growth/growthZpProjectionWorker.ts: one iteration of the worker that projects settled payments to
-- growth events and growth events to points. The duration is telemetry. `project_pending` is the
-- projector of settled payments: how many receipts it projected, `none` if it threw, and what it left.

use zephipay_backend.Common.{
  Bool, List, Option, String, [], err, false, if◌then◌else◌, length, ltb, none, not, ok, pos, some,
  true, ℕ, ◌+◌, ◌||◌, ◌∷◌,
}
use zephipay_backend.Growth.Projection.{ZpDatabase, list_pending_accounts, project_account}
use zephipay_backend.Json.{Double, integer}

pub record GrowthZpProjectionConfiguration : Type 0 where
  pub growth_enabled : Bool
  pub zp_enabled : Bool

pub record GrowthZpProjectionOutcome : Type 0 where
  pub growth_projected_receipts : ℕ
  pub growth_failed : Bool
  pub zp_discovered_accounts : ℕ
  pub zp_projected_accounts : ℕ
  pub zp_processed_events : ℕ
  pub zp_failed_accounts : ℕ
  pub zp_discovery_failed : Bool

abbrev pub GrowthProjector : Type 0
GrowthProjector = ℕ → ZpDatabase → Option ℕ × ZpDatabase

abbrev pub no_outcome : GrowthZpProjectionOutcome
no_outcome = record {
  growth_projected_receipts = 0;
  growth_failed = false;
  zp_discovered_accounts = 0;
  zp_projected_accounts = 0;
  zp_processed_events = 0;
  zp_failed_accounts = 0;
  zp_discovery_failed = false;
}

-- A batch limit of the worker, as the number that it passes.
abbrev pub worker_limit : Double
worker_limit = integer (pos 100)

-- The loop over the accounts; `times i` is the i-th reading of the clock.
unfoldable pub project_accounts :
    (ℕ → String)
    → ℕ
    → List String
    → GrowthZpProjectionOutcome
    → ZpDatabase
    → GrowthZpProjectionOutcome × ZpDatabase
project_accounts times i [] outcome db = (outcome, db)
project_accounts times i (id ∷ ids) outcome db =
    let (answer, db') = project_account id worker_limit (times i) (times (i + 1)) db in
    project_accounts times (i + 2) ids
      (elim answer [
        | ok result ↦ record outcome {
          zp_projected_accounts = outcome.zp_projected_accounts + 1;
          zp_processed_events = outcome.zp_processed_events + result.processed_events;
        }
        | err e ↦ record outcome { zp_failed_accounts = outcome.zp_failed_accounts + 1 }
      ])
      db'

unfoldable pub run_growth :
    GrowthProjector → Bool → ZpDatabase → GrowthZpProjectionOutcome × ZpDatabase
run_growth project_pending on db =
    if not on
    then (no_outcome, db)
    else let (answer, db') = project_pending 100 db in
      elim answer [
        | none ↦ (record no_outcome { growth_failed = true }, db')
        | some n ↦ (record no_outcome { growth_projected_receipts = n }, db')
      ]

unfoldable pub run_zp :
    (ℕ → String)
    → Bool
    → GrowthZpProjectionOutcome × ZpDatabase
    → GrowthZpProjectionOutcome × ZpDatabase
run_zp times on (outcome, db) =
    if not on then (outcome, db) else elim (list_pending_accounts worker_limit db) [
      | err e ↦ (record outcome { zp_discovery_failed = true }, db)
      | ok ids ↦
          project_accounts times 0 ids (record outcome { zp_discovered_accounts = length ids }) db
    ]

-- `runOnce`
unfoldable pub run_once :
    GrowthProjector
    → (ℕ → String)
    → GrowthZpProjectionConfiguration
    → ZpDatabase
    → GrowthZpProjectionOutcome × ZpDatabase
run_once project_pending times configuration db =
    run_zp times configuration.zp_enabled
      (run_growth project_pending configuration.growth_enabled db)

-- What the worker's iteration tells its loop: `none` if it throws, else whether there was work.
unfoldable pub iteration_answer : GrowthZpProjectionOutcome → Option Bool
iteration_answer outcome =
    if outcome.growth_failed || outcome.zp_discovery_failed || ltb 0 outcome.zp_failed_accounts
    then none
    else some (
        ltb 0 outcome.growth_projected_receipts
        || ltb 0 outcome.zp_discovered_accounts
        || ltb 0 outcome.zp_processed_events)
