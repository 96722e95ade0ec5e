-- ===== src/Tests/Projections.antt =====
-- The projection of growth events to points on concrete tables.

use zephipay_backend.Accounts.Types.{is_uuid}
use zephipay_backend.Common.{
  Bool, String, [], arith, false, length, pos, refl, some, true, ℕ, ℤ, ◌*◌, ◌∷◌, ◌≡◌, ◌≤◌,
}
use zephipay_backend.Common.Dict.{get, set}
use zephipay_backend.Growth.{
  AccountZpState, GrowthEvent, count_events, evaluate_zp_event, payment_settled_received,
  payment_settled_sent, total_zp,
}
use zephipay_backend.Growth.CatchUp.{pending_events, project_times, projections_catch_up}
use zephipay_backend.Growth.Coordinator.{
  GrowthProjector, GrowthZpProjectionConfiguration, iteration_answer, project_accounts, run_growth,
  run_once, run_zp,
}
use zephipay_backend.Growth.Exactness.{empty-ZpExact, empty_zp, up_to, zp_state_refines}
use zephipay_backend.Growth.Idle.{idle_is_caught_up}
use zephipay_backend.Growth.Projection.{
  ZpDatabase, add_points, advanced_state, apply_events, batch_limit, distinct_actors,
  list_pending_accounts, next_events, project_account, project_batch,
}
use zephipay_backend.Growth.Refinement.{
  ZpRun, ZpRun-ZpExact, no_steps, then_projected, then_recorded,
}
use zephipay_backend.Growth.Rounds.{ZpExact, of_actor}
use zephipay_backend.Json.{Double, end, integer}

abbrev payer : String
payer = "0a000000-0000-4000-8000-000000000001"

abbrev sent_event : ℤ → Bool → GrowthEvent
sent_event id synthetic = record {
  event_id = id;
  event_type = payment_settled_sent;
  actor_account_id = payer;
  source_id = "p1";
  source_event_id = "s1";
  occurred_at = "noon";
  synthetic = synthetic;
  context = end;
  recorded_at = "noon";
}

abbrev received_event : ℤ → GrowthEvent
received_event id = record (sent_event id false) { event_type = payment_settled_received }

abbrev db1 : ZpDatabase
db1 = record empty_zp { growth_events = sent_event (pos 1) false ∷ [] }

abbrev db2 : ZpDatabase
db2 = record db1 { growth_events = sent_event (pos 1) false ∷ sent_event (pos 2) true ∷ [] }

abbrev db3 : ZpDatabase
db3 = record db2 {
  growth_events = sent_event (pos 1) false ∷ sent_event (pos 2) true ∷ received_event (pos 4) ∷ [];
}

abbrev two_at_once : Double
two_at_once = integer (pos 2)

run3 : ZpRun empty_zp db3
run3 =
    then_recorded {db = db2} (received_event (pos 4))
      (then_recorded {db = db1} (sent_event (pos 2) true)
        (then_recorded {db = empty_zp} (sent_event (pos 1) false) no_steps refl tt) refl (refl, tt))
      refl (refl, (refl, tt))

abbrev db4 : ZpDatabase
db4 = (project_account payer two_at_once "noon" "one" db3).1

abbrev half_way : AccountZpState
half_way = record {
  account_id = payer;
  total_points = pos 10;
  sent_count = pos 1;
  received_count = pos 0;
  policy_version = 1;
  last_growth_event_id = pos 2;
  updated_at = "one";
}

half_there : get payer db4.account_zp_state ≡ some half_way
unfolding project_account project_batch batch_limit next_events advanced_state apply_events
    add_points evaluate_zp_event is_uuid get set
half_there = refl

zp_state_refines_example :
    (pos 10 ≡ pos (total_zp (up_to (pos 2) payer db4)))
    × (pos 1 ≡ pos (count_events (up_to (pos 2) payer db4) 0 0).0)
    × (pos 0 ≡ pos (count_events (up_to (pos 2) payer db4) 0 0).1)
zp_state_refines_example =
    zp_state_refines db4 payer half_way
      (then_projected {db = db3} payer two_at_once "noon" "one" run3) half_there

exact3 : ZpExact db3
exact3 = ZpRun-ZpExact empty_zp db3 empty-ZpExact run3

payer_uuid : is_uuid payer ≡ true
unfolding is_uuid
payer_uuid = refl

two_limit : batch_limit two_at_once ≡ some 2
unfolding batch_limit
two_limit = refl

three_pending : length (pending_events payer db3) ≤ 2 * 2
unfolding get
three_pending = omega arith

projections_catch_up_example :
    (state : AccountZpState) × (get payer
        (project_times 2 payer two_at_once "noon" "one" db3).account_zp_state
      ≡ some state)
    × (state.total_points ≡ pos (total_zp (of_actor payer db3.growth_events)))
    × (state.sent_count ≡ pos (count_events (of_actor payer db3.growth_events) 0 0).0)
    × (state.received_count ≡ pos (count_events (of_actor payer db3.growth_events) 0 0).1)
projections_catch_up_example =
    projections_catch_up 1 payer two_at_once 2 "noon" "one" db3 exact3 payer_uuid two_limit
      three_pending

abbrev no_receipts : GrowthProjector
no_receipts n db = (some 0, db)

abbrev all_on : GrowthZpProjectionConfiguration
all_on = record { growth_enabled = true; zp_enabled = true }

abbrev db5 : ZpDatabase
db5 = (project_account payer two_at_once "one" "two" db4).1

run5 : ZpRun empty_zp db5
run5 =
    then_projected {db = db4} payer two_at_once "one" "two"
      (then_projected {db = db3} payer two_at_once "noon" "one" run3)

abbrev clock_of : ℕ → String
clock_of i = "two"

abbrev caught_up : AccountZpState
caught_up = record half_way {
  total_points = pos 15;
  received_count = pos 1;
  last_growth_event_id = pos 4;
  updated_at = "two";
}

idle5 : iteration_answer (run_once no_receipts clock_of all_on db5).0 ≡ some false
unfolding iteration_answer run_once run_growth run_zp list_pending_accounts distinct_actors
    project_accounts project_account project_batch batch_limit next_events advanced_state
    apply_events add_points evaluate_zp_event is_uuid get set
idle5 = refl

there5 : get payer (run_once no_receipts clock_of all_on db5).1.account_zp_state ≡ some caught_up
unfolding run_once run_growth run_zp list_pending_accounts distinct_actors project_accounts
    project_account project_batch batch_limit next_events advanced_state apply_events add_points
    evaluate_zp_event is_uuid get set
there5 = refl

idle_is_caught_up_example :
    (pos 15
      ≡ pos (total_zp (of_actor payer (run_once no_receipts clock_of all_on db5).1.growth_events)))
    × (pos 1
        ≡ pos
            (count_events
              (of_actor payer (run_once no_receipts clock_of all_on db5).1.growth_events)
              0
              0).0)
    × (pos 1
        ≡ pos
            (count_events
              (of_actor payer (run_once no_receipts clock_of all_on db5).1.growth_events)
              0
              0).1)
idle_is_caught_up_example =
    idle_is_caught_up no_receipts clock_of all_on db5 payer caught_up (λ n x inv. inv)
      (ZpRun-ZpExact empty_zp db5 empty-ZpExact run5) refl idle5 there5
