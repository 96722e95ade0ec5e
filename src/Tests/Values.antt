-- ===== src/Tests/Values.antt =====
-- Statuses, JSON values, amounts and points at concrete inputs.

use zephipay_backend.Common.{
  ℕ, err, Bool, List, [], false, ok, pos, refl, some, true, ◌*◌, ◌+◌, ◌<◌, ◌↔◌, ◌∷◌, ◌≡◌, ◌≤◌,
}
use zephipay_backend.Payments.Types.{
  PaymentLifecycleEvidence, awaiting_confirmation, failed, no_evidence, pre_submission_rejection,
}
use zephipay_backend.Amounts.{
  not_positive, out_of_range, Units, is_fraction, is_whole, matches_amount, pad_end, parse_amount,
  raw_usdc_to_display, usdc_amount_to_raw, zeros,
}
use zephipay_backend.Amounts.RoundTrip.{
  parse_amount-raw_usdc_to_display, usdc_amount_to_raw-raw_usdc_to_display,
}
use zephipay_backend.Json.{
  Double, clone_json_object, field, is_storable, null, object, JsonValue, array, clone_json_value,
  cons, end, integer, nil, not_finite, number,
}
use zephipay_backend.Json.Laws.{all_plain, without_proto, clone_json_value_iff}
use zephipay_backend.Workers.{
  LoopEvent, end_run, fire_timer, fired, loop_step, schedule_next, start_loop, stop_loop, LoopState,
  ended_with, halted, idle, make_loop, new_loop, run_loop, started,
}
use zephipay_backend.Workers.Timers.{InHand, all_happen, can_happen, run_loop-InHand}
use zephipay_backend.Growth.{
  AccountZpState, GrowthEvent, PublicZpProgress, derive_zp_milestones, payment_settled_received,
  payment_settled_sent, project_zp_progress, total_zp,
}
use zephipay_backend.Growth.Laws.{
  project_zp_progress-derive_zp_milestones, settled_count, total_zp_lem,
}
use zephipay_backend.Payments.Lifecycle.{validate_payment_transition}
use zephipay_backend.Payments.Lifecycle.Graph.{Justified, validate_payment_transition_iff}

abbrev declined : PaymentLifecycleEvidence
declined = record no_evidence {
  failed_at = some "2026-01-01T12:00:01.000Z";
  failure_code = some "REJECTED";
  terminal_proof = some (pre_submission_rejection "REJECTED" "the user declined");
}

validate_payment_transition_iff_example :
    (validate_payment_transition awaiting_confirmation failed declined ≡ ok tt)
    ↔ Justified declined awaiting_confirmation failed
validate_payment_transition_iff_example =
    validate_payment_transition_iff awaiting_confirmation failed declined

abbrev two_numbers : JsonValue
two_numbers = array (cons (number (integer (pos 5))) (cons (number not_finite) nil))

clone_json_value_iff_example :
    (clone_json_value two_numbers ≡ ok two_numbers)
    ↔ ((all_plain two_numbers ≡ true) × (two_numbers ≡ without_proto two_numbers))
clone_json_value_iff_example = clone_json_value_iff two_numbers two_numbers

-- An own key "__proto__" is not copied.
proto_dropped :
    clone_json_value (object (field "__proto__" null (field "a" (number (integer (pos 5))) end)))
    ≡ ok (object (field "a" (number (integer (pos 5))) end))
unfolding clone_json_value clone_json_object is_storable
proto_dropped = refl

round_trip_example : usdc_amount_to_raw (raw_usdc_to_display 1500000) ≡ ok 1500000
round_trip_example = usdc_amount_to_raw-raw_usdc_to_display 1500000

-- "1.5"
abbrev one_and_a_half : Units
one_and_a_half = 49 ∷ 46 ∷ 53 ∷ []

one_and_a_half_parsed : parse_amount one_and_a_half ≡ ok one_and_a_half
unfolding parse_amount usdc_amount_to_raw matches_amount is_whole is_fraction pad_end zeros
one_and_a_half_parsed = refl

abbrev some_raw : ℕ
some_raw = 1500000

parse_amount_example :
    ((parse_amount (raw_usdc_to_display some_raw) ≡ ok (raw_usdc_to_display some_raw))
      ↔ ((0 < some_raw) × (some_raw < 9223372036854775808)))
    × ((parse_amount (raw_usdc_to_display some_raw) ≡ err not_positive) ↔ (some_raw ≡ 0))
    × ((parse_amount (raw_usdc_to_display some_raw) ≡ err out_of_range)
        ↔ (9223372036854775808 ≤ some_raw))
parse_amount_example = parse_amount-raw_usdc_to_display some_raw

abbrev sent_event : Bool → GrowthEvent
sent_event made_up = record {
  event_id = pos 1;
  event_type = payment_settled_sent;
  actor_account_id = "account-1";
  source_id = "p1";
  source_event_id = "e1";
  occurred_at = "2026-01-01T12:00:01.000Z";
  synthetic = made_up;
  context = end;
  recorded_at = "2026-01-01T12:00:02.000Z";
}

abbrev two_events : List GrowthEvent
two_events = sent_event false ∷ sent_event true ∷ []

total_zp_example :
    total_zp two_events
    ≡ 10 * settled_count payment_settled_sent two_events
      + 5 * settled_count payment_settled_received two_events
total_zp_example = total_zp_lem two_events

abbrev ten_points : AccountZpState
ten_points = record {
  account_id = "account-1";
  total_points = pos 10;
  sent_count = pos 1;
  received_count = pos 0;
  policy_version = 1;
  last_growth_event_id = pos 1;
  updated_at = "2026-01-01T12:00:02.000Z";
}

one_sent : ten_points.sent_count ≡ pos (settled_count payment_settled_sent two_events)
unfolding settled_count
one_sent = refl

none_received : ten_points.received_count ≡ pos (settled_count payment_settled_received two_events)
unfolding settled_count
none_received = refl

project_zp_progress_example :
    (p : PublicZpProgress) × (project_zp_progress (λ n. "0") ten_points ≡ ok p)
    × (p.unlocked_milestones ≡ derive_zp_milestones two_events)
project_zp_progress_example =
    project_zp_progress-derive_zp_milestones (λ n. "0") ten_points two_events 10 refl refl one_sent
      none_received

abbrev two_delays : List Double
two_delays = integer (pos 100) ∷ integer (pos 250) ∷ []

two_delays_accepted : make_loop two_delays ≡ ok new_loop
unfolding make_loop
two_delays_accepted = refl

abbrev one_poll : List LoopEvent
one_poll = started ∷ fired 0 ∷ ended_with idle ∷ halted ∷ []

one_poll_happens : all_happen two_delays new_loop one_poll ≡ true
unfolding all_happen can_happen loop_step start_loop stop_loop fire_timer end_run schedule_next
one_poll_happens = refl

run_loop-InHand_example :
    ((run_loop two_delays new_loop one_poll).delay_index < 2)
    × InHand two_delays (run_loop two_delays new_loop one_poll)
run_loop-InHand_example =
    run_loop-InHand two_delays new_loop one_poll two_delays_accepted one_poll_happens

-- A loop that is stopped and started again while its iteration is under way leaves a timer pending
-- with the host when it is stopped once more.
timer_left :
    (run_loop two_delays new_loop
      (started ∷ fired 0 ∷ halted ∷ started ∷ ended_with idle ∷ halted ∷ [])).pending
    ≡ record { handle = 1; delay = some (integer (pos 100)) } ∷ []
unfolding run_loop loop_step start_loop stop_loop fire_timer end_run schedule_next
timer_left = refl

abbrev running_loop : LoopState
running_loop = record new_loop { stopped = false; timer = some 0; next_handle = 1 }
