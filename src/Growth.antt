-- ===== src/Growth.antt =====
-- The points and milestones of growth: growth/zpPolicy.ts and growth/zpProgress.ts, with the types
-- of growth/growthTypes.ts and growth/zpState.ts. `decimal_text` is `BigInt.prototype.toString`.
pub mod Laws
pub mod Projection
pub mod Batches
pub mod Coverage
pub mod Rounds
pub mod Refinement
pub mod Exactness
pub mod CatchUp
pub mod Coordinator
pub mod Idle
use zephipay_backend.Common.{
  Bool, List, Result, String, [], eqb, false, if◌then◌else◌, is_negative, is_positive, leb, ltb,
  magnitude, negsuc, not, ok, pos, throw_if, true, ℕ, ℤ, ◌*◌, ◌++◌, ◌+◌, ◌/◌, ◌>>=◌, ◌>>◌, ◌||◌,
  ◌∷◌,
}
use zephipay_backend.Json.{JsonObject}

pub data GrowthEventType : Type 0 where
  payment_settled_sent payment_settled_received : GrowthEventType

-- The source domain is "PAYMENT" and the schema version is 1 by their types.
pub record GrowthEvent : Type 0 where
  pub event_id : ℤ
  pub event_type : GrowthEventType
  pub actor_account_id : String
  pub source_id : String
  pub source_event_id : String
  pub occurred_at : String
  pub synthetic : Bool
  pub context : JsonObject
  pub recorded_at : String

pub data ZpMilestone : Type 0 where
  first_payment_sent first_payment_received : ZpMilestone
  ten_payments_sent twenty_five_payments_sent : ZpMilestone

pub data ZpReason : Type 0 where
  eligible_payment_activity synthetic_activity unsupported_event : ZpReason

pub record ZpPolicyDecision : Type 0 where
  pub eligible : Bool
  pub points : ℕ
  pub reason : ZpReason

abbrev pub event_points : GrowthEventType → ℕ
event_points payment_settled_sent = 10
event_points payment_settled_received = 5

abbrev pub is_sent : GrowthEventType → Bool
is_sent payment_settled_sent = true
is_sent payment_settled_received = false

abbrev pub is_received : GrowthEventType → Bool
is_received payment_settled_sent = false
is_received payment_settled_received = true

abbrev is_eligible_event_type : GrowthEventType → Bool
is_eligible_event_type type = is_sent type || is_received type

unfoldable pub evaluate_zp_event : GrowthEvent → ZpPolicyDecision
evaluate_zp_event event =
    if event.synthetic
    then record { eligible = false; points = 0; reason = synthetic_activity }
    else if not (is_eligible_event_type event.event_type)
    then record { eligible = false; points = 0; reason = unsupported_event }
    else record {
      eligible = true;
      points = event_points event.event_type;
      reason = eligible_payment_activity;
    }

-- The two counters of the loop of `deriveZpMilestones`.
unfoldable pub count_events : List GrowthEvent → ℕ → ℕ → ℕ × ℕ
count_events [] sent received = (sent, received)
count_events (event ∷ rest) sent received =
    if not (evaluate_zp_event event).eligible
    then count_events rest sent received
    else count_events rest (if is_sent event.event_type then sent + 1 else sent)
        (if is_received event.event_type then received + 1 else received)

abbrev pub push_if : {A : Type 0} → Bool → A → List A → List A
push_if holds x xs = if holds then xs ++ x ∷ [] else xs

unfoldable pub milestones_of : ℕ × ℕ → List ZpMilestone
milestones_of (sent, received) = push_if (leb 25 sent) twenty_five_payments_sent (
    push_if (leb 10 sent) ten_payments_sent (
      push_if (leb 1 received) first_payment_received (push_if (leb 1 sent) first_payment_sent [])))

unfoldable pub derive_zp_milestones : List GrowthEvent → List ZpMilestone
unfolding count_events milestones_of
derive_zp_milestones events = milestones_of (count_events events 0 0)

-- `events.reduce`
unfoldable pub total_from : ℕ → List GrowthEvent → ℕ
total_from total [] = total
total_from total (event ∷ rest) = total_from (total + (evaluate_zp_event event).points) rest

unfoldable pub total_zp : List GrowthEvent → ℕ
unfolding total_from
total_zp events = total_from 0 events

pub record AccountZpState : Type 0 where
  pub account_id : String
  pub total_points : ℤ
  pub sent_count : ℤ
  pub received_count : ℤ
  pub policy_version : ℕ
  pub last_growth_event_id : ℤ
  pub updated_at : String

pub data ZpMilestoneDimension : Type 0 where
  sent_dimension received_dimension : ZpMilestoneDimension

pub record ZpMilestonePolicy : Type 0 where
  pub milestone : ZpMilestone
  pub dimension : ZpMilestoneDimension
  pub threshold : ℕ

pub record PendingZpMilestone : Type 0 where
  pub pending_milestone : ZpMilestone
  pub pending_dimension : ZpMilestoneDimension
  pub current_text : String
  pub target_text : String
  pub progress : ℕ

pub record PublicZpProgress : Type 0 where
  pub total_text : String
  pub sent_text : String
  pub received_text : String
  pub version : ℕ
  pub unlocked_milestones : List ZpMilestone
  pub pending_milestones : List PendingZpMilestone

pub data ZpError : Type 0 where
  unsupported_policy_version negative_value target_not_positive : ZpError

abbrev pub milestone_policy : List ZpMilestonePolicy
milestone_policy =
    record { milestone = first_payment_sent; dimension = sent_dimension; threshold = 1 }
    ∷ record { milestone = first_payment_received; dimension = received_dimension; threshold = 1 }
    ∷ record { milestone = ten_payments_sent; dimension = sent_dimension; threshold = 10 }
    ∷ record { milestone = twenty_five_payments_sent; dimension = sent_dimension; threshold = 25 }
    ∷ []

-- `current >= threshold`
abbrev pub reaches : ℤ → ℕ → Bool
reaches (pos n) threshold = leb threshold n
reaches (negsuc n) threshold = false

unfoldable pub progress_percent : ℤ → ℕ → Result ZpError ℕ
progress_percent current target = do
  throw_if (not (ltb 0 target)) target_not_positive
  if not (is_positive current)
      then ok 0
      else if reaches current target
      then ok 100
      else ok (magnitude current * 100 / target)

abbrev pub current_of : AccountZpState → ZpMilestoneDimension → ℤ
current_of state sent_dimension = state.sent_count
current_of state received_dimension = state.received_count

module _ (decimal_text : ℤ → String) where
  -- The loop over the milestones, with the two lists that it fills.
  unfoldable pub sort_milestones :
      AccountZpState
      → List ZpMilestonePolicy
      → List ZpMilestone
      → List PendingZpMilestone
      → Result ZpError (List ZpMilestone × List PendingZpMilestone)
  sort_milestones state [] unlocked waiting = ok (unlocked, waiting)
  sort_milestones state (policy ∷ rest) unlocked waiting =
      let now = current_of state policy.dimension in
      if reaches now policy.threshold
      then sort_milestones state rest (unlocked ++ policy.milestone ∷ []) waiting
      else progress_percent now policy.threshold >>= λ percent.
          sort_milestones state rest unlocked (
            waiting
            ++ record {
              pending_milestone = policy.milestone;
              pending_dimension = policy.dimension;
              current_text = decimal_text now;
              target_text = decimal_text (pos policy.threshold);
              progress = percent;
            }
              ∷ [])

  unfoldable pub project_zp_progress : AccountZpState → Result ZpError PublicZpProgress
  unfolding sort_milestones
  project_zp_progress state = do
    throw_if (not (eqb state.policy_version 1)) unsupported_policy_version
    throw_if (is_negative state.total_points) negative_value
    throw_if (is_negative state.sent_count) negative_value
    throw_if (is_negative state.received_count) negative_value
    (unlocked, waiting) ← sort_milestones state milestone_policy [] []
    ok (record {
      total_text = decimal_text state.total_points;
      sent_text = decimal_text state.sent_count;
      received_text = decimal_text state.received_count;
      version = state.policy_version;
      unlocked_milestones = unlocked;
      pending_milestones = waiting;
    })
