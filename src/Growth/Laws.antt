-- ===== src/Growth/Laws.antt =====
-- What the points and the milestones are of the settled payments that count.

-- The payments of one kind that are not synthetic: the specification of the counters.
use zephipay_backend.Common.{
  Bool-cases, inl, inr, leb, ltb, refl, true, ◌++◌, ◌/◌, ◌∙◌, Bool, List, String, [], arith,
  if◌then◌else◌, not, ok, pos, ℕ, ℤ, ◌&&◌, ◌*◌, ◌+◌, ◌∷◌, ◌≡◌,
}
use zephipay_backend.Growth.{
  PendingZpMilestone, ZpMilestone, ZpMilestoneDimension, ZpMilestonePolicy, current_of,
  derive_zp_milestones, first_payment_received, first_payment_sent, is_received, is_sent,
  milestone_policy, progress_percent, push_if, received_dimension, sent_dimension, sort_milestones,
  ten_payments_sent, twenty_five_payments_sent, AccountZpState, GrowthEvent, GrowthEventType,
  PublicZpProgress, count_events, evaluate_zp_event, milestones_of, payment_settled_received,
  payment_settled_sent, project_zp_progress, total_from, total_zp,
}

abbrev pub counts_as : GrowthEventType → GrowthEvent → Bool
counts_as payment_settled_sent event = not event.synthetic && is_sent event.event_type
counts_as payment_settled_received event = not event.synthetic && is_received event.event_type

unfoldable pub settled_count : GrowthEventType → List GrowthEvent → ℕ
settled_count type [] = 0
settled_count type (event ∷ rest) =
    (if counts_as type event then 1 else 0) + settled_count type rest

count_events_lem :
    (events : List GrowthEvent) (sent received : ℕ)
    → count_events events sent received ≡ (
      sent + settled_count payment_settled_sent events,
      received + settled_count payment_settled_received events,
    )
unfolding count_events settled_count evaluate_zp_event
count_events_lem [] sent received = ground arith
count_events_lem (event ∷ rest) sent received = ground (
  arith,
  count_events_lem rest sent received,
  count_events_lem rest (sent + 1) received,
  count_events_lem rest sent (received + 1),
)

total_from_lem :
    (events : List GrowthEvent) (total : ℕ)
    → total_from total events
      ≡ total
        + 10 * settled_count payment_settled_sent events
        + 5 * settled_count payment_settled_received events
unfolding total_from settled_count evaluate_zp_event
total_from_lem [] total = ground arith
total_from_lem (event ∷ rest) total = ground (
  arith,
  total_from_lem rest total,
  total_from_lem rest (total + 10),
  total_from_lem rest (total + 5),
  total_from_lem rest (total + 0),
)

-- The points are ten for every settled payment sent and five for every one received, the synthetic
-- ones not counted.
pub total_zp_lem :
    (events : List GrowthEvent)
    → total_zp events
      ≡ 10 * settled_count payment_settled_sent events
        + 5 * settled_count payment_settled_received events
unfolding total_zp
total_zp_lem events = ground (arith, total_from_lem events 0)

step_lem :
    (decimal_text : ℤ → String) (state : AccountZpState) (policy : ZpMilestonePolicy)
    (rest : List ZpMilestonePolicy) (unlocked : List ZpMilestone)
    (waiting : List PendingZpMilestone) (n : ℕ)
    → current_of state policy.dimension ≡ pos n
    → ltb 0 policy.threshold ≡ true
    → (later : List PendingZpMilestone) × (sort_milestones decimal_text state
          (policy ∷ rest)
          unlocked
          waiting
        ≡ sort_milestones decimal_text state rest
            (push_if (leb policy.threshold n) policy.milestone unlocked)
            later)
unfolding sort_milestones progress_percent
step_lem decimal_text state policy rest unlocked waiting n h positive =
    elim (Bool-cases (leb policy.threshold n)) [
      | inl there ↦ (waiting, ground arith)
      | inr short ↦ (
        waiting
            ++ record {
              pending_milestone = policy.milestone;
              pending_dimension = policy.dimension;
              current_text = decimal_text (current_of state policy.dimension);
              target_text = decimal_text (pos policy.threshold);
              progress = if ltb 0 n then n * 100 / policy.threshold else 0;
            }
              ∷ [],
        ground arith,
      )
    ]

abbrev policy_at : ZpMilestone → ZpMilestoneDimension → ℕ → ZpMilestonePolicy
policy_at m d n = record { milestone = m; dimension = d; threshold = n }

sorted :
    (decimal_text : ℤ → String) (state : AccountZpState) (sent received : ℕ)
    → state.sent_count ≡ pos sent
    → state.received_count ≡ pos received
    → (waiting : List PendingZpMilestone) × (sort_milestones decimal_text state milestone_policy []
          []
        ≡ ok (milestones_of (sent, received), waiting))
unfolding milestones_of
sorted decimal_text state sent received a b =
    let l1 = push_if (leb 1 sent) first_payment_sent [] in
    let l2 = push_if (leb 1 received) first_payment_received l1 in
    let l3 = push_if (leb 10 sent) ten_payments_sent l2 in
    let p2 = policy_at first_payment_received received_dimension 1 in
    let p3 = policy_at ten_payments_sent sent_dimension 10 in
    let p4 = policy_at twenty_five_payments_sent sent_dimension 25 in
    let (w1, e1) =
      step_lem decimal_text state (policy_at first_payment_sent sent_dimension 1)
        (p2 ∷ p3 ∷ p4 ∷ []) [] [] sent a refl in
    let (w2, e2) = step_lem decimal_text state p2 (p3 ∷ p4 ∷ []) l1 w1 received b refl in
    let (w3, e3) = step_lem decimal_text state p3 (p4 ∷ []) l2 w2 sent a refl in
    let (w4, e4) = step_lem decimal_text state p4 [] l3 w3 sent a refl in
    (w4, e1 ∙ e2 ∙ e3 ∙ e4 ∙ (unfold sort_milestones in refl))

-- Of an account on version 1 of the policy, whose counters are those of its events, and whose points
-- are not negative, the projection answers, and the milestones that it shows unlocked are those derived
-- from the events.
pub project_zp_progress-derive_zp_milestones :
    (decimal_text : ℤ → String) (state : AccountZpState) (events : List GrowthEvent) (total : ℕ)
    → state.policy_version ≡ 1
    → state.total_points ≡ pos total
    → state.sent_count ≡ pos (settled_count payment_settled_sent events)
    → state.received_count ≡ pos (settled_count payment_settled_received events)
    → (p : PublicZpProgress) × (project_zp_progress decimal_text state ≡ ok p)
      × (p.unlocked_milestones ≡ derive_zp_milestones events)
unfolding project_zp_progress derive_zp_milestones
project_zp_progress-derive_zp_milestones decimal_text state events total v t a b =
    let sent = settled_count payment_settled_sent events in
    let received = settled_count payment_settled_received events in
    let (waiting, e) = sorted decimal_text state sent received a b in
    (
      record {
        total_text = decimal_text state.total_points;
        sent_text = decimal_text state.sent_count;
        received_text = decimal_text state.received_count;
        version = state.policy_version;
        unlocked_milestones = milestones_of (sent, received);
        pending_milestones = waiting;
      },
      ground (arith, e),
      ground (arith, count_events_lem events 0 0),
    )
