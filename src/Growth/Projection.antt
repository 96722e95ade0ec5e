-- ===== src/Growth/Projection.antt =====
-- storage/postgres/postgresZpStateRepository.ts: the points of an account as a row that is brought up
-- to date in batches. The two tables that its SQL reads and writes are a record: the rows of
-- growth_events in the order of their primary key event_id, and account_zp_state by account_id. A
-- transaction that throws is rolled back; a row is read as the values that its columns hold.
use zephipay_backend.Accounts.Types.{is_uuid}
use zephipay_backend.Common.{
  Bool, List, Option, Result, String, [], any, eqb, err, get_or, if◌then◌else◌, last?, length, ltb,
  negsuc, none, not, ok, pos, select, some, take, throw_if, ℕ, ℤ, ◌&&◌, ◌+◌, ◌-◌, ◌==◌, ◌>>◌, ◌||◌,
  ◌∷◌,
}
use zephipay_backend.Common.Dict.{Dict, get, set}
use zephipay_backend.Growth.{AccountZpState, GrowthEvent, evaluate_zp_event, is_received, is_sent}
use zephipay_backend.Json.{Double, integer}
use zephipay_backend.Store.Claims.{lt_ℤ}

pub record ZpDatabase : Type 0 where
  pub growth_events : List GrowthEvent
  pub account_zp_state : Dict AccountZpState

pub data ZpProjectionError : Type 0 where
  invalid_zp_account_id invalid_pending_limit invalid_projection_limit : ZpProjectionError
  unsupported_state_version : ZpProjectionError

abbrev pub ZpOp : Type 0 → Type 0
ZpOp A = ZpDatabase → Result ZpProjectionError A × ZpDatabase

pub record ZpProjectionResult : Type 0 where
  pub account_id : String
  pub processed_events : ℕ
  pub prior_last_growth_event_id : ℤ
  pub last_growth_event_id : ℤ
  pub total_points : ℤ
  pub sent_count : ℤ
  pub received_count : ℤ

-- `!Number.isInteger(limit) || limit < 1 || limit > 500` is false.
unfoldable pub batch_limit : Double → Option ℕ
batch_limit (integer (pos n)) = if ltb n 1 || ltb 500 n then none else some n
batch_limit _ = none

unfoldable pub find_zp_state :
    String → ZpDatabase → Result ZpProjectionError (Option AccountZpState)
find_zp_state id db =
    throw_if (not (is_uuid id)) invalid_zp_account_id >> ok (get id db.account_zp_state)

-- `COALESCE(z.last_growth_event_id, 0)`
abbrev pub last_projected : Dict AccountZpState → String → ℤ
last_projected states id = elim (get id states) [
  | none ↦ pos 0
  | some state ↦ state.last_growth_event_id
]

abbrev pub is_pending : Dict AccountZpState → GrowthEvent → Bool
is_pending states event = lt_ℤ (last_projected states event.actor_account_id) event.event_id

-- The groups of the query, by their first row, which has the least event ID.
unfoldable pub distinct_actors : List GrowthEvent → List String → List String
distinct_actors [] seen = []
distinct_actors (event ∷ rest) seen =
    let known = any (λ id. id == event.actor_account_id) seen in
    let later_ones = distinct_actors rest (event.actor_account_id ∷ seen) in
    let others = distinct_actors rest seen in
    if known then others else event.actor_account_id ∷ later_ones

unfoldable pub list_pending_accounts : Double → ZpDatabase → Result ZpProjectionError (List String)
unfolding distinct_actors
list_pending_accounts limit db = elim (batch_limit limit) [
  | none ↦ err invalid_pending_limit
  | some n ↦
      ok (take n (distinct_actors (select (is_pending db.account_zp_state) db.growth_events) []))
]

-- `total += BigInt(points)`
unfoldable pub add_points : ℤ → ℕ → ℤ
add_points (pos a) n = pos (a + n)
add_points (negsuc a) n = if ltb a n then pos (n - a - 1) else negsuc (a - n)

-- The three counters of the loop over the events.
unfoldable pub apply_events : List GrowthEvent → ℤ × ℤ × ℤ → ℤ × ℤ × ℤ
apply_events [] counters = counters
apply_events (event ∷ rest) (total, sent, received) =
    if not (evaluate_zp_event event).eligible
    then apply_events rest (total, sent, received)
    else apply_events rest (
      add_points total (evaluate_zp_event event).points,
      (if is_sent event.event_type then add_points sent 1 else sent),
      (if is_received event.event_type then add_points received 1 else received),
    )

-- The row that `INSERT ... ON CONFLICT DO NOTHING` makes sure of.
abbrev pub fresh_zp_state : String → String → AccountZpState
fresh_zp_state id at = record {
  account_id = id;
  total_points = pos 0;
  sent_count = pos 0;
  received_count = pos 0;
  policy_version = 1;
  last_growth_event_id = pos 0;
  updated_at = at;
}

abbrev pub state_or_fresh : String → String → ZpDatabase → AccountZpState
state_or_fresh id at db = get_or (get id db.account_zp_state) (fresh_zp_state id at)

-- The events of the next batch.
unfoldable pub next_events : String → ℤ → ℕ → List GrowthEvent → List GrowthEvent
next_events id last limit rows =
    take limit (select (λ e. e.actor_account_id == id && lt_ℤ last e.event_id) rows)

unfoldable pub advanced_state : AccountZpState → List GrowthEvent → ℤ → String → AccountZpState
advanced_state prior events last at =
    let (total, sent, received) =
      apply_events events (prior.total_points, prior.sent_count, prior.received_count) in
    record prior {
      total_points = total;
      sent_count = sent;
      received_count = received;
      last_growth_event_id = last;
      updated_at = at;
    }

abbrev pub projection_result : String → AccountZpState → ℤ → ℕ → ZpProjectionResult
projection_result id state prior_last processed = record {
  account_id = id;
  processed_events = processed;
  prior_last_growth_event_id = prior_last;
  last_growth_event_id = state.last_growth_event_id;
  total_points = state.total_points;
  sent_count = state.sent_count;
  received_count = state.received_count;
}

-- The transaction on one account, after its limit was accepted: `inserted` and `updated_at` are the
-- two readings of the clock.
unfoldable pub project_batch : String → ℕ → String → String → ZpOp ZpProjectionResult
project_batch id limit inserted updated_at db =
    let prior = state_or_fresh id inserted db in
    if not (eqb prior.policy_version 1)
    then (err unsupported_state_version, db)
    else let events = next_events id prior.last_growth_event_id limit db.growth_events in
      elim (last? events) [
        | none ↦ (
          ok (projection_result id prior prior.last_growth_event_id 0),
          record db { account_zp_state = set id prior db.account_zp_state },
        )
        | some last_event ↦
            let state = advanced_state prior events last_event.event_id updated_at in
            (
              ok (projection_result id state prior.last_growth_event_id (length events)),
              record db { account_zp_state = set id state db.account_zp_state },
            )
      ]

unfoldable pub project_account : String → Double → String → String → ZpOp ZpProjectionResult
project_account id limit inserted updated_at db =
    if not (is_uuid id) then (err invalid_zp_account_id, db) else elim (batch_limit limit) [
      | none ↦ (err invalid_projection_limit, db)
      | some n ↦ project_batch id n inserted updated_at db
    ]
