-- ===== src/Growth/Idle.antt =====
-- An idle iteration of the worker: nothing is left to project.

use zephipay_backend.Common.{
  Bool, Option-cases, ap, eq_iff, pos, subst, List, Result-cases, String, [], arith, false, inl,
  inr, length, ok, refl, select, some, suc, sym, take, true, ℕ, ◌+◌, ◌∙◌, ◌∷◌, ◌≡◌,
}
use zephipay_backend.Common.Dict.{Dict, get}
use zephipay_backend.Growth.{AccountZpState, count_events, total_zp, GrowthEvent}
use zephipay_backend.Growth.CatchUp.{all_covered}
use zephipay_backend.Growth.Coordinator.{
  GrowthProjector, GrowthZpProjectionConfiguration, run_growth, run_once, GrowthZpProjectionOutcome,
  iteration_answer, project_accounts, run_zp, worker_limit,
}
use zephipay_backend.Growth.Projection.{
  last_projected, ZpDatabase, batch_limit, distinct_actors, is_pending, list_pending_accounts,
  project_account,
}
use zephipay_backend.Growth.Rounds.{ZpExact, of_actor}
use zephipay_backend.Store.Claims.{lt_ℤ}

discovered_kept :
    (times : ℕ → String) (i : ℕ) (ids : List String) (outcome : GrowthZpProjectionOutcome)
    (db : ZpDatabase)
    → (project_accounts times i ids outcome db).0.zp_discovered_accounts
      ≡ outcome.zp_discovered_accounts
unfolding project_accounts
discovered_kept times i [] outcome db = refl
discovered_kept times i (id ∷ ids) outcome db =
    let db' = (project_account id worker_limit (times i) (times (i + 1)) db).1 in
    elim (Result-cases (project_account id worker_limit (times i) (times (i + 1)) db).0) [
      | inl (result, returned) ↦
          let next =
            discovered_kept times (i + 2) ids
              (record outcome {
                zp_projected_accounts = outcome.zp_projected_accounts + 1;
                zp_processed_events = outcome.zp_processed_events + result.processed_events;
              })
              db' in
          ground (arith, returned, next)
      | inr (e, threw) ↦
          let next =
            discovered_kept times (i + 2) ids
              (record outcome { zp_failed_accounts = outcome.zp_failed_accounts + 1 }) db' in
          ground (arith, threw, next)
    ]

-- No actors among some events: no events.
no_actors :
    (n : ℕ) (es : List GrowthEvent) → length (take (suc n) (distinct_actors es [])) ≡ 0 → es ≡ []
unfolding distinct_actors
no_actors n [] h = refl
no_actors n (e ∷ es) h = absurd (ground arith)

none_pending :
    (db : ZpDatabase) (ids : List String)
    → list_pending_accounts worker_limit db ≡ ok ids
    → length ids ≡ 0
    → select (is_pending db.account_zp_state) db.growth_events ≡ []
unfolding list_pending_accounts batch_limit
none_pending db ids h zero_ids =
    no_actors 99 (select (is_pending db.account_zp_state) db.growth_events) (ground arith)

-- An idle answer comes of an outcome that discovered no account, with no failure of the discovery.
idle_outcome :
    (outcome : GrowthZpProjectionOutcome)
    → iteration_answer outcome ≡ some false
    → (outcome.zp_discovered_accounts ≡ 0) × (outcome.zp_discovery_failed ≡ false)
unfolding iteration_answer
idle_outcome outcome h = (ground arith, ground arith)

no_names : (ids : List String) → length ids ≡ 0 → ids ≡ []
no_names [] h = refl
no_names (id ∷ ids) h = absurd (omega arith)

untouched_by_none :
    (times : ℕ → String) (ids : List String) (outcome : GrowthZpProjectionOutcome) (db : ZpDatabase)
    → ids ≡ []
    → (project_accounts times 0 ids outcome db).1 ≡ db
unfolding project_accounts
untouched_by_none times [] outcome db h = refl
untouched_by_none times (id ∷ ids) outcome db h = absurd (ground arith)

idle_zp :
    (times : ℕ → String) (outcome : GrowthZpProjectionOutcome) (db : ZpDatabase)
    → iteration_answer (run_zp times true (outcome, db)).0 ≡ some false
    → ((run_zp times true (outcome, db)).1 ≡ db)
      × (select (is_pending db.account_zp_state) db.growth_events ≡ [])
unfolding run_zp
idle_zp times outcome db h = elim (Result-cases (list_pending_accounts worker_limit db)) [
  | inr (e, threw) ↦
      let failed =
        idle_outcome (record outcome { zp_discovery_failed = true }) (ground (arith, threw, h)) in
      absurd (ground (arith, failed.1))
  | inl (ids, found) ↦
      let begun = record outcome { zp_discovered_accounts = length ids } in
      let quiet =
        idle_outcome (project_accounts times 0 ids begun db).0 (ground (arith, found, h)) in
      let zero_ids : length ids ≡ 0 = sym (discovered_kept times 0 ids begun db) ∙ quiet.0 in
      let no_ids = no_names ids zero_ids in
      let same : (project_accounts times 0 ids begun db).1 ≡ db =
        untouched_by_none times ids begun db no_ids in
      (ground (arith, found, same), none_pending db ids found zero_ids)
]

none_for :
    (states : Dict AccountZpState) (id : String) (rows : List GrowthEvent)
    → select (is_pending states) rows ≡ []
    → length (select (λ e. lt_ℤ (last_projected states id) e.event_id) (of_actor id rows)) ≡ 0
none_for states id [] h = refl
none_for states id (e ∷ rows) h =
    ground (arith, eq_iff e.actor_account_id id, none_for states id rows)

run_growth-ZpExact :
    (project_pending : GrowthProjector) (on : Bool) (db : ZpDatabase)
    → ((n : ℕ) (x : ZpDatabase) → ZpExact x → ZpExact (project_pending n x).1)
    → ZpExact db
    → ZpExact (run_growth project_pending on db).1
unfolding run_growth
run_growth-ZpExact project_pending false db keeps inv = inv
run_growth-ZpExact project_pending true db keeps inv =
    elim (Option-cases (project_pending 100 db).0) [
      | inl threw ↦ subst ZpExact (sym (ground (arith, threw))) (keeps 100 db inv)
      | inr (n, returned) ↦ subst ZpExact (sym (ground (arith, returned))) (keeps 100 db inv)
    ]

-- On exact tables, with points enabled and a projector of settled payments that keeps the tables exact,
-- an iteration after which the worker's loop is told that it was idle leaves every account that has a
-- row at the points and the counts that the policy gives all of its events.
pub idle_is_caught_up :
    (project_pending : GrowthProjector) (times : ℕ → String)
    (configuration : GrowthZpProjectionConfiguration) (db : ZpDatabase) (id : String)
    (state : AccountZpState)
    → ((n : ℕ) (x : ZpDatabase) → ZpExact x → ZpExact (project_pending n x).1)
    → ZpExact db
    → configuration.zp_enabled ≡ true
    → iteration_answer (run_once project_pending times configuration db).0 ≡ some false
    → get id (run_once project_pending times configuration db).1.account_zp_state ≡ some state
    → (state.total_points
        ≡ pos (
            total_zp
              (of_actor id (run_once project_pending times configuration db).1.growth_events)))
      × (state.sent_count
          ≡ pos
              (count_events
                (of_actor id (run_once project_pending times configuration db).1.growth_events)
                0
                0).0)
      × (state.received_count
          ≡ pos
              (count_events
                (of_actor id (run_once project_pending times configuration db).1.growth_events)
                0
                0).1)
unfolding run_once
idle_is_caught_up project_pending times configuration db id state keeps inv on quiet there =
    let grown = run_growth project_pending configuration.growth_enabled db in
    let final = run_zp times configuration.zp_enabled grown in
    let is_on : run_zp times true grown ≡ final = ap (λ b. run_zp times b grown) (sym on) in
    let (same, none_left) =
      idle_zp times grown.0 grown.1 (ap (λ r. iteration_answer r.0) is_on ∙ quiet) in
    let is_final : final.1 ≡ grown.1 = sym (ap (λ r. r.1) is_on) ∙ same in
    let kept = run_growth-ZpExact project_pending configuration.growth_enabled db keeps inv in
    let row : get id grown.1.account_zp_state ≡ some state =
      sym (ap (λ x. get id x.account_zp_state) is_final) ∙ there in
    let cover = kept.exact id state row in
    let last : last_projected grown.1.account_zp_state id ≡ state.last_growth_event_id =
      ground (arith, row) in
    let es = of_actor id grown.1.growth_events in
    let left =
      sym (ap (λ l. length (select (λ e. lt_ℤ l e.event_id) es)) last)
      ∙ none_for grown.1.account_zp_state id grown.1.growth_events none_left in
    let everything : cover.covered ≡ of_actor id final.1.growth_events =
      all_covered es state cover left ∙ sym (ap (λ x. of_actor id x.growth_events) is_final) in
    (
      cover.points ∙ ap (λ xs. pos (total_zp xs)) everything,
      cover.sent_ones ∙ ap (λ xs. pos (count_events xs 0 0).0) everything,
      cover.received_ones ∙ ap (λ xs. pos (count_events xs 0 0).1) everything,
    )
