-- ===== src/Growth/Rounds.antt =====
-- Runs of recorded events and projections: the rows stay exact, and enough projections of an account
-- reach all of its events.

use zephipay_backend.Common.{
  last?, none, suc, zero, ◌++◌, All, Bool, Bool-cases, List, Option-cases, String, [], ap, arith,
  false, inl, inr, length, pos, refl, select, some, subst, sym, take, true, ℕ, ℤ, ◌-◌, ◌==◌, ◌∙◌,
  ◌∷◌, ◌≡◌,
}
use zephipay_backend.Growth.Batches.{
  All-last?, All-right, All-take, last?-none, length-drop, After, Ascending,
}
use zephipay_backend.Growth.Coverage.{advanced-Covers, Covers, select-part, select_and}
use zephipay_backend.Growth.Projection.{
  advanced_state, project_batch, ZpDatabase, fresh_zp_state, next_events, state_or_fresh,
}
use zephipay_backend.Common.Dict.{get, set}
use zephipay_backend.Growth.{AccountZpState, GrowthEvent, count_events, total_from, total_zp}
use zephipay_backend.Store.Claims.{lt_ℤ}

abbrev pub of_actor : String → List GrowthEvent → List GrowthEvent
of_actor id rows = select (λ e. e.actor_account_id == id) rows

-- What `select` makes of a list, by the test of its first element.
select_kept :
    (p : GrowthEvent → Bool) (e : GrowthEvent) (rows : List GrowthEvent)
    → p e ≡ true
    → select p (e ∷ rows) ≡ e ∷ select p rows
select_kept p e rows h = ground arith

select_left_out :
    (p : GrowthEvent → Bool) (e : GrowthEvent) (rows : List GrowthEvent)
    → p e ≡ false
    → select p (e ∷ rows) ≡ select p rows
select_left_out p e rows h = ground arith

pub All-select :
    (P : GrowthEvent → Type 0) (p : GrowthEvent → Bool) (rows : List GrowthEvent)
    → All P rows
    → All P (select p rows)
All-select P p [] h = tt
All-select P p (e ∷ rows) h = elim (Bool-cases (p e)) [
  | inl kept ↦ subst (All P) (sym (select_kept p e rows kept)) (h.0, All-select P p rows h.1)
  | inr left_out ↦ subst (All P) (sym (select_left_out p e rows left_out)) (All-select P p rows h.1)
]

Ascending-select :
    (p : GrowthEvent → Bool) (rows : List GrowthEvent) → Ascending rows → Ascending (select p rows)
unfolding Ascending
Ascending-select p [] h = tt
Ascending-select p (e ∷ rows) h = elim (Bool-cases (p e)) [
  | inl kept ↦
      subst Ascending (sym (select_kept p e rows kept))
        (All-select (After e.event_id) p rows h.0, Ascending-select p rows h.1)
  | inr left_out ↦
      subst Ascending (sym (select_left_out p e rows left_out)) (Ascending-select p rows h.1)
]

-- The rows are in the order of their IDs, which are positive; every account's row covers its events
-- up to its last ID, which is no ID beyond those of the rows.
pub record ZpExact (db : ZpDatabase) : Type 0 where
  pub in_order : Ascending db.growth_events
  pub positive_ids : All (After (pos 0)) db.growth_events
  pub exact :
      (id : String) (state : AccountZpState)
      → get id db.account_zp_state ≡ some state
      → Covers (of_actor id db.growth_events) state
  pub supported :
      (id : String) (state : AccountZpState)
      → get id db.account_zp_state ≡ some state
      → state.policy_version ≡ 1
  pub within :
      (id : String) (state : AccountZpState) (j : ℤ)
      → get id db.account_zp_state ≡ some state
      → lt_ℤ (pos 0) j ≡ true
      → All (λ e. lt_ℤ e.event_id j ≡ true) db.growth_events
      → lt_ℤ state.last_growth_event_id j ≡ true

fresh-Covers :
    (id at : String) (es : List GrowthEvent)
    → All (After (pos 0)) es
    → Covers es (fresh_zp_state id at)
unfolding total_zp total_from count_events
fresh-Covers id at es h = record {
  covered = [];
  to_come = es;
  parts = refl;
  below = tt;
  above = h;
  points = refl;
  sent_ones = refl;
  received_ones = refl;
}

pub prior-Covers :
    (id at : String) (db : ZpDatabase)
    → ZpExact db
    → Covers (of_actor id db.growth_events) (state_or_fresh id at db)
prior-Covers id at db inv = elim (Option-cases (get id db.account_zp_state)) [
  | inl nobody ↦ subst (Covers (of_actor id db.growth_events)) (sym (ground (arith, nobody))) (
      fresh-Covers id at (of_actor id db.growth_events) (
        All-select (After (pos 0)) (λ e. e.actor_account_id == id) db.growth_events
          inv.positive_ids))
  | inr (state, there) ↦
      subst (Covers (of_actor id db.growth_events)) (sym (ground (arith, there)))
        (inv.exact id state there)
]

next_events-to_come :
    (id : String) (state : AccountZpState) (n : ℕ) (rows : List GrowthEvent)
    → (cover : Covers (of_actor id rows) state)
    → next_events id state.last_growth_event_id n rows ≡ take n cover.to_come
unfolding next_events
next_events-to_come id state n rows cover =
    let after : GrowthEvent → Bool = λ e. lt_ℤ state.last_growth_event_id e.event_id in
    ap (take n) (
      select_and (λ e. e.actor_account_id == id) after rows
      ∙ ap (select after) cover.parts
      ∙ select-part after cover.covered cover.to_come cover.below cover.above)

-- What a batch of an account leaves, against what its row covered before.
pub record Projected (id : String) (n : ℕ) (db : ZpDatabase) (before : List GrowthEvent)
    (db' : ZpDatabase) : Type 0 where
  pub state : AccountZpState
  pub rows_kept : db'.growth_events ≡ db.growth_events
  pub row_written : db'.account_zp_state ≡ set id state db.account_zp_state
  pub covers : Covers (of_actor id db.growth_events) state
  pub fewer : length covers.to_come ≡ length before - n
  pub last_within :
      (j : ℤ)
      → lt_ℤ (pos 0) j ≡ true
      → All (λ e. lt_ℤ e.event_id j ≡ true) db.growth_events
      → lt_ℤ state.last_growth_event_id j ≡ true
  pub same_version : state.policy_version ≡ 1

take-none : (n : ℕ) (xs : List GrowthEvent) → take n xs ≡ [] → length xs ≡ length xs - n
take-none zero xs h = omega arith
take-none (suc n) [] h = omega arith
take-none (suc n) (x ∷ xs) h = absurd (ground arith)

prior_within :
    (id at : String) (db : ZpDatabase) (j : ℤ)
    → ZpExact db
    → lt_ℤ (pos 0) j ≡ true
    → All (λ e. lt_ℤ e.event_id j ≡ true) db.growth_events
    → lt_ℤ (state_or_fresh id at db).last_growth_event_id j ≡ true
prior_within id at db j inv positive beyond = elim (Option-cases (get id db.account_zp_state)) [
  | inl nobody ↦ ground (arith, nobody)
  | inr (state, there) ↦ ground (arith, there, inv.within id state j there positive beyond)
]

prior_supported :
    (id at : String) (db : ZpDatabase) → ZpExact db → (state_or_fresh id at db).policy_version ≡ 1
prior_supported id at db inv = elim (Option-cases (get id db.account_zp_state)) [
  | inl nobody ↦ ground (arith, nobody)
  | inr (state, there) ↦ ground (arith, there, inv.supported id state there)
]

batch_within :
    (id : String) (n : ℕ) (db : ZpDatabase) (covered to_come : List GrowthEvent) (z : GrowthEvent)
    (j : ℤ)
    → of_actor id db.growth_events ≡ covered ++ to_come
    → last? (take n to_come) ≡ some z
    → All (λ e. lt_ℤ e.event_id j ≡ true) db.growth_events
    → lt_ℤ z.event_id j ≡ true
batch_within id n db covered to_come z j parts ends beyond =
    let Before : GrowthEvent → Type 0 = λ e. lt_ℤ e.event_id j ≡ true in
    let of_it = All-select Before (λ e. e.actor_account_id == id) db.growth_events beyond in
    All-last? Before z (take n to_come)
      (All-take Before n to_come
        (All-right Before covered to_come (subst (All Before) parts of_it)))
      ends

-- What the transaction leaves when its batch is empty, and when it ends in an event.
batch_empty :
    (id : String) (n : ℕ) (c d : String) (db : ZpDatabase)
    → (state_or_fresh id c db).policy_version ≡ 1
    → last? (next_events id (state_or_fresh id c db).last_growth_event_id n db.growth_events) ≡ none
    → (project_batch id n c d db).1
      ≡ record db { account_zp_state = set id (state_or_fresh id c db) db.account_zp_state }
unfolding project_batch
batch_empty id n c d db v h = ground arith

batch_ends :
    (id : String) (n : ℕ) (c d : String) (db : ZpDatabase) (z : GrowthEvent)
    → (es : List GrowthEvent)
    → next_events id (state_or_fresh id c db).last_growth_event_id n db.growth_events ≡ es
    → (state_or_fresh id c db).policy_version ≡ 1
    → last? es ≡ some z
    → (project_batch id n c d db).1 ≡ record db {
      account_zp_state =
          set id (advanced_state (state_or_fresh id c db) es z.event_id d) db.account_zp_state;
    }
unfolding project_batch
batch_ends id n c d db z es is_es v h = ground arith

pub project_batch-Projected :
    (id : String) (n : ℕ) (c d : String) (db : ZpDatabase)
    → (inv : ZpExact db)
    → Projected id n db (prior-Covers id c db inv).to_come (project_batch id n c d db).1
unfolding advanced_state
project_batch-Projected id n c d db inv =
    let prior = state_or_fresh id c db in
    let cover = prior-Covers id c db inv in
    let supported = prior_supported id c db inv in
    let fetched = next_events-to_come id prior n db.growth_events cover in
    elim (Option-cases (last? (take n cover.to_come))) [
      | inl nothing ↦
          let left = batch_empty id n c d db supported (ap last? fetched ∙ nothing) in
          record {
            state = prior;
            rows_kept = ap (λ x. x.growth_events) left;
            row_written = ap (λ x. x.account_zp_state) left;
            covers = cover;
            fewer = take-none n cover.to_come (last?-none (take n cover.to_come) nothing);
            last_within = λ j positive beyond. prior_within id c db j inv positive beyond;
            same_version = supported;
          }
      | inr (z, ends) ↦
          let left = batch_ends id n c d db z (take n cover.to_come) fetched supported ends in
          let up = Ascending-select (λ e. e.actor_account_id == id) db.growth_events inv.in_order in
          let next = advanced-Covers (of_actor id db.growth_events) prior n z d up cover ends in
          record {
            state = advanced_state prior (take n cover.to_come) z.event_id d;
            rows_kept = ap (λ x. x.growth_events) left;
            row_written = ap (λ x. x.account_zp_state) left;
            covers = next.0;
            fewer = ap length next.1 ∙ length-drop n cover.to_come;
            last_within = λ j positive beyond.
                batch_within id n db cover.covered cover.to_come z j cover.parts ends beyond;
            same_version = supported;
          }
    ]
