-- ===== src/Growth/Refinement.antt =====
-- Runs of recorded events and projections: the rows of the accounts refine the totals of the policy,
-- and enough projections of an account reach all of its events.

use zephipay_backend.Accounts.Types.{is_uuid}
use zephipay_backend.Common.{
  All, All-append, Bool, Bool-cases, List, Option-cases, String, [], ap, arith, eq_iff,
  if◌then◌else◌, inl, inr, pos, refl, select, some, subst, sym, true, ℕ, ℤ, ◌++◌, ◌==◌, ◌∙◌, ◌∷◌,
  ◌≡◌,
}
use zephipay_backend.Common.Dict.{get, get-set}
use zephipay_backend.Growth.{AccountZpState, GrowthEvent}
use zephipay_backend.Growth.Batches.{After, All-left, Ascending, append_assoc}
use zephipay_backend.Growth.Coverage.{Covers}
use zephipay_backend.Growth.Projection.{ZpDatabase, batch_limit, project_account, project_batch}
use zephipay_backend.Growth.Rounds.{
  All-select, Projected, ZpExact, of_actor, prior-Covers, project_batch-Projected,
}
use zephipay_backend.Json.{Double}
use zephipay_backend.Store.Claims.{lt_ℤ}

read_row :
    (id k : String) (n : ℕ) (db db' : ZpDatabase) (before : List GrowthEvent)
    → (p : Projected id n db before db')
    → get k db'.account_zp_state ≡ (if id == k then some p.state else get k db.account_zp_state)
read_row id k n db db' before p =
    ground (arith, p.row_written, get-set id k p.state db.account_zp_state)

covers_again :
    (id k : String) (n : ℕ) (db db' : ZpDatabase) (before : List GrowthEvent)
    (state : AccountZpState)
    → ZpExact db
    → Projected id n db before db'
    → get k db'.account_zp_state ≡ some state
    → Covers (of_actor k db.growth_events) state
covers_again id k n db db' before state inv p h = elim (Bool-cases (id == k)) [
  | inl same ↦
      let at : id ≡ k = ground (arith, same, eq_iff id k) in
      let is_it : p.state ≡ state = ground (arith, read_row id k n db db' before p, same, h) in
      subst (λ j. Covers (of_actor j db.growth_events) state) at
        (subst (Covers (of_actor id db.growth_events)) is_it p.covers)
  | inr other ↦ inv.exact k state (ground (arith, read_row id k n db db' before p, other, h))
]

within_again :
    (id k : String) (n : ℕ) (db db' : ZpDatabase) (before : List GrowthEvent)
    (state : AccountZpState) (j : ℤ)
    → ZpExact db
    → Projected id n db before db'
    → get k db'.account_zp_state ≡ some state
    → lt_ℤ (pos 0) j ≡ true
    → All (λ e. lt_ℤ e.event_id j ≡ true) db.growth_events
    → lt_ℤ state.last_growth_event_id j ≡ true
within_again id k n db db' before state j inv p h positive beyond = elim (Bool-cases (id == k)) [
  | inl same ↦
      let is_it : p.state ≡ state = ground (arith, read_row id k n db db' before p, same, h) in
      subst (λ x. lt_ℤ x.last_growth_event_id j ≡ true) is_it (p.last_within j positive beyond)
  | inr other ↦
      inv.within k state j (ground (arith, read_row id k n db db' before p, other, h)) positive
        beyond
]

pub Projected-ZpExact :
    (id : String) (n : ℕ) (db db' : ZpDatabase) (before : List GrowthEvent)
    → ZpExact db
    → Projected id n db before db'
    → ZpExact db'
Projected-ZpExact id n db db' before inv p = record {
  in_order = subst Ascending (sym p.rows_kept) inv.in_order;
  positive_ids = subst (All (After (pos 0))) (sym p.rows_kept) inv.positive_ids;
  exact = λ k state h.
      subst (λ rows. Covers (of_actor k rows) state) (sym p.rows_kept)
        (covers_again id k n db db' before state inv p h);
  supported = λ k state h.
      ground (arith, read_row id k n db db' before p, h, p.same_version, inv.supported k state);
  within = λ k state j h positive beyond.
      within_again id k n db db' before state j inv p h positive
        (subst (All (λ e. lt_ℤ e.event_id j ≡ true)) p.rows_kept beyond);
}

project_account-ZpExact :
    (id : String) (limit : Double) (c d : String) (db : ZpDatabase)
    → ZpExact db
    → ZpExact (project_account id limit c d db).1
unfolding project_account
project_account-ZpExact id limit c d db inv = elim (Bool-cases (is_uuid id)) [
  | inr bad ↦ subst ZpExact (ground (arith, bad)) inv
  | inl good ↦ elim (Option-cases (batch_limit limit)) [
    | inl refused ↦ subst ZpExact (ground (arith, good, refused)) inv
    | inr (n, in_bounds) ↦ subst ZpExact (ground (arith, good, in_bounds)) (
        Projected-ZpExact id n db (project_batch id n c d db).1 (prior-Covers id c db inv).to_come
          inv (project_batch-Projected id n c d db inv))
  ]
]

-- A run: events are recorded, each under an ID beyond those before it, and accounts projected.
pub data ZpRun (first : ZpDatabase) : ZpDatabase → Type 0 where
  no_steps : ZpRun first first
  then_recorded :
      {db : ZpDatabase} (e : GrowthEvent)
      → ZpRun first db
      → lt_ℤ (pos 0) e.event_id ≡ true
      → All (λ f. lt_ℤ f.event_id e.event_id ≡ true) db.growth_events
      → ZpRun first (record db { growth_events = db.growth_events ++ e ∷ [] })
  then_projected :
      {db : ZpDatabase} (id : String) (limit : Double) (inserted updated_at : String)
      → ZpRun first db
      → ZpRun first (project_account id limit inserted updated_at db).1

Ascending-append :
    (es : List GrowthEvent) (e : GrowthEvent)
    → Ascending es
    → All (λ f. lt_ℤ f.event_id e.event_id ≡ true) es
    → Ascending (es ++ e ∷ [])
unfolding Ascending
Ascending-append [] e h g = (tt, tt)
Ascending-append (f ∷ es) e h g =
    (All-append (After f.event_id) es (e ∷ []) h.0 (g.0, tt), Ascending-append es e h.1 g.1)

select-append :
    (p : GrowthEvent → Bool) (xs ys : List GrowthEvent)
    → select p (xs ++ ys) ≡ select p xs ++ select p ys
select-append p [] ys = refl
select-append p (x ∷ xs) ys = ground (arith, select-append p xs ys)

appended-Covers :
    (es new : List GrowthEvent) (state : AccountZpState)
    → Covers es state
    → All (After state.last_growth_event_id) new
    → Covers (es ++ new) state
appended-Covers es new state c h = record {
  covered = c.covered;
  to_come = c.to_come ++ new;
  parts = ap (λ r. r ++ new) c.parts ∙ append_assoc c.covered c.to_come new;
  below = c.below;
  above = All-append (After state.last_growth_event_id) c.to_come new c.above h;
  points = c.points;
  sent_ones = c.sent_ones;
  received_ones = c.received_ones;
}

recorded-ZpExact :
    (e : GrowthEvent) (db : ZpDatabase)
    → ZpExact db
    → lt_ℤ (pos 0) e.event_id ≡ true
    → All (λ f. lt_ℤ f.event_id e.event_id ≡ true) db.growth_events
    → ZpExact (record db { growth_events = db.growth_events ++ e ∷ [] })
recorded-ZpExact e db inv positive beyond = record {
  in_order = Ascending-append db.growth_events e inv.in_order beyond;
  positive_ids =
      All-append (After (pos 0)) db.growth_events (e ∷ []) inv.positive_ids (positive, tt);
  exact = λ k state h.
      subst (λ es. Covers es state)
        (sym (select-append (λ f. f.actor_account_id == k) db.growth_events (e ∷ [])))
        (appended-Covers (of_actor k db.growth_events) (of_actor k (e ∷ [])) state
          (inv.exact k state h)
          (All-select (After state.last_growth_event_id) (λ f. f.actor_account_id == k) (e ∷ [])
            (inv.within k state e.event_id h positive beyond, tt)));
  supported = inv.supported;
  within = λ k state j h above_zero all_before.
      inv.within k state j h above_zero
        (All-left (λ f. lt_ℤ f.event_id j ≡ true) db.growth_events (e ∷ []) all_before);
}

pub ZpRun-ZpExact : (first db : ZpDatabase) → ZpExact first → ZpRun first db → ZpExact db
ZpRun-ZpExact first db inv no_steps = inv
ZpRun-ZpExact first db inv (then_recorded {db = before} e run positive beyond) =
    recorded-ZpExact e before (ZpRun-ZpExact first before inv run) positive beyond
ZpRun-ZpExact first db inv (then_projected {db = before} id limit c d run) =
    project_account-ZpExact id limit c d before (ZpRun-ZpExact first before inv run)
