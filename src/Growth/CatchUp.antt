-- ===== src/Growth/CatchUp.antt =====
-- Enough projections of an account reach every event of it.

-- The events of an account that its row has not reached.
use zephipay_backend.Accounts.Types.{is_uuid}
use zephipay_backend.Common.{
  Bool, List, String, [], ap, arith, eq_refl, length, pos, refl, select, some, subst, suc, sym,
  true, zero, ℕ, ◌*◌, ◌++◌, ◌-◌, ◌∙◌, ◌∷◌, ◌≡◌, ◌≤◌,
}
use zephipay_backend.Common.Dict.{get, get-set}
use zephipay_backend.Growth.{AccountZpState, GrowthEvent, count_events, total_zp}
use zephipay_backend.Growth.Coverage.{Covers, select-part}
use zephipay_backend.Growth.Projection.{
  ZpDatabase, batch_limit, last_projected, project_account, project_batch, state_or_fresh,
}
use zephipay_backend.Growth.Refinement.{Projected-ZpExact}
use zephipay_backend.Growth.Rounds.{
  Projected, ZpExact, of_actor, prior-Covers, project_batch-Projected,
}
use zephipay_backend.Json.{Double}
use zephipay_backend.Store.Claims.{lt_ℤ}

abbrev pub pending_events : String → ZpDatabase → List GrowthEvent
pending_events id db =
    select (λ e. lt_ℤ (last_projected db.account_zp_state id) e.event_id)
      (of_actor id db.growth_events)

-- `n` projections of one account, one after another.
unfoldable pub project_times : ℕ → String → Double → String → String → ZpDatabase → ZpDatabase
project_times zero id limit c d db = db
project_times (suc n) id limit c d db =
    (project_account id limit c d (project_times n id limit c d db)).1

to_come_lem :
    (es : List GrowthEvent) (state : AccountZpState)
    → (c : Covers es state)
    → c.to_come ≡ select (λ e. lt_ℤ state.last_growth_event_id e.event_id) es
to_come_lem es state c =
    let after : GrowthEvent → Bool = λ e. lt_ℤ state.last_growth_event_id e.event_id in
    sym (ap (select after) c.parts ∙ select-part after c.covered c.to_come c.below c.above)

last_of_prior :
    (id at : String) (db : ZpDatabase)
    → (state_or_fresh id at db).last_growth_event_id ≡ last_projected db.account_zp_state id
last_of_prior id at db = ground arith

prior_pending :
    (id at : String) (db : ZpDatabase) (inv : ZpExact db)
    → (prior-Covers id at db inv).to_come ≡ pending_events id db
prior_pending id at db inv =
    to_come_lem (of_actor id db.growth_events) (state_or_fresh id at db) (prior-Covers id at db inv)
    ∙ ap (λ l. select (λ e. lt_ℤ l e.event_id) (of_actor id db.growth_events))
        (last_of_prior id at db)

Projected-row :
    (id : String) (n : ℕ) (db db' : ZpDatabase) (before : List GrowthEvent)
    → (p : Projected id n db before db') → get id db'.account_zp_state ≡ some p.state
Projected-row id n db db' before p =
    ground (arith, p.row_written, get-set id id p.state db.account_zp_state, eq_refl id)

Projected-pending :
    (id : String) (n : ℕ) (db db' : ZpDatabase) (before : List GrowthEvent)
    → (p : Projected id n db before db') → pending_events id db' ≡ p.covers.to_come
Projected-pending id n db db' before p =
    let last : last_projected db'.account_zp_state id ≡ p.state.last_growth_event_id =
      ground (arith, Projected-row id n db db' before p) in
    ap (λ l. select (λ e. lt_ℤ l e.event_id) (of_actor id db'.growth_events)) last
    ∙ ap (λ rows. select (λ e. lt_ℤ p.state.last_growth_event_id e.event_id) (of_actor id rows))
        p.rows_kept
    ∙ sym (to_come_lem (of_actor id db.growth_events) p.state p.covers)

project_account-batch :
    (id : String) (limit : Double) (n : ℕ) (c d : String) (db : ZpDatabase)
    → is_uuid id ≡ true
    → batch_limit limit ≡ some n
    → project_account id limit c d db ≡ project_batch id n c d db
unfolding project_account
project_account-batch id limit n c d db good h = ground arith

-- What some projections of one account leave: exact tables, the same events, and fewer to come.
record Lessened (id : String) (taken : ℕ) (db db' : ZpDatabase) : Type 0 where
  pub still_exact : ZpExact db'
  pub same_rows : db'.growth_events ≡ db.growth_events
  pub lessened : length (pending_events id db') ≡ length (pending_events id db) - taken

projected-Lessened :
    (id : String) (limit : Double) (n : ℕ) (c d : String) (db : ZpDatabase)
    → is_uuid id ≡ true
    → batch_limit limit ≡ some n
    → ZpExact db
    → Lessened id n db (project_account id limit c d db).1
projected-Lessened id limit n c d db good h inv =
    let db' = (project_batch id n c d db).1 in
    let p = project_batch-Projected id n c d db inv in
    let before = (prior-Covers id c db inv).to_come in
    subst (λ r. Lessened id n db r.1) (sym (project_account-batch id limit n c d db good h))
      (record {
        still_exact = Projected-ZpExact id n db db' before inv p;
        same_rows = p.rows_kept;
        lessened = omega (
          arith,
          ap length (Projected-pending id n db db' before p),
          p.fewer,
          ap length (prior_pending id c db inv),
        );
      })

project_times-Lessened :
    (k : ℕ) (id : String) (limit : Double) (n : ℕ) (c d : String) (db : ZpDatabase)
    → is_uuid id ≡ true
    → batch_limit limit ≡ some n
    → ZpExact db
    → Lessened id (k * n) db (project_times k id limit c d db)
unfolding project_times
project_times-Lessened zero id limit n c d db good h inv = record {
  still_exact = inv;
  same_rows = refl;
  lessened = omega arith;
}
project_times-Lessened (suc k) id limit n c d db good h inv =
    let before = project_times-Lessened k id limit n c d db good h inv in
    let now =
      projected-Lessened id limit n c d (project_times k id limit c d db) good h
        before.still_exact in
    record {
      still_exact = now.still_exact;
      same_rows = now.same_rows ∙ before.same_rows;
      lessened = omega (arith, now.lessened, before.lessened);
    }

nothing_left : (es : List GrowthEvent) → length es ≡ 0 → es ≡ []
nothing_left [] h = refl
nothing_left (e ∷ es) h = absurd (omega arith)

append_nil : (xs : List GrowthEvent) → xs ++ [] ≡ xs
append_nil [] = refl
append_nil (x ∷ xs) = ap (λ r. x ∷ r) (append_nil xs)

pub all_covered :
    (es : List GrowthEvent) (state : AccountZpState)
    → (c : Covers es state)
    → length (select (λ e. lt_ℤ state.last_growth_event_id e.event_id) es) ≡ 0
    → c.covered ≡ es
all_covered es state c h =
    let none_left = nothing_left c.to_come (ap length (to_come_lem es state c) ∙ h) in
    sym (c.parts ∙ ap (λ r. c.covered ++ r) none_left ∙ append_nil c.covered)

-- On exact tables, k + 1 projections of an account under a canonical ID, in batches of an accepted
-- limit n with at most (k + 1) * n of its events pending, leave its row at the points and the counts
-- that the policy gives all of its events.
pub projections_catch_up :
    (k : ℕ) (id : String) (limit : Double) (n : ℕ) (c d : String) (db : ZpDatabase)
    → ZpExact db
    → is_uuid id ≡ true
    → batch_limit limit ≡ some n
    → length (pending_events id db) ≤ suc k * n
    → (state : AccountZpState) × (get id (project_times (suc k) id limit c d db).account_zp_state
        ≡ some state)
      × (state.total_points ≡ pos (total_zp (of_actor id db.growth_events)))
      × (state.sent_count ≡ pos (count_events (of_actor id db.growth_events) 0 0).0)
      × (state.received_count ≡ pos (count_events (of_actor id db.growth_events) 0 0).1)
unfolding project_times
projections_catch_up k id limit n c d db inv good h enough =
    let before = project_times k id limit c d db in
    let kept = project_times-Lessened k id limit n c d db good h inv in
    let done = project_times-Lessened (suc k) id limit n c d db good h inv in
    let p = project_batch-Projected id n c d before kept.still_exact in
    let db' = (project_batch id n c d before).1 in
    let prior = (prior-Covers id c before kept.still_exact).to_come in
    let is_batch = project_account-batch id limit n c d before good h in
    let row = Projected-row id n before db' prior p in
    let left : length (pending_events id db') ≡ 0 =
      omega (arith, ap (λ r. length (pending_events id r.1)) is_batch, done.lessened) in
    let rows : of_actor id before.growth_events ≡ of_actor id db.growth_events =
      ap (of_actor id) kept.same_rows in
    let everything =
      all_covered (of_actor id before.growth_events) p.state p.covers (
        sym (ap length (to_come_lem (of_actor id before.growth_events) p.state p.covers))
        ∙ sym (ap length (Projected-pending id n before db' prior p))
        ∙ left)
      ∙ rows in
    (
      p.state,
      ap (λ r. get id r.1.account_zp_state) is_batch ∙ row,
      p.covers.points ∙ ap (λ es. pos (total_zp es)) everything,
      p.covers.sent_ones ∙ ap (λ es. pos (count_events es 0 0).0) everything,
      p.covers.received_ones ∙ ap (λ es. pos (count_events es 0 0).1) everything,
    )
