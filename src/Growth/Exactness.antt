-- ===== src/Growth/Exactness.antt =====
-- What the rows of the accounts say after any run.

use zephipay_backend.Common.{
  All, Bool, List, String, [], ap, arith, false, not, pos, refl, select, some, sym, true, ℤ, ◌++◌,
  ◌∙◌, ◌∷◌, ◌≡◌,
}
use zephipay_backend.Growth.Refinement.{ZpRun, ZpRun-ZpExact}
use zephipay_backend.Growth.Rounds.{ZpExact, of_actor}
use zephipay_backend.Common.Dict.{get}
use zephipay_backend.Growth.{AccountZpState, GrowthEvent, count_events, total_zp}
use zephipay_backend.Growth.Batches.{Ascending}
use zephipay_backend.Growth.Coverage.{Covers}
use zephipay_backend.Growth.Projection.{ZpDatabase}
use zephipay_backend.Store.Claims.{lt_ℤ}

abbrev pub empty_zp : ZpDatabase
empty_zp = record { growth_events = []; account_zp_state = [] }

pub empty-ZpExact : ZpExact empty_zp
unfolding Ascending get
empty-ZpExact = record {
  in_order = tt;
  positive_ids = tt;
  exact = λ id state h. absurd (ground arith);
  supported = λ id state h. absurd (ground arith);
  within = λ id state j h positive beyond. absurd (ground arith);
}

select-left :
    (q : GrowthEvent → Bool) (left right : List GrowthEvent)
    → All (λ e. q e ≡ true) left
    → All (λ e. q e ≡ false) right
    → select q (left ++ right) ≡ left
select-left q [] [] h g = refl
select-left q [] (e ∷ right) h g = ground (arith, select-left q [] right h g.1, g.0)
select-left q (e ∷ left) right h g = ground (arith, select-left q left right h.1 g, h.0)

All-not :
    (q : GrowthEvent → Bool) (b : Bool) (es : List GrowthEvent)
    → All (λ e. q e ≡ b) es
    → All (λ e. not (q e) ≡ not b) es
All-not q b [] h = tt
All-not q b (e ∷ es) h = (ap not h.0, All-not q b es h.1)

-- The events of an account up to an ID.
abbrev pub up_to : ℤ → String → ZpDatabase → List GrowthEvent
up_to last id db = select (λ e. not (lt_ℤ last e.event_id)) (of_actor id db.growth_events)

covered-up_to :
    (id : String) (db : ZpDatabase) (state : AccountZpState)
    → (c : Covers (of_actor id db.growth_events) state)
    → c.covered ≡ up_to state.last_growth_event_id id db
covered-up_to id db state c =
    let after : GrowthEvent → Bool = λ e. lt_ℤ state.last_growth_event_id e.event_id in
    sym (
      ap (select (λ e. not (after e))) c.parts
      ∙ select-left (λ e. not (after e)) c.covered c.to_come (All-not after false c.covered c.below)
          (All-not after true c.to_come c.above))

-- After any run from the empty tables, in which every event is recorded under a positive ID beyond
-- those before it, the row of an account holds the points and the counts that the policy gives the
-- account's events up to the last ID of the row.
pub zp_state_refines :
    (db : ZpDatabase) (id : String) (state : AccountZpState)
    → ZpRun empty_zp db
    → get id db.account_zp_state ≡ some state
    → (state.total_points ≡ pos (total_zp (up_to state.last_growth_event_id id db)))
      × (state.sent_count ≡ pos (count_events (up_to state.last_growth_event_id id db) 0 0).0)
      × (state.received_count ≡ pos (count_events (up_to state.last_growth_event_id id db) 0 0).1)
zp_state_refines db id state run h =
    let c = (ZpRun-ZpExact empty_zp db empty-ZpExact run).exact id state h in
    let is_covered = covered-up_to id db state c in
    (
      c.points ∙ ap (λ es. pos (total_zp es)) is_covered,
      c.sent_ones ∙ ap (λ es. pos (count_events es 0 0).0) is_covered,
      c.received_ones ∙ ap (λ es. pos (count_events es 0 0).1) is_covered,
    )
