-- ===== src/Growth/Coverage.antt =====
-- What the row of an account covers of the events, and that a batch carries it on: the projection
-- refines the totals of the policy.

use zephipay_backend.Common.{
  All, All-append, Bool, List, String, [], ap, arith, false, last?, pos, refl, select, some, subst,
  sym, take, true, ℕ, ℤ, ◌&&◌, ◌++◌, ◌+◌, ◌∙◌, ◌∷◌, ◌≡◌,
}
use zephipay_backend.Growth.{
  AccountZpState, GrowthEvent, count_events, evaluate_zp_event, total_from, total_zp,
}
use zephipay_backend.Growth.Batches.{
  After, All-last?, All-take, Ascending, Ascending-right, UpTo, append_assoc, batch_parts, drop,
  lt_ℤ_between, take-drop,
}
use zephipay_backend.Growth.Projection.{add_points, advanced_state, apply_events}
use zephipay_backend.Store.Claims.{lt_ℤ}

pub apply_events_lem :
    (es : List GrowthEvent) (t s r : ℕ)
    → apply_events es (pos t, pos s, pos r)
      ≡ (pos (total_from t es), pos (count_events es s r).0, pos (count_events es s r).1)
unfolding apply_events add_points total_from count_events evaluate_zp_event
apply_events_lem [] t s r = refl
apply_events_lem (e ∷ es) t s r = ground (
  arith,
  apply_events_lem es t s r,
  apply_events_lem es (t + 10) (s + 1) r,
  apply_events_lem es (t + 5) s (r + 1),
)

total_from-append :
    (xs ys : List GrowthEvent) (t : ℕ) → total_from t (xs ++ ys) ≡ total_from (total_from t xs) ys
unfolding total_from
total_from-append [] ys t = refl
total_from-append (x ∷ xs) ys t = total_from-append xs ys (t + (evaluate_zp_event x).points)

count_events-append :
    (xs ys : List GrowthEvent) (s r : ℕ)
    → count_events (xs ++ ys) s r ≡ count_events ys (count_events xs s r).0 (count_events xs s r).1
unfolding count_events
count_events-append [] ys s r = refl
count_events-append (x ∷ xs) ys s r = ground (
  arith,
  count_events-append xs ys s r,
  count_events-append xs ys (s + 1) r,
  count_events-append xs ys s (r + 1),
  count_events-append xs ys (s + 1) (r + 1),
)

pub select_and :
    (p q : GrowthEvent → Bool) (rows : List GrowthEvent)
    → select (λ e. p e && q e) rows ≡ select q (select p rows)
select_and p q [] = refl
select_and p q (e ∷ rows) = ground (arith, select_and p q rows)

pub select-part :
    (q : GrowthEvent → Bool) (left right : List GrowthEvent)
    → All (λ e. q e ≡ false) left
    → All (λ e. q e ≡ true) right
    → select q (left ++ right) ≡ right
select-part q [] [] h g = refl
select-part q [] (e ∷ right) h g = ground (arith, select-part q [] right h g.1, g.0)
select-part q (e ∷ left) right h g = ground (arith, select-part q left right h.1 g, h.0)

-- The row of an account against the account's events: what is covered lies up to the last ID, what is
-- still to come after it, and the counters are those of what is covered.
pub record Covers (es : List GrowthEvent) (state : AccountZpState) : Type 0 where
  pub covered : List GrowthEvent
  pub to_come : List GrowthEvent
  pub parts : es ≡ covered ++ to_come
  pub below : All (UpTo state.last_growth_event_id) covered
  pub above : All (After state.last_growth_event_id) to_come
  pub points : state.total_points ≡ pos (total_zp covered)
  pub sent_ones : state.sent_count ≡ pos (count_events covered 0 0).0
  pub received_ones : state.received_count ≡ pos (count_events covered 0 0).1

UpTo-later :
    (last new : ℤ) (es : List GrowthEvent)
    → lt_ℤ last new ≡ true
    → All (UpTo last) es
    → All (UpTo new) es
UpTo-later last new [] h g = tt
UpTo-later last new (e ∷ es) h g =
    (lt_ℤ_between last new e.event_id g.0 h, UpTo-later last new es h g.1)

-- A batch that ends in z carries what is covered on by the batch.
pub advanced-Covers :
    (es : List GrowthEvent) (state : AccountZpState) (n : ℕ) (z : GrowthEvent) (at : String)
    → Ascending es
    → (cover : Covers es state) → last? (take n cover.to_come) ≡ some z
    → (next : Covers es (advanced_state state (take n cover.to_come) z.event_id at)) × (next.to_come
        ≡ drop n cover.to_come)
unfolding advanced_state total_zp
advanced-Covers es state n z at up cover h =
    let batch = take n cover.to_come in
    let last = state.last_growth_event_id in
    let (taken, rest) =
      batch_parts n cover.to_come z
        (Ascending-right cover.covered cover.to_come (subst Ascending cover.parts up)) h in
    let z_after =
      All-last? (After last) z batch (All-take (After last) n cover.to_come cover.above) h in
    let applied =
      apply_events_lem batch (total_from 0 cover.covered) (count_events cover.covered 0 0).0
        (count_events cover.covered 0 0).1 in
    (
      record {
        covered = cover.covered ++ batch;
        to_come = drop n cover.to_come;
        parts =
            cover.parts
            ∙ ap (λ r. cover.covered ++ r) (sym (take-drop n cover.to_come))
            ∙ sym (append_assoc cover.covered batch (drop n cover.to_come));
        below =
            All-append (UpTo z.event_id) cover.covered batch
              (UpTo-later last z.event_id cover.covered z_after cover.below) taken;
        above = rest;
        points = ground (
          arith,
          applied,
          cover.points,
          cover.sent_ones,
          cover.received_ones,
          total_from-append cover.covered batch 0,
        );
        sent_ones = ground (
          arith,
          applied,
          cover.points,
          cover.sent_ones,
          cover.received_ones,
          count_events-append cover.covered batch 0 0,
        );
        received_ones = ground (
          arith,
          applied,
          cover.points,
          cover.sent_ones,
          cover.received_ones,
          count_events-append cover.covered batch 0 0,
        );
      },
      refl,
    )
