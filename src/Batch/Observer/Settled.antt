-- ===== src/Batch/Observer/Settled.antt =====
-- What the observer's record says after any sequence of reports.
use discogs_sql_loader.Prelude.{
  ℕ, suc, ◌+◌, ◌<◌, ◌≡◌, refl, ◌∙◌, Bool, true, false, ◌||◌, List, [], ◌∷◌, some, arith,
}
use discogs_sql_loader.Batch.Sink.{Settlement, ack, reject, requeue}
use discogs_sql_loader.Batch.Observer.{
  stalled, Watch, DeliveryResult, Event, accept, withdraw, begin_flush, end_flush, wrote,
  settlement, reset_dlq, settled, observe, observe_all,
}

-- a rejection that no reset follows
abbrev pub is_reject : Settlement → Bool
is_reject reject = true
is_reject _ = false

unfoldable pub rejected_since_reset : Bool → List Event → Bool
rejected_since_reset before [] = before
rejected_since_reset before (settlement now r ∷ events) =
    rejected_since_reset (before || is_reject r.settlement) events
rejected_since_reset before (reset_dlq ∷ events) = rejected_since_reset false events
rejected_since_reset before (e ∷ events) = rejected_since_reset before events

unfoldable pub acks : List Event → ℕ
acks [] = 0
acks (settlement now r ∷ events) = elim r.settlement [
  | ack ↦ suc (acks events)
  | reject ↦ acks events
  | requeue ↦ acks events
]
acks (e ∷ events) = acks events

settled-dlq :
    (now : ℕ) (r : DeliveryResult) (w : Watch)
    → (settled now r w).had_dlq_nacks ≡ (w.had_dlq_nacks || is_reject r.settlement)
unfolding settled
settled-dlq now r w = ground arith

settled-processed :
    (now : ℕ) (r : DeliveryResult) (w : Watch)
    → (settled now r w).processed_counts ≡ (elim r.settlement [
      | ack ↦ suc w.processed_counts
      | reject ↦ w.processed_counts
      | requeue ↦ w.processed_counts
    ])
unfolding settled
settled-processed now r w = ground arith

-- After any reports, inside a flush or outside of one, the purge veto stands exactly if a delivery was
-- rejected since the last reset, or it stood before and there was no reset; a delivery that goes back
-- to the broker never raises it. The processed count has grown by the acknowledged deliveries.
pub observe_all-vetoes :
    (events : List Event) (w : Watch)
    → ((observe_all events w).had_dlq_nacks ≡ rejected_since_reset w.had_dlq_nacks events)
      × ((observe_all events w).processed_counts ≡ w.processed_counts + acks events)
unfolding observe_all observe rejected_since_reset acks
observe_all-vetoes [] w = (refl, omega arith)
observe_all-vetoes (settlement now r ∷ events) w =
    let (veto, count) = observe_all-vetoes events (settled now r w) in
    (veto ∙ ground (arith, settled-dlq now r w), count ∙ ground (arith, settled-processed now r w))
observe_all-vetoes (accept t ∷ events) w = observe_all-vetoes events _
observe_all-vetoes (withdraw t ∷ events) w = observe_all-vetoes events _
observe_all-vetoes (begin_flush size ∷ events) w = observe_all-vetoes events _
observe_all-vetoes (end_flush ∷ events) w = observe_all-vetoes events _
observe_all-vetoes (wrote n ∷ events) w = observe_all-vetoes events _
observe_all-vetoes (reset_dlq ∷ events) w = observe_all-vetoes events _

-- the last settlement that dealt with a record, or the start
unfoldable pub last_progress : ℕ → List Event → ℕ
last_progress before [] = before
last_progress before (settlement now r ∷ events) =
    last_progress (elim r.settlement [ ack ↦ now | reject ↦ now | requeue ↦ before ]) events
last_progress before (e ∷ events) = last_progress before events

settled-progress :
    (now : ℕ) (r : DeliveryResult) (w : Watch)
    → (settled now r w).last_settled_at
      ≡ (elim r.settlement [ ack ↦ now | reject ↦ now | requeue ↦ w.last_settled_at ])
unfolding settled
settled-progress now r w = ground arith

observe_all-progress :
    (events : List Event) (w : Watch)
    → (observe_all events w).last_settled_at ≡ last_progress w.last_settled_at events
unfolding observe_all observe last_progress
observe_all-progress [] w = refl
observe_all-progress (settlement now r ∷ events) w =
    observe_all-progress events (settled now r w) ∙ ground (arith, settled-progress now r w)
observe_all-progress (accept t ∷ events) w = observe_all-progress events _
observe_all-progress (withdraw t ∷ events) w = observe_all-progress events _
observe_all-progress (begin_flush size ∷ events) w = observe_all-progress events _
observe_all-progress (end_flush ∷ events) w = observe_all-progress events _
observe_all-progress (wrote n ∷ events) w = observe_all-progress events _
observe_all-progress (reset_dlq ∷ events) w = observe_all-progress events _

-- After any reports, a type is not reported as stalled within the stall time of the last delivery that
-- was acknowledged or rejected, or of the start, however old what it holds is; and when it is reported,
-- its age exceeds the stall time. A delivery that goes back to the broker is no progress.
pub stalled-progress :
    (events : List Event) (w : Watch) (stall now queued age : ℕ)
    → stalled stall now queued (observe_all events w) ≡ some age
    → (stall < age) × (last_progress w.last_settled_at events + stall < now)
unfolding stalled
stalled-progress events w stall now queued age h = ground (arith, observe_all-progress events w)
