-- ===== src/Batch/Observer.antt =====
-- `PostgreSQLBatchObserver` of tableinator/batch_processor.py for one data type: what it keeps of the
-- engine's reports. Metrics, spans and log lines are left out, and one clock stands for the two that
-- the source reads.
pub mod Settled
use discogs_sql_loader.Prelude.{
  ℕ, suc, ◌+◌, ◌-◌, ◌≡◌, String, Bool, true, false, ◌&&◌, List, [], ◌∷◌, ◌++◌, Option, none, some,
  if◌then◌else◌, ◌is◌, ◌==◌, length, ltb,
}
use discogs_sql_loader.Batch.Sink.{Settlement, ack, reject, requeue}

-- `_FlushState`, without what only the log lines read
pub record FlushState : Type 0 where
  pub size : ℕ
  pub settled : ℕ
  pub rejected : ℕ
  pub identity_backfilled : ℕ

-- `DeliveryResult`
pub record DeliveryResult : Type 0 where
  pub settlement : Settlement
  pub outcome : String

pub record Watch : Type 0 where
  pub accepted_at : List ℕ
  pub last_settled_at : ℕ
  pub held_since : Option ℕ
  pub flush : Option FlushState
  pub had_dlq_nacks : Bool
  pub processed_counts : ℕ
  pub requeued_counts : ℕ
  pub batch_counts : ℕ
  pub media_backfilled_counts : ℕ
  pub identity_backfilled_counts : ℕ

abbrev is_none : Option ℕ → Bool
is_none none = true
is_none (some t) = false

-- `deque.remove` of the first equal entry, its `ValueError` suppressed
unfoldable pub remove : ℕ → List ℕ → List ℕ
remove t [] = []
remove t (u ∷ us) = if t == u then us else u ∷ remove t us

-- `accepted.popleft() if accepted else` the time now
abbrev oldest : ℕ → List ℕ → ℕ
oldest now [] = now
oldest now (t ∷ ts) = t

abbrev later : List ℕ → List ℕ
later [] = []
later (t ∷ ts) = ts

-- `state.settled += 1`, and `state.rejected += 1` unless it was acknowledged
abbrev counted : Settlement → FlushState → FlushState
counted ack s = record s { settled = suc s.settled }
counted _ s = record s { settled = suc s.settled; rejected = suc s.rejected }

abbrev counted_in : Settlement → Option FlushState → Option FlushState
counted_in settlement none = none
counted_in settlement (some s) = some (counted settlement s)

-- `held_since` after a requeue
abbrev held : ℕ → String → Watch → Option ℕ
held now outcome w =
    if outcome is "held_timeout" && is_none w.held_since
    then some (now - (now - oldest now w.accepted_at))
    else w.held_since

-- what the settlement itself changes
abbrev settle : ℕ → DeliveryResult → Watch → Watch
settle now r w = elim r.settlement [
  | ack ↦ record w {
    accepted_at = later w.accepted_at;
    last_settled_at = now;
    held_since = none;
    flush = counted_in ack w.flush;
    processed_counts = suc w.processed_counts;
    media_backfilled_counts =
        if r.outcome is "media_backfilled"
        then suc w.media_backfilled_counts
        else w.media_backfilled_counts;
  }
  | reject ↦ record w {
    accepted_at = later w.accepted_at;
    last_settled_at = now;
    held_since = none;
    flush = counted_in reject w.flush;
    had_dlq_nacks = true;
  }
  | requeue ↦ record w {
    accepted_at = later w.accepted_at;
    held_since = held now r.outcome w;
    flush = counted_in requeue w.flush;
    requeued_counts = suc w.requeued_counts;
  }
]

-- a flush all of whose deliveries are settled, none of them rejected or returned
abbrev flushed : Option FlushState → Watch → Watch
flushed none w = w
flushed (some s) w =
    if s.settled == s.size && s.rejected == 0
    then record w {
      batch_counts = suc w.batch_counts;
      identity_backfilled_counts = w.identity_backfilled_counts + s.identity_backfilled;
    }
    else w

unfoldable pub settled : ℕ → DeliveryResult → Watch → Watch
settled now r w = let after = settle now r w in flushed after.flush after

-- the reports, in the order in which they arrive
pub data Event : Type 0 where
  accept withdraw : ℕ → Event
  begin_flush : ℕ → Event
  end_flush : Event
  wrote : ℕ → Event
  settlement : ℕ → DeliveryResult → Event
  reset_dlq : Event

abbrev wrote_in : ℕ → Option FlushState → Option FlushState
wrote_in n none = none
wrote_in n (some s) = some (record s { identity_backfilled = s.identity_backfilled + n })

unfoldable pub observe : Event → Watch → Watch
unfolding settled remove
observe (accept t) w = record w { accepted_at = w.accepted_at ++ t ∷ [] }
observe (withdraw t) w = record w { accepted_at = remove t w.accepted_at }
observe (begin_flush size) w = record w {
  flush = some (record { size = size; settled = 0; rejected = 0; identity_backfilled = 0 });
}
observe end_flush w = record w { flush = none }
observe (wrote n) w = record w { flush = wrote_in n w.flush }
observe (settlement now r) w = settled now r w
observe reset_dlq w = record w { had_dlq_nacks = false }

unfoldable pub observe_all : List Event → Watch → Watch
unfolding observe
observe_all [] w = w
observe_all (e ∷ events) w = observe_all events (observe e w)

abbrev greater : ℕ → ℕ → ℕ
greater a b = if ltb a b then b else a

abbrev age_of : ℕ → List ℕ → ℕ
age_of now [] = 0
age_of now (t ∷ ts) = now - t

abbrev held_age : ℕ → Option ℕ → ℕ
held_age now none = 0
held_age now (some since) = now - since

-- `stalled` for one type: the age that it is reported with; `queued` is the engine's age of what is
-- still queued
unfoldable pub stalled : ℕ → ℕ → ℕ → Watch → Option ℕ
stalled stall now queued w =
    let age = greater (greater queued (age_of now w.accepted_at)) (held_age now w.held_since) in
    if ltb stall age && ltb stall (now - w.last_settled_at) then some age else none
