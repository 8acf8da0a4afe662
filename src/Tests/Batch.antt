-- ===== src/Tests/Batch.antt =====
-- Runs of the batch policy and of the batch sink.
use discogs_sql_loader.Batch.Sink.{requeue, reject}
use discogs_sql_loader.Prelude.{
  ◌+◌, none, false, ℕ, String, Bool, ◌<◌, List, [], ◌∷◌, ◌≡◌, refl, some, if◌then◌else◌, ◌==◌,
}
use discogs_sql_loader.Batch.Config.{BatchConfig, post_init, valid}
use discogs_sql_loader.Batch.Sink.{Attempt, written, deterministic, write}
use discogs_sql_loader.Batch.Isolation.{any}
use discogs_sql_loader.Batch.Observer.{Watch, Event, accept, settlement, stalled, observe_all}
use discogs_sql_loader.Batch.Observer.Settled.{
  rejected_since_reset, acks, last_progress, observe_all-vetoes, stalled-progress,
}
use discogs_sql_loader.Batch.Sizes.{Sized, write_total}

-- a configuration that is accepted, in milliseconds
abbrev config : BatchConfig
config = record {
  batch_size = 500;
  flush_interval = 5000;
  max_pending = 1000;
  max_concurrent_flushes = 2;
  min_batch_size = 10;
  backoff_initial = 1000;
  backoff_max = 60000;
  backoff_multiplier = 2;
  max_flush_retries = 5;
  max_poison_retries = 5;
  max_hold = some 600000;
  max_requeues = some 5;
  max_write = some 300000;
}

accepted : post_init 10000 config ≡ valid config
unfolding post_init
accepted = refl

-- the record 7 is refused
abbrev seven : ℕ → Bool
seven m = m == 7

abbrev process_batch : List (List ℕ) → List ℕ → Attempt ℕ
process_batch db ms = if any seven ms then deterministic else written 0

abbrev outcome_of : ℕ → ℕ → String
outcome_of m r = "processed"

write_total_example : Sized 3 (write process_batch outcome_of [] (1 ∷ 7 ∷ 2 ∷ []))
write_total_example = write_total process_batch outcome_of [] (1 ∷ 7 ∷ 2 ∷ [])

-- nothing has happened yet
abbrev idle : Watch
idle = record {
  accepted_at = [];
  last_settled_at = 0;
  held_since = none;
  flush = none;
  had_dlq_nacks = false;
  processed_counts = 0;
  requeued_counts = 0;
  batch_counts = 0;
  media_backfilled_counts = 0;
  identity_backfilled_counts = 0;
}

-- two deliveries, one of them rejected and the other one returned
abbrev reports : List Event
reports =
    accept 1
    ∷ accept 2
    ∷ settlement 3 (record { settlement = reject; outcome = "poison" })
    ∷ settlement 4 (record { settlement = requeue; outcome = "held_timeout" })
    ∷ []

observe_all-vetoes_example :
    ((observe_all reports idle).had_dlq_nacks ≡ rejected_since_reset false reports)
    × ((observe_all reports idle).processed_counts ≡ 0 + acks reports)
observe_all-vetoes_example = observe_all-vetoes reports idle

reported : stalled 5 9 0 (observe_all reports idle) ≡ some 7
unfolding stalled observe_all
reported = refl

stalled-progress_example : (5 < 7) × (last_progress 0 reports + 5 < 9)
stalled-progress_example = stalled-progress reports idle 5 9 0 7 reported
