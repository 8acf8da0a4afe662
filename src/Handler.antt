-- ===== src/Handler.antt =====
-- tableinator/tableinator.py: what `_process_data_message` keeps between deliveries, what it is
-- answered, and what it does to the broker and the database, in order. Calls of the broker itself
-- (ack, nack, cancel) succeed.
pub mod Terminal
pub mod Message
pub mod Effects
pub mod Settlement
pub mod Purges
pub mod Redelivery
pub mod Vetoes
use discogs_sql_loader.Prelude.{ℕ, String, Bool, List, [], ◌∷◌, Option}
use discogs_sql_loader.Text.{Text}
use discogs_sql_loader.Json.{Json}
use discogs_sql_loader.Latch.{LatchRow}
use discogs_sql_loader.Durable.{Durable}

-- `DATA_TYPES`
abbrev pub all_types : List String
all_types = "artists" ∷ "labels" ∷ "masters" ∷ "releases" ∷ []

-- the module's globals that a delivery reads: each says that the object is there
pub record Setup : Type 0 where
  pub connection_pool : Bool
  pub write_admission : Bool
  pub batch_processor : Bool
  pub batch_mode : Bool
  pub extraction_latch : Bool
  pub durable_refresh_active : Bool
  -- `CONSUMER_CANCEL_DELAY > 0`, and the data type has a queue
  pub cancels_consumers : Bool

-- the globals that deliveries change, the flags of the batch processor, and the latch relation, whose
-- columns of the inline and of the durable refresh are kept apart
pub record Service : Type 0 where
  pub completed_files : List String
  pub extraction_signalled : List String
  pub dlq_nacked : List String
  pub latches : List LatchRow
  pub durable : Durable

-- what the broker and the database answer during one delivery; `false` is an error
pub record Answers : Type 0 where
  pub now : ℕ
  pub shutdown_requested : Bool
  -- `flush_queue`
  pub flushed : Bool
  -- `dead_letters_waiting`
  pub dead_letters : Option ℕ
  pub veto_read : Bool
  pub veto_written : Bool
  pub purged : Bool
  pub durable_refresh_ready : Bool
  pub signal_committed : Bool
  pub refreshed : Bool
  -- `pause_durable_consumers`
  pub paused : Bool
  -- `add_message`; the record of one that raises stays with the handler
  pub submitted : Bool
  -- `normalize_record`
  pub normalized : Bool

pub data Effect : Type 0 where
  -- `purge_stale_rows`, by `started_at` and the record count
  purges : Json → Json → Effect
  -- `refresh_derived_relations` of a version, inline
  refreshes : Text → Effect
  -- `schedule_consumer_cancellation`, and the cancellation of one that is scheduled, if there is one
  schedules : Effect
  unschedules : Effect
  pauses : Effect
  -- `message.ack()`, and `message.nack` by `requeue`
  acks : Effect
  nacks : Bool → Effect
  -- the record goes to the batch processor, or to the delivery runner, which settles it
  submits : Effect
  delivers : Effect
