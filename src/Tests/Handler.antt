-- ===== src/Tests/Handler.antt =====
-- Runs of the message handler: a signal whose purge is vetoed, its redelivery, and a clean one.
use discogs_sql_loader.Prelude.{
  true, false, not, ◌&&◌, List, [], ◌∷◌, ◌≡◌, refl, some, if◌then◌else◌, contains, String-discrete,
  from_keys, add_keys, add_key,
}
use discogs_sql_loader.Text.{Text-discrete, codes}
use discogs_sql_loader.Json.{Json, obj, Fields, field, end, int, pos}
use discogs_sql_loader.Latch.{extraction_latch_key}
use discogs_sql_loader.Handler.{Setup, Service, Answers}
use discogs_sql_loader.Handler.Terminal.{extraction_complete}
use discogs_sql_loader.Handler.Message.{process_data_message}
use discogs_sql_loader.Handler.Effects.{is_purge, is_settlement, count}
use discogs_sql_loader.Handler.Settlement.{has, stays_open, settled_once}
use discogs_sql_loader.Handler.Purges.{is_vetoed, purges_only_when_safe}
use discogs_sql_loader.Handler.Redelivery.{Delivery, deliver}
use discogs_sql_loader.Handler.Vetoes.{acked_veto_holds}
use discogs_sql_loader.Tests.Samples.{common, text_json}
use discogs_sql_loader.Tests.Durable.{cutover}

abbrev setup : Setup
setup = record {
  connection_pool = true;
  write_admission = true;
  batch_processor = true;
  batch_mode = true;
  extraction_latch = true;
  durable_refresh_active = false;
  cancels_consumers = false;
}

abbrev service : Service
service = record {
  completed_files = [];
  extraction_signalled = [];
  dlq_nacked = "artists" ∷ [];
  latches = [];
  durable = cutover.store;
}

abbrev answers : Answers
answers = record {
  now = 3;
  shutdown_requested = false;
  flushed = true;
  dead_letters = some 0;
  veto_read = true;
  veto_written = true;
  purged = true;
  durable_refresh_ready = true;
  signal_committed = true;
  refreshed = true;
  paused = true;
  submitted = true;
  normalized = true;
}

abbrev counts : Json
counts = obj (field "labels" (int (pos 4)) end)

abbrev signal : Fields
signal = field "type" (text_json "extraction_complete") (
    field "version" (text_json "20250101")
      (field "started_at" (text_json "2025-01-02") (field "record_counts" counts end)))

abbrev delivered : List Delivery
delivered = record { answers = answers; data_type = "labels"; body = some (obj signal) } ∷ []

purges_only_when_safe_example :
    (setup.batch_processor && not answers.flushed ≡ false)
    × (setup.batch_processor && contains String-discrete "labels" service.dlq_nacked ≡ false)
    × (answers.dead_letters ≡ some 0)
    × (is_vetoed setup "labels" (extraction_latch_key common signal) service.latches ≡ false)
unfolding process_data_message Text-discrete String-discrete from_keys add_keys add_key
purges_only_when_safe_example =
    purges_only_when_safe common setup answers "labels" signal service refl

settled_once_example :
    count is_settlement
      (process_data_message common setup answers "labels" (some (obj signal)) service).1
    ≡ (if stays_open answers
          (process_data_message common setup answers "labels" (some (obj signal)) service).1
        then 0
        else 1)
settled_once_example = settled_once common setup answers "labels" (some (obj signal)) service

acked_veto_holds_example :
    has is_purge
      (process_data_message common setup answers "artists" (some (obj signal)) (
        deliver common setup delivered
          (extraction_complete common setup answers "artists" signal service).0)).1
    ≡ false
unfolding extraction_complete extraction_latch_key String-discrete Text-discrete from_keys add_keys
    add_key
acked_veto_holds_example =
    acked_veto_holds common setup answers answers (codes "20250101") "artists" signal signal
      delivered service refl refl refl refl refl
