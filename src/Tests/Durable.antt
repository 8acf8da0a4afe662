-- ===== src/Tests/Durable.antt =====
-- Runs of the durable refresh: a latch from before the cutover, then a newer dump.
use discogs_sql_loader.Prelude.{
  String, true, List, [], ◌∷◌, ◌≡◌, ◌⊎◌, refl, none, some, ltb, arith, contains, String-discrete,
  from_keys, add_keys, add_key,
}
use discogs_sql_loader.Text.{Text, Text-discrete, codes, value, strip}
use discogs_sql_loader.Table.{at_row, find, update}
use discogs_sql_loader.Durable.{DurableLatch, unknown_type, unordered_version, find_latch}
use discogs_sql_loader.Durable.Version.{text_lt, ordered_text}
use discogs_sql_loader.Durable.Version.Order.{ordered_text-value}
use discogs_sql_loader.Durable.Signal.{record_durable_signal}
use discogs_sql_loader.Durable.Job.{ClaimedJob, owns_lease}
use discogs_sql_loader.Durable.System.{System, Event, signal, startup, claim, commit, run}
use discogs_sql_loader.Durable.Reachable.{Cutover, is_legacy}
use discogs_sql_loader.Durable.Obligations.{
  HasActiveJob, owed-has_job, one_owner, record_durable_signal-refuses,
}
use discogs_sql_loader.Durable.Published.{published, increasing, published-increasing}
use discogs_sql_loader.Durable.Progress.{CanRefresh, owed-CanRefresh}
use discogs_sql_loader.Tests.Samples.{common, text_json}

abbrev types : List String
types = "artists" ∷ "labels" ∷ []

abbrev old : Text
old = codes "20240101"

abbrev new : Text
new = codes "20250101"

abbrev old_latch : DurableLatch
old_latch = record {
  version = old;
  generation = none;
  signals = "artists" ∷ "labels" ∷ [];
  refreshed_at = none;
}

abbrev pub cutover : System
cutover = record {
  store = record {
    clock = 5;
    cursor = record { generation = 0; version = none };
    latches = old_latch ∷ [];
    jobs = [];
  };
  claims = [];
}

cutover_legacy : (v : Text) → is_legacy v (find_latch v (old_latch ∷ [])) ≡ true
unfolding find Text-discrete strip
cutover_legacy v = at_row Text-discrete v old is_legacy none (some old_latch) refl (ground arith)

cutover-Cutover : Cutover cutover
cutover-Cutover = record {
  no_cursor = refl;
  no_jobs = refl;
  no_claims = refl;
  legacy_latches = cutover_legacy;
}

abbrev newer : List Event
newer =
    startup
    ∷ claim "a" 7
    ∷ commit 0
    ∷ signal (text_json "20250101") "artists"
    ∷ signal (text_json "20250101") "labels"
    ∷ claim "b" 8
    ∷ commit 1
    ∷ commit 0
    ∷ []

abbrev first_claim : ClaimedJob
first_claim = record { version = old; generation = 1; token = 7; epoch = 1; attempt_count = 1 }

ordered_text-value_example : text_lt old new ≡ ltb (value old) (value new)
unfolding ordered_text
ordered_text-value_example = ordered_text-value (codes " 20240101") new old new refl refl

owed-has_job_example : HasActiveJob 1 old (run common types (startup ∷ []) cutover).store.jobs
unfolding run find Text-discrete contains String-discrete update
owed-has_job_example =
    owed-has_job common types (startup ∷ []) cutover old cutover-Cutover refl refl

one_owner_example :
    (first_claim.version ≡ first_claim.version)
    × (first_claim.token ≡ first_claim.token)
    × (first_claim.epoch ≡ first_claim.epoch)
unfolding run find Text-discrete contains String-discrete update owns_lease
one_owner_example =
    one_owner common types (startup ∷ claim "a" 7 ∷ []) cutover first_claim first_claim
      cutover-Cutover refl refl

record_durable_signal-refuses_example :
    (unknown_type ≡ unordered_version) ⊎ (unknown_type ≡ unknown_type)
unfolding run find Text-discrete contains String-discrete update record_durable_signal
record_durable_signal-refuses_example =
    record_durable_signal-refuses common types (startup ∷ []) cutover (text_json "20250101")
      "videos" unknown_type cutover-Cutover refl

published-increasing_example : increasing (published common types newer cutover) ≡ true
published-increasing_example = published-increasing common types newer cutover cutover-Cutover

published_test : published common types newer cutover ≡ old ∷ new ∷ []
unfolding run find Text-discrete contains String-discrete update published from_keys add_keys
    add_key
published_test = refl

owed-CanRefresh_example :
    CanRefresh common types old (run common types (startup ∷ claim "a" 7 ∷ []) cutover)
unfolding run find Text-discrete contains String-discrete update
owed-CanRefresh_example =
    owed-CanRefresh common types (startup ∷ claim "a" 7 ∷ []) cutover old cutover-Cutover refl refl
