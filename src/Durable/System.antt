-- ===== src/Durable/System.antt =====
-- Deliveries and workers over the three relations: one event for each transaction, in any order.
-- Workers keep the claims that `claim_due_job` gave them, and may act on one at any later time.
use discogs_sql_loader.Prelude.Members.{get_elem?}
use discogs_sql_loader.Prelude.{ℕ, ◌+◌, String, List, [], ◌∷◌, ◌++◌, Option, none, some}
use discogs_sql_loader.Json.{Json}
use discogs_sql_loader.Common.{Common}
use discogs_sql_loader.Durable.{Durable, Result, done, failed}
use discogs_sql_loader.Durable.Signal.{DurableSignal, reconcile_legacy, record_durable_signal}
use discogs_sql_loader.Durable.Job.{
  ClaimedJob, claim_due_job, before_commit, heartbeat, mark_after_failure,
}

pub record System : Type 0 where
  pub store : Durable
  pub claims : List ClaimedJob

pub data Event : Type 0 where
  -- time passes
  tick : ℕ → Event
  -- `record_durable_signal` of a delivery, by its version and its data type
  signal : Json → String → Event
  -- `reconcile_legacy_latches` at startup
  startup : Event
  -- `claim_due_job` of a worker, by its name and the token that it draws
  claim : String → ℕ → Event
  -- a renewal of the lease, the end of a refresh transaction, and what follows a failure, each by the
  -- number of the claim
  renewal : ℕ → Event
  commit : ℕ → Event
  failure : ℕ → String → Event

-- a transaction that fails leaves everything as it was
abbrev pub or_unchanged : Durable → Result Durable → Durable
or_unchanged s (done t) = t
or_unchanged s (failed e) = s

abbrev pub or_unsignalled : Durable → Result (Durable × DurableSignal) → Durable
or_unsignalled s (done (t, report)) = t
or_unsignalled s (failed e) = s

abbrev pub with_claim : List ClaimedJob → Option ClaimedJob → List ClaimedJob
with_claim claims none = claims
with_claim claims (some job) = claims ++ job ∷ []

abbrev pub on_claim : (ClaimedJob → Durable → Durable) → Option ClaimedJob → Durable → Durable
on_claim f none s = s
on_claim f (some job) s = f job s

abbrev pub renewed : ClaimedJob → Durable → Durable
renewed job s = (heartbeat job s).0

abbrev pub committed : ClaimedJob → Durable → Durable
committed job s = or_unchanged s (before_commit job s)

abbrev pub in_store : Durable → System → System
in_store t s = record s { store = t }

module _ (common : Common) (required : List String) where
  unfoldable pub step : Event → System → System
  unfolding reconcile_legacy record_durable_signal claim_due_job heartbeat before_commit
      mark_after_failure
  step (tick d) s = in_store (record s.store { clock = s.store.clock + d }) s
  step (signal version data_type) s =
      in_store
        (or_unsignalled s.store (record_durable_signal common required version data_type s.store)) s
  step startup s = in_store (or_unchanged s.store (reconcile_legacy required s.store)) s
  step (claim owner token) s =
      let (t, job) = claim_due_job owner token s.store in
      record { store = t; claims = with_claim s.claims job }
  step (renewal n) s = in_store (on_claim renewed (get_elem? s.claims n) s.store) s
  step (commit n) s = in_store (on_claim committed (get_elem? s.claims n) s.store) s
  step (failure n error) s =
      in_store (on_claim (λ job. mark_after_failure job error) (get_elem? s.claims n) s.store) s

  unfoldable pub run : List Event → System → System
  unfolding step
  run [] s = s
  run (e ∷ events) s = run events (step e s)
