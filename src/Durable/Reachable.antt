-- ===== src/Durable/Reachable.antt =====
-- The states that deliveries and workers reach from the cutover, and what holds in all of them.
use discogs_sql_loader.Prelude.Members.{get_elem?}
use discogs_sql_loader.Prelude.{
  ℕ, String, Bool, true, not, ◌&&◌, List, [], ◌∷◌, ◌≡◌, refl, Option, none, some, same, arith,
  distinct,
}
use discogs_sql_loader.Text.{Text, Text-discrete, strip}
use discogs_sql_loader.Common.{Common}
use discogs_sql_loader.Table.{All, All-imp, All-get, All-append_one, find}
use discogs_sql_loader.Durable.{
  Durable, DurableLatch, RefreshJob, Result, done, failed, find_latch, find_job, is_set,
}
use discogs_sql_loader.Durable.Signal.{DurableSignal, reconcile_legacy, record_durable_signal}
use discogs_sql_loader.Durable.Job.{ClaimedJob, claim_due_job, mark_after_failure}
use discogs_sql_loader.Durable.System.{
  System, Event, tick, signal, startup, claim, renewal, commit, failure, or_unchanged,
  or_unsignalled, with_claim, on_claim, renewed, committed, step, run,
}
use discogs_sql_loader.Durable.Invariant.{Sound, Ensures, row_ok}
use discogs_sql_loader.Durable.Invariant.Signals.{reconcile_legacy_lem}
use discogs_sql_loader.Durable.Invariant.Deliveries.{record_durable_signal_lem, SoundReport}
use discogs_sql_loader.Durable.Invariant.Workers.{
  claim_due_job_lem, heartbeat_lem, mark_after_failure_lem, generation_ok,
}
use discogs_sql_loader.Durable.Invariant.Commits.{before_commit_lem}
use discogs_sql_loader.Durable.Later.{Later, Leads, Later-refl, itself, generation_of}
use discogs_sql_loader.Durable.Later.Deliveries.{
  reconcile_legacy-later, record_durable_signal-later, recorded,
}
use discogs_sql_loader.Durable.Later.Workers.{
  Issued, IssuedOption, claim_due_job-Later, heartbeat-Later, mark_after_failure-Later,
  committed-Later,
}

-- before the cutover: latches of the inline writer, with trimmed versions and no generation
abbrev pub is_legacy : Text → Option DurableLatch → Bool
is_legacy v none = true
is_legacy v (some l) = same Text-discrete (strip v) v && not (is_set l.generation)

pub record Cutover (s : System) : Type 0 where
  pub no_cursor : s.store.cursor ≡ record { generation = 0; version = none }
  pub no_jobs : s.store.jobs ≡ []
  pub no_claims : s.claims ≡ []
  pub legacy_latches : (v : Text) → is_legacy v (find_latch v s.store.latches) ≡ true

pub record SystemOk (required : List String) (s : System) : Type 0 where
  pub sound : Sound required s.store
  pub issued : All (Issued s.store) s.claims

legacy_ok :
    (v : Text) (l : Option DurableLatch) → is_legacy v l ≡ true → row_ok 0 none v l none ≡ true
legacy_ok v none h = refl
legacy_ok v (some l) h = ground (arith, h)

pub Cutover-SystemOk : (required : List String) (s : System) → Cutover s → SystemOk required s
unfolding distinct find
Cutover-SystemOk required s h = record {
  sound = (
    record {
      jobs_distinct = rw h.no_jobs refl;
      rows_ok = λ v.
          rw (h.no_jobs, h.no_cursor)
            (legacy_ok v (find_latch v s.store.latches) (h.legacy_latches v));
    },
    (λ v. rw h.no_cursor refl),
  );
  issued = rw h.no_claims tt;
}

or_unchanged-Sound :
    (required : List String) (s : Durable) (r : Result Durable)
    → Sound required s
    → Ensures (Sound required) r
    → Sound required (or_unchanged s r)
or_unchanged-Sound required s (done t) h k = k
or_unchanged-Sound required s (failed e) h k = h

or_unchanged-Later :
    (s : Durable) (r : Result Durable) → Leads itself s r → Later s (or_unchanged s r)
or_unchanged-Later s (done t) h = h
or_unchanged-Later s (failed e) h = Later-refl s

or_unsignalled-Sound :
    (required : List String) (s : Durable) (r : Result (Durable × DurableSignal))
    → Sound required s
    → Ensures (SoundReport required) r
    → Sound required (or_unsignalled s r)
or_unsignalled-Sound required s (done (t, report)) h k = k
or_unsignalled-Sound required s (failed e) h k = h

or_unsignalled-Later :
    (s : Durable) (r : Result (Durable × DurableSignal))
    → Leads recorded s r
    → Later s (or_unsignalled s r)
or_unsignalled-Later s (done (t, report)) h = h
or_unsignalled-Later s (failed e) h = Later-refl s

-- an operation of a worker on a claim that was issued
on_claim-Sound :
    (required : List String) (f : ClaimedJob → Durable → Durable) (s : System) (n : ℕ)
    → ((job : ClaimedJob) → Issued s.store job → Sound required (f job s.store))
    → SystemOk required s
    → Sound required (on_claim f (get_elem? s.claims n) s.store)
on_claim-Sound required f s n keeps h = on_found (get_elem? s.claims n) refl
  where
    on_found :
        (found : Option ClaimedJob)
        → get_elem? s.claims n ≡ found
        → Sound required (on_claim f found s.store)
    on_found none e = h.sound
    on_found (some job) e = keeps job (All-get (Issued s.store) s.claims n job h.issued e)

on_claim-Later :
    (f : ClaimedJob → Durable → Durable) (s : Durable) (job : Option ClaimedJob)
    → ((job : ClaimedJob) → Later s (f job s))
    → Later s (on_claim f job s)
on_claim-Later f s none keeps = Later-refl s
on_claim-Later f s (some job) keeps = keeps job

Issued-Later : (s t : Durable) (job : ClaimedJob) → Later s t → Issued s job → Issued t job
Issued-Later s t job later e = later.generations_kept job.version job.generation e

Issued-generation_ok :
    (s : Durable) (job : ClaimedJob) (j : Option RefreshJob)
    → generation_of j ≡ some job.generation
    → generation_ok job j ≡ true
Issued-generation_ok s job none e = refl
Issued-generation_ok s job (some j) e = ground (arith, e)

with_claim-Issued :
    (s t : Durable) (claims : List ClaimedJob) (job : Option ClaimedJob)
    → Later s t
    → All (Issued s) claims
    → IssuedOption t job
    → All (Issued t) (with_claim claims job)
with_claim-Issued s t claims none later h k =
    All-imp (Issued s) (Issued t) claims (λ job. Issued-Later s t job later) h
with_claim-Issued s t claims (some job) later h k =
    All-append_one (Issued t) claims job
      (All-imp (Issued s) (Issued t) claims (λ i. Issued-Later s t i later) h) k

module _ (common : Common) (required : List String) where
  step-Sound :
      (e : Event) (s : System)
      → SystemOk required s
      → Sound required (step common required e s).store
  unfolding step
  step-Sound (tick d) s h = (
    record { jobs_distinct = (h.sound.0).jobs_distinct; rows_ok = (h.sound.0).rows_ok },
    h.sound.1,
  )
  step-Sound (signal j t) s h =
      or_unsignalled-Sound required s.store (record_durable_signal common required j t s.store)
        h.sound (record_durable_signal_lem common required j t s.store h.sound)
  step-Sound startup s h =
      or_unchanged-Sound required s.store (reconcile_legacy required s.store) h.sound
        (reconcile_legacy_lem required s.store h.sound)
  step-Sound (claim owner token) s h = claim_due_job_lem required owner token s.store h.sound
  step-Sound (renewal n) s h =
      on_claim-Sound required renewed s n (λ job i. heartbeat_lem required job s.store h.sound) h
  step-Sound (commit n) s h =
      on_claim-Sound required committed s n
        (λ job i. before_commit_lem required job s.store h.sound) h
  step-Sound (failure n error) s h =
      on_claim-Sound required (λ job. mark_after_failure job error) s n
        (λ job i.
          mark_after_failure_lem required job error s.store
            (Issued-generation_ok s.store job (find_job job.version s.store.jobs) i) h.sound)
        h

  pub step-Later :
      (e : Event) (s : System)
      → SystemOk required s
      → Later s.store (step common required e s).store
  unfolding step
  step-Later (tick d) s h = record {
    generations_kept = λ v g e. e;
    refreshed_kept = λ v e. e;
    passed_kept = λ v e. e;
  }
  step-Later (signal j t) s h =
      or_unsignalled-Later s.store (record_durable_signal common required j t s.store)
        (record_durable_signal-later common required j t s.store)
  step-Later startup s h =
      or_unchanged-Later s.store (reconcile_legacy required s.store)
        (reconcile_legacy-later required s.store)
  step-Later (claim owner token) s h = (claim_due_job-Later owner token s.store h.sound.0).0
  step-Later (renewal n) s h =
      on_claim-Later renewed s.store (get_elem? s.claims n) (λ job. heartbeat-Later job s.store)
  step-Later (commit n) s h =
      on_claim-Later committed s.store (get_elem? s.claims n) (λ job. committed-Later job s.store)
  step-Later (failure n error) s h =
      on_claim-Later (λ job. mark_after_failure job error) s.store (get_elem? s.claims n)
        (λ job. mark_after_failure-Later job error s.store)

  -- the claims that were issued before stay issued
  kept-Issued :
      (e : Event) (s : System)
      → SystemOk required s
      → All (Issued (step common required e s).store) s.claims
  kept-Issued e s h =
      All-imp (Issued s.store) (Issued (step common required e s).store) s.claims
        (λ job. Issued-Later s.store (step common required e s).store job (step-Later e s h))
        h.issued

  step-Issued :
      (e : Event) (s : System)
      → SystemOk required s
      → All (Issued (step common required e s).store) (step common required e s).claims
  unfolding step
  step-Issued (claim owner token) s h =
      let (later, issued) = claim_due_job-Later owner token s.store h.sound.0 in
      with_claim-Issued s.store (claim_due_job owner token s.store).0 s.claims
        (claim_due_job owner token s.store).1 later h.issued issued
  step-Issued (tick d) s h = kept-Issued (tick d) s h
  step-Issued (signal j t) s h = kept-Issued (signal j t) s h
  step-Issued startup s h = kept-Issued startup s h
  step-Issued (renewal n) s h = kept-Issued (renewal n) s h
  step-Issued (commit n) s h = kept-Issued (commit n) s h
  step-Issued (failure n error) s h = kept-Issued (failure n error) s h

  pub step-SystemOk :
      (e : Event) (s : System) → SystemOk required s → SystemOk required (step common required e s)
  step-SystemOk e s h = record { sound = step-Sound e s h; issued = step-Issued e s h }

  pub run-SystemOk :
      (events : List Event) (s : System)
      → SystemOk required s
      → SystemOk required (run common required events s)
  unfolding run
  run-SystemOk [] s h = h
  run-SystemOk (e ∷ events) s h =
      run-SystemOk events (step common required e s) (step-SystemOk e s h)
