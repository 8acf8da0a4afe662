-- ===== src/Durable/Later/Workers.antt =====
-- The operations of a worker undo nothing.
use discogs_sql_loader.Prelude.{
  ℕ, String, true, not, ◌&&◌, ◌||◌, List, ◌≡◌, refl, ◌∙◌, Option, none, some, if◌then◌else◌, ◌==◌,
  same, arith, Bool-cases, inl, inr,
}
use discogs_sql_loader.Text.{Text, Text-discrete}
use discogs_sql_loader.Table.{map_row, find-update, In-find, at_row}
use discogs_sql_loader.Durable.{
  DurableLatch, RefreshJob, Durable, job_version, find_latch, find_job, supersede,
}
use discogs_sql_loader.Durable.Job.{
  ClaimedJob, is_leased, first_due, on_job, expire, lease, claim_row, claim_first, any_live,
  claim_due_job, backoff, renew, heartbeat, retry_claim, drop_claim, is_current, mark_after_failure,
  is_unstamped, is_claimed_row, owns_lease, stamp, complete, before_commit,
}
use discogs_sql_loader.Durable.System.{committed}
use discogs_sql_loader.Durable.Invariant.{is_refreshed, Consistent}
use discogs_sql_loader.Durable.Invariant.Workers.{
  first_due_lem, renew-version, retry_claim-version, drop_claim-version,
}
use discogs_sql_loader.Durable.Invariant.Commits.{committed_found, ended}
use discogs_sql_loader.Durable.Later.{Later, Later-refl, generation_of}
use discogs_sql_loader.Durable.Later.Deliveries.{generation_of-map, implied}

generation_of-row :
    (v w : Text) (f : RefreshJob → RefreshJob) (rows : List RefreshJob) (g : ℕ)
    → ((j : RefreshJob) → (f j).generation ≡ j.generation)
    → generation_of (find_job v rows) ≡ some g
    → generation_of
        (if same Text-discrete v w then map_row f (find_job v rows) else find_job v rows)
      ≡ some g
generation_of-row v w f rows g keeps e = elim (Bool-cases (same Text-discrete v w)) [
  | inl p ↦ rw p (generation_of-map f keeps (find_job v rows) ∙ e)
  | inr p ↦ rw p e
]

pub on_job-Later :
    (f : RefreshJob → RefreshJob)
    → ((j : RefreshJob) → job_version (f j) ≡ job_version j)
    → ((j : RefreshJob) → (f j).generation ≡ j.generation)
    → (w : Text) (s : Durable) → Later s (on_job w f s)
on_job-Later f keeps same_number w s = record {
  generations_kept = λ v g e.
      rw (find-update Text-discrete job_version f keeps v w s.jobs)
        (generation_of-row v w f s.jobs g same_number e);
  refreshed_kept = λ v e. e;
  passed_kept = λ v e. e;
}

-- a claim's version has a job row of its generation
abbrev pub Issued : Durable → ClaimedJob → Type 0
Issued s job = generation_of (find_job job.version s.jobs) ≡ some job.generation

abbrev pub IssuedOption : Durable → Option ClaimedJob → Type 0
IssuedOption s none = Unit
IssuedOption s (some job) = Issued s job

claim_row-Later :
    (owner : String) (token : ℕ) (j : RefreshJob) (s : Durable)
    → find_job j.version s.jobs ≡ some j
    → Later s (claim_row owner token j s).0
      × IssuedOption (claim_row owner token j s).0 (claim_row owner token j s).1
claim_row-Later owner token j s e = elim (Bool-cases (j.generation == s.cursor.generation)) [
  | inr g ↦ rw g (on_job-Later supersede (λ i. refl) (λ i. refl) j.version s, tt)
  | inl g ↦ elim (Bool-cases (is_leased j.state)) [
    | inl l ↦
        rw (g, l)
          (
            on_job-Later (expire s.clock (backoff j.attempt_count)) (λ i. refl) (λ i. refl)
                j.version s,
            tt,
          )
    | inr l ↦
        let later : Later s (on_job j.version (lease s.clock owner token) s) =
          on_job-Later (lease s.clock owner token) (λ i. refl) (λ i. refl) j.version s in
        rw (g, l) (later, later.generations_kept j.version j.generation (rw e refl))
  ]
]

claim_first-Later :
    (owner : String) (token : ℕ) (s : Durable) (found : Option RefreshJob)
    → first_due s.clock s.jobs ≡ found
    → Consistent s
    → Later s (claim_first owner token found s).0
      × IssuedOption (claim_first owner token found s).0 (claim_first owner token found s).1
claim_first-Later owner token s none e h = (Later-refl s, tt)
claim_first-Later owner token s (some j) e h =
    let (stands, due) = first_due_lem s.clock s.jobs j e in
    claim_row-Later owner token j s
      (In-find Text-discrete job_version s.jobs j h.jobs_distinct stands)

pub claim_due_job-Later :
    (owner : String) (token : ℕ) (s : Durable)
    → Consistent s
    → Later s (claim_due_job owner token s).0
      × IssuedOption (claim_due_job owner token s).0 (claim_due_job owner token s).1
unfolding claim_due_job
claim_due_job-Later owner token s h = elim (Bool-cases (any_live s.clock s.jobs)) [
  | inl live ↦ rw live (Later-refl s, tt)
  | inr free ↦ rw free (claim_first-Later owner token s (first_due s.clock s.jobs) refl h)
]

renew-generation :
    (now : ℕ) (job : ClaimedJob) (j : RefreshJob) → (renew now job j).generation ≡ j.generation
renew-generation now job j = ground arith

pub heartbeat-Later : (job : ClaimedJob) (s : Durable) → Later s (heartbeat job s).0
unfolding heartbeat
heartbeat-Later job s =
    on_job-Later (renew s.clock job) (renew-version s.clock job) (renew-generation s.clock job)
      job.version s

retry_claim-generation :
    (now : ℕ) (error : String) (job : ClaimedJob) (j : RefreshJob)
    → (retry_claim now error job j).generation ≡ j.generation
retry_claim-generation now error job j = ground arith

drop_claim-generation :
    (job : ClaimedJob) (j : RefreshJob) → (drop_claim job j).generation ≡ j.generation
drop_claim-generation job j = ground arith

pub mark_after_failure-Later :
    (job : ClaimedJob) (error : String) (s : Durable) → Later s (mark_after_failure job error s)
unfolding mark_after_failure
mark_after_failure-Later job error s = elim (Bool-cases (is_current job s.cursor)) [
  | inl c ↦ rw c (
      on_job-Later (retry_claim s.clock error job) (retry_claim-version s.clock error job)
        (retry_claim-generation s.clock error job) job.version s)
  | inr c ↦ rw c (
      on_job-Later (drop_claim job) (drop_claim-version job) (drop_claim-generation job) job.version
        s)
]

refreshed-stamp :
    (now : ℕ) (l : Option DurableLatch)
    → is_refreshed l ≡ true
    → is_refreshed (map_row (stamp now) l) ≡ true
refreshed-stamp now none e = e
refreshed-stamp now (some l) e = refl

ended-Later : (job : ClaimedJob) (s : Durable) → Later s (ended job s)
ended-Later job s = record {
  generations_kept = (on_job-Later complete (λ i. refl) (λ i. refl) job.version s).generations_kept;
  refreshed_kept = λ v e.
      implied (is_refreshed (find_latch v s.latches))
        (is_refreshed (find_latch v (ended job s).latches))
        (rw (committed_found job s.latches s.clock v) (
          at_row Text-discrete v job.version
            (λ x a. not (is_refreshed (find_latch x s.latches)) || is_refreshed a)
            (find_latch v s.latches) (map_row (stamp s.clock) (find_latch job.version s.latches))
            (ground (arith, refreshed-stamp s.clock (find_latch job.version s.latches)))
            (ground arith)))
        e;
  passed_kept = λ v e. e;
}

pub committed-Later : (job : ClaimedJob) (s : Durable) → Later s (committed job s)
unfolding before_commit
committed-Later job s =
    elim (Bool-cases (
      is_current job s.cursor
      && owns_lease job s
      && is_unstamped job (find_latch job.version s.latches)
      && is_claimed_row job (find_job job.version s.jobs))) [
        | inl e ↦ rw e (ended-Later job s)
        | inr e ↦ rw e (Later-refl s)
      ]
