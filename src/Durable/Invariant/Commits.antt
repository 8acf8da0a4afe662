-- ===== src/Durable/Invariant/Commits.antt =====
-- The end of a refresh transaction keeps the invariant.
use discogs_sql_loader.Prelude.{
  ℕ, String, Bool, true, ◌&&◌, List, ◌≡◌, refl, ◌∙◌, Option, none, some, if◌then◌else◌, same, arith,
  Bool-cases, inl, inr,
}
use discogs_sql_loader.Text.{Text, Text-discrete}
use discogs_sql_loader.Table.{map_row, find-update, keys-update, at_same, at_rows, update}
use discogs_sql_loader.Durable.{
  DurableLatch, RefreshJob, Durable, latch_version, job_version, find_latch, find_job,
}
use discogs_sql_loader.Durable.Job.{
  ClaimedJob, is_version, is_current, is_unstamped, is_claimed_row, owns_lease, stamp, complete,
  before_commit,
}
use discogs_sql_loader.Durable.System.{committed}
use discogs_sql_loader.Durable.Invariant.{Sound, row_ok, settled}
use discogs_sql_loader.Durable.Invariant.Workers.{on_job_row}

-- the end of the refresh
pub committed_found :
    (job : ClaimedJob) (rows : List DurableLatch) (now : ℕ) (v : Text)
    → find_latch v (update Text-discrete latch_version job.version (stamp now) rows) ≡ (
        if same Text-discrete v job.version
        then map_row (stamp now) (find_latch job.version rows)
        else find_latch v rows)
committed_found job rows now v =
    find-update Text-discrete latch_version (stamp now) (λ l. refl) v job.version rows
    ∙ at_same Text-discrete latch_version v job.version (map_row (stamp now)) rows

completed_ok :
    (g : ℕ) (cv : Option Text) (now : ℕ) (job : ClaimedJob) (l : Option DurableLatch)
    (j : Option RefreshJob)
    → is_unstamped job l ≡ true
    → row_ok g cv job.version l j ≡ true
    → row_ok g cv job.version (map_row (stamp now) l) (map_row complete j) ≡ true
completed_ok g cv now job none j u h = absurd (ground (arith, u))
completed_ok g cv now job (some l) none u h = ground (arith, h)
completed_ok g cv now job (some l) (some j) u h = ground (arith, h)

completed_settled :
    (required : List String) (current : Bool) (now : ℕ) (l : Option DurableLatch)
    (j : Option RefreshJob)
    → settled required current l j ≡ true
    → settled required current (map_row (stamp now) l) (map_row complete j) ≡ true
completed_settled required current now none none h = h
completed_settled required current now none (some j) h = h
completed_settled required current now (some l) none h = ground (arith, h)
completed_settled required current now (some l) (some j) h = ground (arith, h)

abbrev pub ended : ClaimedJob → Durable → Durable
ended job s = record s {
  latches = update Text-discrete latch_version job.version (stamp s.clock) s.latches;
  jobs = update Text-discrete job_version job.version complete s.jobs;
}

ended_lem :
    (required : List String) (job : ClaimedJob) (s : Durable)
    → is_unstamped job (find_latch job.version s.latches) ≡ true
    → Sound required s
    → Sound required (ended job s)
ended_lem required job s u (h, k) =
    let w = job.version in
    let l = find_latch w s.latches in
    let j = find_job w s.jobs in
    (
      record {
        jobs_distinct =
            rw (keys-update Text-discrete job_version complete (λ i. refl) w s.jobs)
              h.jobs_distinct;
        rows_ok = λ v.
            rw (committed_found job s.latches s.clock v, on_job_row complete (λ i. refl) w s v)
              (at_rows Text-discrete v w
                (λ x a b. row_ok s.cursor.generation s.cursor.version x a b)
                (find_latch v s.latches) (map_row (stamp s.clock) l) (find_job v s.jobs)
                (map_row complete j)
                (completed_ok s.cursor.generation s.cursor.version s.clock job l j u (h.rows_ok w))
                (ground (arith, h.rows_ok v)));
      },
      (λ v.
          rw (committed_found job s.latches s.clock v, on_job_row complete (λ i. refl) w s v)
            (at_rows Text-discrete v w
              (λ x a b. settled required (is_version x s.cursor.version) a b)
              (find_latch v s.latches) (map_row (stamp s.clock) l) (find_job v s.jobs)
              (map_row complete j)
              (completed_settled required (is_version w s.cursor.version) s.clock l j (k w))
              (ground (arith, k v)))),
    )

pub before_commit_lem :
    (required : List String) (job : ClaimedJob) (s : Durable)
    → Sound required s
    → Sound required (committed job s)
unfolding before_commit
before_commit_lem required job s h =
    elim (Bool-cases (
      is_current job s.cursor
      && owns_lease job s
      && is_unstamped job (find_latch job.version s.latches)
      && is_claimed_row job (find_job job.version s.jobs))) [
        | inl e ↦ rw e (ended_lem required job s (ground (arith, e)) h)
        | inr e ↦ rw e h
      ]
