-- ===== src/Durable/Job.antt =====
-- `claim_due_job`, `_owns_lease`, `_before_refresh`, `_before_commit`, `_heartbeat` and
-- `_mark_after_failure`.
use Prim.Native.Nat.{◌^◌}
use discogs_sql_loader.Prelude.{
  ℕ, suc, ◌+◌, String, Bool, true, false, not, ◌&&◌, ◌||◌, List, [], ◌∷◌, Option, none, some, ltb,
  leb, ◌==◌, if◌then◌else◌, same,
}
use discogs_sql_loader.Text.{Text, Text-discrete}
use discogs_sql_loader.Table.{update}
use discogs_sql_loader.Durable.{
  Cursor, DurableLatch, JobState, pending, leased, retry, completed, RefreshJob, Durable,
  superseded_job, Result, done, failed, latch_version, job_version, find_latch, find_job, is_set,
  without_lease, supersede,
}

pub record ClaimedJob : Type 0 where
  pub version : Text
  pub generation : ℕ
  pub token : ℕ
  pub epoch : ℕ
  pub attempt_count : ℕ

-- `_LEASE_SECONDS` and `_MAX_BACKOFF_SECONDS`
abbrev pub lease_seconds : ℕ
lease_seconds = 120

abbrev max_backoff_seconds : ℕ
max_backoff_seconds = 300

abbrev lesser : ℕ → ℕ → ℕ
lesser a b = if leb a b then a else b

-- `min(_MAX_BACKOFF_SECONDS, 2 ** min(attempts, 8))`
unfoldable pub backoff : ℕ → ℕ
backoff attempts = lesser max_backoff_seconds (2 ^ lesser attempts 8)

-- `t <= NOW()` and `t > NOW()`, which NULL makes neither
abbrev by_now : ℕ → Option ℕ → Bool
by_now now none = false
by_now now (some t) = leb t now

abbrev after_now : ℕ → Option ℕ → Bool
after_now now none = false
after_now now (some t) = ltb now t

abbrev pub is_leased : JobState → Bool
is_leased leased = true
is_leased _ = false

abbrev pub is_waiting : JobState → Bool
is_waiting pending = true
is_waiting retry = true
is_waiting _ = false

-- `state = 'leased' AND lease_expires_at > NOW()`
abbrev pub is_live : ℕ → RefreshJob → Bool
is_live now j = is_leased j.state && after_now now j.lease_expires_at

abbrev pub any_live : ℕ → List RefreshJob → Bool
any_live now [] = false
any_live now (j ∷ jobs) = is_live now j || any_live now jobs

abbrev pub is_due : ℕ → RefreshJob → Bool
is_due now j =
    is_waiting j.state && by_now now j.next_attempt_at
    || is_leased j.state && by_now now j.lease_expires_at

-- `ORDER BY generation DESC, next_attempt_at NULLS LAST`
abbrev pub sooner : Option ℕ → Option ℕ → Bool
sooner none b = false
sooner (some t) none = true
sooner (some t) (some u) = ltb t u

abbrev pub goes_before : RefreshJob → RefreshJob → Bool
goes_before i j =
    ltb j.generation i.generation
    || i.generation == j.generation && sooner i.next_attempt_at j.next_attempt_at

abbrev pub first_of : RefreshJob → Option RefreshJob → RefreshJob
first_of j none = j
first_of j (some i) = if goes_before i j then i else j

-- the first row of the due ones
unfoldable pub first_due : ℕ → List RefreshJob → Option RefreshJob
first_due now [] = none
first_due now (j ∷ jobs) =
    let rest = first_due now jobs in if is_due now j then some (first_of j rest) else rest

abbrev pub on_job : Text → (RefreshJob → RefreshJob) → Durable → Durable
on_job version f s = record s { jobs = update Text-discrete job_version version f s.jobs }

abbrev pub expire : ℕ → ℕ → RefreshJob → RefreshJob
expire now delay j = record (without_lease j) {
  state = retry;
  next_attempt_at = some (now + delay);
  last_error = some "lease_expired";
}

abbrev pub lease : ℕ → String → ℕ → RefreshJob → RefreshJob
lease now owner token j = record j {
  state = leased;
  next_attempt_at = none;
  lease_owner = some owner;
  lease_token = some token;
  lease_epoch = suc j.lease_epoch;
  lease_expires_at = some (now + lease_seconds);
  attempt_count = suc j.attempt_count;
}

-- what becomes of the row that was selected
abbrev pub claim_row : String → ℕ → RefreshJob → Durable → Durable × Option ClaimedJob
claim_row owner token j s =
    if not (j.generation == s.cursor.generation)
    then (on_job j.version supersede s, none)
    else if is_leased j.state
    then (on_job j.version (expire s.clock (backoff j.attempt_count)) s, none)
    else (
      on_job j.version (lease s.clock owner token) s,
      some (record {
        version = j.version;
        generation = j.generation;
        token = token;
        epoch = suc j.lease_epoch;
        attempt_count = suc j.attempt_count;
      }),
    )

abbrev pub claim_first : String → ℕ → Option RefreshJob → Durable → Durable × Option ClaimedJob
claim_first owner token none s = (s, none)
claim_first owner token (some j) s = claim_row owner token j s

-- `token` is what `uuid4()` gives
unfoldable pub claim_due_job : String → ℕ → Durable → Durable × Option ClaimedJob
unfolding first_due backoff
claim_due_job owner token s =
    if any_live s.clock s.jobs
    then (s, none)
    else claim_first owner token (first_due s.clock s.jobs) s

abbrev has_token : ℕ → Option ℕ → Bool
has_token token none = false
has_token token (some t) = t == token

-- `lease_token = … AND lease_epoch = …`
abbrev pub is_claim : ClaimedJob → RefreshJob → Bool
is_claim job j = has_token job.token j.lease_token && j.lease_epoch == job.epoch

abbrev pub owns_row : ℕ → ClaimedJob → Option RefreshJob → Bool
owns_row now job none = false
owns_row now job (some j) = is_live now j && is_claim job j

unfoldable pub owns_lease : ClaimedJob → Durable → Bool
owns_lease job s = owns_row s.clock job (find_job job.version s.jobs)

-- `current == (job.generation, job.version)`
abbrev pub is_version : Text → Option Text → Bool
is_version version none = false
is_version version (some current) = same Text-discrete current version

abbrev pub is_current : ClaimedJob → Cursor → Bool
is_current job cursor = cursor.generation == job.generation && is_version job.version cursor.version

-- `_before_refresh`, under the advisory lock
unfoldable pub before_refresh : ClaimedJob → Durable → Result Durable
unfolding owns_lease
before_refresh job s =
    if is_current job s.cursor && owns_lease job s then done s else failed superseded_job

-- `generation = … AND refreshed_at IS NULL`
abbrev pub has_generation : ℕ → Option ℕ → Bool
has_generation g none = false
has_generation g (some f) = f == g

abbrev pub is_unstamped : ClaimedJob → Option DurableLatch → Bool
is_unstamped job none = false
is_unstamped job (some l) =
    has_generation job.generation l.generation && not (is_set l.refreshed_at)

abbrev pub stamp : ℕ → DurableLatch → DurableLatch
stamp now l = record l { refreshed_at = some now }

abbrev pub complete : RefreshJob → RefreshJob
complete j = record (without_lease j) { state = completed }

-- the last UPDATE finds the row that `_owns_lease` has locked, if its generation is the job's
abbrev pub is_claimed_row : ClaimedJob → Option RefreshJob → Bool
is_claimed_row job none = false
is_claimed_row job (some j) = j.generation == job.generation && is_claim job j

-- `_before_commit`
unfoldable pub before_commit : ClaimedJob → Durable → Result Durable
unfolding owns_lease
before_commit job s =
    if is_current job s.cursor
      && owns_lease job s
      && is_unstamped job (find_latch job.version s.latches)
      && is_claimed_row job (find_job job.version s.jobs)
    then done (record s {
      latches = update Text-discrete latch_version job.version (stamp s.clock) s.latches;
      jobs = update Text-discrete job_version job.version complete s.jobs;
    })
    else failed superseded_job

-- one renewal of `_heartbeat`, and whether the lease was still there
abbrev pub renew : ℕ → ClaimedJob → RefreshJob → RefreshJob
renew now job j =
    if is_live now j && is_claim job j
    then record j { lease_expires_at = some (now + lease_seconds) }
    else j

unfoldable pub heartbeat : ClaimedJob → Durable → Durable × Bool
unfolding owns_lease
heartbeat job s = (on_job job.version (renew s.clock job) s, owns_lease job s)

-- `_mark_after_failure`; `error` is what the source cuts to 1024 characters
abbrev pub drop_claim : ClaimedJob → RefreshJob → RefreshJob
drop_claim job j = if is_leased j.state && is_claim job j then supersede j else j

abbrev pub retry_claim : ℕ → String → ClaimedJob → RefreshJob → RefreshJob
retry_claim now error job j =
    if is_leased j.state && is_claim job j
    then record (without_lease j) {
      state = retry;
      next_attempt_at = some (now + backoff job.attempt_count);
      last_error = some error;
    }
    else j

unfoldable pub mark_after_failure : ClaimedJob → String → Durable → Durable
unfolding backoff
mark_after_failure job error s =
    if is_current job s.cursor
    then on_job job.version (retry_claim s.clock error job) s
    else on_job job.version (drop_claim job) s
