-- ===== src/Durable/Invariant.antt =====
-- What holds at each version of the three relations: its latch row and its job row against the cursor.
pub mod Advance
pub mod Latches
pub mod Jobs
pub mod Signals
pub mod Deliveries
pub mod Workers
pub mod Commits
use discogs_sql_loader.Prelude.{
  ℕ, suc, String, Bool, true, false, not, ◌&&◌, ◌||◌, List, [], ◌∷◌, ◌≡◌, map, Option, none, some,
  leb, ◌==◌, if◌then◌else◌, same, distinct,
}
use discogs_sql_loader.Text.{Text, Text-discrete, strip}
use discogs_sql_loader.Durable.{
  Failure, unordered_version, unknown_type, Result, done, failed, ◌>>=◌, DurableLatch, JobState,
  pending, leased, retry, completed, superseded, RefreshJob, Durable, job_version, find_latch,
  find_job, is_set, is_complete,
}
use discogs_sql_loader.Durable.Signal.{is_ahead}
use discogs_sql_loader.Durable.Job.{is_version}

abbrev pub agree : Bool → Bool → Bool
agree true b = b
agree false b = not b

abbrev pub is_refreshed : Option DurableLatch → Bool
is_refreshed none = false
is_refreshed (some l) = is_set l.refreshed_at

-- a number that a row of version `v` bears, against the cursor's
abbrev pub number_ok : ℕ → Option Text → Text → ℕ → Bool
number_ok g cv v n = leb n g && agree (n == g) (is_version v cv) && not (is_ahead v cv)

abbrev pub stage_ok : JobState → Bool → Bool → Bool → Bool → Bool
stage_ok pending is_current refreshed scheduled expires = is_current && scheduled
stage_ok retry is_current refreshed scheduled expires = is_current && scheduled
stage_ok leased is_current refreshed scheduled expires = is_current && expires
stage_ok completed is_current refreshed scheduled expires = refreshed
stage_ok superseded is_current refreshed scheduled expires = not is_current

abbrev pub job_ok : ℕ → Option Text → Text → Bool → Option RefreshJob → Bool
job_ok g cv v refreshed none = true
job_ok g cv v refreshed (some j) =
    number_ok g cv v j.generation
    && stage_ok j.state (is_version v cv) refreshed (is_set j.next_attempt_at)
        (is_set j.lease_expires_at)

abbrev pub numbered_ok : ℕ → Option Text → Text → Option ℕ → Bool
numbered_ok g cv v none = true
numbered_ok g cv v (some n) = number_ok g cv v n

abbrev pub latch_ok : ℕ → Option Text → Text → Option DurableLatch → Bool
latch_ok g cv v none = true
latch_ok g cv v (some l) = same Text-discrete (strip v) v && numbered_ok g cv v l.generation

-- the latch has every signal and no refresh
abbrev pub is_owed : List String → Option DurableLatch → Bool
is_owed required none = false
is_owed required (some l) = is_complete required l.signals && not (is_set l.refreshed_at)

abbrev pub is_numbered : Option DurableLatch → Bool
is_numbered none = true
is_numbered (some l) = is_set l.generation

-- at the cursor's version the latch has a generation, and what it owes has a job
abbrev pub settled : List String → Bool → Option DurableLatch → Option RefreshJob → Bool
settled required is_current l j =
    not is_current || is_numbered l && (not (is_owed required l) || is_set j)

abbrev pub row_ok : ℕ → Option Text → Text → Option DurableLatch → Option RefreshJob → Bool
row_ok g cv v l j = job_ok g cv v (is_refreshed l) j && latch_ok g cv v l

pub record Consistent (s : Durable) : Type 0 where
  pub jobs_distinct : distinct Text-discrete (map job_version s.jobs) ≡ true
  pub rows_ok :
      (v : Text)
      → row_ok s.cursor.generation s.cursor.version v (find_latch v s.latches) (find_job v s.jobs)
        ≡ true

abbrev pub settled_at : List String → Durable → Text → Bool
settled_at required s v =
    settled required (is_version v s.cursor.version) (find_latch v s.latches) (find_job v s.jobs)

abbrev pub Settled : List String → Durable → Type 0
Settled required s = (v : Text) → settled_at required s v ≡ true

-- at every other version than `w`
abbrev pub SettledBut : List String → Text → Durable → Type 0
SettledBut required w s = (v : Text) → same Text-discrete v w || settled_at required s v ≡ true

-- what the operations refuse a delivery or a latch for
abbrev pub is_refusal : Failure → Bool
is_refusal unordered_version = true
is_refusal unknown_type = true
is_refusal _ = false

abbrev pub Ensures {ℓ} : {A : Type ℓ} → (A → Type 0) → Result A → Type 0
Ensures P (done a) = P a
Ensures P (failed e) = is_refusal e ≡ true

pub Ensures-bind {ℓ κ} :
    {A : Type ℓ} {B : Type κ} (P : A → Type 0) (Q : B → Type 0) (r : Result A) (f : A → Result B)
    → Ensures P r
    → ((a : A) → P a → Ensures Q (f a))
    → Ensures Q (r >>= f)
Ensures-bind P Q (done a) f h k = k a h
Ensures-bind P Q (failed e) f h k = h

abbrev pub Sound : List String → Durable → Type 0
Sound required s = Consistent s × Settled required s
