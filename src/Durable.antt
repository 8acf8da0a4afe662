-- ===== src/Durable.antt =====
-- tableinator/durable_refresh.py: the obligation to run the derived pass, as rows of three relations.
-- All rows here are those of this loader; NOW() and the worker's clock are one clock.
pub mod Version
pub mod Signal
pub mod Job
pub mod System
pub mod Invariant
pub mod Later
pub mod Reachable
pub mod Obligations
pub mod Published
pub mod Scan
pub mod Progress
use discogs_sql_loader.Prelude.{
  ℕ, suc, ◌+◌, String, Bool, true, false, not, ◌&&◌, ◌||◌, List, [], ◌∷◌, ◌++◌, map, Option, none,
  some, ltb, ◌==◌, if◌then◌else◌, same, contains, String-discrete, all, length,
}
use discogs_sql_loader.Text.{Text, Text-discrete}
use discogs_sql_loader.Table.{find, update}

-- `loader_derived_refresh_cursor`; a row that is missing is inserted with these defaults
pub record Cursor : Type 0 where
  pub generation : ℕ
  pub version : Option Text

-- `loader_extraction_latch`, the columns that this module reads
pub record DurableLatch : Type 0 where
  pub version : Text
  pub generation : Option ℕ
  pub signals : List String
  pub refreshed_at : Option ℕ

pub data JobState : Type 0 where
  pending leased retry completed superseded : JobState

-- `loader_derived_refresh_job`
pub record RefreshJob : Type 0 where
  pub version : Text
  pub generation : ℕ
  pub state : JobState
  pub attempt_count : ℕ
  pub next_attempt_at : Option ℕ
  pub lease_owner : Option String
  pub lease_token : Option ℕ
  pub lease_epoch : ℕ
  pub lease_expires_at : Option ℕ
  pub last_error : Option String

pub record Durable : Type 0 where
  pub clock : ℕ
  pub cursor : Cursor
  pub latches : List DurableLatch
  pub jobs : List RefreshJob

-- what a transaction fails on; it rolls back whole
pub data Failure : Type 0 where
  -- `ValueError` of `ordered_version`, of a signal or of a latch from before the cutover
  unordered_version : Failure
  -- `ValueError`: the data type is not required
  unknown_type : Failure
  -- `DurableSchemaUnavailable`: the latch's generation disagrees with the cursor
  generation_disagrees : Failure
  -- the unique constraint on (loader, generation) of the job relation
  unique_violation : Failure
  -- `SupersededJob`
  superseded_job : Failure

pub data Result {ℓ} (A : Type ℓ) : Type ℓ where
  done : A → Result A
  failed : Failure → Result A

infixl 5 ◌>>=◌
abbrev pub ◌>>=◌ {ℓ κ} : {A : Type ℓ} {B : Type κ} → Result A → (A → Result B) → Result B
done a >>= f = f a
failed e >>= f = failed e

abbrev pub latch_version : DurableLatch → Text
latch_version l = l.version

abbrev pub job_version : RefreshJob → Text
job_version j = j.version

abbrev pub find_latch : Text → List DurableLatch → Option DurableLatch
find_latch = find Text-discrete latch_version

abbrev pub find_job : Text → List RefreshJob → Option RefreshJob
find_job = find Text-discrete job_version

-- `state IN ('pending', 'retry', 'leased')`
abbrev pub is_active : JobState → Bool
is_active pending = true
is_active leased = true
is_active retry = true
is_active completed = false
is_active superseded = false

-- the columns that every change of a claim clears
abbrev pub without_lease : RefreshJob → RefreshJob
without_lease j = record j { lease_owner = none; lease_token = none; lease_expires_at = none }

abbrev pub supersede : RefreshJob → RefreshJob
supersede j = record (without_lease j) { state = superseded; next_attempt_at = none }

-- `_lock_cursor` is the cursor itself; `_advance_cursor`
abbrev pub superseded_before : ℕ → RefreshJob → RefreshJob
superseded_before generation j =
    if ltb j.generation generation && is_active j.state then supersede j else j

unfoldable pub advance_cursor : ℕ → Text → Durable → Durable
advance_cursor generation version s = record s {
  cursor = record { generation = generation; version = some version };
  jobs = map (superseded_before generation) s.jobs;
}

abbrev pub new_job : ℕ → Text → ℕ → RefreshJob
new_job now version generation = record {
  version = version;
  generation = generation;
  state = pending;
  attempt_count = 0;
  next_attempt_at = some now;
  lease_owner = none;
  lease_token = none;
  lease_epoch = 0;
  lease_expires_at = none;
  last_error = none;
}

-- some job has the generation
abbrev pub has_generation : ℕ → List RefreshJob → Bool
has_generation generation [] = false
has_generation generation (j ∷ jobs) = j.generation == generation || has_generation generation jobs

-- `_upsert_job`: `ON CONFLICT (loader, version) DO NOTHING`, under the unique generation
unfoldable pub upsert_job : Text → ℕ → Durable → Result Durable
upsert_job version generation s = elim (find_job version s.jobs) [
  | some j ↦ done s
  | none ↦
      if has_generation generation s.jobs
      then failed unique_violation
      else done (record s { jobs = s.jobs ++ new_job s.clock version generation ∷ [] })
]

abbrev pub is_set {ℓ} : {A : Type ℓ} → Option A → Bool
is_set none = false
is_set (some a) = true

-- `set(signals).issuperset(required_types)`
abbrev pub is_complete : List String → List String → Bool
is_complete required signals = all (λ t. contains String-discrete t signals) required
