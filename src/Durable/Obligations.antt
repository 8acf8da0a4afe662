-- ===== src/Durable/Obligations.antt =====
-- What the three relations owe in every state after the cutover: the refresh of the cursor's version
-- has its job, one worker at most owns a lease, and no delivery is lost to a conflict in the relations.
use mathlib.Core.Path.{subst}
use discogs_sql_loader.Prelude.{
  ℕ, String, Bool, true, false, List, ◌≡◌, ◌⊎◌, refl, Option, none, some, inl, inr, arith,
}
use discogs_sql_loader.Text.{Text}
use discogs_sql_loader.Json.{Json}
use discogs_sql_loader.Common.{Common}
use discogs_sql_loader.Durable.{
  Durable, DurableLatch, RefreshJob, find_latch, find_job, is_active, Failure, unordered_version,
  unknown_type, generation_disagrees, unique_violation, superseded_job, failed,
}
use discogs_sql_loader.Durable.Signal.{record_durable_signal}
use discogs_sql_loader.Durable.Job.{ClaimedJob, is_version, owns_row, owns_lease}
use discogs_sql_loader.Durable.System.{System, Event, run}
use discogs_sql_loader.Durable.Invariant.{
  Consistent, Sound, Ensures, job_ok, is_owed, is_refreshed, is_refusal,
}
use discogs_sql_loader.Durable.Invariant.Jobs.{is_version-same}
use discogs_sql_loader.Durable.Invariant.Deliveries.{record_durable_signal_lem, SoundReport}
use discogs_sql_loader.Durable.Reachable.{Cutover, Cutover-SystemOk, run-SystemOk}

-- a job that is active and bears a generation
abbrev pub HasActiveJob : ℕ → Text → List RefreshJob → Type 0
HasActiveJob generation v jobs =
    (j : RefreshJob) × (find_job v jobs ≡ some j)
    × (is_active j.state ≡ true)
    × (j.generation ≡ generation)

active_job :
    (g : ℕ) (cv : Option Text) (v : Text) (j : RefreshJob)
    → is_version v cv ≡ true
    → job_ok g cv v false (some j) ≡ true
    → (is_active j.state ≡ true) × (j.generation ≡ g)
active_job g cv v j c h = (ground (arith, c, h), ground (arith, c, h))

not_refreshed :
    (required : List String) (l : Option DurableLatch)
    → is_owed required l ≡ true
    → is_refreshed l ≡ false
not_refreshed required none o = refl
not_refreshed required (some l) o = ground (arith, o)

owed_job :
    (required : List String) (v : Text) (s : Durable) (found : Option RefreshJob)
    → find_job v s.jobs ≡ found
    → Sound required s
    → is_version v s.cursor.version ≡ true
    → is_owed required (find_latch v s.latches) ≡ true
    → HasActiveJob s.cursor.generation v s.jobs
owed_job required v s none e (h, k) c o = absurd (ground (arith, k v, e, c, o))
owed_job required v s (some j) e (h, k) c o =
    let (active, numbered) =
      active_job s.cursor.generation s.cursor.version v j c
        (ground (arith, h.rows_ok v, e, not_refreshed required (find_latch v s.latches) o)) in
    (j, e, active, numbered)

pub Sound-owed :
    (required : List String) (v : Text) (s : Durable)
    → Sound required s
    → is_version v s.cursor.version ≡ true
    → is_owed required (find_latch v s.latches) ≡ true
    → HasActiveJob s.cursor.generation v s.jobs
Sound-owed required v s = owed_job required v s (find_job v s.jobs) refl

-- After any deliveries, restarts and worker events since the cutover: if the cursor's version has a
-- latch with every required signal and no refresh, then its job is there, active (pending, leased or
-- retry), with the cursor's generation.
pub owed-has_job :
    (common : Common) (required : List String) (events : List Event) (s : System) (v : Text)
    → Cutover s
    → is_version v (run common required events s).store.cursor.version ≡ true
    → is_owed required (find_latch v (run common required events s).store.latches) ≡ true
    → HasActiveJob
        (run common required events s).store.cursor.generation
        v
        (run common required events s).store.jobs
owed-has_job common required events s v start =
    Sound-owed required v (run common required events s).store
      ((run-SystemOk common required events s (Cutover-SystemOk required s start)).sound)

-- the lease of a job that a claim owns is of the cursor's version
owned_version :
    (g : ℕ) (cv : Option Text) (r : Bool) (now : ℕ) (job : ClaimedJob) (j : Option RefreshJob)
    → job_ok g cv job.version r j ≡ true
    → owns_row now job j ≡ true
    → is_version job.version cv ≡ true
owned_version g cv r now job none h o = cc
owned_version g cv r now job (some j) h o = ground (arith, h, o)

owned_row :
    (now : ℕ) (job other : ClaimedJob) (j : Option RefreshJob)
    → owns_row now job j ≡ true
    → owns_row now other j ≡ true
    → (job.token ≡ other.token) × (job.epoch ≡ other.epoch)
owned_row now job other none o p = cc
owned_row now job other (some j) o p = (ground (arith, o, p), ground (arith, o, p))

-- After any events since the cutover, any two claims that own a lease at the same moment are of one
-- version, one token and one epoch.
pub one_owner :
    (common : Common) (required : List String) (events : List Event) (s : System)
    (job other : ClaimedJob)
    → Cutover s
    → owns_lease job (run common required events s).store ≡ true
    → owns_lease other (run common required events s).store ≡ true
    → (job.version ≡ other.version) × (job.token ≡ other.token) × (job.epoch ≡ other.epoch)
unfolding owns_lease
one_owner common required events s job other start o p =
    let t = (run common required events s).store in
    let h : Consistent t =
      (run-SystemOk common required events s (Cutover-SystemOk required s start)).sound.0 in
    let current =
      owned_version t.cursor.generation t.cursor.version
        (is_refreshed (find_latch job.version t.latches)) t.clock job (find_job job.version t.jobs)
        (ground (arith, h.rows_ok job.version)) o in
    let current' =
      owned_version t.cursor.generation t.cursor.version
        (is_refreshed (find_latch other.version t.latches)) t.clock other
        (find_job other.version t.jobs) (ground (arith, h.rows_ok other.version)) p in
    let same_version : job.version ≡ other.version =
      is_version-same job.version other.version t.cursor.version current current' in
    let (same_token, same_epoch) =
      owned_row t.clock job other (find_job other.version t.jobs)
        (subst (λ (v : Text). owns_row t.clock job (find_job v t.jobs) ≡ true) same_version o) p in
    (same_version, same_token, same_epoch)

refusal-cases : (e : Failure) → is_refusal e ≡ true → (e ≡ unordered_version) ⊎ (e ≡ unknown_type)
refusal-cases unordered_version h = inl refl
refusal-cases unknown_type h = inr refl
refusal-cases generation_disagrees h = cc
refusal-cases unique_violation h = cc
refusal-cases superseded_job h = cc

-- After any events since the cutover, a delivery's signal is recorded unless a version has no order (its
-- own or that of a latch from before the cutover) or its data type is not required: the relations never
-- disagree with the cursor, and no insertion of a job meets a job of the same generation.
pub record_durable_signal-refuses :
    (common : Common) (required : List String) (events : List Event) (s : System) (version : Json)
    (data_type : String) (e : Failure)
    → Cutover s
    → record_durable_signal common required version data_type (run common required events s).store
      ≡ failed e
    → (e ≡ unordered_version) ⊎ (e ≡ unknown_type)
record_durable_signal-refuses common required events s version data_type e start h =
    refusal-cases e (
      subst (Ensures (SoundReport required)) h (
        record_durable_signal_lem common required version data_type
          (run common required events s).store
          ((run-SystemOk common required events s (Cutover-SystemOk required s start)).sound)))
