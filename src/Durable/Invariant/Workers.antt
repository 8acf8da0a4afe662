-- ===== src/Durable/Invariant/Workers.antt =====
-- What a worker does with a claim keeps the invariant: the claim itself, a renewal, the end of the
-- refresh and what follows a failure.
use mathlib.Core.Path.{subst}
use discogs_sql_loader.Prelude.Members.{In}
use discogs_sql_loader.Prelude.{
  ℕ, String, Bool, true, false, ◌&&◌, List, [], ◌∷◌, ◌≡◌, ◌⊎◌, refl, sym, ◌∙◌, Option, none, some,
  if◌then◌else◌, ◌==◌, same, arith, Bool-cases, inl, inr,
}
use discogs_sql_loader.Text.{Text, Text-discrete}
use discogs_sql_loader.Table.{map_row, find-update, keys-update, In-find, at_same, update, some_inj}
use discogs_sql_loader.Durable.{
  RefreshJob, Durable, job_version, find_latch, find_job, is_set, supersede,
}
use discogs_sql_loader.Durable.Job.{
  ClaimedJob, is_version, is_due, is_leased, first_of, first_due, goes_before, on_job, expire,
  lease, claim_row, claim_first, any_live, claim_due_job, backoff, renew, heartbeat, retry_claim,
  drop_claim, is_current, mark_after_failure, is_claim, is_live,
}
use discogs_sql_loader.Durable.Invariant.{agree, Sound, job_ok, is_refreshed}
use discogs_sql_loader.Durable.Invariant.Jobs.{job_row-Consistent, job_row-Settled}

pub on_job_row :
    (f : RefreshJob → RefreshJob)
    → ((j : RefreshJob) → job_version (f j) ≡ job_version j)
    → (w : Text) (s : Durable) (v : Text)
    → find_job v (on_job w f s).jobs
      ≡ (if same Text-discrete v w then map_row f (find_job w s.jobs) else find_job v s.jobs)
on_job_row f keeps w s v =
    find-update Text-discrete job_version f keeps v w s.jobs
    ∙ at_same Text-discrete job_version v w (map_row f) s.jobs

is_set-map_row :
    (f : RefreshJob → RefreshJob) (j : Option RefreshJob) → is_set (map_row f j) ≡ is_set j
is_set-map_row f none = refl
is_set-map_row f (some j) = refl

on_job_lem :
    (required : List String) (f : RefreshJob → RefreshJob)
    → ((j : RefreshJob) → job_version (f j) ≡ job_version j)
    → (w : Text) (s : Durable)
    → job_ok s.cursor.generation s.cursor.version w
        (is_refreshed (find_latch w s.latches))
        (map_row f (find_job w s.jobs))
      ≡ true
    → Sound required s
    → Sound required (on_job w f s)
on_job_lem required f keeps w s ok (h, k) =
    let j : Option RefreshJob = map_row f (find_job w s.jobs) in
    let rows : List RefreshJob = update Text-discrete job_version w f s.jobs in
    (
      job_row-Consistent w j s rows (on_job_row f keeps w s)
          (rw (keys-update Text-discrete job_version f keeps w s.jobs) h.jobs_distinct) ok h,
      job_row-Settled w j s rows (on_job_row f keeps w s) required
          (ground (arith, k w, is_set-map_row f (find_job w s.jobs))) (λ v. ground (arith, k v)),
    )

-- the first due row is a row, and due
first_of-cases :
    (j : RefreshJob) (i : RefreshJob) → (first_of j (some i) ≡ j) ⊎ (first_of j (some i) ≡ i)
first_of-cases j i = elim (Bool-cases (goes_before i j)) [
  | inl e ↦ inr (rw e refl)
  | inr e ↦ inl (rw e refl)
]

abbrev pub IsDueRow : ℕ → List RefreshJob → RefreshJob → Type 0
IsDueRow now jobs j = In j jobs × (is_due now j ≡ true)

first_of_lem :
    (now : ℕ) (x : RefreshJob) (jobs : List RefreshJob) (rest : Option RefreshJob) (j : RefreshJob)
    → is_due now x ≡ true
    → ((i : RefreshJob) → rest ≡ some i → IsDueRow now jobs i)
    → first_of x rest ≡ j
    → IsDueRow now (x ∷ jobs) j
first_of_lem now x jobs none j d ih e = (inl (sym e), rw (sym e) d)
first_of_lem now x jobs (some i) j d ih e = elim (first_of-cases x i) [
  | inl p ↦ subst (λ (r : RefreshJob). IsDueRow now (x ∷ jobs) r) (sym p ∙ e) (inl refl, d)
  | inr p ↦
      let (stands, due) = ih i refl in
      subst (λ (r : RefreshJob). IsDueRow now (x ∷ jobs) r) (sym p ∙ e) (inr stands, due)
]

pub first_due_lem :
    (now : ℕ) (jobs : List RefreshJob) (j : RefreshJob)
    → first_due now jobs ≡ some j
    → IsDueRow now jobs j
unfolding first_due
first_due_lem now [] j e = cc
first_due_lem now (x ∷ jobs) j e = elim (Bool-cases (is_due now x)) [
  | inl d ↦ first_of_lem now x jobs (first_due now jobs) j d (first_due_lem now jobs) (
      some_inj (
        subst
          (λ (b : Bool).
            (if b then some (first_of x (first_due now jobs)) else first_due now jobs) ≡ some j)
          d e))
  | inr d ↦
      let (stands, due) = first_due_lem now jobs j (
        subst
          (λ (b : Bool).
            (if b then some (first_of x (first_due now jobs)) else first_due now jobs) ≡ some j)
          d e) in
      (inr stands, due)
]

claim_row_lem :
    (required : List String) (owner : String) (token : ℕ) (j : RefreshJob) (s : Durable)
    → is_due s.clock j ≡ true
    → find_job j.version s.jobs ≡ some j
    → Sound required s
    → Sound required (claim_row owner token j s).0
claim_row_lem required owner token j s d e (h, k) =
    elim (Bool-cases (j.generation == s.cursor.generation)) [
      | inr g ↦ rw g (
          on_job_lem required supersede (λ i. refl) j.version s
            (rw e (ground (arith, h.rows_ok j.version, e, g))) (h, k))
      | inl g ↦ elim (Bool-cases (is_leased j.state)) [
        | inl l ↦
            rw (g, l)
              (on_job_lem required (expire s.clock (backoff j.attempt_count)) (λ i. refl) j.version
                s (rw e (ground (arith, h.rows_ok j.version, e, g))) (h, k))
        | inr l ↦
            rw (g, l)
              (on_job_lem required (lease s.clock owner token) (λ i. refl) j.version s
                (rw e (ground (arith, h.rows_ok j.version, e, g))) (h, k))
      ]
    ]

claim_first_lem :
    (required : List String) (owner : String) (token : ℕ) (s : Durable) (found : Option RefreshJob)
    → first_due s.clock s.jobs ≡ found
    → Sound required s
    → Sound required (claim_first owner token found s).0
claim_first_lem required owner token s none e h = h
claim_first_lem required owner token s (some j) e h =
    let (stands, due) = first_due_lem s.clock s.jobs j e in
    claim_row_lem required owner token j s due
      (In-find Text-discrete job_version s.jobs j (h.0).jobs_distinct stands) h

pub claim_due_job_lem :
    (required : List String) (owner : String) (token : ℕ) (s : Durable)
    → Sound required s
    → Sound required (claim_due_job owner token s).0
unfolding claim_due_job
claim_due_job_lem required owner token s h = elim (Bool-cases (any_live s.clock s.jobs)) [
  | inl live ↦ rw live h
  | inr free ↦ rw free (claim_first_lem required owner token s (first_due s.clock s.jobs) refl h)
]

-- the row of a claim after each change
pub renew-version :
    (now : ℕ) (job : ClaimedJob) (j : RefreshJob) → job_version (renew now job j) ≡ job_version j
renew-version now job j = ground arith

pub retry_claim-version :
    (now : ℕ) (error : String) (job : ClaimedJob) (j : RefreshJob)
    → job_version (retry_claim now error job j) ≡ job_version j
retry_claim-version now error job j = ground arith

pub drop_claim-version :
    (job : ClaimedJob) (j : RefreshJob) → job_version (drop_claim job j) ≡ job_version j
drop_claim-version job j = ground arith

abbrev row_of_job : Durable → Text → Option RefreshJob → Bool
row_of_job s v j =
    job_ok s.cursor.generation s.cursor.version v (is_refreshed (find_latch v s.latches)) j

renewed_ok :
    (s : Durable) (job : ClaimedJob) (j : Option RefreshJob)
    → row_of_job s job.version j ≡ true
    → row_of_job s job.version (map_row (renew s.clock job) j) ≡ true
renewed_ok s job none h = refl
renewed_ok s job (some j) h = elim (Bool-cases (is_live s.clock j && is_claim job j)) [
  | inl e ↦ rw e (ground (arith, h))
  | inr e ↦ rw e h
]

retried_ok :
    (s : Durable) (error : String) (job : ClaimedJob) (j : Option RefreshJob)
    → row_of_job s job.version j ≡ true
    → row_of_job s job.version (map_row (retry_claim s.clock error job) j) ≡ true
retried_ok s error job none h = refl
retried_ok s error job (some j) h = elim (Bool-cases (is_leased j.state && is_claim job j)) [
  | inl e ↦ rw e (ground (arith, h, e))
  | inr e ↦ rw e h
]

-- the row of a claim has the claim's generation
abbrev pub generation_ok : ClaimedJob → Option RefreshJob → Bool
generation_ok job none = true
generation_ok job (some j) = j.generation == job.generation

not_current :
    (job : ClaimedJob) (g : ℕ) (cv : Option Text)
    → g == job.generation && is_version job.version cv ≡ false
    → agree (job.generation == g) (is_version job.version cv) ≡ true
    → is_version job.version cv ≡ false
not_current job g cv c a = ground (arith, a, c)

dropped_ok :
    (s : Durable) (job : ClaimedJob) (j : Option RefreshJob)
    → is_current job s.cursor ≡ false
    → generation_ok job j ≡ true
    → row_of_job s job.version j ≡ true
    → row_of_job s job.version (map_row (drop_claim job) j) ≡ true
dropped_ok s job none c g h = refl
dropped_ok s job (some j) c g h = elim (Bool-cases (is_leased j.state && is_claim job j)) [
  | inl e ↦ rw e (ground (arith, h, c, g))
  | inr e ↦ rw e h
]

pub heartbeat_lem :
    (required : List String) (job : ClaimedJob) (s : Durable)
    → Sound required s
    → Sound required (heartbeat job s).0
unfolding heartbeat
heartbeat_lem required job s (h, k) =
    on_job_lem required (renew s.clock job) (renew-version s.clock job) job.version s
      (renewed_ok s job (find_job job.version s.jobs) (ground (arith, h.rows_ok job.version)))
      (h, k)

-- after a failure
module _ (required : List String) (job : ClaimedJob) (error : String) (s : Durable) where
  pub mark_after_failure_lem :
      generation_ok job (find_job job.version s.jobs) ≡ true
      → Sound required s
      → Sound required (mark_after_failure job error s)
  unfolding mark_after_failure
  mark_after_failure_lem g (h, k) = elim (Bool-cases (is_current job s.cursor)) [
    | inl c ↦ rw c (
        on_job_lem required (retry_claim s.clock error job) (retry_claim-version s.clock error job)
          job.version s
          (retried_ok s error job (find_job job.version s.jobs)
            (ground (arith, h.rows_ok job.version)))
          (h, k))
    | inr c ↦ rw c (
        on_job_lem required (drop_claim job) (drop_claim-version job) job.version s
          (dropped_ok s job (find_job job.version s.jobs) c g
            (ground (arith, h.rows_ok job.version)))
          (h, k))
  ]
