-- ===== src/Durable/Scan.antt =====
-- What a scan finds: the job of the cursor's version, which is the only active one.
use mathlib.Core.Path.{subst}
use discogs_sql_loader.Prelude.Members.{In}
use discogs_sql_loader.Prelude.{
  ℕ, suc, String, true, false, List, [], ◌∷◌, ◌≡◌, refl, sym, ◌∙◌, ap, Option, none, some, inl, inr,
  arith, Bool-cases, ◌==◌,
}
use discogs_sql_loader.Text.{Text, Text-discrete}
use discogs_sql_loader.Table.{In-find, find-In, find-key, some_inj}
use discogs_sql_loader.Durable.{Durable, RefreshJob, job_version, find_job, is_active, is_set}
use discogs_sql_loader.Durable.Job.{
  ClaimedJob, is_due, is_live, is_leased, is_waiting, any_live, first_due, claim_row, claim_due_job,
  lease, on_job, is_version,
}
use discogs_sql_loader.Durable.Invariant.{Consistent}
use discogs_sql_loader.Durable.Invariant.Jobs.{is_version-same}
use discogs_sql_loader.Durable.Invariant.Workers.{first_due_lem}

-- a due row is the first or there is another one
first_due-some :
    (now : ℕ) (jobs : List RefreshJob) (j : RefreshJob)
    → In j jobs
    → is_due now j ≡ true
    → is_set (first_due now jobs) ≡ true
unfolding first_due
first_due-some now [] j i d = absurd i
first_due-some now (x ∷ jobs) j (inl e) d = rw (sym e, d) refl
first_due-some now (x ∷ jobs) j (inr i) d = elim (Bool-cases (is_due now x)) [
  | inl e ↦ rw e refl
  | inr e ↦ rw e (first_due-some now jobs j i d)
]

abbrev LiveRow : ℕ → List RefreshJob → Type 0
LiveRow now jobs = (i : RefreshJob) × In i jobs × (is_live now i ≡ true)

any_live_lem : (now : ℕ) (jobs : List RefreshJob) → any_live now jobs ≡ true → LiveRow now jobs
any_live_lem now [] h = absurd (ground (arith, h))
any_live_lem now (x ∷ jobs) h = elim (Bool-cases (is_live now x)) [
  | inl e ↦ (x, inl refl, e)
  | inr e ↦
      let (i, stands, live) = any_live_lem now jobs (ground (arith, h, e)) in (i, inr stands, live)
]

-- every active job is that of the cursor's version
active_row :
    (s : Durable) (v : Text) (i j : RefreshJob)
    → Consistent s
    → is_version v s.cursor.version ≡ true
    → find_job v s.jobs ≡ some j
    → In i s.jobs
    → is_active i.state ≡ true
    → i ≡ j
active_row s v i j h c e stands active =
    let found : find_job i.version s.jobs ≡ some i =
      In-find Text-discrete job_version s.jobs i h.jobs_distinct stands in
    let current : is_version i.version s.cursor.version ≡ true =
      ground (arith, h.rows_ok i.version, found, active) in
    some_inj (
      sym (
        subst (λ (x : Text). find_job x s.jobs ≡ some i)
          (is_version-same i.version v s.cursor.version current c) found)
      ∙ e)

is_live-active : (now : ℕ) (j : RefreshJob) → is_live now j ≡ true → is_active j.state ≡ true
is_live-active now j h = ground (arith, h)

is_due-active : (now : ℕ) (j : RefreshJob) → is_due now j ≡ true → is_active j.state ≡ true
is_due-active now j h = ground (arith, h)

pub is_set-some {ℓ} : {A : Type ℓ} (a : Option A) → is_set a ≡ true → (x : A) × (a ≡ some x)
is_set-some none h = cc
is_set-some (some x) h = (x, refl)

-- the job of the cursor's version, where no other is active
module _ (s : Durable) (v : Text) (j : RefreshJob) (h : Consistent s)
    (c : is_version v s.cursor.version ≡ true) (e : find_job v s.jobs ≡ some j) where
  none_live : is_live s.clock j ≡ false → any_live s.clock s.jobs ≡ false
  none_live n = elim (Bool-cases (any_live s.clock s.jobs)) [
    | inr a ↦ a
    | inl a ↦
        let (i, stands, live) = any_live_lem s.clock s.jobs a in
        let i_is : i ≡ j = active_row s v i j h c e stands (is_live-active s.clock i live) in
        absurd (ground (arith, n, subst (λ (x : RefreshJob). is_live s.clock x ≡ true) i_is live))
  ]

  first_is : is_due s.clock j ≡ true → first_due s.clock s.jobs ≡ some j
  first_is d =
      let (i, found) =
        is_set-some (first_due s.clock s.jobs)
          (first_due-some s.clock s.jobs j (find-In Text-discrete job_version v s.jobs j e) d) in
      let (stands, due) = first_due_lem s.clock s.jobs i found in
      found
      ∙ ap (λ (x : RefreshJob). some x)
          (active_row s v i j h c e stands (is_due-active s.clock i due))

  pub claims_it :
      (owner : String) (token : ℕ)
      → is_live s.clock j ≡ false
      → is_due s.clock j ≡ true
      → claim_due_job owner token s ≡ claim_row owner token j s
  unfolding claim_due_job
  claims_it owner token n d = rw (none_live n, first_is d) refl

  pub of_generation : j.generation == s.cursor.generation ≡ true
  of_generation = ground (arith, h.rows_ok v, e, c)

-- the claim that a lease gives
abbrev pub claim_of : ℕ → RefreshJob → ClaimedJob
claim_of token j = record {
  version = j.version;
  generation = j.generation;
  token = token;
  epoch = suc j.lease_epoch;
  attempt_count = suc j.attempt_count;
}

-- With no lease alive, a job that waits for its turn and is due is claimed by the next scan: it is
-- leased, under the next epoch.
pub claim_due_job-waiting :
    (owner : String) (token : ℕ) (s : Durable) (v : Text) (j : RefreshJob)
    → Consistent s
    → is_version v s.cursor.version ≡ true
    → find_job v s.jobs ≡ some j
    → is_waiting j.state ≡ true
    → is_due s.clock j ≡ true
    → claim_due_job owner token s
      ≡ (on_job v (lease s.clock owner token) s, some (claim_of token j))
claim_due_job-waiting owner token s v j h c e w d =
    let v_is : j.version ≡ v = find-key Text-discrete job_version v s.jobs j e in
    let not_leased : is_leased j.state ≡ false = ground (arith, w) in
    claims_it s v j h c e owner token (ground (arith, w)) d
    ∙ rw (of_generation s v j h c e, not_leased, sym v_is) refl
