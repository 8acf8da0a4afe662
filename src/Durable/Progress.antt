-- ===== src/Durable/Progress.antt =====
-- What is owed can be paid: the job of the cursor's version becomes due, is claimed, and its refresh
-- commits.
use mathlib.Core.Path.{subst}
use discogs_sql_loader.Prelude.Members.{get_elem?}
use discogs_sql_loader.Prelude.{
  ℕ, ◌+◌, String, true, false, not, ◌&&◌, List, [], ◌∷◌, ◌++◌, ◌≡◌, refl, sym, ◌∙◌, ap, Option,
  none, some, inl, inr, arith, Bool-cases, same_refl, ◌==◌, length,
}
use discogs_sql_loader.Text.{Text, Text-discrete}
use discogs_sql_loader.Common.{Common}
use discogs_sql_loader.Table.{find-key}
use discogs_sql_loader.Durable.{
  Durable, DurableLatch, RefreshJob, job_version, find_latch, find_job, is_active, is_set,
}
use discogs_sql_loader.Durable.Job.{
  ClaimedJob, is_due, is_live, is_leased, is_waiting, lease, expire, on_job, backoff, is_version,
  has_generation, is_current, is_unstamped, is_claimed_row, owns_lease, before_commit,
}
use discogs_sql_loader.Durable.System.{
  System, Event, tick, claim, commit, in_store, step, run, committed,
}
use discogs_sql_loader.Durable.Invariant.{
  Consistent, Sound, is_owed, is_refreshed, is_numbered, latch_ok, numbered_ok,
}
use discogs_sql_loader.Durable.Invariant.Workers.{on_job_row}
use discogs_sql_loader.Durable.Invariant.Commits.{ended, committed_found}
use discogs_sql_loader.Durable.Obligations.{Sound-owed}
use discogs_sql_loader.Durable.Published.{refreshed-stamped}
use discogs_sql_loader.Durable.Reachable.{
  Cutover, SystemOk, Cutover-SystemOk, run-SystemOk, step-SystemOk,
}
use discogs_sql_loader.Durable.Scan.{
  is_set-some, claims_it, of_generation, claim_of, claim_due_job-waiting,
}

get-append_one :
    (claims : List ClaimedJob) (job : ClaimedJob)
    → get_elem? (claims ++ job ∷ []) (length claims) ≡ some job
get-append_one [] job = refl
get-append_one (i ∷ claims) job = get-append_one claims job

-- an owed latch of the cursor's version bears the cursor's generation
unstamped_lem :
    (required : List String) (g : ℕ) (cv : Option Text) (j : RefreshJob) (token : ℕ)
    (l : Option DurableLatch)
    → is_version j.version cv ≡ true
    → j.generation == g ≡ true
    → is_owed required l ≡ true
    → is_numbered l ≡ true
    → latch_ok g cv j.version l ≡ true
    → is_unstamped (claim_of token j) l ≡ true
unstamped_lem required g cv j token none c n o m h = cc
unstamped_lem required g cv j token (some l) c n o m h =
    elim l.generation
        as (λ f.
          is_set f ≡ true
          → numbered_ok g cv j.version f ≡ true
          → has_generation j.generation f && not (is_set l.refreshed_at) ≡ true) [
            | none ↦ (λ p q. cc)
            | some f ↦ (λ p q. ground (arith, q, c, n, o))
          ]
      m (ground (arith, h))

-- the claim that was just given owns its lease, and commits
module _ (required : List String) (owner : String) (token : ℕ) (s : Durable) (j : RefreshJob)
    (sound : Sound required s) (c : is_version j.version s.cursor.version ≡ true)
    (o : is_owed required (find_latch j.version s.latches) ≡ true)
    (e : find_job j.version s.jobs ≡ some j) where
  abbrev leased_store : Durable
  leased_store = on_job j.version (lease s.clock owner token) s

  leased_row : find_job j.version leased_store.jobs ≡ some (lease s.clock owner token j)
  leased_row =
      on_job_row (lease s.clock owner token) (λ i. refl) j.version s j.version
      ∙ rw (same_refl Text-discrete j.version, e) refl

  same_number : j.generation == s.cursor.generation ≡ true
  same_number = of_generation s j.version j sound.0 c e

  owns_it : owns_lease (claim_of token j) leased_store ≡ true
  unfolding owns_lease
  owns_it = rw leased_row (ground arith)

  unstamped : is_unstamped (claim_of token j) (find_latch j.version s.latches) ≡ true
  unstamped =
      unstamped_lem required s.cursor.generation s.cursor.version j token
        (find_latch j.version s.latches) c same_number o (ground (arith, sound.1 j.version, c))
        (ground (arith, (sound.0).rows_ok j.version))

  commits_it : committed (claim_of token j) leased_store ≡ ended (claim_of token j) leased_store
  unfolding before_commit
  commits_it =
      let current : is_current (claim_of token j) s.cursor ≡ true =
        ground (arith, same_number, c) in
      let claimed : is_claimed_row (claim_of token j) (find_job j.version leased_store.jobs)
          ≡ true =
        rw leased_row (ground arith) in
      rw (current, owns_it, unstamped, claimed) refl

  refreshed_then :
      is_refreshed (find_latch j.version (committed (claim_of token j) leased_store).latches) ≡ true
  refreshed_then =
      rw
        (
          commits_it,
          committed_found (claim_of token j) s.latches s.clock j.version,
          same_refl Text-discrete j.version,
        )
        (refreshed-stamped s.clock (claim_of token j) (find_latch j.version s.latches) unstamped)

-- from a state with such a job, by the events that follow
abbrev pub CanRefresh : Common → List String → Text → System → Type 0
CanRefresh common required v s =
    (more : List Event) × (is_refreshed (find_latch v (run common required more s).store.latches)
      ≡ true)

module _ (common : Common) (required : List String) (s : System) (ok : SystemOk required s)
    (j : RefreshJob) (c : is_version j.version s.store.cursor.version ≡ true)
    (o : is_owed required (find_latch j.version s.store.latches) ≡ true)
    (e : find_job j.version s.store.jobs ≡ some j) where
  waiting-CanRefresh :
      (t : ℕ)
      → is_waiting j.state ≡ true
      → j.next_attempt_at ≡ some t
      → CanRefresh common required j.version s
  unfolding run step
  waiting-CanRefresh t w n =
      let s' = record s.store { clock = s.store.clock + t } in
      let sound : Sound required s' = (step-SystemOk common required (tick t) s ok).sound in
      (
        tick t ∷ claim "worker" 0 ∷ commit (length s.claims) ∷ [],
        rw
            (
              claim_due_job-waiting "worker" 0 s' j.version j sound.0 c e w (ground (arith, w, n)),
              get-append_one s.claims (claim_of 0 j),
            )
            (refreshed_then required "worker" 0 s' j sound c o e),
      )

tick-SystemOk :
    (common : Common) (required : List String) (t : ℕ) (s : System)
    → SystemOk required s
    → SystemOk required (in_store (record s.store { clock = s.store.clock + t }) s)
unfolding step
tick-SystemOk common required t s ok = step-SystemOk common required (tick t) s ok

-- a scan that finds the lease of the job expired gives no claim, and has it retried later
claim-expired :
    (common : Common) (required : List String) (s : Durable) (claims : List ClaimedJob)
    (j : RefreshJob)
    → Consistent s
    → is_version j.version s.cursor.version ≡ true
    → find_job j.version s.jobs ≡ some j
    → is_leased j.state ≡ true
    → is_due s.clock j ≡ true
    → is_live s.clock j ≡ false
    → step common required (claim "worker" 0) (record { store = s; claims = claims }) ≡ record {
      store = on_job j.version (expire s.clock (backoff j.attempt_count)) s;
      claims = claims;
    }
unfolding step
claim-expired common required s claims j h c e l d n =
    rw (claims_it s j.version j h c e "worker" 0 n d, of_generation s j.version j h c e, l) refl

tick-step :
    (common : Common) (required : List String) (t : ℕ) (s : System)
    → step common required (claim "worker" 0) (step common required (tick t) s)
      ≡ step common required
          (claim "worker" 0)
          (in_store (record s.store { clock = s.store.clock + t }) s)
unfolding step
tick-step common required t s = refl

run-claimed :
    (common : Common) (required : List String) (t : ℕ) (s : System) (more : List Event) (v : Text)
    (s' : System)
    → step common required
        (claim "worker" 0)
        (in_store (record s.store { clock = s.store.clock + t }) s)
      ≡ s'
    → is_refreshed (find_latch v (run common required more s').store.latches) ≡ true
    → is_refreshed
        (find_latch v (run common required (tick t ∷ claim "worker" 0 ∷ more) s).store.latches)
      ≡ true
unfolding run
run-claimed common required t s more v s' e h =
    subst
      (λ (x : System).
        is_refreshed (find_latch v (run common required more x).store.latches) ≡ true)
      (sym (tick-step common required t s ∙ e)) h

module _ (common : Common) (required : List String) (s : System) (ok : SystemOk required s)
    (j : RefreshJob) (c : is_version j.version s.store.cursor.version ≡ true)
    (o : is_owed required (find_latch j.version s.store.latches) ≡ true)
    (e : find_job j.version s.store.jobs ≡ some j) where
  leased-CanRefresh :
      (t : ℕ)
      → is_leased j.state ≡ true
      → j.lease_expires_at ≡ some t
      → CanRefresh common required j.version s
  leased-CanRefresh t l n =
      let s' = record s.store { clock = s.store.clock + t } in
      let ok' : SystemOk required (in_store s' s) = tick-SystemOk common required t s ok in
      let expired = on_job j.version (expire s'.clock (backoff j.attempt_count)) s' in
      let claimed : step common required (claim "worker" 0) (in_store s' s) ≡ in_store expired s =
        claim-expired common required s' s.claims j (ok'.sound).0 c e l (ground (arith, l, n))
          (ground (arith, n)) in
      let row : find_job j.version expired.jobs
          ≡ some (expire s'.clock (backoff j.attempt_count) j) =
        on_job_row (expire s'.clock (backoff j.attempt_count)) (λ i. refl) j.version s' j.version
        ∙ rw (same_refl Text-discrete j.version, e) refl in
      let ok'' : SystemOk required (in_store expired s) =
        subst (SystemOk required) claimed
          (step-SystemOk common required (claim "worker" 0) (in_store s' s) ok') in
      let (more, done_then) =
        waiting-CanRefresh common required (in_store expired s) ok''
          (expire s'.clock (backoff j.attempt_count) j) c o row (s'.clock + backoff j.attempt_count)
          refl refl in
      (
        tick t ∷ claim "worker" 0 ∷ more,
        run-claimed common required t s more j.version (in_store expired s) claimed done_then,
      )

  active-CanRefresh : is_active j.state ≡ true → CanRefresh common required j.version s
  active-CanRefresh a = elim (Bool-cases (is_leased j.state)) [
    | inl l ↦
        let (t, n) =
          is_set-some j.lease_expires_at (ground (arith, (ok.sound.0).rows_ok j.version, e, l)) in
        leased-CanRefresh t l n
    | inr l ↦
        let w : is_waiting j.state ≡ true = ground (arith, l, a) in
        let (t, n) =
          is_set-some j.next_attempt_at (ground (arith, (ok.sound.0).rows_ok j.version, e, w)) in
        waiting-CanRefresh common required s ok j c o e t w n
  ]

owed-row :
    (common : Common) (required : List String) (v : Text) (s : System)
    → SystemOk required s
    → (j : RefreshJob) → is_version v s.store.cursor.version ≡ true
    → is_owed required (find_latch v s.store.latches) ≡ true
    → find_job v s.store.jobs ≡ some j
    → is_active j.state ≡ true
    → CanRefresh common required v s
owed-row common required v s ok j c o e active =
    let v_is : j.version ≡ v = find-key Text-discrete job_version v s.store.jobs j e in
    subst (λ (x : Text). CanRefresh common required x s) v_is
      (active-CanRefresh common required s ok j (rw v_is c) (rw v_is o)
        (ap (λ (x : Text). find_job x s.store.jobs) v_is ∙ e) active)

-- After any events since the cutover, where the cursor's version has a latch with every required signal
-- and no refresh, there are further events (time that passes, scans of a worker and the commit of its
-- claim) after which the latch is refreshed, also where the job is in retry or its worker has died with
-- the lease.
pub owed-CanRefresh :
    (common : Common) (required : List String) (events : List Event) (s : System) (v : Text)
    → Cutover s
    → is_version v (run common required events s).store.cursor.version ≡ true
    → is_owed required (find_latch v (run common required events s).store.latches) ≡ true
    → CanRefresh common required v (run common required events s)
owed-CanRefresh common required events s v start c o =
    let t = run common required events s in
    let ok : SystemOk required t =
      run-SystemOk common required events s (Cutover-SystemOk required s start) in
    let (j, found, active, numbered) = Sound-owed required v t.store ok.sound c o in
    owed-row common required v t ok j c o found active
