-- ===== src/Durable/Published.antt =====
-- What the workers publish: the versions whose refresh transaction commits, in the order of the commits.
use mathlib.Core.Path.{subst}
use discogs_sql_loader.Prelude.Members.{get_elem?}
use discogs_sql_loader.Prelude.{
  ℕ, String, Bool, true, false, ◌&&◌, List, [], ◌∷◌, ◌≡◌, refl, sym, Option, none, some, inl, inr,
  arith, Bool-cases, all, if◌then◌else◌, same, same_refl, same-eq,
}
use discogs_sql_loader.Text.{Text, Text-discrete}
use discogs_sql_loader.Common.{Common}
use discogs_sql_loader.Table.{map_row}
use discogs_sql_loader.Durable.{
  Durable, DurableLatch, find_latch, find_job, Result, done, failed, superseded_job,
}
use discogs_sql_loader.Durable.Version.{text_lt}
use discogs_sql_loader.Durable.Version.Order.{text_lt_total}
use discogs_sql_loader.Durable.Signal.{is_ahead}
use discogs_sql_loader.Durable.Job.{
  ClaimedJob, is_current, is_unstamped, is_claimed_row, owns_lease, is_version, before_commit,
  stamp,
}
use discogs_sql_loader.Durable.System.{
  System, Event, tick, signal, startup, claim, renewal, commit, failure, step, on_claim, committed,
  or_unchanged,
}
use discogs_sql_loader.Durable.Invariant.{is_refreshed}
use discogs_sql_loader.Durable.Invariant.Latches.{is_version-not_ahead}
use discogs_sql_loader.Durable.Invariant.Commits.{committed_found, ended}
use discogs_sql_loader.Durable.Later.{Later}
use discogs_sql_loader.Durable.Reachable.{
  Cutover, SystemOk, Cutover-SystemOk, step-SystemOk, step-Later,
}

-- the version that a commit publishes
abbrev pub published_by : ClaimedJob → Result Durable → List Text → List Text
published_by job (done t) later = job.version ∷ later
published_by job (failed e) later = later

abbrev pub publish_claim : Durable → Option ClaimedJob → List Text → List Text
publish_claim s none later = later
publish_claim s (some job) later = published_by job (before_commit job s) later

abbrev pub publish : Event → System → List Text → List Text
publish (commit n) s later = publish_claim s.store (get_elem? s.claims n) later
publish _ s later = later

module _ (common : Common) (required : List String) where
  unfoldable pub published : List Event → System → List Text
  unfolding step before_commit
  published [] s = []
  published (e ∷ events) s = publish e s (published events (step common required e s))

-- each is before all that follow
unfoldable pub increasing : List Text → Bool
unfolding text_lt
increasing [] = true
increasing (v ∷ later) = all (text_lt v) later && increasing later

-- the cursor is at `v` or past it, and `v` is refreshed
abbrev Passed : Text → Durable → Type 0
Passed v s = (is_ahead v s.cursor.version ≡ false) × (is_refreshed (find_latch v s.latches) ≡ true)

Later-Passed : (v : Text) (s t : Durable) → Later s t → Passed v s → Passed v t
Later-Passed v s t later (a, r) = (later.passed_kept v a, later.refreshed_kept v r)

version_lt :
    (v w : Text) (cv : Option Text)
    → is_version w cv ≡ true
    → is_ahead v cv ≡ false
    → same Text-discrete v w ≡ false
    → text_lt v w ≡ true
version_lt v w none c a n = cc
version_lt v w (some x) c a n =
    let x_is : x ≡ w = same-eq Text-discrete x w c in
    elim (Bool-cases (text_lt v w)) [
      | inl e ↦ e
      | inr e ↦
          let v_is : v ≡ w =
            text_lt_total v w e (subst (λ (y : Text). text_lt y v ≡ false) x_is a) in
          absurd (
            ground (
              arith,
              n,
              subst (λ (y : Text). same Text-discrete v y ≡ true) v_is (same_refl Text-discrete v),
            ))
    ]

unstamped_clash :
    (job : ClaimedJob) (l : Option DurableLatch)
    → is_refreshed l ≡ true
    → is_unstamped job l ≡ true
    → ⊥
unstamped_clash job none r u = cc
unstamped_clash job (some l) r u = ground (arith, r, u)

unstamped_differs :
    (v : Text) (job : ClaimedJob) (s : Durable)
    → is_refreshed (find_latch v s.latches) ≡ true
    → is_unstamped job (find_latch job.version s.latches) ≡ true
    → same Text-discrete v job.version ≡ false
unstamped_differs v job s r u = elim (Bool-cases (same Text-discrete v job.version)) [
  | inr e ↦ e
  | inl e ↦ absurd (
      unstamped_clash job (find_latch job.version s.latches)
        (subst (λ (x : Text). is_refreshed (find_latch x s.latches) ≡ true)
          (same-eq Text-discrete v job.version e) r)
        u)
]

done_inj : {s t : Durable} → done s ≡ done t → s ≡ t
done_inj e = cc

not_done : (t : Durable) → failed superseded_job ≡ done t → ⊥
not_done t e = cc

-- what a commit that succeeds has found, and what it leaves
commit-found :
    (job : ClaimedJob) (s t : Durable)
    → before_commit job s ≡ done t
    → (is_version job.version s.cursor.version ≡ true)
      × (is_unstamped job (find_latch job.version s.latches) ≡ true)
      × (t ≡ ended job s)
unfolding before_commit
commit-found job s t h =
    elim (Bool-cases (
      is_current job s.cursor
      && owns_lease job s
      && is_unstamped job (find_latch job.version s.latches)
      && is_claimed_row job (find_job job.version s.jobs))) [
        | inl e ↦ (
          ground (arith, e),
          ground (arith, e),
          sym (
              done_inj (
                subst
                  (λ (b : Bool). (if b then done (ended job s) else failed superseded_job) ≡ done t)
                  e h)),
        )
        | inr e ↦ absurd (
            not_done t (
              subst
                (λ (b : Bool). (if b then done (ended job s) else failed superseded_job) ≡ done t) e
                h))
      ]

pub refreshed-stamped :
    (now : ℕ) (job : ClaimedJob) (l : Option DurableLatch)
    → is_unstamped job l ≡ true
    → is_refreshed (map_row (stamp now) l) ≡ true
refreshed-stamped now job none u = cc
refreshed-stamped now job (some l) u = refl

-- after the commit the version is behind the cursor or at it, and refreshed
commit-Passed :
    (job : ClaimedJob) (s t : Durable) → before_commit job s ≡ done t → Passed job.version t
commit-Passed job s t h =
    let (current, unstamped, t_is) = commit-found job s t h in
    subst (Passed job.version) (sym t_is) (
      is_version-not_ahead job.version s.cursor.version current,
      rw (committed_found job s.latches s.clock job.version, same_refl Text-discrete job.version)
          (refreshed-stamped s.clock job (find_latch job.version s.latches) unstamped),
    )

-- and every version that was passed before is before it
Passed-commit :
    (v : Text) (job : ClaimedJob) (s t : Durable)
    → before_commit job s ≡ done t
    → Passed v s
    → text_lt v job.version ≡ true
Passed-commit v job s t h (a, r) =
    let (current, unstamped, t_is) = commit-found job s t h in
    version_lt v job.version s.cursor.version current a (unstamped_differs v job s r unstamped)

-- what is published later is increasing, and after each version that is passed
abbrev Follows : Durable → List Text → Type 0
Follows s versions =
    (increasing versions ≡ true) × ((v : Text) → Passed v s → all (text_lt v) versions ≡ true)

publish_lem :
    (job : ClaimedJob) (s : Durable) (r : Result Durable) (versions : List Text)
    → before_commit job s ≡ r
    → Later s (or_unchanged s r)
    → Follows (or_unchanged s r) versions
    → Follows s (published_by job r versions)
unfolding increasing
publish_lem job s (failed e) versions h later (up, after) = (up, after)
publish_lem job s (done t) versions h later (up, after) = (
  ground (arith, up, after job.version (commit-Passed job s t h)),
  (λ v p. ground (arith, Passed-commit v job s t h p, after v (Later-Passed v s t later p))),
)

publish_claim_lem :
    (s : Durable) (job : Option ClaimedJob) (versions : List Text)
    → Later s (on_claim committed job s)
    → Follows (on_claim committed job s) versions
    → Follows s (publish_claim s job versions)
publish_claim_lem s none versions later f = f
publish_claim_lem s (some job) versions later f =
    publish_lem job s (before_commit job s) versions refl later f

module _ (common : Common) (required : List String) where
  unpublished :
      (e : Event) (s : System) (versions : List Text)
      → SystemOk required s
      → Follows (step common required e s).store versions
      → Follows s.store versions
  unpublished e s versions h (up, after) = (
    up,
    (λ v p. after v (
        Later-Passed v s.store (step common required e s).store (step-Later common required e s h)
          p)),
  )

  publish-Follows :
      (e : Event) (s : System) (versions : List Text)
      → SystemOk required s
      → Follows (step common required e s).store versions
      → Follows s.store (publish e s versions)
  unfolding step
  publish-Follows (commit n) s versions h f =
      publish_claim_lem s.store (get_elem? s.claims n) versions
        (step-Later common required (commit n) s h) f
  publish-Follows (tick d) s versions h f = unpublished (tick d) s versions h f
  publish-Follows (signal j t) s versions h f = unpublished (signal j t) s versions h f
  publish-Follows startup s versions h f = unpublished startup s versions h f
  publish-Follows (claim owner token) s versions h f =
      unpublished (claim owner token) s versions h f
  publish-Follows (renewal n) s versions h f = unpublished (renewal n) s versions h f
  publish-Follows (failure n error) s versions h f = unpublished (failure n error) s versions h f

  published-Follows :
      (events : List Event) (s : System)
      → SystemOk required s
      → Follows s.store (published common required events s)
  unfolding published increasing
  published-Follows [] s h = (refl, (λ v p. refl))
  published-Follows (e ∷ events) s h =
      publish-Follows e s (published common required events (step common required e s)) h
        (published-Follows events (step common required e s) (step-SystemOk common required e s h))

-- Whatever the deliveries, restarts and workers do after the cutover, in whatever order: the versions
-- whose refresh commits come in strictly increasing order, so none is published twice and none after
-- a newer one.
pub published-increasing :
    (common : Common) (required : List String) (events : List Event) (s : System)
    → Cutover s
    → increasing (published common required events s) ≡ true
published-increasing common required events s start =
    (published-Follows common required events s (Cutover-SystemOk required s start)).0
