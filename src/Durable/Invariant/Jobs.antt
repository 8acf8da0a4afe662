-- ===== src/Durable/Invariant/Jobs.antt =====
-- `_upsert_job` against the invariant.
use mathlib.Core.Path.{subst}
use mathlib.Core.List.{map-append}
use discogs_sql_loader.Prelude.Members.{In}
use discogs_sql_loader.Prelude.{
  ℕ, String, Bool, true, false, ◌||◌, List, [], ◌∷◌, ◌++◌, map, ◌≡◌, refl, sym, ◌∙◌, Option, none,
  some, ◌==◌, if◌then◌else◌, same, same-eq, arith, Bool-cases, inl, inr, distinct,
  distinct-append_one,
}
use discogs_sql_loader.Text.{Text, Text-discrete}
use discogs_sql_loader.Table.{In-find, find-append_one, find-contains, missing_row, at_row}
use discogs_sql_loader.Durable.{
  RefreshJob, Durable, job_version, find_latch, find_job, has_generation, new_job, upsert_job,
  unique_violation, done, failed,
}
use discogs_sql_loader.Durable.Job.{is_version}
use discogs_sql_loader.Durable.Invariant.{
  job_ok, is_refreshed, is_numbered, is_owed, row_ok, settled, settled_at, Consistent, Settled,
  SettledBut, Ensures,
}
use discogs_sql_loader.Durable.Invariant.Latches.{is_version-not_ahead}

pub is_version-same :
    (v w : Text) (cv : Option Text) → is_version v cv ≡ true → is_version w cv ≡ true → v ≡ w
is_version-same v w none h k = absurd (ground (arith, h))
is_version-same v w (some c) h k = sym (same-eq Text-discrete c v h) ∙ same-eq Text-discrete c w k

abbrev OfGeneration : ℕ → List RefreshJob → Type 0
OfGeneration g jobs = (j : RefreshJob) × In j jobs × (j.generation == g ≡ true)

has_generation_lem :
    (g : ℕ) (jobs : List RefreshJob) → has_generation g jobs ≡ true → OfGeneration g jobs
has_generation_lem g [] h = absurd (ground (arith, h))
has_generation_lem g (j ∷ jobs) h = elim (Bool-cases (j.generation == g)) [
  | inl e ↦ (j, inl refl, e)
  | inr e ↦
      let (i, stands, f) = has_generation_lem g jobs (ground (arith, h, e)) in (i, inr stands, f)
]

only_current :
    (w : Text) (s : Durable) (j : RefreshJob)
    → Consistent s
    → is_version w s.cursor.version ≡ true
    → In j s.jobs
    → j.generation == s.cursor.generation ≡ true
    → find_job w s.jobs ≡ some j
only_current w s j h c stands g =
    let found : find_job j.version s.jobs ≡ some j =
      In-find Text-discrete job_version s.jobs j h.jobs_distinct stands in
    let current : is_version j.version s.cursor.version ≡ true =
      ground (arith, h.rows_ok j.version, found, g) in
    subst (λ (x : Text). find_job x s.jobs ≡ some j)
      (is_version-same j.version w s.cursor.version current c) found

-- no job has the cursor's generation but that of the cursor's version
no_generation :
    (w : Text) (s : Durable)
    → Consistent s
    → is_version w s.cursor.version ≡ true
    → find_job w s.jobs ≡ none
    → has_generation s.cursor.generation s.jobs ≡ false
no_generation w s h c missing = elim (Bool-cases (has_generation s.cursor.generation s.jobs)) [
  | inl e ↦
      let (j, stands, g) = has_generation_lem s.cursor.generation s.jobs e in
      absurd (ground (arith, only_current w s j h c stands g, missing))
  | inr e ↦ e
]

new_job_row :
    (w : Text) (s : Durable) (v : Text)
    → find_job w s.jobs ≡ none
    → find_job v (s.jobs ++ new_job s.clock w s.cursor.generation ∷ []) ≡ (
        if same Text-discrete v w
        then some (new_job s.clock w s.cursor.generation)
        else find_job v s.jobs)
new_job_row w s v h =
    find-append_one Text-discrete job_version v s.jobs (new_job s.clock w s.cursor.generation)
    ∙ missing_row Text-discrete job_version v w (new_job s.clock w s.cursor.generation) s.jobs h

pub settle_here :
    (v w : Text) (P : Text → Bool) → same Text-discrete v w || P v ≡ true → P w ≡ true → P v ≡ true
settle_here v w P k h = elim (Bool-cases (same Text-discrete v w)) [
  | inl e ↦ rw (same-eq Text-discrete v w e) h
  | inr e ↦ ground (arith, k, e)
]

new_job-distinct :
    (w : Text) (s : Durable)
    → Consistent s
    → find_job w s.jobs ≡ none
    → distinct Text-discrete
        (map job_version (s.jobs ++ new_job s.clock w s.cursor.generation ∷ []))
      ≡ true
new_job-distinct w s h e =
    rw (map-append job_version s.jobs (new_job s.clock w s.cursor.generation ∷ [])) (
      distinct-append_one Text-discrete w (map job_version s.jobs) h.jobs_distinct
        (find-contains Text-discrete job_version w s.jobs ∙ rw e refl))

-- the job row of `w` becomes `j`, and no other row changes
module _ (w : Text) (j : Option RefreshJob) (s : Durable) (rows : List RefreshJob)
    (found : (v : Text)
      → find_job v rows ≡ (if same Text-discrete v w then j else find_job v s.jobs)) where
  pub job_row-Consistent :
      distinct Text-discrete (map job_version rows) ≡ true
      → job_ok s.cursor.generation s.cursor.version w (is_refreshed (find_latch w s.latches)) j
        ≡ true
      → Consistent s
      → Consistent (record s { jobs = rows })
  job_row-Consistent d ok h = record {
    jobs_distinct = d;
    rows_ok = λ v. rw (found v) (
        at_row Text-discrete v w
          (λ x i. row_ok s.cursor.generation s.cursor.version x (find_latch x s.latches) i)
          (find_job v s.jobs) j (ground (arith, h.rows_ok w, ok)) (ground (arith, h.rows_ok v)));
  }

  pub job_row-Settled :
      (required : List String)
      → settled required (is_version w s.cursor.version) (find_latch w s.latches) j ≡ true
      → SettledBut required w s
      → Settled required (record s { jobs = rows })
  job_row-Settled required ok k v = rw (found v) (
      at_row Text-discrete v w
        (λ x i. settled required (is_version x s.cursor.version) (find_latch x s.latches) i)
        (find_job v s.jobs) j ok (k v))

-- the job of the cursor's version is there, or can be inserted
upsert_job_of :
    (required : List String) (w : Text) (s : Durable) (found : Option RefreshJob)
    → find_job w s.jobs ≡ found
    → is_version w s.cursor.version ≡ true
    → Consistent s
    → SettledBut required w s
    → is_numbered (find_latch w s.latches) ≡ true
    → Ensures
        (λ t. Consistent t × Settled required t)
        (elim found [
          | some j ↦ done s
          | none ↦
              if has_generation s.cursor.generation s.jobs
              then failed unique_violation
              else done (record s { jobs = s.jobs ++ new_job s.clock w s.cursor.generation ∷ [] })
        ])
upsert_job_of required w s (some j) e c h k n =
    (h, (λ v. settle_here v w (λ (x : Text). settled_at required s x) (k v) (ground (arith, e, n))))
upsert_job_of required w s none e c h k n =
    let new : RefreshJob = new_job s.clock w s.cursor.generation in
    let rows : List RefreshJob = s.jobs ++ new ∷ [] in
    let found : ((v : Text)
        → find_job v rows ≡ (if same Text-discrete v w then some new else find_job v s.jobs)) =
      (λ v. new_job_row w s v e) in
    rw (no_generation w s h c e) (
      job_row-Consistent w (some new) s rows found (new_job-distinct w s h e)
          (ground (arith, is_version-not_ahead w s.cursor.version c, c)) h,
      job_row-Settled w (some new) s rows found required (ground (arith, n)) k,
    )

pub upsert_job_lem :
    (required : List String) (w : Text) (s : Durable)
    → is_version w s.cursor.version ≡ true
    → Consistent s
    → SettledBut required w s
    → is_numbered (find_latch w s.latches) ≡ true
    → Ensures (λ t. Consistent t × Settled required t) (upsert_job w s.cursor.generation s)
unfolding upsert_job
upsert_job_lem required w s = upsert_job_of required w s (find_job w s.jobs) refl

-- where nothing is owed there is no job to insert
pub not_owed-Settled :
    (required : List String) (w : Text) (s : Durable)
    → SettledBut required w s
    → is_numbered (find_latch w s.latches) ≡ true
    → is_owed required (find_latch w s.latches) ≡ false
    → Settled required s
not_owed-Settled required w s k n o v =
    settle_here v w (λ (x : Text). settled_at required s x) (k v) (ground (arith, n, o))
