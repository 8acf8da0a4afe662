-- ===== src/Durable/Invariant/Deliveries.antt =====
-- `record_durable_signal` keeps the invariant, and refuses nothing but a version without order and an
-- unknown data type.
use discogs_sql_loader.Prelude.{
  ℕ, String, true, not, ◌&&◌, List, [], ◌∷◌, ◌≡◌, refl, ◌∙◌, Option, none, some, if◌then◌else◌,
  same, same_refl, arith, Bool-cases, inl, inr, contains, String-discrete,
}
use discogs_sql_loader.Text.{Text, Text-discrete, strip, is_digits}
use discogs_sql_loader.Text.Decimal.{strip_of_digits}
use discogs_sql_loader.Json.{Json}
use discogs_sql_loader.Common.{Common}
use discogs_sql_loader.Latch.{text_or_empty}
use discogs_sql_loader.Durable.{
  DurableLatch, Durable, find_latch, upsert_job, is_set, is_complete, done, failed, ◌>>=◌,
  generation_disagrees,
}
use discogs_sql_loader.Durable.Version.{eight_digits, ordered_text, ordered_version}
use discogs_sql_loader.Durable.Version.Order.{taken_lem}
use discogs_sql_loader.Durable.Signal.{
  is_behind, advanced, reconcile_legacy, returned, signal_latch, DurableSignal, same_generation,
  signal_reconciled, signal_version, record_durable_signal,
}
use discogs_sql_loader.Durable.Job.{is_version}
use discogs_sql_loader.Durable.Invariant.{
  Consistent, SettledBut, settled_at, Sound, Ensures, Ensures-bind, is_numbered, numbered_ok,
}
use discogs_sql_loader.Durable.Invariant.Advance.{advanced_lem}
use discogs_sql_loader.Durable.Invariant.Latches.{
  signal_latch_lem, signal_row, number_ok-current, is_behind-not_version,
}
use discogs_sql_loader.Durable.Invariant.Jobs.{upsert_job_lem, not_owed-Settled, settle_here}
use discogs_sql_loader.Durable.Invariant.Signals.{reconcile_legacy_lem, advanced-behind}

-- the state and the report of a delivery
abbrev pub SoundReport : List String → Durable × DurableSignal → Type 0
SoundReport required (t, r) = Sound required t

numbered-coalesce :
    (g : ℕ) (t : String) (w : Text) (l : Option DurableLatch)
    → is_numbered (some (returned (some g) t w l)) ≡ true
numbered-coalesce g t w none = refl
numbered-coalesce g t w (some l) = ground arith

same_generation_lem :
    (g : ℕ) (cv : Option Text) (w : Text) (n : Option ℕ)
    → is_version w cv ≡ true
    → is_set n ≡ true
    → numbered_ok g cv w n ≡ true
    → same_generation n g ≡ true
same_generation_lem g cv w none c n h = cc
same_generation_lem g cv w (some m) c n h = ground arith

eight_digits-strip : (w : Text) → eight_digits w ≡ true → same Text-discrete (strip w) w ≡ true
unfolding eight_digits
eight_digits-strip [] h = cc
eight_digits-strip (c ∷ w) h =
    rw (strip_of_digits (c ∷ w) (unfold is_digits in (ground (arith, h))))
      (same_refl Text-discrete (c ∷ w))

signalled : String → Text → Option ℕ → Durable → Durable
signalled data_type w g s = record s { latches = signal_latch w g data_type s.latches }

-- at the cursor's version
module _ (required : List String) (w : Text) (data_type : String) (s : Durable)
    (c : is_version w s.cursor.version ≡ true) (digits : eight_digits w ≡ true) (h : Consistent s)
    (k : SettledBut required w s) where
  abbrev row : DurableLatch
  row = returned (some s.cursor.generation) data_type w (find_latch w s.latches)

  abbrev after : Durable
  after = record s { latches = signal_latch w (some s.cursor.generation) data_type s.latches }

  row-found : find_latch w after.latches ≡ some row
  row-found =
      signal_row w (some s.cursor.generation) data_type s.latches w
      ∙ rw (same_refl Text-discrete w) refl

  after_lem : Consistent after × SettledBut required w after
  after_lem =
      signal_latch_lem required w (some s.cursor.generation) data_type s
        (number_ok-current s.cursor.generation s.cursor.version w c) (eight_digits-strip w digits) h
        k

  row-numbered : is_numbered (find_latch w after.latches) ≡ true
  row-numbered =
      rw row-found (numbered-coalesce s.cursor.generation data_type w (find_latch w s.latches))

  row-generation : same_generation row.generation s.cursor.generation ≡ true
  row-generation =
      same_generation_lem s.cursor.generation s.cursor.version w row.generation c
        (numbered-coalesce s.cursor.generation data_type w (find_latch w s.latches))
        (ground (arith, (after_lem.0).rows_ok w, row-found))

  current_lem :
      (report other : DurableSignal)
      → Ensures (SoundReport required) (
          if not (is_set row.refreshed_at) && is_complete required row.signals
          then (if same_generation row.generation s.cursor.generation
              then upsert_job w s.cursor.generation after >>= (λ t. done (t, report))
              else failed generation_disagrees)
          else done (after, other))
  current_lem report other =
      elim (Bool-cases (not (is_set row.refreshed_at) && is_complete required row.signals)) [
        | inl owed ↦
            rw (owed, row-generation)
              (Ensures-bind (Sound required) (SoundReport required)
                (upsert_job w s.cursor.generation after) (λ t. done (t, report))
                (upsert_job_lem required w after c after_lem.0 after_lem.1 row-numbered)
                (λ t sound. sound))
        | inr o ↦ rw o (
          after_lem.0,
          not_owed-Settled required w after after_lem.1 row-numbered
              (rw row-found (ground (arith, o))),
        )
      ]

-- behind the cursor
superseded_lem :
    (required : List String) (w : Text) (data_type : String) (s : Durable)
    → is_behind w s.cursor.version ≡ true
    → eight_digits w ≡ true
    → Sound required s
    → Sound required (record s { latches = signal_latch w none data_type s.latches })
superseded_lem required w data_type s b digits (h, k) =
    let (h', k') =
      signal_latch_lem required w none data_type s refl (eight_digits-strip w digits) h
        (λ v. ground (arith, k v)) in
    (
      h',
      (λ v.
          settle_here v w
            (λ (x : Text).
              settled_at required (record s { latches = signal_latch w none data_type s.latches })
                x)
            (k' v) (rw (is_behind-not_version w s.cursor.version b) refl)),
    )

signal_reconciled_lem :
    (required : List String) (w : Text) (data_type : String) (s : Durable)
    → eight_digits w ≡ true
    → Sound required s
    → Ensures (SoundReport required) (signal_reconciled required w data_type s)
unfolding signal_reconciled
signal_reconciled_lem required w data_type s digits (h, k) =
    elim (Bool-cases (is_behind w s.cursor.version)) [
      | inl b ↦
          rw (b, advanced-behind w s b) (superseded_lem required w data_type s b digits (h, k))
      | inr b ↦
          let (h', k', c) = advanced_lem required w s b h k in
          rw b (current_lem required w data_type (advanced w s) c digits h' k' _ _)
    ]

signal_version_lem :
    (required : List String) (version : Option Text) (data_type : String) (s : Durable)
    → ((w : Text) → version ≡ some w → eight_digits w ≡ true)
    → Sound required s
    → Ensures (SoundReport required) (signal_version required version data_type s)
signal_version_lem required none data_type s digits h = refl
signal_version_lem required (some w) data_type s digits h =
    elim (Bool-cases (contains String-discrete data_type required)) [
      | inl known ↦ rw known (
          Ensures-bind (Sound required) (SoundReport required) (reconcile_legacy required s)
            (signal_reconciled required w data_type) (reconcile_legacy_lem required s h)
            (λ t sound. signal_reconciled_lem required w data_type t (digits w refl) sound))
      | inr unknown ↦ rw unknown refl
    ]

pub record_durable_signal_lem :
    (common : Common) (required : List String) (j : Json) (data_type : String) (s : Durable)
    → Sound required s
    → Ensures (SoundReport required) (record_durable_signal common required j data_type s)
unfolding record_durable_signal ordered_version
record_durable_signal_lem common required j data_type s h =
    signal_version_lem required (ordered_text (text_or_empty common j)) data_type s
      (λ w e. (taken_lem (text_or_empty common j) w e).1) h
