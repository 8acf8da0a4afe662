-- ===== src/Durable/Later/Deliveries.antt =====
-- `_reconcile_legacy` and `record_durable_signal` undo nothing.
use discogs_sql_loader.Prelude.{
  ℕ, suc, String, Bool, true, false, not, ◌&&◌, ◌||◌, List, [], ◌∷◌, ◌++◌, ◌≡◌, refl, ap, ◌∙◌,
  Option, none, some, if◌then◌else◌, same, arith, Bool-cases, inl, inr, contains, String-discrete,
}
use discogs_sql_loader.Text.{Text, Text-discrete}
use discogs_sql_loader.Json.{Json}
use discogs_sql_loader.Common.{Common}
use discogs_sql_loader.Table.{map_row, or_row, find-map, find-append_one, at_row, update}
use discogs_sql_loader.Durable.{
  unique_violation, generation_disagrees, DurableLatch, RefreshJob, Durable, latch_version,
  job_version, find_latch, find_job, advance_cursor, superseded_before, new_job, upsert_job,
  has_generation, is_set, is_complete, done, failed, ◌>>=◌,
}
use discogs_sql_loader.Durable.Version.{eight_digits, ordered_text, ordered_version}
use discogs_sql_loader.Durable.Version.Order.{text_lt_trans}
use discogs_sql_loader.Durable.Signal.{
  is_behind, is_ahead, advanced, adopted, adopt, adopt_ordered, adopt_latch, adopt_all,
  legacy_versions, reconcile_legacy, with_generation, returned, signal_latch, DurableSignal,
  signal_reconciled, signal_version, record_durable_signal,
}
use discogs_sql_loader.Durable.Invariant.{is_refreshed}
use discogs_sql_loader.Durable.Invariant.Latches.{adopted_row, signal_row}
use discogs_sql_loader.Durable.Later.{
  Later, Later-refl, Later-trans, Leads, Leads-from, Leads-bind, itself, generation_of,
}

passed-advance :
    (w v : Text) (cv : Option Text)
    → is_ahead w cv ≡ true
    → is_ahead v cv ≡ false
    → is_ahead v (some w) ≡ false
passed-advance w v none a h = cc
passed-advance w v (some c) a h = ground (arith, text_lt_trans c w v, a, h)

pub generation_of-map :
    (f : RefreshJob → RefreshJob)
    → ((j : RefreshJob) → (f j).generation ≡ j.generation)
    → (j : Option RefreshJob) → generation_of (map_row f j) ≡ generation_of j
generation_of-map f keeps none = refl
generation_of-map f keeps (some j) = ap (λ (n : ℕ). some n) (keeps j)

keeps_version : (g : ℕ) (j : RefreshJob) → job_version (superseded_before g j) ≡ job_version j
keeps_version g j = ground arith

keeps_generation : (g : ℕ) (j : RefreshJob) → (superseded_before g j).generation ≡ j.generation
keeps_generation g j = ground arith

advance_cursor-Later :
    (g : ℕ) (w : Text) (s : Durable)
    → is_ahead w s.cursor.version ≡ true
    → Later s (advance_cursor g w s)
unfolding advance_cursor
advance_cursor-Later g w s a = record {
  generations_kept = λ v n e.
      rw (find-map Text-discrete job_version (superseded_before g) (keeps_version g) v s.jobs)
        (generation_of-map (superseded_before g) (keeps_generation g) (find_job v s.jobs) ∙ e);
  refreshed_kept = λ v e. e;
  passed_kept = λ v e. passed-advance w v s.cursor.version a e;
}

advanced-Later : (w : Text) (s : Durable) → Later s (advanced w s)
unfolding advanced
advanced-Later w s = elim (Bool-cases (is_ahead w s.cursor.version)) [
  | inl a ↦ rw a (advance_cursor-Later (suc s.cursor.generation) w s a)
  | inr a ↦ rw a (Later-refl s)
]

pub implied : (a b : Bool) → not a || b ≡ true → a ≡ true → b ≡ true
implied true b h e = h
implied false b h e = cc

-- the latch row of `w` becomes `l`, which is refreshed as before
pub new_row-Later :
    (w : Text) (l : Option DurableLatch) (s : Durable) (rows : List DurableLatch)
    → ((v : Text)
        → find_latch v rows ≡ (if same Text-discrete v w then l else find_latch v s.latches))
    → is_refreshed l ≡ is_refreshed (find_latch w s.latches)
    → Later s (record s { latches = rows })
new_row-Later w l s rows found kept = record {
  generations_kept = λ v g e. e;
  refreshed_kept = λ v e.
      implied (is_refreshed (find_latch v s.latches)) (is_refreshed (find_latch v rows))
        (rw (found v) (
          at_row Text-discrete v w
            (λ x a. not (is_refreshed (find_latch x s.latches)) || is_refreshed a)
            (find_latch v s.latches) l (ground (arith, kept)) (ground arith)))
        e;
  passed_kept = λ v e. e;
}

refreshed-generation :
    (g : ℕ) (l : Option DurableLatch)
    → is_refreshed (map_row (with_generation g) l) ≡ is_refreshed l
refreshed-generation g none = refl
refreshed-generation g (some l) = ground arith

refreshed-returned :
    (g : Option ℕ) (t : String) (w : Text) (l : Option DurableLatch)
    → is_refreshed (some (returned g t w l)) ≡ is_refreshed l
refreshed-returned g t w none = refl
refreshed-returned g t w (some l) = refl

adopted-Later : (w : Text) (s : Durable) → Later s (adopted w s)
unfolding adopted
adopted-Later w s =
    new_row-Later w (map_row (with_generation s.cursor.generation) (find_latch w s.latches)) s
      (update Text-discrete latch_version w (with_generation s.cursor.generation) s.latches)
      (adopted_row w s.cursor.generation s)
      (refreshed-generation s.cursor.generation (find_latch w s.latches))

signal_latch-Later :
    (w : Text) (g : Option ℕ) (t : String) (s : Durable)
    → Later s (record s { latches = signal_latch w g t s.latches })
signal_latch-Later w g t s =
    new_row-Later w (some (returned g t w (find_latch w s.latches))) s
      (signal_latch w g t s.latches) (signal_row w g t s.latches)
      (refreshed-returned g t w (find_latch w s.latches))

found_first :
    (g : ℕ) (j other : Option RefreshJob)
    → generation_of j ≡ some g
    → generation_of (or_row j other) ≡ some g
found_first g none other e = cc
found_first g (some j) other e = e

new_job-Later : (new : RefreshJob) (s : Durable) → Later s (record s { jobs = s.jobs ++ new ∷ [] })
new_job-Later new s = record {
  generations_kept = λ v g e. rw (find-append_one Text-discrete job_version v s.jobs new) (
      found_first g (find_job v s.jobs)
        (if same Text-discrete v new.version then some new else none) e);
  refreshed_kept = λ v e. e;
  passed_kept = λ v e. e;
}

upsert_job-later : (w : Text) (g : ℕ) (s : Durable) → Leads itself s (upsert_job w g s)
unfolding upsert_job
upsert_job-later w g s =
    elim (find_job w s.jobs)
      as (λ found. Leads itself s (elim found [
        | some j ↦ done s
        | none ↦
            if has_generation g s.jobs
            then failed unique_violation
            else done (record s { jobs = s.jobs ++ new_job s.clock w g ∷ [] })
      ])) [
        | some j ↦ Later-refl s
        | none ↦ elim (Bool-cases (has_generation g s.jobs)) [
          | inl e ↦ rw e tt
          | inr e ↦ rw e (new_job-Later (new_job s.clock w g) s)
        ]
      ]

adopt-later :
    (required : List String) (l : DurableLatch) (w : Text) (s : Durable)
    → Leads itself s (adopt required l w s)
unfolding adopt
adopt-later required l w s =
    let s' = adopted w (advanced w s) in
    let later : Later s s' =
      Later-trans s (advanced w s) s' (advanced-Later w s) (adopted-Later w (advanced w s)) in
    elim (Bool-cases (is_behind w s.cursor.version)) [
      | inl b ↦ rw b (Later-refl s)
      | inr b ↦ elim (Bool-cases (not (is_set l.refreshed_at) && is_complete required l.signals)) [
        | inl owed ↦
            rw (b, owed)
              (Leads-from itself s s' (upsert_job w s'.cursor.generation s') later
                (upsert_job-later w s'.cursor.generation s'))
        | inr o ↦ rw (b, o) later
      ]
    ]

adopt_ordered-later :
    (required : List String) (l : DurableLatch) (w : Option Text) (s : Durable)
    → Leads itself s (adopt_ordered required l w s)
adopt_ordered-later required l none s = tt
adopt_ordered-later required l (some w) s = adopt-later required l w s

adopt_latch-later :
    (required : List String) (l : Option DurableLatch) (s : Durable)
    → Leads itself s (adopt_latch required l s)
adopt_latch-later required none s = Later-refl s
adopt_latch-later required (some l) s =
    elim (Bool-cases (is_set l.refreshed_at && not (eight_digits l.version))) [
      | inl b ↦ rw b (Later-refl s)
      | inr b ↦ rw b (adopt_ordered-later required l (ordered_text l.version) s)
    ]

adopt_all-later :
    (required : List String) (versions : List Text) (s : Durable)
    → Leads itself s (adopt_all required versions s)
unfolding adopt_all
adopt_all-later required [] s = Later-refl s
adopt_all-later required (v ∷ versions) s =
    Leads-bind itself itself s (adopt_latch required (find_latch v s.latches) s)
      (adopt_all required versions) (adopt_latch-later required (find_latch v s.latches) s)
      (adopt_all-later required versions)

pub reconcile_legacy-later :
    (required : List String) (s : Durable) → Leads itself s (reconcile_legacy required s)
unfolding reconcile_legacy
reconcile_legacy-later required s = adopt_all-later required (legacy_versions s.latches) s

abbrev pub recorded : Durable × DurableSignal → Durable
recorded (t, report) = t

scheduled-Later :
    (w : Text) (g : ℕ) (s s' : Durable)
    → Later s s'
    → (due agrees : Bool) (report other : DurableSignal)
    → Leads recorded s (
        if due
        then (if agrees
            then upsert_job w g s' >>= (λ t. done (t, report))
            else failed generation_disagrees)
        else done (s', other))
scheduled-Later w g s s' later false agrees report other = later
scheduled-Later w g s s' later true false report other = tt
scheduled-Later w g s s' later true true report other =
    Leads-from recorded s s' (upsert_job w g s' >>= (λ t. done (t, report))) later (
      Leads-bind itself recorded s' (upsert_job w g s') (λ t. done (t, report))
        (upsert_job-later w g s') Later-refl)

signal_reconciled-later :
    (required : List String) (w : Text) (t : String) (s : Durable)
    → Leads recorded s (signal_reconciled required w t s)
unfolding signal_reconciled
signal_reconciled-later required w t s =
    let generation : Option ℕ =
      if is_behind w s.cursor.version then none else some (advanced w s).cursor.generation in
    let s' = record (advanced w s) {
      latches = signal_latch w generation t (advanced w s).latches;
    } in
    scheduled-Later w s'.cursor.generation s s'
      (Later-trans s (advanced w s) s' (advanced-Later w s)
        (signal_latch-Later w generation t (advanced w s)))
      _ _ _ _

signal_version-later :
    (required : List String) (version : Option Text) (t : String) (s : Durable)
    → Leads recorded s (signal_version required version t s)
signal_version-later required none t s = tt
signal_version-later required (some w) t s =
    elim (Bool-cases (contains String-discrete t required)) [
      | inl known ↦ rw known (
          Leads-bind itself recorded s (reconcile_legacy required s)
            (signal_reconciled required w t) (reconcile_legacy-later required s)
            (signal_reconciled-later required w t))
      | inr unknown ↦ rw unknown tt
    ]

pub record_durable_signal-later :
    (common : Common) (required : List String) (j : Json) (t : String) (s : Durable)
    → Leads recorded s (record_durable_signal common required j t s)
unfolding record_durable_signal
record_durable_signal-later common required j t s =
    signal_version-later required (ordered_version common j) t s
