-- ===== src/Durable/Invariant/Advance.antt =====
-- `_advance_cursor` against the invariant.
use mathlib.Core.Logic.{ite}
use discogs_sql_loader.Prelude.{
  ℕ, suc, String, Bool, true, false, not, ◌&&◌, ◌||◌, List, map, ◌≡◌, Option, none, some, ◌==◌,
  same, same_refl, arith, Bool-cases, inl, inr,
}
use discogs_sql_loader.Text.{Text, Text-discrete}
use discogs_sql_loader.Table.{map_row, find-map, keys-map}
use discogs_sql_loader.Durable.{
  DurableLatch, RefreshJob, Durable, superseded_before, job_version, find_latch, find_job,
  advance_cursor, is_set,
}
use discogs_sql_loader.Durable.Version.Order.{text_lt_trans, text_lt_total}
use discogs_sql_loader.Durable.Signal.{is_ahead, is_behind, advanced}
use discogs_sql_loader.Durable.Job.{is_version}
use discogs_sql_loader.Durable.Invariant.{
  number_ok, job_ok, numbered_ok, row_ok, settled, Consistent, Settled, SettledBut,
}

number_ok-advance :
    (g : ℕ) (cv : Option Text) (w v : Text) (n : ℕ)
    → is_ahead w cv ≡ true
    → number_ok g cv v n ≡ true
    → number_ok (suc g) (some w) v n && not (n == suc g) && not (same Text-discrete w v) ≡ true
number_ok-advance g none w v n a h = ground arith
number_ok-advance g (some c) w v n a h = ground (arith, text_lt_trans c w v)

pub job_ok-advance :
    (g : ℕ) (cv : Option Text) (w v : Text) (r : Bool) (j : Option RefreshJob)
    → is_ahead w cv ≡ true
    → job_ok g cv v r j ≡ true
    → job_ok (suc g) (some w) v r (map_row (superseded_before (suc g)) j) ≡ true
job_ok-advance g cv w v r none a h = λ i. true
job_ok-advance g cv w v r (some j) a h = ground (arith, number_ok-advance g cv w v j.generation)

numbered_ok-advance :
    (g : ℕ) (cv : Option Text) (w v : Text) (n : Option ℕ)
    → is_ahead w cv ≡ true
    → numbered_ok g cv v n ≡ true
    → numbered_ok (suc g) (some w) v n ≡ true
numbered_ok-advance g cv w v none a h = λ i. true
numbered_ok-advance g cv w v (some n) a h = ground (arith, number_ok-advance g cv w v n)

row_ok-advance :
    (g : ℕ) (cv : Option Text) (w v : Text) (l : Option DurableLatch) (j : Option RefreshJob)
    → is_ahead w cv ≡ true
    → row_ok g cv v l j ≡ true
    → row_ok (suc g) (some w) v l (map_row (superseded_before (suc g)) j) ≡ true
row_ok-advance g cv w v none j a h = ground (arith, job_ok-advance g cv w v false j)
row_ok-advance g cv w v (some l) j a h = ground (
  arith,
  job_ok-advance g cv w v (is_set l.refreshed_at) j,
  numbered_ok-advance g cv w v l.generation,
)

keeps_version : (g : ℕ) (j : RefreshJob) → job_version (superseded_before g j) ≡ job_version j
keeps_version g j = ground arith

-- the next generation is that of the version ahead
pub advance_cursor-Consistent :
    (w : Text) (s : Durable)
    → is_ahead w s.cursor.version ≡ true
    → Consistent s
    → Consistent (advance_cursor (suc s.cursor.generation) w s)
unfolding advance_cursor
advance_cursor-Consistent w s a h = record {
  jobs_distinct =
      rw
        (keys-map Text-discrete job_version (superseded_before (suc s.cursor.generation))
          (keeps_version (suc s.cursor.generation)) s.jobs)
        h.jobs_distinct;
  rows_ok = λ v.
      rw
        (find-map Text-discrete job_version (superseded_before (suc s.cursor.generation))
          (keeps_version (suc s.cursor.generation)) v s.jobs)
        (row_ok-advance s.cursor.generation s.cursor.version w v (find_latch v s.latches)
          (find_job v s.jobs) a (h.rows_ok v));
}

settled-elsewhere :
    (required : List String) (v w : Text) (l : Option DurableLatch) (j : Option RefreshJob)
    → same Text-discrete v w || settled required (same Text-discrete w v) l j ≡ true
settled-elsewhere required v w l j =
    elim (Text-discrete v w)
      as (λ d. (ite d true false || settled required (same Text-discrete w v) l j) ≡ true) [
        | yes p ↦ λ i. true
        | no p ↦ ground (arith, p)
      ]

pub advance_cursor-SettledBut :
    (required : List String) (w : Text) (s : Durable)
    → SettledBut required w (advance_cursor (suc s.cursor.generation) w s)
unfolding advance_cursor
advance_cursor-SettledBut required w s v =
    settled-elsewhere required v w (find_latch v s.latches)
      (find_job v (map (superseded_before (suc s.cursor.generation)) s.jobs))

is_version-current :
    (w : Text) (cv : Option Text)
    → is_behind w cv ≡ false
    → is_ahead w cv ≡ false
    → is_version w cv ≡ true
is_version-current w none b a = cc
is_version-current w (some c) b a = ground (arith, text_lt_total w c, same_refl Text-discrete w)

pub advanced_lem :
    (required : List String) (w : Text) (s : Durable)
    → is_behind w s.cursor.version ≡ false
    → Consistent s
    → Settled required s
    → Consistent (advanced w s)
      × SettledBut required w (advanced w s)
      × (is_version w (advanced w s).cursor.version ≡ true)
unfolding advanced advance_cursor
advanced_lem required w s b h k = elim (Bool-cases (is_ahead w s.cursor.version)) [
  | inl a ↦ rw a (
    advance_cursor-Consistent w s a h,
    advance_cursor-SettledBut required w s,
    same_refl Text-discrete w,
  )
  | inr a ↦ rw a (h, (λ v. ground (arith, k v)), is_version-current w s.cursor.version b a)
]
