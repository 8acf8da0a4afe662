-- ===== src/Durable/Invariant/Signals.antt =====
-- `_reconcile_legacy` and `record_durable_signal` keep the invariant, and refuse nothing but a version
-- without order and an unknown data type.
use discogs_sql_loader.Prelude.{
  String, true, false, not, ◌&&◌, List, [], ◌∷◌, ◌≡◌, refl, sym, ◌∙◌, Option, none, some,
  if◌then◌else◌, same_refl, same-eq, arith, Bool-cases, inl, inr,
}
use discogs_sql_loader.Text.{Text, Text-discrete, strip}
use discogs_sql_loader.Table.{find-key}
use discogs_sql_loader.Durable.{
  DurableLatch, Durable, latch_version, find_latch, advance_cursor, upsert_job, is_set, is_complete,
  done,
}
use discogs_sql_loader.Durable.Version.{eight_digits, ordered_text}
use discogs_sql_loader.Durable.Version.Order.{taken_lem, text_lt_irrefl, text_lt_trans}
use discogs_sql_loader.Durable.Signal.{
  is_behind, is_ahead, advanced, adopted, adopt, adopt_ordered, adopt_latch, adopt_all,
  legacy_versions, reconcile_legacy,
}
use discogs_sql_loader.Durable.Job.{is_version}
use discogs_sql_loader.Durable.Invariant.{
  Consistent, SettledBut, Sound, Ensures, Ensures-bind, is_owed,
}
use discogs_sql_loader.Durable.Invariant.Advance.{advanced_lem}
use discogs_sql_loader.Durable.Invariant.Latches.{adopted_lem, adopted_row}
use discogs_sql_loader.Durable.Invariant.Jobs.{upsert_job_lem, not_owed-Settled}

pub advanced-latches : (w : Text) (s : Durable) → (advanced w s).latches ≡ s.latches
unfolding advanced advance_cursor
advanced-latches w s = ground arith

is_owed-adopted :
    (required : List String) (w : Text) (l : DurableLatch) (s : Durable)
    → find_latch w s.latches ≡ some l
    → is_owed required (find_latch w (adopted w s).latches)
      ≡ (not (is_set l.refreshed_at) && is_complete required l.signals)
unfolding adopted
is_owed-adopted required w l s e =
    rw (adopted_row w s.cursor.generation s w, same_refl Text-discrete w, e) (ground arith)

adopted-upsert :
    (required : List String) (w : Text) (l : DurableLatch) (s : Durable)
    → is_version w s.cursor.version ≡ true
    → Consistent s
    → SettledBut required w s
    → find_latch w s.latches ≡ some l
    → Ensures (Sound required) (
        if not (is_set l.refreshed_at) && is_complete required l.signals
        then upsert_job w (adopted w s).cursor.generation (adopted w s)
        else done (adopted w s))
adopted-upsert required w l s c h k e =
    let (h', k', n) = adopted_lem required w s c h k in
    elim (Bool-cases (not (is_set l.refreshed_at) && is_complete required l.signals)) [
      | inl owed ↦ rw owed (upsert_job_lem required w (adopted w s) (unfold adopted in c) h' k' n)
      | inr o ↦ rw o (
        h',
        not_owed-Settled required w (adopted w s) k' n (is_owed-adopted required w l s e ∙ o),
      )
    ]

adopt_lem :
    (required : List String) (l : DurableLatch) (w : Text) (s : Durable)
    → Sound required s
    → find_latch w s.latches ≡ some l
    → Ensures (Sound required) (adopt required l w s)
unfolding adopt
adopt_lem required l w s (h, k) e = elim (Bool-cases (is_behind w s.cursor.version)) [
  | inl b ↦ rw b (h, k)
  | inr b ↦
      let (h', k', c) = advanced_lem required w s b h k in
      rw b (adopted-upsert required w l (advanced w s) c h' k' (rw (advanced-latches w s) e))
]

trimmed_lem :
    (v : Text) (l : DurableLatch) (s : Durable)
    → Consistent s
    → find_latch v s.latches ≡ some l
    → strip l.version ≡ v
trimmed_lem v l s h e =
    let key : l.version ≡ v = find-key Text-discrete latch_version v s.latches l e in
    rw key (same-eq Text-discrete (strip v) v (ground (arith, h.rows_ok v, e)))

adopt_ordered_lem :
    (required : List String) (v : Text) (l : DurableLatch) (s : Durable) (taken : Option Text)
    → ordered_text l.version ≡ taken
    → Sound required s
    → find_latch v s.latches ≡ some l
    → Ensures (Sound required) (adopt_ordered required l taken s)
adopt_ordered_lem required v l s none t h e = refl
adopt_ordered_lem required v l s (some w) t h e =
    let w_is : w ≡ v = sym ((taken_lem l.version w t).0) ∙ trimmed_lem v l s h.0 e in
    adopt_lem required l w s h (rw w_is e)

adopt_latch_lem :
    (required : List String) (v : Text) (s : Durable) (l : Option DurableLatch)
    → find_latch v s.latches ≡ l
    → Sound required s
    → Ensures (Sound required) (adopt_latch required l s)
adopt_latch_lem required v s none e h = h
adopt_latch_lem required v s (some l) e h =
    elim (Bool-cases (is_set l.refreshed_at && not (eight_digits l.version))) [
      | inl b ↦ rw b h
      | inr b ↦ rw b (adopt_ordered_lem required v l s (ordered_text l.version) refl h e)
    ]

adopt_all_lem :
    (required : List String) (versions : List Text) (s : Durable)
    → Sound required s
    → Ensures (Sound required) (adopt_all required versions s)
unfolding adopt_all
adopt_all_lem required [] s h = h
adopt_all_lem required (v ∷ versions) s h =
    Ensures-bind (Sound required) (Sound required) (adopt_latch required (find_latch v s.latches) s)
      (adopt_all required versions) (adopt_latch_lem required v s (find_latch v s.latches) refl h)
      (adopt_all_lem required versions)

pub reconcile_legacy_lem :
    (required : List String) (s : Durable)
    → Sound required s
    → Ensures (Sound required) (reconcile_legacy required s)
unfolding reconcile_legacy
reconcile_legacy_lem required s = adopt_all_lem required (legacy_versions s.latches) s

is_behind-not_ahead : (w : Text) (cv : Option Text) → is_behind w cv ≡ true → is_ahead w cv ≡ false
is_behind-not_ahead w none h = cc
is_behind-not_ahead w (some c) h = ground (arith, h, text_lt_trans w c w, text_lt_irrefl w)

pub advanced-behind :
    (w : Text) (s : Durable) → is_behind w s.cursor.version ≡ true → advanced w s ≡ s
unfolding advanced
advanced-behind w s b = rw (is_behind-not_ahead w s.cursor.version b) refl
