-- ===== src/Latch/Vetoes.antt =====
-- The purge vetoes on the latch: durable, counted over the extractions, and out of reach of the
-- other loader that shares the relation.
use mathlib.Core.Path.{subst}
use discogs_sql_loader.Prelude.{
  ℕ, suc, ◌+◌, String, Bool, true, not, ◌||◌, List, [], ◌∷◌, ◌≡◌, refl, ◌∙◌, none, some, Option,
  same, same-eq, Bool-cases, inl, inr, arith, ◌is◌, if◌then◌else◌, same_refl, contains,
  String-discrete, keep, eq_iff,
}
use discogs_sql_loader.Text.{Text, Text-discrete}
use discogs_sql_loader.Latch.{
  LatchRow, discogs, find, upsert, update, signalled, record_extraction_signal,
  mark_extraction_refreshed, add_signal, add_veto, new_row, record_purge_veto, purge_was_vetoed,
  count_vetoes, vetoed_in,
}
use discogs_sql_loader.Latch.Signals.{
  contains-with_element, find-upsert_self, find-record_self, find-record_ne, find-upsert_ne, Signal,
  run,
}

pub veto_self :
    (now : ℕ) (v : Text) (t : String) (rows : List LatchRow)
    → purge_was_vetoed v t (record_purge_veto now v t rows) ≡ true
unfolding purge_was_vetoed record_purge_veto contains
veto_self now v t rows = ground (
  arith,
  find-upsert_self v (add_veto now t) (add_veto now t (new_row now v)) rows (λ row. refl)
      (ground (arith, same_refl Text-discrete v, eq_iff discogs discogs)),
  contains-with_element t t [],
  contains-with_element t t (elim (find v rows) [ none ↦ [] | some row ↦ row.purge_vetoed ]),
)

veto_lem :
    (now : ℕ) (v : Text) (t u : String) (rows : List LatchRow)
    → find v (record_purge_veto now v u rows) ≡ (elim (find v rows) [
      | none ↦ some (add_veto now u (new_row now v))
      | some row ↦ some (add_veto now u row)
    ])
unfolding record_purge_veto
veto_lem now v t u rows =
    find-upsert_self v (add_veto now u) (add_veto now u (new_row now v)) rows (λ row. refl)
      (ground (arith, same_refl Text-discrete v, eq_iff discogs discogs))

kept_in :
    (now : ℕ) (v : Text) (t u : String) (row : Option LatchRow)
    → vetoed_in t row ≡ true
    → vetoed_in t (elim row [
      | none ↦ some (add_veto now u (new_row now v))
      | some row ↦ some (add_veto now u row)
    ])
      ≡ true
kept_in now v t u none h = cc
kept_in now v t u (some row) h = ground (arith, h, contains-with_element t u row.purge_vetoed)

-- another veto
pub veto-veto :
    (now : ℕ) (w v : Text) (t u : String) (rows : List LatchRow)
    → purge_was_vetoed v t rows ≡ true
    → purge_was_vetoed v t (record_purge_veto now w u rows) ≡ true
unfolding purge_was_vetoed
veto-veto now w v t u rows h = elim (Bool-cases (same Text-discrete v w)) [
  | inl e ↦
      let v_is : v ≡ w = same-eq Text-discrete v w e in
      subst (λ (x : Text). vetoed_in t (find v (record_purge_veto now x u rows)) ≡ true) v_is
        (rw (veto_lem now v t u rows) (kept_in now v t u (find v rows) h))
  | inr e ↦
      unfold record_purge_veto in
      (rw
        (find-upsert_ne w v (add_veto now u) (add_veto now u (new_row now w)) rows (λ row. refl)
          (ground (arith, same_refl Text-discrete w, eq_iff discogs discogs)) e)
        h)
]

pub veto-record :
    (now : ℕ) (w v : Text) (t u : String) (rows : List LatchRow)
    → purge_was_vetoed v t rows ≡ true
    → purge_was_vetoed v t (record_extraction_signal now w u rows).0 ≡ true
unfolding purge_was_vetoed
veto-record now w v t u rows h = elim (Text-discrete v w) [
  | yes e ↦ ground (arith, find-record_self now w u rows)
  | no n ↦ ground (arith, find-record_ne now w u v rows)
]

pub veto-mark :
    (now : ℕ) (w v : Text) (t : String) (rows : List LatchRow)
    → purge_was_vetoed v t rows ≡ true
    → purge_was_vetoed v t (mark_extraction_refreshed now w rows) ≡ true
unfolding purge_was_vetoed mark_extraction_refreshed find update
veto-mark now w v t [] h = h
veto-mark now w v t (row ∷ rows) h = ground (arith, veto-mark now w v t rows)

veto-run :
    (signals : List Signal) (v : Text) (t : String) (rows : List LatchRow)
    → purge_was_vetoed v t rows ≡ true
    → purge_was_vetoed v t (run signals rows) ≡ true
unfolding run
veto-run [] v t rows h = h
veto-run (s ∷ signals) v t rows h =
    veto-run signals v t (record_extraction_signal s.now s.version s.data_type rows).0
      (veto-record s.now s.version v t s.data_type rows h)

-- A recorded veto is read back by every later delivery of the extraction's signal, whatever signals
-- are recorded in between and whichever extraction is stamped.
pub veto_survives :
    (now stamped_at : ℕ) (v w : Text) (t : String) (before after : List Signal)
    (rows : List LatchRow)
    → purge_was_vetoed v t (
        run after
          (mark_extraction_refreshed stamped_at w (run before (record_purge_veto now v t rows))))
      ≡ true
veto_survives now stamped_at v w t before after rows =
    veto-run after v t _
      (veto-mark stamped_at w v t _ (veto-run before v t _ (veto_self now v t rows)))

-- the extractions that say something of a type, and how many of them from the front were vetoed
abbrev pub reached_type : String → LatchRow → Bool
reached_type t row =
    contains String-discrete t row.purge_vetoed || contains String-discrete t row.signals

unfoldable pub leading : (LatchRow → Bool) → List LatchRow → ℕ
leading p [] = 0
leading p (row ∷ rows) = if p row then suc (leading p rows) else 0

count-leading :
    (t : String) (n : ℕ) (rows : List LatchRow)
    → count_vetoes t n rows
      ≡ n
        + leading (λ row. contains String-discrete t row.purge_vetoed) (keep (reached_type t) rows)
unfolding count_vetoes leading
count-leading t n [] = omega arith
count-leading t n (row ∷ rows) =
    ground (arith, count-leading t n rows, count-leading t (n + 1) rows)

-- Over rows that stand newest first, the loop counts the vetoes up to the first extraction that
-- reached the type without one; an extraction that never reached the type is passed over.
pub count_vetoes-leading :
    (t : String) (rows : List LatchRow)
    → count_vetoes t 0 rows
      ≡ leading (λ row. contains String-discrete t row.purge_vetoed) (keep (reached_type t) rows)
count_vetoes-leading t rows = count-leading t 0 rows ∙ (omega arith)

-- the rows of the other loaders
abbrev pub foreign : List LatchRow → List LatchRow
foreign = keep (λ row. not (row.loader is discogs))

foreign-upsert :
    (v : Text) (change : LatchRow → LatchRow) (new : LatchRow) (rows : List LatchRow)
    → ((row : LatchRow) → (change row).loader ≡ row.loader)
    → (new.loader is discogs) ≡ true
    → foreign (upsert v change new rows) ≡ foreign rows
unfolding upsert
foreign-upsert v change new [] keeps h = rw h
foreign-upsert v change new (row ∷ rows) keeps h =
    ground (arith, keeps row, foreign-upsert v change new rows keeps h)

foreign-update :
    (v : Text) (change : LatchRow → LatchRow) (rows : List LatchRow)
    → ((row : LatchRow) → (change row).loader ≡ row.loader)
    → foreign (update v change rows) ≡ foreign rows
unfolding update
foreign-update v change [] keeps = refl
foreign-update v change (row ∷ rows) keeps =
    ground (arith, keeps row, foreign-update v change rows keeps)

signalled-loader :
    (now : ℕ) (v : Text) (t : String) (rows : List LatchRow)
    → ((signalled now v t (find v rows)).loader is discogs) ≡ true
unfolding find
signalled-loader now v t [] = ground (arith, eq_iff discogs discogs)
signalled-loader now v t (row ∷ rows) = ground (arith, signalled-loader now v t rows)

-- Signals, vetoes and stamps leave every row of another loader as it is, and in its place among them.
pub foreign_untouched :
    (now : ℕ) (v : Text) (t : String) (rows : List LatchRow)
    → (foreign (record_extraction_signal now v t rows).0 ≡ foreign rows)
      × (foreign (record_purge_veto now v t rows) ≡ foreign rows)
      × (foreign (mark_extraction_refreshed now v rows) ≡ foreign rows)
unfolding record_extraction_signal record_purge_veto mark_extraction_refreshed
foreign_untouched now v t rows = (
  foreign-upsert v (add_signal now t) _ rows (λ row. refl) (signalled-loader now v t rows),
  foreign-upsert v (add_veto now t) _ rows (λ row. refl) (ground (arith, eq_iff discogs discogs)),
  foreign-update v _ rows (λ row. refl),
)
