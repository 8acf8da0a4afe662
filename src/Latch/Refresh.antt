-- ===== src/Latch/Refresh.antt =====
-- When the derived-relation pass runs: on the signal that completes an extraction, and not again
-- once the extraction is stamped.
use discogs_sql_loader.Prelude.{
  ℕ, String, Bool, false, not, ◌&&◌, ◌||◌, List, [], ◌∷◌, ◌≡◌, refl, ◌∙◌, ap, Option, none, some,
  arith, same, contains, String-discrete, all,
}
use discogs_sql_loader.Text.{Text, Text-discrete}
use discogs_sql_loader.Latch.{
  LatchRow, find, update, signalled, has_newer, record_extraction_signal, should_refresh, is_set,
  mark_extraction_refreshed,
}
use discogs_sql_loader.Latch.Signals.{
  of_row, signals_of, contains-signalled, find-record_self, find-record_ne, Signal, run,
  run-signals, occurs,
}

-- the stamp under a key
abbrev stamp_of_row : Option LatchRow → Option ℕ
stamp_of_row none = none
stamp_of_row (some row) = row.refreshed_at

abbrev pub refreshed_at : Text → List LatchRow → Option ℕ
refreshed_at v rows = stamp_of_row (find v rows)

-- the creation time that `superseded` is held to
abbrev pub created_at : ℕ → Text → List LatchRow → ℕ
created_at now v rows = (signalled now v "" (find v rows)).created_at

stamp-signalled :
    (now : ℕ) (v : Text) (t : String) (o : Option LatchRow)
    → (signalled now v t o).refreshed_at ≡ stamp_of_row o
stamp-signalled now v t none = refl
stamp-signalled now v t (some row) = refl

created-signalled :
    (now : ℕ) (v : Text) (t u : String) (o : Option LatchRow)
    → (signalled now v t o).created_at ≡ (signalled now v u o).created_at
created-signalled now v t u none = refl
created-signalled now v t u (some row) = refl

all_ext :
    (p q : String → Bool) (xs : List String) → ((x : String) → p x ≡ q x) → all p xs ≡ all q xs
all_ext p q [] h = refl
all_ext p q (x ∷ xs) h = ground (arith, h x, all_ext p q xs h)

should-record :
    (rows : List LatchRow) (now : ℕ) (v : Text) (t : String) (data_types : List String)
    → should_refresh data_types (record_extraction_signal now v t rows).1 ≡ (
        all
          (λ d. contains String-discrete d (signals_of v rows) || same String-discrete d t)
          data_types
        && not (is_set (refreshed_at v rows))
        && not (has_newer (created_at now v rows) rows))
unfolding should_refresh record_extraction_signal
should-record rows now v t data_types =
    let o = find v rows in
    cc (
      all_ext _ (λ d. contains String-discrete d (of_row o) || same String-discrete d t) data_types
          (λ d. contains-signalled now v t d o),
      stamp-signalled now v t o,
      created-signalled now v t "" o,
    )

-- Whatever was delivered before, a signal runs the pass exactly when every one of the types has been
-- signalled for its extraction, itself included, the extraction was not stamped, and no later
-- extraction of this loader has started.
pub refreshes_when_complete :
    (signals : List Signal) (rows : List LatchRow) (now : ℕ) (v : Text) (t : String)
    (data_types : List String)
    → should_refresh data_types (record_extraction_signal now v t (run signals rows)).1 ≡ (
        all
          (λ d.
            (contains String-discrete d (signals_of v rows) || occurs v d signals)
            || same String-discrete d t)
          data_types
        && not (is_set (refreshed_at v (run signals rows)))
        && not (has_newer (created_at now v (run signals rows)) (run signals rows)))
refreshes_when_complete signals rows now v t data_types =
    should-record (run signals rows) now v t data_types
    ∙ cc (
        all_ext _ _ data_types
          (λ d. ap (λ b. b || same String-discrete d t) (run-signals signals rows v d)))

refreshed-record :
    (now : ℕ) (v w : Text) (t : String) (rows : List LatchRow)
    → refreshed_at w (record_extraction_signal now v t rows).0 ≡ refreshed_at w rows
refreshed-record now v w t rows = elim (Text-discrete w v) [
  | yes e ↦ ground (arith, find-record_self now v t rows, stamp-signalled now v t (find v rows))
  | no n ↦ ground (arith, find-record_ne now v t w rows)
]

refreshed-run :
    (signals : List Signal) (w : Text) (rows : List LatchRow)
    → refreshed_at w (run signals rows) ≡ refreshed_at w rows
unfolding run
refreshed-run [] w rows = refl
refreshed-run (s ∷ signals) w rows =
    refreshed-run signals w (record_extraction_signal s.now s.version s.data_type rows).0
    ∙ refreshed-record s.now s.version w s.data_type rows

refreshed-mark :
    (now : ℕ) (v : Text) (rows : List LatchRow) (row : LatchRow)
    → find v rows ≡ some row
    → refreshed_at v (mark_extraction_refreshed now v rows) ≡ some now
unfolding mark_extraction_refreshed find update
refreshed-mark now v [] row h = cc
refreshed-mark now v (r ∷ rows) row h = ground (arith, refreshed-mark now v rows row)

-- Once the pass has stamped an extraction that has a row, no later delivery of any of its signals
-- runs it again, whatever is delivered in between.
pub refreshes_once :
    (stamped_at : ℕ) (v : Text) (rows : List LatchRow) (row : LatchRow) (signals : List Signal)
    (now : ℕ) (t : String) (data_types : List String)
    → find v rows ≡ some row
    → should_refresh data_types
        (record_extraction_signal now v t
          (run signals (mark_extraction_refreshed stamped_at v rows))).1
      ≡ false
refreshes_once stamped_at v rows row signals now t data_types h =
    let marked = mark_extraction_refreshed stamped_at v rows in
    should-record (run signals marked) now v t data_types
    ∙ ground (arith, refreshed-run signals v marked, refreshed-mark stamped_at v rows row h)
