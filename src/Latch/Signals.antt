-- ===== src/Latch/Signals.antt =====
-- What a latch holds after any sequence of signals: the four types in any order, repeated or not.
use discogs_sql_loader.Prelude.{
  ℕ, String, Bool, true, false, ◌&&◌, ◌||◌, List, [], ◌∷◌, ◌++◌, ◌≡◌, refl, ◌∙◌, Option, none, some,
  arith, same, same_refl, contains, contains-append, contains-from_keys, String-discrete, eq_iff,
}
use mathlib.Core.Logic.{ite}
use discogs_sql_loader.Text.{Text, Text-discrete}
use discogs_sql_loader.Latch.{
  LatchRow, discogs, has_key, find, upsert, with_element, signalled, record_extraction_signal,
  add_signal,
}

pub contains-with_element :
    (t x : String) (xs : List String)
    → contains String-discrete t (with_element xs x)
      ≡ (contains String-discrete t xs || same String-discrete t x)
unfolding with_element
contains-with_element t x xs =
    contains-from_keys String-discrete t (xs ++ x ∷ [])
    ∙ contains-append String-discrete t xs (x ∷ [])
    ∙ (unfold contains in ground arith)

-- the rows, found after a write, under this key and under another
pub find-upsert_self :
    (v : Text) (change : LatchRow → LatchRow) (new : LatchRow) (rows : List LatchRow)
    → ((row : LatchRow) → has_key v (change row) ≡ has_key v row)
    → has_key v new ≡ true
    → find v (upsert v change new rows)
      ≡ (elim (find v rows) [ none ↦ some new | some row ↦ some (change row) ])
unfolding find upsert
find-upsert_self v change new [] keyed h = ground arith
find-upsert_self v change new (row ∷ rows) keyed h =
    ground (arith, keyed row, find-upsert_self v change new rows keyed h)

other_key :
    (v w : Text) (row : LatchRow)
    → same Text-discrete w v ≡ false
    → has_key v row ≡ true
    → has_key w row ≡ false
other_key v w row h k = ground arith

pub find-upsert_ne :
    (v w : Text) (change : LatchRow → LatchRow) (new : LatchRow) (rows : List LatchRow)
    → ((row : LatchRow) → has_key w (change row) ≡ has_key w row)
    → has_key v new ≡ true
    → same Text-discrete w v ≡ false
    → find w (upsert v change new rows) ≡ find w rows
unfolding find upsert
find-upsert_ne v w change new [] keyed h n = ground (arith, other_key v w new n)
find-upsert_ne v w change new (row ∷ rows) keyed h n =
    ground (arith, keyed row, other_key v w row n, find-upsert_ne v w change new rows keyed h n)

-- the signals under a key
abbrev pub of_row : Option LatchRow → List String
of_row none = []
of_row (some row) = row.signals

abbrev pub signals_of : Text → List LatchRow → List String
signals_of v rows = of_row (find v rows)

-- a row is found under its own key
signalled-keyed :
    (now : ℕ) (v : Text) (t : String) (rows : List LatchRow)
    → has_key v (signalled now v t (find v rows)) ≡ true
unfolding find
signalled-keyed now v t [] = ground (arith, same_refl Text-discrete v, eq_iff discogs discogs)
signalled-keyed now v t (row ∷ rows) = ground (arith, signalled-keyed now v t rows)

module _ (now : ℕ) (v : Text) (t : String) where
  pub find-record_self :
      (rows : List LatchRow)
      → find v (record_extraction_signal now v t rows).0 ≡ some (signalled now v t (find v rows))
  unfolding record_extraction_signal
  find-record_self rows =
      find-upsert_self v (add_signal now t) (signalled now v t (find v rows)) rows (λ row. refl)
        (signalled-keyed now v t rows)
      ∙ ground arith

  pub find-record_ne :
      (w : Text) (rows : List LatchRow)
      → same Text-discrete w v ≡ false
      → find w (record_extraction_signal now v t rows).0 ≡ find w rows
  unfolding record_extraction_signal
  find-record_ne w rows n =
      find-upsert_ne v w (add_signal now t) (signalled now v t (find v rows)) rows (λ row. refl)
        (signalled-keyed now v t rows) n

  pub contains-signalled :
      (x : String) (o : Option LatchRow)
      → contains String-discrete x (signalled now v t o).signals
        ≡ (contains String-discrete x (of_row o) || same String-discrete x t)
  unfolding contains
  contains-signalled x none = contains-with_element x t []
  contains-signalled x (some row) = contains-with_element x t row.signals

  contains-signals :
      (w : Text) (x : String) (rows : List LatchRow)
      → contains String-discrete x (signals_of w (record_extraction_signal now v t rows).0) ≡ (
          contains String-discrete x (signals_of w rows)
          || same Text-discrete w v && same String-discrete x t)
  contains-signals w x rows =
      elim (Text-discrete w v)
        as (λ d.
          contains String-discrete x (signals_of w (record_extraction_signal now v t rows).0) ≡ (
            contains String-discrete x (signals_of w rows)
            || ite d true false && same String-discrete x t)) [
              | yes e ↦ ground (arith, find-record_self rows, contains-signalled x (find v rows))
              | no n ↦ ground (arith, find-record_ne w rows)
            ]

-- one delivery of a signal: when it is recorded, the extraction it names, and its type
pub record Signal : Type 0 where
  pub now : ℕ
  pub version : Text
  pub data_type : String

unfoldable pub run : List Signal → List LatchRow → List LatchRow
run [] rows = rows
run (s ∷ signals) rows = run signals (record_extraction_signal s.now s.version s.data_type rows).0

-- a signal of the type that names the extraction is among the deliveries
unfoldable pub occurs : Text → String → List Signal → Bool
occurs v t [] = false
occurs v t (s ∷ signals) =
    same Text-discrete v s.version && same String-discrete t s.data_type || occurs v t signals

-- After any deliveries, in any order and repeated or not, an extraction's row holds the types it held
-- before and those that were signalled for that extraction, and no signal for another one.
pub run-signals :
    (signals : List Signal) (rows : List LatchRow) (v : Text) (t : String)
    → contains String-discrete t (signals_of v (run signals rows))
      ≡ (contains String-discrete t (signals_of v rows) || occurs v t signals)
unfolding run occurs
run-signals [] rows v t = ground arith
run-signals (s ∷ signals) rows v t =
    run-signals signals (record_extraction_signal s.now s.version s.data_type rows).0 v t
    ∙ ground (arith, contains-signals s.now s.version s.data_type v t rows)
