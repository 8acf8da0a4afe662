-- ===== src/Latch.antt =====
-- tableinator/extraction_latch.py: the durable latch that says when a whole extraction has
-- finished. The relation `public.loader_extraction_latch` is a list of rows, its primary key
-- (loader, version); a statement is a function of the rows and of the transaction's NOW().
pub mod Signals
pub mod Vetoes
pub mod Refresh
use discogs_sql_loader.Prelude.{
  ℕ, ◌+◌, String, Bool, true, false, not, ◌&&◌, ◌||◌, List, [], ◌∷◌, ◌++◌, Option, none, some, ltb,
  ◌is◌, if◌then◌else◌, same, contains, from_keys, String-discrete, keep, all,
}
use discogs_sql_loader.Text.{Text, Text-discrete, codes, blank, strip}
use discogs_sql_loader.Json.{Json, null, bool, int, float, str, arr, obj, Fields, get, truthy}
use discogs_sql_loader.Common.{Common}
use discogs_sql_loader.Graph.Ids.{int_text}
use discogs_sql_loader.Graph.Order.{sort, text_le}

pub record LatchRow : Type 0 where
  pub loader : String
  pub version : Text
  pub signals : List String
  pub created_at : ℕ
  pub updated_at : ℕ
  pub refreshed_at : Option ℕ
  pub purge_vetoed : List String

-- `LOADER_DISCRIMINATOR`
abbrev pub discogs : String
discogs = "discogs"

abbrev pub has_key : Text → LatchRow → Bool
has_key version row = row.loader is discogs && same Text-discrete version row.version

-- the row under the key, if there is one
unfoldable pub find : Text → List LatchRow → Option LatchRow
find version [] = none
find version (row ∷ rows) = if has_key version row then some row else find version rows

-- `ON CONFLICT (loader, version) DO UPDATE`: the row under the key changed, or a new row
unfoldable pub upsert : Text → (LatchRow → LatchRow) → LatchRow → List LatchRow → List LatchRow
upsert version change new [] = new ∷ []
upsert version change new (row ∷ rows) =
    if has_key version row then change row ∷ rows else row ∷ upsert version change new rows

-- `UPDATE … WHERE` the key
unfoldable pub update : Text → (LatchRow → LatchRow) → List LatchRow → List LatchRow
update version change [] = []
update version change (row ∷ rows) =
    if has_key version row then change row ∷ rows else row ∷ update version change rows

-- `array_agg(DISTINCT …)` of an array with one more element; its readers use it as a set
unfoldable pub with_element : List String → String → List String
with_element xs x = from_keys String-discrete (xs ++ x ∷ [])

-- a row as the INSERT makes it, the other columns at their defaults
abbrev new_row : ℕ → Text → LatchRow
new_row now version = record {
  loader = discogs;
  version = version;
  signals = [];
  created_at = now;
  updated_at = now;
  refreshed_at = none;
  purge_vetoed = [];
}

abbrev add_signal : ℕ → String → LatchRow → LatchRow
add_signal now data_type row = record row {
  signals = with_element row.signals data_type;
  updated_at = now;
}

abbrev add_veto : ℕ → String → LatchRow → LatchRow
add_veto now data_type row = record row {
  purge_vetoed = with_element row.purge_vetoed data_type;
  updated_at = now;
}

pub record ExtractionLatch : Type 0 where
  pub version : Text
  pub signals : List String
  pub already_signalled : Bool
  pub already_refreshed : Bool
  pub superseded : Bool

-- `EXISTS` a row of this loader that was created later
unfoldable pub has_newer : ℕ → List LatchRow → Bool
has_newer created_at [] = false
has_newer created_at (row ∷ rows) =
    row.loader is discogs && ltb created_at row.created_at || has_newer created_at rows

abbrev pub is_set : Option ℕ → Bool
is_set none = false
is_set (some t) = true

-- the row as `upserted` returns it
abbrev pub signalled : ℕ → Text → String → Option LatchRow → LatchRow
signalled now version data_type none = add_signal now data_type (new_row now version)
signalled now version data_type (some row) = add_signal now data_type row

abbrev prior_signals : Option LatchRow → List String
prior_signals none = []
prior_signals (some row) = row.signals

-- `record_statement` with `record_extraction_signal`: the rows after it, and the latch that it reports
unfoldable pub record_extraction_signal :
    ℕ → Text → String → List LatchRow → List LatchRow × ExtractionLatch
unfolding find upsert with_element has_newer
record_extraction_signal now version data_type rows =
    let prior = find version rows in
    let upserted = signalled now version data_type prior in
    (
      upsert version (add_signal now data_type) upserted rows,
      record {
        version = version;
        signals = upserted.signals;
        already_signalled = contains String-discrete data_type (prior_signals prior);
        already_refreshed = is_set upserted.refreshed_at;
        superseded = has_newer upserted.created_at rows;
      },
    )

unfoldable pub should_refresh : List String → ExtractionLatch → Bool
should_refresh data_types latch =
    all (λ t. contains String-discrete t latch.signals) data_types
    && not latch.already_refreshed
    && not latch.superseded

-- `pending`, up to its order
unfoldable pub pending : List String → ExtractionLatch → List String
pending data_types latch = keep (λ t. not (contains String-discrete t latch.signals)) data_types

-- `stamp_statement` with `mark_extraction_refreshed`
unfoldable pub mark_extraction_refreshed : ℕ → Text → List LatchRow → List LatchRow
unfolding update
mark_extraction_refreshed now version =
    update version (λ row. record row { refreshed_at = some now; updated_at = now })

-- `veto_statement` with `record_purge_veto`
unfoldable pub record_purge_veto : ℕ → Text → String → List LatchRow → List LatchRow
unfolding upsert with_element
record_purge_veto now version data_type =
    upsert version (add_veto now data_type) (add_veto now data_type (new_row now version))

abbrev pub vetoed_in : String → Option LatchRow → Bool
vetoed_in data_type none = false
vetoed_in data_type (some row) = contains String-discrete data_type row.purge_vetoed

-- `vetoed_statement` with `purge_was_vetoed`
unfoldable pub purge_was_vetoed : Text → String → List LatchRow → Bool
unfolding find
purge_was_vetoed version data_type rows = vetoed_in data_type (find version rows)

-- the loop of `consecutive_purge_vetoes` over the loader's rows, newest first; `consecutive` is the
-- number of vetoes so far
unfoldable pub count_vetoes : String → ℕ → List LatchRow → ℕ
count_vetoes data_type consecutive [] = consecutive
count_vetoes data_type consecutive (row ∷ rows) =
    let vetoed = count_vetoes data_type (consecutive + 1) rows in
    let silent = count_vetoes data_type consecutive rows in
    if contains String-discrete data_type row.purge_vetoed
    then vetoed
    else if contains String-discrete data_type row.signals
    then consecutive
    else silent

-- `veto_history_statement` with `consecutive_purge_vetoes`; versions are ordered by code points
unfoldable pub consecutive_purge_vetoes : String → List LatchRow → ℕ
unfolding count_vetoes sort text_le
consecutive_purge_vetoes data_type rows =
    count_vetoes data_type 0
      (sort (λ a b. text_le b.version a.version) (keep (λ row. row.loader is discogs) rows))

-- `str` of a value that is truthy
abbrev python_str : Common → Json → Text
python_str common (str s) = s
python_str common (int n) = int_text n
python_str common (bool b) = codes "True"
python_str common j = common.repr j

-- `str(value or "")`
abbrev pub text_or_empty : Common → Json → Text
text_or_empty common value =
    if truthy common.float_is_zero value then python_str common value else []

abbrev first_text : Text → Text → Option Text
first_text (c ∷ s) t = some (c ∷ s)
first_text [] (c ∷ t) = some (c ∷ t)
first_text [] [] = none

unfoldable pub extraction_latch_key : Common → Fields → Option Text
extraction_latch_key common data' =
    first_text (strip (text_or_empty common (get "version" data')))
      (strip (text_or_empty common (get "started_at" data')))
