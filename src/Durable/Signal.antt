-- ===== src/Durable/Signal.antt =====
-- `_reconcile_legacy`, `reconcile_legacy_latches` and `record_durable_signal`.
use discogs_sql_loader.Prelude.{
  ℕ, suc, String, Bool, true, false, not, ◌&&◌, List, [], ◌∷◌, ◌++◌, map, Option, none, some, ◌==◌,
  if◌then◌else◌, contains, String-discrete, keep,
}
use discogs_sql_loader.Text.{Text, Text-discrete}
use discogs_sql_loader.Json.{Json}
use discogs_sql_loader.Common.{Common}
use discogs_sql_loader.Latch.{with_element}
use discogs_sql_loader.Graph.Order.{sort, text_le}
use discogs_sql_loader.Table.{update}
use discogs_sql_loader.Durable.{
  DurableLatch, Durable, unordered_version, unknown_type, generation_disagrees, Result, done,
  failed, ◌>>=◌, latch_version, find_latch, advance_cursor, upsert_job, is_set, is_complete,
}
use discogs_sql_loader.Durable.Version.{eight_digits, ordered_text, ordered_version, text_lt}

-- the versions of the latches that have no generation, in their order; the rows are locked, so each is
-- read when its turn comes
unfoldable pub legacy_versions : List DurableLatch → List Text
unfolding sort text_le
legacy_versions latches =
    sort text_le (map latch_version (keep (λ l. not (is_set l.generation)) latches))

-- `current is not None and version < current`, and `current is None or version > current`
abbrev pub is_behind : Text → Option Text → Bool
is_behind version none = false
is_behind version (some current) = text_lt version current

abbrev pub is_ahead : Text → Option Text → Bool
is_ahead version none = true
is_ahead version (some current) = text_lt current version

unfoldable pub advanced : Text → Durable → Durable
unfolding text_lt advance_cursor
advanced version s =
    if is_ahead version s.cursor.version
    then advance_cursor (suc s.cursor.generation) version s
    else s

-- `SET generation = … WHERE version = … AND generation IS NULL`
abbrev pub with_generation : ℕ → DurableLatch → DurableLatch
with_generation generation l =
    if is_set l.generation then l else record l { generation = some generation }

unfoldable pub adopted : Text → Durable → Durable
adopted version s = record s {
  latches =
      update Text-discrete latch_version version (with_generation s.cursor.generation) s.latches;
}

-- one round of the loop, for a version that orders
unfoldable pub adopt : List String → DurableLatch → Text → Durable → Result Durable
unfolding advanced adopted upsert_job text_lt
adopt required l version s =
    if is_behind version s.cursor.version
    then done s
    else let s' = adopted version (advanced version s) in
      if not (is_set l.refreshed_at) && is_complete required l.signals
      then upsert_job version s'.cursor.generation s'
      else done s'

abbrev pub adopt_ordered : List String → DurableLatch → Option Text → Durable → Result Durable
adopt_ordered required l none s = failed unordered_version
adopt_ordered required l (some version) s = adopt required l version s

abbrev pub adopt_latch : List String → Option DurableLatch → Durable → Result Durable
adopt_latch required none s = done s
adopt_latch required (some l) s =
    if is_set l.refreshed_at && not (eight_digits l.version)
    then done s
    else adopt_ordered required l (ordered_text l.version) s

unfoldable pub adopt_all : List String → List Text → Durable → Result Durable
unfolding adopt eight_digits ordered_text
adopt_all required [] s = done s
adopt_all required (version ∷ versions) s =
    adopt_latch required (find_latch version s.latches) s >>= adopt_all required versions

unfoldable pub reconcile_legacy : List String → Durable → Result Durable
unfolding adopt_all legacy_versions
reconcile_legacy required s = adopt_all required (legacy_versions s.latches) s

-- `INSERT … ON CONFLICT (loader, version) DO UPDATE` of the latch
abbrev pub coalesce {ℓ} : {A : Type ℓ} → Option A → Option A → Option A
coalesce none b = b
coalesce (some a) b = some a

abbrev pub add_signal : Option ℕ → String → DurableLatch → DurableLatch
add_signal generation data_type l = record l {
  generation = coalesce l.generation generation;
  signals = with_element l.signals data_type;
}

abbrev pub new_latch : Text → Option ℕ → String → DurableLatch
new_latch version generation data_type = record {
  version = version;
  generation = generation;
  signals = data_type ∷ [];
  refreshed_at = none;
}

unfoldable pub signal_latch : Text → Option ℕ → String → List DurableLatch → List DurableLatch
unfolding with_element
signal_latch version generation data_type latches = elim (find_latch version latches) [
  | none ↦ latches ++ new_latch version generation data_type ∷ []
  | some l ↦ update Text-discrete latch_version version (add_signal generation data_type) latches
]

-- the row that `RETURNING` gives
abbrev pub returned : Option ℕ → String → Text → Option DurableLatch → DurableLatch
returned generation data_type version none = new_latch version generation data_type
returned generation data_type version (some l) = add_signal generation data_type l

pub record DurableSignal : Type 0 where
  pub version : Text
  pub generation : Option ℕ
  pub signals : List String
  pub scheduled : Bool
  pub superseded : Bool
  pub already_refreshed : Bool

abbrev pub same_generation : Option ℕ → ℕ → Bool
same_generation none g = false
same_generation (some f) g = f == g

abbrev pub reported : DurableLatch → Bool → Bool → DurableSignal
reported l superseded scheduled = record {
  version = l.version;
  generation = l.generation;
  signals = l.signals;
  scheduled = scheduled;
  superseded = superseded;
  already_refreshed = is_set l.refreshed_at;
}

-- after the latches from before the cutover are reconciled
unfoldable pub signal_reconciled :
    List String → Text → String → Durable → Result (Durable × DurableSignal)
unfolding advanced signal_latch upsert_job text_lt
signal_reconciled required version data_type s =
    let behind = is_behind version s.cursor.version in
    let s' = advanced version s in
    let generation = if behind then none else some s'.cursor.generation in
    let row = returned generation data_type version (find_latch version s'.latches) in
    let s'' = record s' { latches = signal_latch version generation data_type s'.latches } in
    if not behind && not (is_set row.refreshed_at) && is_complete required row.signals
    then (if same_generation row.generation s''.cursor.generation
        then upsert_job version s''.cursor.generation s''
          >>= (λ t. done (t, reported row behind true))
        else failed generation_disagrees)
    else done (s'', reported row behind false)

abbrev pub signal_version :
    List String → Option Text → String → Durable → Result (Durable × DurableSignal)
signal_version required none data_type s = failed unordered_version
signal_version required (some version) data_type s =
    if contains String-discrete data_type required
    then reconcile_legacy required s >>= signal_reconciled required version data_type
    else failed unknown_type

unfoldable pub record_durable_signal :
    Common → List String → Json → String → Durable → Result (Durable × DurableSignal)
unfolding signal_reconciled reconcile_legacy ordered_version
record_durable_signal common required version_value data_type s =
    signal_version required (ordered_version common version_value) data_type s
