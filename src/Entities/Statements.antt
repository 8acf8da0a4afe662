-- ===== src/Entities/Statements.antt =====
-- The statements of tableinator/batch_writer.py, each a function of the rows and of the transaction's
-- NOW(). One whose arrays would be empty is not executed, and changes nothing if it is.
use discogs_sql_loader.Prelude.{
  ℕ, String, Bool, true, false, List, ◌++◌, map, Option, none, some, if◌then◌else◌, contains, keep,
  distinct,
}
use discogs_sql_loader.Text.{Text, Text-discrete}
use discogs_sql_loader.Json.{Fields}
use discogs_sql_loader.Entities.{
  EntityRow, cardinality_violation, Result, done, failed, Services, find_row, media_value,
}
use discogs_sql_loader.Entities.Batch.{Identified, value_of, record_for}

-- `UPDATE … SET updated_at = NOW() WHERE data_id = ANY(…)`
abbrev pub touched : ℕ → List Text → EntityRow → EntityRow
touched now ids row =
    if contains Text-discrete row.data_id ids then record row { updated_at = now } else row

unfoldable pub refresh : ℕ → List Text → List EntityRow → List EntityRow
refresh now ids = map (touched now ids)

-- `_backfill` of the column `media`, and of the column `gm_item_id`
abbrev pub with_media : ℕ → List (Fields × Text) → EntityRow → EntityRow
with_media now pairs row = elim (value_of row.data_id pairs) [
  | none ↦ row
  | some value ↦ record row { media = some value; updated_at = now }
]

unfoldable pub backfill_media : ℕ → List (Fields × Text) → List EntityRow → List EntityRow
backfill_media now pairs = map (with_media now pairs)

abbrev pub with_identity : ℕ → List (Text × Text) → EntityRow → EntityRow
with_identity now pairs row = elim (value_of row.data_id pairs) [
  | none ↦ row
  | some value ↦ record row { gm_item_id = some value; updated_at = now }
]

unfoldable pub backfill_identity : ℕ → List (Text × Text) → List EntityRow → List EntityRow
backfill_identity now pairs = map (with_identity now pairs)

abbrev old_media : Option EntityRow → Option Fields
old_media none = none
old_media (some row) = row.media

-- the row of an incoming record; a type without a media column leaves it as it is
abbrev pub upserted : Services → String → ℕ → Identified → Option EntityRow → EntityRow
upserted services data_type now (m, native_id) old = record {
  data_id = m.data_id;
  hash = m.sha256;
  data' = m.data';
  media = elim (media_value services data_type m.data') [
    | none ↦ old_media old
    | some block ↦ some block
  ];
  gm_item_id = some native_id;
  updated_at = now;
}

abbrev pub overwritten : Services → String → ℕ → List Identified → EntityRow → EntityRow
overwritten services data_type now ms row = elim (record_for row.data_id ms) [
  | none ↦ row
  | some m ↦ upserted services data_type now m (some row)
]

abbrev pub is_absent : List EntityRow → Identified → Bool
is_absent rows (m, native_id) = elim (find_row m.data_id rows) [ none ↦ true | some row ↦ false ]

abbrev pub id_of : Identified → Text
id_of (m, native_id) = m.data_id

-- the conflicting rows overwritten, the others inserted
abbrev pub upsert_rows : Services → String → ℕ → List Identified → List EntityRow → List EntityRow
upsert_rows services data_type now ms rows =
    map (overwritten services data_type now ms) rows
    ++ map (λ m. upserted services data_type now m none) (keep (is_absent rows) ms)

-- `_upsert`: a set-based INSERT … ON CONFLICT (data_id) DO UPDATE
unfoldable pub upsert_all :
    Services → String → ℕ → List Identified → List EntityRow → Result (List EntityRow)
unfolding find_row
upsert_all services data_type now ms rows =
    if distinct Text-discrete (map id_of ms)
    then done (upsert_rows services data_type now ms rows)
    else failed cardinality_violation
