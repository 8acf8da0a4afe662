-- ===== src/Entities/Record.antt =====
-- `persist_record` of tableinator/record_persistence.py: one transaction for one document.
pub mod AsBatch
use discogs_sql_loader.Prelude.{
  ℕ, String, Bool, true, false, not, ◌&&◌, ◌||◌, List, [], ◌∷◌, Option, none, some, if◌then◌else◌,
  same, ◌is◌,
}
use discogs_sql_loader.Text.{Text, Text-discrete}
use discogs_sql_loader.Json.{Json, str, Fields, lookup}
use discogs_sql_loader.Identity.{AliasRef, Targets, alias_ref, alias_targets}
use discogs_sql_loader.Graph.Writer.{Tables, write_document_graph}
use discogs_sql_loader.Entities.{
  EntityRow, Message, unknown_type, unresolved, malformed_identifiers, hash_refused, refused,
  Result, done, failed, Services, Written, find_row, media_value, refuses_media, refuses_graph,
}
use discogs_sql_loader.Entities.Batch.{Identified, hash_is, null_in}
use discogs_sql_loader.Entities.Statements.{upserted}

-- `data.get("sha256", "")`, as the `hash` column takes it
abbrev hash_text : Option Json → Option Text
hash_text none = some []
hash_text (some (str s)) = some s
hash_text (some _) = none

unfoldable pub sha256_of : Fields → Option Text
sha256_of data' = hash_text (lookup "sha256" data')

-- `media = CASE WHEN … OR media IS NULL THEN EXCLUDED.media ELSE media END` where the type has one
abbrev media_if_null : Option Fields → Option Fields → Option Fields
media_if_null old none = old
media_if_null none (some block) = some block
media_if_null (some block) (some _) = some block

-- the row by the `CASE` expressions of `DO UPDATE`
unfoldable pub merged : Services → String → ℕ → Identified → Option EntityRow → EntityRow
merged services data_type now (m, native_id) none =
    upserted services data_type now (m, native_id) none
merged services data_type now (m, native_id) (some row) =
    let value = media_value services data_type m.data' in
    if same Text-discrete row.hash m.sha256
    then record row {
      media = media_if_null row.media value;
      gm_item_id = some native_id;
      updated_at = now;
    }
    else upserted services data_type now (m, native_id) (some row)

-- `INSERT … ON CONFLICT (data_id) DO UPDATE` of one row
unfoldable pub upsert_row : Text → (Option EntityRow → EntityRow) → List EntityRow → List EntityRow
upsert_row id change [] = change none ∷ []
upsert_row id change (row ∷ rows) =
    if same Text-discrete id row.data_id
    then change (some row) ∷ rows
    else row ∷ upsert_row id change rows

-- `prior.prior_hash IS DISTINCT FROM …`, where there is a prior row
unfoldable pub content_changed : List EntityRow → Message → Bool
unfolding find_row
content_changed rows m = not (hash_is m.sha256 (find_row m.data_id rows))

unfoldable pub terminal_outcome : String → List EntityRow → Message → String
unfolding find_row
terminal_outcome data_type rows m =
    let prior = find_row m.data_id rows in
    if data_type is "releases" && (hash_is m.sha256 prior && null_in (λ row. row.media) prior)
    then "media_backfilled"
    else "processed"

module _ (services : Services) (data_type : String) (now : ℕ) where
  -- PostgreSQL refuses a value of the upsert, which binds all of them whatever the hash is
  unfoldable pub refuses_message : Message → Bool
  refuses_message m =
      services.refuses.text m.data_id
      || (services.refuses.text m.sha256
          || (services.refuses.jsonb m.data'
              || refuses_media services (media_value services data_type m.data')))

  -- it refuses a row that a changed document gives the `graph` tables
  unfoldable pub refuses_edges : List EntityRow → Message → Bool
  unfolding content_changed refuses_graph
  refuses_edges rows m =
      content_changed rows m && refuses_graph services data_type ((m.data_id, m.data') ∷ [])

  -- once the document is upserted
  abbrev pub persist_message :
      Message → Text → List EntityRow → Tables → Option Targets → Result (Written × String)
  persist_message m native_id rows graph none = failed malformed_identifiers
  persist_message m native_id rows graph (some targets) =
      if refuses_edges rows m
      then failed refused
      else done (
        record {
          rows = upsert_row m.data_id (merged services data_type now (m, native_id)) rows;
          graph =
              if content_changed rows m
              then write_document_graph services.common services.keys data_type
                  ((m.data_id, m.data') ∷ []) graph
              else graph;
          attached = targets;
        },
        terminal_outcome data_type rows m,
      )

  abbrev pub persist_sent : Message → Text → List EntityRow → Tables → Result (Written × String)
  persist_sent m native_id rows graph =
      if refuses_message m
      then failed refused
      else persist_message m native_id rows graph
          (alias_targets services.identifiers data_type ((m.data', native_id) ∷ []))

  abbrev pub persist_hashed :
      Text → Fields → Text → Option Text → List EntityRow → Tables → Result (Written × String)
  persist_hashed data_id data' native_id none rows graph = failed hash_refused
  persist_hashed data_id data' native_id (some sha256) rows graph =
      persist_sent (record { data_id = data_id; data' = data'; sha256 = sha256 }) native_id rows
        graph

  abbrev pub persist_resolved :
      Text → Fields → Option Text → List EntityRow → Tables → Result (Written × String)
  persist_resolved data_id data' none rows graph = failed (unresolved (data_id ∷ []))
  persist_resolved data_id data' (some native_id) rows graph =
      persist_hashed data_id data' native_id (sha256_of data') rows graph

  abbrev pub persist_ref :
      Text → Fields → Option AliasRef → List EntityRow → Tables → Result (Written × String)
  persist_ref data_id data' none rows graph = failed unknown_type
  persist_ref data_id data' (some ref) rows graph =
      persist_resolved data_id data' (services.resolve_aliases (ref ∷ []) ref) rows graph

  unfoldable pub persist_record :
      Text → Fields → List EntityRow → Tables → Result (Written × String)
  unfolding alias_ref alias_targets sha256_of merged upsert_row content_changed terminal_outcome
      refuses_message refuses_edges
  persist_record data_id data' rows graph =
      persist_ref data_id data' (alias_ref data_type data_id) rows graph
