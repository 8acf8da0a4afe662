-- ===== src/Entities/Write.antt =====
-- `process_batch` and `_process_batch` of tableinator/batch_writer.py: one transaction for a batch.
pub mod Distinct
pub mod Found
pub mod Rows
pub mod Contract
pub mod Outcome
pub mod Backfilled
use discogs_sql_loader.Prelude.{
  ℕ, String, Bool, true, false, not, ◌||◌, List, [], ◌∷◌, ◌++◌, map, Option, none, some,
  if◌then◌else◌, contains, keep,
}
use discogs_sql_loader.Text.{Text, Text-discrete}
use discogs_sql_loader.Json.{Fields}
use discogs_sql_loader.Identity.{AliasRef, Targets, alias_targets}
use discogs_sql_loader.Graph.Order.{sort, text_le}
use discogs_sql_loader.Graph.Writer.{Tables, write_document_graph}
use discogs_sql_loader.Entities.{
  EntityRow, Message, unavailable, unknown_type, unresolved, malformed_identifiers, refused, Result,
  done, failed, Services, Written, media_value, some_of, refuses_media, refuses_graph,
}
use discogs_sql_loader.Entities.Batch.{
  latest, ids_of, Refs, refs_for, Identified, identified, unresolved_ids, is_unchanged, collect,
  media_backfill, identity_backfill,
}
use discogs_sql_loader.Entities.Statements.{
  refresh, backfill_media, backfill_identity, upsert_all, id_of,
}

abbrev pub unchanged : List EntityRow → List Identified → List Identified
unchanged rows = keep (is_unchanged rows)

abbrev pub changed : List EntityRow → List Identified → List Identified
changed rows = keep (λ m. not (is_unchanged rows m))

-- the second components of a list of backfills
abbrev pub ids_in {ℓ} : {A : Type ℓ} → List (A × Text) → List Text
ids_in = map (λ p. p.1)

abbrev pub by_id : Identified → Identified → Bool
by_id a b = text_le (id_of a) (id_of b)

abbrev pub payload : Identified → Fields × Text
payload (m, native_id) = (m.data', native_id)

abbrev pub document : Identified → Text × Fields
document (m, native_id) = (m.data_id, m.data')

module _ (services : Services) (data_type : String) (now : ℕ) where
  abbrev pub media_backfills : List EntityRow → List Identified → List (Fields × Text)
  media_backfills rows = collect (media_backfill services data_type rows)

  abbrev pub identity_backfills : List EntityRow → List Identified → List (Text × Text)
  identity_backfills rows = collect (identity_backfill rows)

  -- the unchanged ids that neither backfill touches
  abbrev pub refresh_ids : List EntityRow → List Identified → List Text
  refresh_ids rows ms =
      keep
        (λ id. not (
          contains Text-discrete id (ids_in (media_backfills rows ms))
          || contains Text-discrete id (ids_in (identity_backfills rows ms))))
        (map id_of (unchanged rows ms))

  -- the rows before the upsert
  unfoldable pub backfilled : List EntityRow → List Identified → List EntityRow
  unfolding refresh backfill_media backfill_identity collect
  backfilled rows ms =
      backfill_identity now (identity_backfills rows ms)
        (backfill_media now (media_backfills rows ms) (refresh now (refresh_ids rows ms) rows))

  unfoldable pub write_rows : List EntityRow → List Identified → Result (List EntityRow)
  unfolding backfilled upsert_all sort
  write_rows rows ms =
      upsert_all services data_type now (sort by_id (changed rows ms)) (backfilled rows ms)

  -- PostgreSQL refuses a value that the backfills or the upsert take from a document
  unfoldable pub refuses_row : List EntityRow → Identified → Bool
  unfolding is_unchanged
  refuses_row rows (m, native_id) =
      if is_unchanged rows (m, native_id)
      then some_of (λ p. services.refuses.jsonb p.0)
          (collect (media_backfill services data_type rows) ((m, native_id) ∷ []))
      else services.refuses.text m.sha256
        || (services.refuses.jsonb m.data'
            || refuses_media services (media_value services data_type m.data'))

  -- the same of a batch, whose changed documents the statements on the `graph` tables write as well
  unfoldable pub refuses_batch : List EntityRow → List Identified → Bool
  unfolding some_of refuses_row refuses_graph
  refuses_batch rows ms =
      some_of (refuses_row rows) ms
      || refuses_graph services data_type (map document (changed rows ms))

  abbrev pub written_with : List EntityRow → Tables → List Identified → Targets → Result Written
  written_with rows graph ms targets =
      if refuses_batch rows ms then failed refused else elim (write_rows rows ms) [
        | failed e ↦ failed e
        | done rows' ↦ done (record {
          rows = rows';
          graph =
              write_document_graph services.common services.keys data_type
                (map document (changed rows ms)) graph;
          attached = targets;
        })
      ]

  -- once every document has its native id
  unfoldable pub write_identified : List EntityRow → Tables → List Identified → Result Written
  unfolding write_rows refuses_batch
  write_identified rows graph ms =
      elim (alias_targets services.identifiers data_type (map payload ms)) [
        | none ↦ failed malformed_identifiers
        | some targets ↦ written_with rows graph ms targets
      ]

  abbrev write_resolved :
      List EntityRow → Tables → Refs → (AliasRef → Option Text) → List Text → Result Written
  write_resolved rows graph refs native_ids [] =
      write_identified rows graph (identified native_ids refs)
  write_resolved rows graph refs native_ids (id ∷ ids) =
      failed (unresolved (sort text_le (id ∷ ids)))

  abbrev write_refs : List EntityRow → Tables → Option Refs → Result Written
  write_refs rows graph none = failed unknown_type
  write_refs rows graph (some refs) =
      let native_ids = services.resolve_aliases (map (λ p. p.1) refs) in
      write_resolved rows graph refs native_ids (unresolved_ids native_ids refs)

  unfoldable pub process_batch : Bool → List Message → List EntityRow → Tables → Result Written
  unfolding write_identified refs_for latest some_of
  process_batch admitted messages rows graph =
      if admitted
      then (if some_of services.refuses.text (ids_of (latest messages))
          then failed refused
          else write_refs rows graph (refs_for data_type (latest messages)))
      else failed unavailable
