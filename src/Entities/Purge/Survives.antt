-- ===== src/Entities/Purge/Survives.antt =====
-- A batch and the purge that follows it.
use discogs_sql_loader.Prelude.{
  ℕ, ◌≤◌, String, true, List, map, ◌≡◌, refl, arith, Option, none, some,
}
use discogs_sql_loader.Text.{Text}
use discogs_sql_loader.Identity.{AliasRef, Targets, entity_kind, alias_targets}
use discogs_sql_loader.Graph.Writer.{Tables}
use discogs_sql_loader.Entities.{EntityRow, Message, Services, Written, done, find_row}
use discogs_sql_loader.Entities.Batch.{Identified, latest}
use discogs_sql_loader.Entities.Write.{payload, process_batch}
use discogs_sql_loader.Entities.Write.Distinct.{last_message}
use discogs_sql_loader.Entities.Write.Rows.{row_after}
use discogs_sql_loader.Entities.Write.Outcome.{Resolves, with_native, written-rows}
use discogs_sql_loader.Entities.Purge.{Purged, PurgePolicy, purge_stale_rows}
use discogs_sql_loader.Entities.Purge.Fresh.{purge_keeps_fresh}

row_after-now :
    (services : Services) (data_type : String) (now : ℕ) (m : Identified) (old : Option EntityRow)
    → (row_after services data_type now m old).updated_at ≡ now
unfolding row_after
row_after-now services data_type now m none = refl
row_after-now services data_type now m (some row) = ground arith

module _ (services : Services) (native : AliasRef → Text) (resolves : Resolves services native)
    (data_type : String) (kind : Text) (known : entity_kind data_type ≡ some kind) (now : ℕ) where
  -- After a batch of a known type, with well-formed identifiers and aliases that all resolve, that was
  -- written at or after an extraction's start, a purge of what it left that names that start and ends
  -- without an error keeps the row of each document of the batch, as the batch wrote it.
  pub batch_survives_purge :
      (messages : List Message) (rows : List EntityRow) (graph : Tables) (targets : Targets)
      (w : Written) (policy : PurgePolicy) (started_at : Text) (record_count : Option ℕ)
      (purged : Purged) (started : ℕ) (id : Text) (m : Message)
      → alias_targets services.identifiers data_type
          (map payload (map (with_native native kind) (latest messages)))
        ≡ some targets
      → process_batch services data_type now true messages rows graph ≡ done w
      → purge_stale_rows policy data_type started_at record_count w.rows w.graph ≡ done purged
      → policy.fromisoformat started_at ≡ some started
      → started ≤ now
      → last_message id messages ≡ some m
      → find_row id purged.rows
        ≡ some (row_after services data_type now (with_native native kind m) (find_row id rows))
  batch_survives_purge messages rows graph targets w policy started_at record_count purged started
        id m h e p t le delivered =
      let found =
        written-rows services native resolves data_type kind known now messages rows graph targets
          id h w e in
      purge_keeps_fresh policy data_type started_at record_count w.rows w.graph purged started id
        (row_after services data_type now (with_native native kind m) (find_row id rows)) p t
        (ground (arith, found, delivered))
        (omega (
          arith,
          le,
          row_after-now services data_type now (with_native native kind m) (find_row id rows),
        ))
