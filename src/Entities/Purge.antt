-- ===== src/Entities/Purge.antt =====
-- `purge_stale_rows` of tableinator/record_persistence.py: what it refuses, and what it deletes.
pub mod Fresh
pub mod Survives
use discogs_sql_loader.Prelude.{
  ℕ, ◌*◌, String, Bool, true, false, not, ◌||◌, List, [], ◌∷◌, map, Option, none, some,
  if◌then◌else◌, length, keep, ltb, leb, ◌==◌,
}
use discogs_sql_loader.Text.{Text}
use discogs_sql_loader.Graph.Writer.{Tables, purge_document_graph}
use discogs_sql_loader.Entities.{EntityRow, malformed_time, Result, done, failed}

-- what a purge leaves: the entity table and the `graph` tables
pub record Purged : Type 0 where
  pub rows : List EntityRow
  pub graph : Tables

-- `PURGE_MAX_DELETE_FRACTION` is `cap / scale`, and `fromisoformat` gives the time that a text states
pub record PurgePolicy : Type 0 where
  pub cap : ℕ
  pub scale : ℕ
  pub fromisoformat : Text → Option ℕ

abbrev pub is_stale : ℕ → EntityRow → Bool
is_stale started row = ltb row.updated_at started

unfoldable pub stale_rows : ℕ → List EntityRow → List EntityRow
stale_rows started = keep (is_stale started)

-- `stale_count / total_count >= purge_max_delete_fraction`
unfoldable pub exceeds_cap : PurgePolicy → ℕ → ℕ → Bool
exceeds_cap policy stale total = leb (policy.cap * total) (stale * policy.scale)

-- the transaction, once the signal names a time
unfoldable pub purge_before : PurgePolicy → String → ℕ → List EntityRow → Tables → Purged
unfolding stale_rows exceeds_cap
purge_before policy data_type started rows graph =
    let total = length rows in
    let stale = length (stale_rows started rows) in
    if total == 0 || (stale == 0 || exceeds_cap policy stale total)
    then record { rows = rows; graph = graph }
    else record {
      rows = keep (λ row. not (is_stale started row)) rows;
      graph =
          purge_document_graph data_type (map (λ row. row.data_id) (stale_rows started rows)) graph;
    }

abbrev pub says_none : Option ℕ → Bool
says_none none = false
says_none (some n) = n == 0

abbrev purge_at : PurgePolicy → String → Option ℕ → List EntityRow → Tables → Result Purged
purge_at policy data_type none rows graph = failed malformed_time
purge_at policy data_type (some started) rows graph =
    done (purge_before policy data_type started rows graph)

unfoldable pub purge_stale_rows :
    PurgePolicy → String → Text → Option ℕ → List EntityRow → Tables → Result Purged
unfolding purge_before
purge_stale_rows policy data_type [] record_count rows graph =
    done (record { rows = rows; graph = graph })
purge_stale_rows policy data_type (c ∷ started_at) record_count rows graph =
    if says_none record_count
    then done (record { rows = rows; graph = graph })
    else purge_at policy data_type (policy.fromisoformat (c ∷ started_at)) rows graph
