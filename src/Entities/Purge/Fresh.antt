-- ===== src/Entities/Purge/Fresh.antt =====
-- What a purge may not delete.
use mathlib.Core.Path.{subst}
use discogs_sql_loader.Prelude.{
  ℕ, ◌*◌, ◌≤◌, ◌<◌, String, false, not, List, [], ◌∷◌, map, ◌≡◌, arith, Option, some, length, keep,
  leb, inl, inr, Bool-cases, Option-cases, ◌||◌, ◌==◌,
}
use discogs_sql_loader.Text.{Text}
use discogs_sql_loader.Graph.Writer.{Tables, purge_document_graph}
use discogs_sql_loader.Entities.{EntityRow, done, find_row}
use discogs_sql_loader.Entities.Purge.{
  Purged, PurgePolicy, is_stale, says_none, stale_rows, exceeds_cap, purge_before, purge_stale_rows,
}

find-keep :
    (id : Text) (started : ℕ) (rows : List EntityRow) (row : EntityRow)
    → find_row id rows ≡ some row
    → started ≤ row.updated_at
    → find_row id (keep (λ r. not (is_stale started r)) rows) ≡ some row
unfolding find_row
find-keep id started [] row h k = cc
find-keep id started (r ∷ rows) row h k = ground (arith, find-keep id started rows row)

before-keeps :
    (policy : PurgePolicy) (data_type : String) (started : ℕ) (rows : List EntityRow)
    (graph : Tables) (id : Text) (row : EntityRow)
    → find_row id rows ≡ some row
    → started ≤ row.updated_at
    → find_row id (purge_before policy data_type started rows graph).rows ≡ some row
unfolding purge_before
before-keeps policy data_type started rows graph id row h k =
    ground (arith, find-keep id started rows row h k)

-- Whatever the signal says, a purge that names a time keeps the row of every document that was
-- refreshed at that time or later.
pub purge_keeps_fresh :
    (policy : PurgePolicy) (data_type : String) (started_at : Text) (record_count : Option ℕ)
    (rows : List EntityRow) (graph : Tables) (purged : Purged) (started : ℕ) (id : Text)
    (row : EntityRow)
    → purge_stale_rows policy data_type started_at record_count rows graph ≡ done purged
    → policy.fromisoformat started_at ≡ some started
    → find_row id rows ≡ some row
    → started ≤ row.updated_at
    → find_row id purged.rows ≡ some row
unfolding purge_stale_rows
purge_keeps_fresh policy data_type [] record_count rows graph purged started id row e t h k =
    ground arith
purge_keeps_fresh policy data_type (c ∷ s) record_count rows graph purged started id row e t h k =
    ground (arith, before-keeps policy data_type started rows graph id row h k)

-- The two effects of a purge on the tables.
pub data Effect (policy : PurgePolicy) (data_type : String) (started_at : Text)
    (record_count : Option ℕ) (rows : List EntityRow) (graph : Tables) : Purged → Type 0 where
  refused :
      Effect policy data_type started_at record_count rows graph
        (record { rows = rows; graph = graph })
  deleted :
      (started : ℕ)
      → policy.fromisoformat started_at ≡ some started
      → says_none record_count ≡ false
      → 0 < length (stale_rows started rows)
      → length (stale_rows started rows) * policy.scale < policy.cap * length rows
      → Effect policy data_type started_at record_count rows graph (record {
        rows = keep (λ row. not (is_stale started row)) rows;
        graph =
            purge_document_graph data_type
              (map (λ row. row.data_id) (stale_rows started rows))
              graph;
      })

module _ (policy : PurgePolicy) (data_type : String) (started_at : Text) (record_count : Option ℕ)
    (rows : List EntityRow) (graph : Tables) where
  before-Effect :
      (started : ℕ)
      → policy.fromisoformat started_at ≡ some started
      → says_none record_count ≡ false
      → Effect policy data_type started_at record_count rows graph
          (purge_before policy data_type started rows graph)
  unfolding purge_before exceeds_cap
  before-Effect started t r =
      elim (Bool-cases (
        length rows == 0
        || (length (stale_rows started rows) == 0
            || leb (policy.cap * length rows) (length (stale_rows started rows) * policy.scale)))) [
              | inl guarded ↦ rw guarded refused
              | inr safe ↦ rw safe (deleted started t r (ground arith) (ground arith))
            ]

done_inj : {A : Type 0} {a b : A} → done a ≡ done b → a ≡ b
done_inj e = cc

-- A purge that ends without an error changes nothing, or else it deletes exactly the rows older than
-- the time that the signal names and sweeps the edges of their documents; and it does the latter only
-- if the signal did not report 0 records, there are such rows, and they are less than the capped
-- fraction of the table.
pub purge_stale_rows-Effect :
    (policy : PurgePolicy) (data_type : String) (started_at : Text) (record_count : Option ℕ)
    (rows : List EntityRow) (graph : Tables) (purged : Purged)
    → purge_stale_rows policy data_type started_at record_count rows graph ≡ done purged
    → Effect policy data_type started_at record_count rows graph purged
unfolding purge_stale_rows
purge_stale_rows-Effect policy data_type [] record_count rows graph purged e =
    subst (Effect policy data_type [] record_count rows graph) (done_inj e) refused
purge_stale_rows-Effect policy data_type (c ∷ s) record_count rows graph purged e =
    elim (Bool-cases (says_none record_count)) [
      | inl zero_reported ↦
          subst (Effect policy data_type (c ∷ s) record_count rows graph)
            (done_inj (rw zero_reported at e)) refused
      | inr some_reported ↦ elim (Option-cases (policy.fromisoformat (c ∷ s))) [
        | inl malformed ↦ ground arith
        | inr (started, t) ↦
            subst (Effect policy data_type (c ∷ s) record_count rows graph)
              (done_inj (rw (some_reported, t) at e))
              (before-Effect policy data_type (c ∷ s) record_count rows graph started t
                some_reported)
      ]
    ]
