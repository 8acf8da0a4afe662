-- ===== src/Entities/Write/Backfilled.antt =====
-- The row of each document after the refresh and the two backfills of a batch.
use discogs_sql_loader.Prelude.{
  ℕ, String, true, not, ◌&&◌, ◌||◌, List, map, ◌≡◌, refl, ◌∙◌, ap, arith, Option, none, some,
  if◌then◌else◌, same, contains, distinct, inl, inr, Option-cases, ◌is◌,
}
use discogs_sql_loader.Text.{Text, Text-discrete}
use discogs_sql_loader.Json.{Fields}
use discogs_sql_loader.Graph.Writer.Inserts.{contains-keep}
use discogs_sql_loader.Entities.{EntityRow, Services, find_row, media_value}
use discogs_sql_loader.Entities.Batch.{
  Identified, value_of, record_for, is_unchanged, media_backfill, identity_backfill,
}
use discogs_sql_loader.Entities.Statements.{
  touched, refresh, with_media, backfill_media, with_identity, backfill_identity, id_of,
}
use discogs_sql_loader.Entities.Write.{
  unchanged, media_backfills, identity_backfills, refresh_ids, backfilled, ids_in,
}
use discogs_sql_loader.Entities.Write.Found.{
  ids, and_then, is_there, value_of-collect, contains-ids_in, contains-ids, record_for-keep,
}
use discogs_sql_loader.Entities.Write.Rows.{filled, with_row, find-map, find-id, record_for-id}

touched-id :
    (now : ℕ) (xs : List Text) (row : EntityRow) → (touched now xs row).data_id ≡ row.data_id
touched-id now xs row = ground arith

with_media-id :
    (now : ℕ) (pairs : List (Fields × Text)) (row : EntityRow)
    → (with_media now pairs row).data_id ≡ row.data_id
with_media-id now pairs row = ground arith

with_identity-id :
    (now : ℕ) (pairs : List (Text × Text)) (row : EntityRow)
    → (with_identity now pairs row).data_id ≡ row.data_id
with_identity-id now pairs row = ground arith

-- a row whose document's hash stayed: what is missing is filled, and the time is the batch's
abbrev pub kept_row : Services → String → ℕ → Identified → EntityRow → EntityRow
kept_row services data_type now m row = record row {
  media = filled row.media (media_value services data_type m.0.data');
  gm_item_id = filled row.gm_item_id (some m.1);
  updated_at = now;
}

abbrev pub refreshed : Services → String → ℕ → Option Identified → EntityRow → EntityRow
refreshed services data_type now none row = row
refreshed services data_type now (some m) row =
    if same Text-discrete row.hash m.0.sha256 then kept_row services data_type now m row else row

module _ (services : Services) (data_type : String) (now : ℕ) (id : Text) (rows : List EntityRow)
    (ms : List Identified) where
  abbrev step : EntityRow → EntityRow
  step row = with_identity now (identity_backfills services data_type now rows ms) (
      with_media now (media_backfills services data_type now rows ms)
        (touched now (refresh_ids services data_type now rows ms) row))

  find-steps :
      find_row id (backfilled services data_type now rows ms) ≡ with_row step (find_row id rows)
  unfolding backfilled refresh backfill_media backfill_identity
  find-steps = ground (
    arith,
    find-map id (with_identity now (identity_backfills services data_type now rows ms))
        (map (with_media now (media_backfills services data_type now rows ms))
          (map (touched now (refresh_ids services data_type now rows ms)) rows))
        (with_identity-id now (identity_backfills services data_type now rows ms)),
    find-map id (with_media now (media_backfills services data_type now rows ms))
        (map (touched now (refresh_ids services data_type now rows ms)) rows)
        (with_media-id now (media_backfills services data_type now rows ms)),
    find-map id (touched now (refresh_ids services data_type now rows ms)) rows
        (touched-id now (refresh_ids services data_type now rows ms)),
  )

  module _ (one : distinct Text-discrete (ids ms) ≡ true) where
    media_under :
        value_of id (media_backfills services data_type now rows ms)
        ≡ and_then (record_for id ms) (media_backfill services data_type rows)
    media_under = value_of-collect id (media_backfill services data_type rows) ms one

    identity_under :
        value_of id (identity_backfills services data_type now rows ms)
        ≡ and_then (record_for id ms) (identity_backfill rows)
    identity_under = value_of-collect id (identity_backfill rows) ms one

    refresh_under : contains Text-discrete id (refresh_ids services data_type now rows ms) ≡ (
        is_there (and_then (record_for id ms) (λ m. if is_unchanged rows m then some m else none))
        && not (
            is_there (and_then (record_for id ms) (media_backfill services data_type rows))
            || is_there (and_then (record_for id ms) (identity_backfill rows))))
    refresh_under =
        contains-keep Text-discrete
          (λ i. not (
            contains Text-discrete i (ids_in (media_backfills services data_type now rows ms))
            || contains Text-discrete i
                (ids_in (identity_backfills services data_type now rows ms))))
          id (map id_of (unchanged rows ms))
        ∙ rw
            (
              contains-ids,
              contains-ids_in,
              contains-ids_in,
              record_for-keep id (is_unchanged rows) ms one,
              media_under,
              identity_under,
            )
            refl

    module _ (row : EntityRow) (there : find_row id rows ≡ some row) where
      silent_step : record_for id ms ≡ none → step row ≡ row
      silent_step h =
          ground (arith, find-id id rows row there, media_under, identity_under, refresh_under)

      module _ (m : Identified) (known : record_for id ms ≡ some m) where
        unchanged_at : is_unchanged rows m ≡ same Text-discrete row.hash m.0.sha256
        unfolding is_unchanged
        unchanged_at = rw (record_for-id id ms m known, there) refl

        media_at : media_backfill services data_type rows m ≡ (
            if same Text-discrete row.hash m.0.sha256
              && (data_type is "releases" && not (is_there row.media))
            then some (services.media_resolver m.0.data')
            else none)
        media_at = rw (unchanged_at, record_for-id id ms m known, there) (ground arith)

        identity_at : identity_backfill rows m ≡ (
            if same Text-discrete row.hash m.0.sha256 && not (is_there row.gm_item_id)
            then some m.1
            else none)
        identity_at = rw (unchanged_at, record_for-id id ms m known, there) (ground arith)

        step_at : step row ≡ refreshed services data_type now (some m) row
        step_at = ground (
          arith,
          find-id id rows row there,
          media_under,
          identity_under,
          refresh_under,
          unchanged_at,
          media_at,
          identity_at,
        )

    pub find-backfilled :
        find_row id (backfilled services data_type now rows ms)
        ≡ with_row (refreshed services data_type now (record_for id ms)) (find_row id rows)
    find-backfilled = find-steps ∙ (elim (Option-cases (find_row id rows)) [
      | inl absent ↦ rw absent refl
      | inr (row, there) ↦ elim (Option-cases (record_for id ms)) [
        | inl silent ↦ rw (there, silent) (ap some (silent_step row there silent))
        | inr (m, known) ↦ rw (there, known) (ap some (step_at row there m known))
      ]
    ])
