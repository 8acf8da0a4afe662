-- ===== src/Entities/Write/Contract.antt =====
-- What a batch leaves of each document.
use discogs_sql_loader.Prelude.{
  ℕ, String, true, not, List, ◌≡◌, refl, ◌∙◌, arith, Option, none, some, if◌then◌else◌, distinct,
  inl, inr, Option-cases,
}
use discogs_sql_loader.Text.{Text, Text-discrete}
use discogs_sql_loader.Graph.Order.{sort}
use discogs_sql_loader.Entities.{EntityRow, Services, done, find_row}
use discogs_sql_loader.Entities.Batch.{Identified, is_unchanged, hash_is, record_for}
use discogs_sql_loader.Entities.Statements.{upsert_all, upsert_rows}
use discogs_sql_loader.Entities.Write.{backfilled, changed, by_id, write_rows}
use discogs_sql_loader.Entities.Write.Found.{
  ids, and_then, record_for-keep, record_for-sort, distinct-sort, distinct-keep,
}
use discogs_sql_loader.Entities.Write.Rows.{row_after, upserted_row, find-upserted, record_for-id}
use discogs_sql_loader.Entities.Write.Backfilled.{find-backfilled}

abbrev pub after : Services → String → ℕ → Option Identified → Option EntityRow → Option EntityRow
after services data_type now none old = old
after services data_type now (some m) old = some (row_after services data_type now m old)

module _ (services : Services) (data_type : String) (now : ℕ) (rows : List EntityRow)
    (ms : List Identified) (one : distinct Text-discrete (ids ms) ≡ true) (id : Text) where
  changed_under :
      record_for id (sort by_id (changed rows ms))
      ≡ and_then (record_for id ms) (λ m. if not (is_unchanged rows m) then some m else none)
  changed_under =
      record_for-sort id (changed rows ms)
      ∙ record_for-keep id (λ m. not (is_unchanged rows m)) ms one

  distinct-changed : distinct Text-discrete (ids (sort by_id (changed rows ms))) ≡ true
  distinct-changed =
      distinct-sort (changed rows ms) (distinct-keep (λ m. not (is_unchanged rows m)) ms one)

  hash_at :
      (m : Identified)
      → record_for id ms ≡ some m
      → is_unchanged rows m ≡ hash_is m.0.sha256 (find_row id rows)
  unfolding is_unchanged
  hash_at m known = rw (record_for-id id ms m known) refl

  after_upsert :
      upserted_row services data_type now
        (record_for id (sort by_id (changed rows ms)))
        (find_row id (backfilled services data_type now rows ms))
      ≡ after services data_type now (record_for id ms) (find_row id rows)
  unfolding row_after
  after_upsert =
      rw (changed_under, find-backfilled services data_type now id rows ms one)
        (elim (Option-cases (record_for id ms)) [
          | inl silent ↦ elim (Option-cases (find_row id rows)) [
            | inl absent ↦ rw (silent, absent) refl
            | inr (row, there) ↦ rw (silent, there) refl
          ]
          | inr (m, known) ↦ elim (Option-cases (find_row id rows)) [
            | inl absent ↦ rw (known, absent, hash_at m known) (rw absent refl)
            | inr (row, there) ↦ rw (known, there) (ground (arith, hash_at m known))
          ]
        ])

  pub write_rows-row :
      (rows' : List EntityRow) × (write_rows services data_type now rows ms ≡ done rows')
      × (find_row id rows' ≡ after services data_type now (record_for id ms) (find_row id rows))
  unfolding write_rows upsert_all
  write_rows-row = (
    upsert_rows services data_type now (sort by_id (changed rows ms))
        (backfilled services data_type now rows ms),
    rw distinct-changed refl,
    find-upserted id services data_type now (sort by_id (changed rows ms))
          (backfilled services data_type now rows ms) distinct-changed
        ∙ after_upsert,
  )
