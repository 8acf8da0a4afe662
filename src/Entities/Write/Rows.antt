-- ===== src/Entities/Write/Rows.antt =====
-- The row of each document after the statements of a batch.
use discogs_sql_loader.Prelude.{
  ℕ, String, true, List, [], ◌∷◌, ◌++◌, map, ◌≡◌, refl, ◌∙◌, arith, Option, none, some,
  if◌then◌else◌, same, distinct, inl, inr, Option-cases, keep,
}
use discogs_sql_loader.Text.{Text, Text-discrete}
use discogs_sql_loader.Entities.{EntityRow, Services, find_row, media_value}
use discogs_sql_loader.Entities.Batch.{Identified, record_for}
use discogs_sql_loader.Entities.Statements.{upserted, overwritten, is_absent}
use discogs_sql_loader.Entities.Write.Found.{ids, record_for-keep}

-- a column as a backfill leaves it: a value that is there stays
abbrev pub filled : {A : Type 0} → Option A → Option A → Option A
filled none value = value
filled (some a) value = some a

-- the row of a document after a message for it, by the row before
unfoldable pub row_after : Services → String → ℕ → Identified → Option EntityRow → EntityRow
row_after services data_type now m none = upserted services data_type now m none
row_after services data_type now m (some row) =
    if same Text-discrete row.hash m.0.sha256
    then record row {
      media = filled row.media (media_value services data_type m.0.data');
      gm_item_id = filled row.gm_item_id (some m.1);
      updated_at = now;
    }
    else upserted services data_type now m (some row)

abbrev pub with_row {ℓ} : {A : Type ℓ} → (EntityRow → A) → Option EntityRow → Option A
with_row f none = none
with_row f (some row) = some (f row)

-- the row of a document after an upsert of its record
abbrev pub upserted_row :
    Services → String → ℕ → Option Identified → Option EntityRow → Option EntityRow
upserted_row services data_type now none old = old
upserted_row services data_type now (some m) old = some (upserted services data_type now m old)

pub record_for-id :
    (id : Text) (ms : List Identified) (m : Identified)
    → record_for id ms ≡ some m
    → m.0.data_id ≡ id
unfolding record_for
record_for-id id [] m h = cc
record_for-id id (x ∷ ms) m h = ground (arith, record_for-id id ms m)

overwritten-id :
    (services : Services) (data_type : String) (now : ℕ) (ms : List Identified) (row : EntityRow)
    → (overwritten services data_type now ms row).data_id ≡ row.data_id
overwritten-id services data_type now ms row = elim (Option-cases (record_for row.data_id ms)) [
  | inl e ↦ rw (e, overwritten) refl
  | inr (m, e) ↦ rw (e, overwritten) (record_for-id row.data_id ms m e)
]

module _ (id : Text) where
  pub find-map :
      (f : EntityRow → EntityRow) (rows : List EntityRow)
      → ((row : EntityRow) → (f row).data_id ≡ row.data_id)
      → find_row id (map f rows) ≡ with_row f (find_row id rows)
  unfolding find_row
  find-map f [] h = refl
  find-map f (row ∷ rows) h = ground (arith, h row, find-map f rows h)

  pub find-id :
      (rows : List EntityRow) (row : EntityRow) → find_row id rows ≡ some row → row.data_id ≡ id
  unfolding find_row
  find-id [] row h = cc
  find-id (r ∷ rows) row h = ground (arith, find-id rows row)

  abbrev or_row : Option EntityRow → Option EntityRow → Option EntityRow
  or_row none b = b
  or_row (some a) b = some a

  find-append :
      (xs ys : List EntityRow) → find_row id (xs ++ ys) ≡ or_row (find_row id xs) (find_row id ys)
  unfolding find_row
  find-append [] ys = refl
  find-append (x ∷ xs) ys = ground (arith, find-append xs ys)

  module _ (services : Services) (data_type : String) (now : ℕ) where
    abbrev made : Option Identified → Option EntityRow
    made none = none
    made (some m) = some (upserted services data_type now m none)

    find-inserted :
        (ms : List Identified)
        → find_row id (map (λ m. upserted services data_type now m none) ms)
          ≡ made (record_for id ms)
    unfolding find_row record_for
    find-inserted [] = refl
    find-inserted (m ∷ ms) = ground (arith, find-inserted ms)

    pub find-upserted :
        (ms : List Identified) (rows : List EntityRow)
        → distinct Text-discrete (ids ms) ≡ true
        → find_row id (
            map (overwritten services data_type now ms) rows
            ++ map (λ m. upserted services data_type now m none) (keep (is_absent rows) ms))
          ≡ upserted_row services data_type now (record_for id ms) (find_row id rows)
    find-upserted ms rows h =
        find-append (map (overwritten services data_type now ms) rows) _
        ∙ (elim (Option-cases (find_row id rows)) [
          | inl absent ↦ elim (Option-cases (record_for id ms)) [
            | inl silent ↦ ground (
              arith,
              find-map (overwritten services data_type now ms) rows
                  (overwritten-id services data_type now ms),
              find-inserted (keep (is_absent rows) ms),
              record_for-keep id (is_absent rows) ms h,
            )
            | inr (m, known) ↦
                let new : is_absent rows m ≡ true =
                  rw (record_for-id id ms m known, absent, is_absent) refl in
                ground (
                  arith,
                  find-map (overwritten services data_type now ms) rows
                      (overwritten-id services data_type now ms),
                  find-inserted (keep (is_absent rows) ms),
                  record_for-keep id (is_absent rows) ms h,
                )
          ]
          | inr (row, there) ↦ ground (
            arith,
            find-map (overwritten services data_type now ms) rows
                (overwritten-id services data_type now ms),
            find-id rows row there,
          )
        ])
