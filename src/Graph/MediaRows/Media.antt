-- ===== src/Graph/MediaRows/Media.antt =====
-- What `_media_rows` makes of a media block: one row for each medium, its quantities added up.
use discogs_sql_loader.Prelude.{
  ℕ, ◌+◌, ◌≡◌, refl, ◌∙◌, Bool, true, false, ◌||◌, List, [], ◌∷◌, none, some, if◌then◌else◌, arith,
  same, contains, distinct, map,
}
use discogs_sql_loader.Text.{Text, Text-discrete}
use discogs_sql_loader.Json.{Fields, get}
use discogs_sql_loader.Common.{Common}
use discogs_sql_loader.Graph.Ids.{elements, quantity}
use discogs_sql_loader.Graph.MediaRows.{
  MediumRow, add_quantity, named_medium, media_from, media_rows,
}

-- the quantity that the rows hold for a medium
unfoldable pub qty_of : Text → List MediumRow → ℕ
qty_of m [] = 0
qty_of m (row ∷ rows) = if same Text-discrete m row.medium then row.qty else qty_of m rows

-- the sum of the quantities of the items that name a medium
unfoldable pub total_of : Text → List Fields → ℕ
total_of m [] = 0
total_of m (item ∷ items) = elim (named_medium item) [
  | none ↦ total_of m items
  | some (medium, family) ↦
      if same Text-discrete m medium then quantity item + total_of m items else total_of m items
]

-- some item names the medium
unfoldable pub is_named : Text → List Fields → Bool
is_named m [] = false
is_named m (item ∷ items) = elim (named_medium item) [
  | none ↦ is_named m items
  | some (medium, family) ↦ same Text-discrete m medium || is_named m items
]

abbrev pub mediums : List MediumRow → List Text
mediums = map (λ row. row.medium)

module _ (common : Common) where
  qty-add_quantity :
      (m medium family : Text) (n : ℕ) (rows : List MediumRow)
      → qty_of m (add_quantity common medium family n rows)
        ≡ (if same Text-discrete m medium then qty_of m rows + n else qty_of m rows)
  unfolding qty_of add_quantity
  qty-add_quantity m medium family n [] = ground arith
  qty-add_quantity m medium family n (row ∷ rows) =
      ground (arith, qty-add_quantity m medium family n rows)

  contains-add_quantity :
      (m medium family : Text) (n : ℕ) (rows : List MediumRow)
      → contains Text-discrete m (mediums (add_quantity common medium family n rows))
        ≡ (contains Text-discrete m (mediums rows) || same Text-discrete m medium)
  unfolding contains add_quantity
  contains-add_quantity m medium family n [] = ground arith
  contains-add_quantity m medium family n (row ∷ rows) =
      ground (arith, contains-add_quantity m medium family n rows)

  distinct-add_quantity :
      (medium family : Text) (n : ℕ) (rows : List MediumRow)
      → distinct Text-discrete (mediums rows) ≡ true
      → distinct Text-discrete (mediums (add_quantity common medium family n rows)) ≡ true
  unfolding distinct contains add_quantity
  distinct-add_quantity medium family n [] h = refl
  distinct-add_quantity medium family n (row ∷ rows) h = ground (
    arith,
    distinct-add_quantity medium family n rows,
    contains-add_quantity row.medium medium family n rows,
  )

  qty-media_from :
      (m : Text) (rows : List MediumRow) (items : List Fields)
      → qty_of m (media_from common rows items) ≡ qty_of m rows + total_of m items
  unfolding media_from total_of
  qty-media_from m rows [] = ground arith
  qty-media_from m rows (item ∷ items) =
      elim (named_medium item)
        as (λ o.
          qty_of m (
            media_from common
              (elim o [
                | none ↦ rows
                | some (medium, family) ↦ add_quantity common medium family (quantity item) rows
              ])
              items)
          ≡ qty_of m rows + (elim o [
            | none ↦ total_of m items
            | some (medium, family) ↦
                if same Text-discrete m medium
                then quantity item + total_of m items
                else total_of m items
          ])) [
            | none ↦ qty-media_from m rows items
            | some (medium, family) ↦ ground (
              arith,
              qty-media_from m (add_quantity common medium family (quantity item) rows) items,
              qty-add_quantity m medium family (quantity item) rows,
            )
          ]

  contains-media_from :
      (m : Text) (rows : List MediumRow) (items : List Fields)
      → contains Text-discrete m (mediums (media_from common rows items))
        ≡ (contains Text-discrete m (mediums rows) || is_named m items)
  unfolding media_from is_named
  contains-media_from m rows [] = ground arith
  contains-media_from m rows (item ∷ items) =
      elim (named_medium item)
        as (λ o.
          contains Text-discrete m (
            mediums (
              media_from common
                (elim o [
                  | none ↦ rows
                  | some (medium, family) ↦ add_quantity common medium family (quantity item) rows
                ])
                items))
          ≡ (contains Text-discrete m (mediums rows) || (elim o [
            | none ↦ is_named m items
            | some (medium, family) ↦ same Text-discrete m medium || is_named m items
          ]))) [
            | none ↦ contains-media_from m rows items
            | some (medium, family) ↦ ground (
              arith,
              contains-media_from m (add_quantity common medium family (quantity item) rows) items,
              contains-add_quantity m medium family (quantity item) rows,
            )
          ]

  distinct-media_from :
      (rows : List MediumRow) (items : List Fields)
      → distinct Text-discrete (mediums rows) ≡ true
      → distinct Text-discrete (mediums (media_from common rows items)) ≡ true
  unfolding media_from
  distinct-media_from rows [] h = h
  distinct-media_from rows (item ∷ items) h =
      elim (named_medium item)
        as (λ o.
          distinct Text-discrete (
            mediums (
              media_from common
                (elim o [
                  | none ↦ rows
                  | some (medium, family) ↦ add_quantity common medium family (quantity item) rows
                ])
                items))
          ≡ true) [
            | none ↦ distinct-media_from rows items h
            | some (medium, family) ↦
                distinct-media_from (add_quantity common medium family (quantity item) rows) items
                  (distinct-add_quantity medium family (quantity item) rows h)
          ]

  -- The rows of a media block name each medium once, a medium has a row exactly when some item of the
  -- block names it, with a family, and the quantity of the row is the sum of the quantities of all the
  -- items that do.
  pub media_rows-merge :
      (block : Fields) (m : Text)
      → (distinct Text-discrete (mediums (media_rows common block)) ≡ true)
        × (contains Text-discrete m (mediums (media_rows common block))
            ≡ is_named m (elements (get "items" block)))
        × (qty_of m (media_rows common block) ≡ total_of m (elements (get "items" block)))
  unfolding media_rows
  media_rows-merge block m = (
    distinct-media_from [] (elements (get "items" block)) (unfold distinct in refl),
    contains-media_from m [] (elements (get "items" block)) ∙ (unfold contains in ground arith),
    qty-media_from m [] (elements (get "items" block)) ∙ (unfold qty_of in omega arith),
  )
