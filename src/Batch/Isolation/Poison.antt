-- ===== src/Batch/Isolation/Poison.antt =====
-- Which records `_process_batch` fails on, each by itself.
use discogs_sql_loader.Prelude.{
  ℕ, String, Bool, true, false, not, ◌&&◌, ◌||◌, List, [], ◌∷◌, map, ◌≡◌, refl, arith, Option, none,
  some, ◌is◌, inl, inr, Bool-cases,
}
use discogs_sql_loader.Text.{Text}
use discogs_sql_loader.Json.{Fields}
use discogs_sql_loader.Identity.{
  AliasRef, Identifiers, Targets, set_defaults, block_refs, targets_from, alias_targets,
}
use discogs_sql_loader.Graph.Writer.{derive_all}
use discogs_sql_loader.Entities.{EntityRow, Message, Services, find_row, some_of, refuses_graph}
use discogs_sql_loader.Entities.Batch.{Identified, is_unchanged, media_backfill, collect}
use discogs_sql_loader.Entities.Write.{payload, document, changed, refuses_row, refuses_batch}
use discogs_sql_loader.Entities.Write.Distinct.{message_ids}
use discogs_sql_loader.Entities.Write.Found.{is_there}
use discogs_sql_loader.Entities.Write.Outcome.{with_native, discogs_alias}
use discogs_sql_loader.Batch.Isolation.{any}

-- `alias_targets` raises on the identifiers of a payload
unfoldable pub is_malformed : Identifiers → String → Fields → Bool
unfolding block_refs
is_malformed identifiers data_type data' =
    data_type is "releases" && not (is_there (block_refs identifiers data'))

module _ (services : Services) (native : AliasRef → Text) (kind : Text) (data_type : String)
    (now : ℕ) (rows : List EntityRow) where
  -- a record that its write fails on, with these rows in the table
  unfoldable pub poison : Message → Bool
  unfolding is_malformed refuses_row refuses_graph is_unchanged
  poison m =
      services.refuses.text m.data_id
      || (is_malformed services.identifiers data_type m.data'
          || (refuses_row services data_type now rows (with_native native kind m)
              || (not (is_unchanged rows (with_native native kind m))
                  && refuses_graph services data_type ((m.data_id, m.data') ∷ []))))

  graph-poison :
      (d : Text × Fields) (documents : List (Text × Fields))
      → refuses_graph services data_type (d ∷ documents)
        ≡ (refuses_graph services data_type (d ∷ []) || refuses_graph services data_type documents)
  unfolding refuses_graph some_of derive_all
  graph-poison d documents = ground arith

  abbrev pub malformed : List Message → Bool
  malformed = any (λ m. is_malformed services.identifiers data_type m.data')

  no_graph : refuses_graph services data_type [] ≡ false
  unfolding refuses_graph some_of derive_all
  no_graph = refl

  -- a batch has a record that it fails on exactly when the whole of it fails
  pub any-poison :
      (ms : List Message)
      → any poison ms ≡ (
          some_of services.refuses.text (message_ids ms)
          || (malformed ms
              || refuses_batch services data_type now rows (map (with_native native kind) ms)))
  unfolding some_of refuses_batch poison
  any-poison [] = rw no_graph refl
  any-poison (m ∷ ms) = elim (Bool-cases (is_unchanged rows (with_native native kind m))) [
    | inl e ↦ rw (e, any-poison ms) (ground arith)
    | inr e ↦
        rw
          (
            e,
            any-poison ms,
            graph-poison (m.data_id, m.data')
                (map document (changed rows (map (with_native native kind) ms))),
          )
          (ground arith)
  ]

  targets_from-there :
      (targets : Targets) (ms : List Message)
      → data_type is "releases" ≡ true
      → is_there (
          targets_from services.identifiers targets
            (map payload (map (with_native native kind) ms)))
        ≡ not (malformed ms)
  unfolding targets_from is_malformed
  targets_from-there targets [] h = refl
  targets_from-there targets (m ∷ ms) h =
      elim (block_refs services.identifiers m.data')
        as (λ o.
          is_there (elim o [
            | none ↦ none
            | some refs ↦
                targets_from services.identifiers
                  (set_defaults targets refs (native (discogs_alias kind m.data_id)))
                  (map payload (map (with_native native kind) ms))
          ])
          ≡ not (data_type is "releases" && not (is_there o) || malformed ms)) [
            | none ↦ ground (arith, h)
            | some refs ↦ ground (
              arith,
              h,
              targets_from-there (set_defaults targets refs (native (discogs_alias kind m.data_id)))
                  ms h,
            )
          ]

  none_malformed : (ms : List Message) → data_type is "releases" ≡ false → malformed ms ≡ false
  unfolding is_malformed
  none_malformed [] h = refl
  none_malformed (m ∷ ms) h = ground (arith, h, none_malformed ms)

  pub alias_targets-there :
      (ms : List Message)
      → is_there (
          alias_targets services.identifiers data_type
            (map payload (map (with_native native kind) ms)))
        ≡ not (malformed ms)
  unfolding alias_targets
  alias_targets-there ms = elim (Bool-cases (data_type is "releases")) [
    | inl e ↦ rw e (targets_from-there [] ms e)
    | inr e ↦ rw (e, none_malformed ms e) refl
  ]

collect_one {ℓ} :
    {A : Type ℓ} (value : Identified → Option A) (m : Identified)
    → collect value (m ∷ []) ≡ (elim (value m) [ none ↦ [] | some a ↦ (a, m.0.data_id) ∷ [] ])
unfolding collect
collect_one value m = refl

-- whether a record is poison depends on no other document's row
pub poison-row :
    (services : Services) (native : AliasRef → Text) (kind : Text) (data_type : String) (now : ℕ)
    (then' : ℕ) (rows rows' : List EntityRow) (m : Message)
    → find_row m.data_id rows ≡ find_row m.data_id rows'
    → poison services native kind data_type now rows m
      ≡ poison services native kind data_type then' rows' m
unfolding poison refuses_row is_unchanged
poison-row services native kind data_type now then' rows rows' m h =
    let same_media : media_backfill services data_type rows (with_native native kind m)
        ≡ media_backfill services data_type rows' (with_native native kind m) =
      rw h refl in
    rw
      (
        h,
        collect_one (media_backfill services data_type rows) (with_native native kind m),
        same_media,
      )
      (rw (collect_one (media_backfill services data_type rows') (with_native native kind m)) refl)
