-- ===== src/Batch/Isolation/Store.antt =====
-- The database of a data type under the batches that are committed.
use discogs_sql_loader.Prelude.{
  ℕ, suc, String, true, false, List, [], ◌∷◌, ◌≡◌, refl, ◌∙◌, map, arith, none, some, contains, inl,
  inr, Bool-cases, Option-cases,
}
use mathlib.Core.List.{flatten}
use discogs_sql_loader.Text.{Text, Text-discrete}
use discogs_sql_loader.Identity.{AliasRef, entity_kind, alias_targets}
use discogs_sql_loader.Graph.Writer.{Tables}
use discogs_sql_loader.Entities.{
  EntityRow, Message, Services, Written, Result, done, failed, find_row, some_of,
}
use discogs_sql_loader.Entities.Batch.{latest}
use discogs_sql_loader.Entities.Write.{payload, process_batch}
use discogs_sql_loader.Entities.Write.Distinct.{last_message, message_ids}
use discogs_sql_loader.Entities.Write.Outcome.{
  Resolves, with_native, process_batch-malformed, written-rows,
}
use discogs_sql_loader.Batch.Isolation.Apart.{contains-append}

-- the entity table and the `graph` tables
abbrev pub Store : Type 0
Store = List EntityRow × Tables

abbrev pub stored : Store → Result Written → Store
stored store (done w) = (w.rows, w.graph)
stored store (failed e) = store

-- the batches one after the other, each at its own time
unfoldable pub replay : Services → String → (ℕ → ℕ) → ℕ → List (List Message) → Store → Store
unfolding process_batch
replay services data_type clock n [] store = store
replay services data_type clock n (batch ∷ db) store =
    replay services data_type clock (suc n) db
      (stored store (process_batch services data_type (clock n) true batch store.0 store.1))

last_message-absent :
    (id : Text) (ms : List Message)
    → contains Text-discrete id (message_ids ms) ≡ false
    → last_message id ms ≡ none
unfolding last_message contains
last_message-absent id [] h = refl
last_message-absent id (m ∷ ms) h = ground (arith, last_message-absent id ms)

module _ (services : Services) (native : AliasRef → Text) (resolves : Resolves services native)
    (data_type : String) (kind : Text) (known : entity_kind data_type ≡ some kind) where
  stored-row :
      (now : ℕ) (batch : List Message) (store : Store) (id : Text) (r : Result Written)
      → contains Text-discrete id (message_ids batch) ≡ false
      → process_batch services data_type now true batch store.0 store.1 ≡ r
      → find_row id (stored store r).0 ≡ find_row id store.0
  stored-row now batch store id (failed e) h k = refl
  stored-row now batch store id (done w) h k =
      elim (Option-cases (
        alias_targets services.identifiers data_type
          (map payload (map (with_native native kind) (latest batch))))) [
            | inl malformed ↦
                let fails =
                  process_batch-malformed services native resolves data_type kind known now batch
                    store.0 store.1 malformed in
                elim (Bool-cases (some_of services.refuses.text (message_ids (latest batch)))) [
                  | inl e ↦ cc (fails, k, e)
                  | inr e ↦ cc (fails, k, e)
                ]
            | inr (targets, minted) ↦
                written-rows services native resolves data_type kind known now batch store.0 store.1
                  targets id minted w k
                ∙ rw (last_message-absent id batch h) refl
          ]

  -- a document that no batch has a message for keeps its row
  pub replay-row :
      (clock : ℕ → ℕ) (n : ℕ) (db : List (List Message)) (store : Store) (id : Text)
      → contains Text-discrete id (message_ids (flatten db)) ≡ false
      → find_row id (replay services data_type clock n db store).0 ≡ find_row id store.0
  unfolding replay flatten
  replay-row clock n [] store id h = refl
  replay-row clock n (batch ∷ db) store id h =
      let r = process_batch services data_type (clock n) true batch store.0 store.1 in
      let apart = contains-append id batch (flatten db) in
      replay-row clock (suc n) db (stored store r) id (ground (arith, h, apart))
      ∙ stored-row (clock n) batch store id r (ground (arith, h, apart)) refl
