-- ===== src/Entities/Record/AsBatch.antt =====
-- The two write paths agree: a record by itself, and a batch of that one record.
use discogs_sql_loader.Prelude.{
  ℕ, String, Bool, true, false, List, [], ◌∷◌, map, ◌≡◌, refl, ◌∙◌, sym, arith, Option, none, some,
  if◌then◌else◌, same, inl, inr, Bool-cases, contains, same_refl,
}
use discogs_sql_loader.Text.{Text, Text-discrete}
use discogs_sql_loader.Identity.{
  AliasRef, AliasRef-discrete, Targets, entity_kind, alias_ref, alias_targets,
}
use discogs_sql_loader.Graph.Writer.{
  Tables, write_document_graph, derive_all, statements, vertex_inserts, edge_deletes, edge_inserts,
  vertex_rows, edge_rows, replaced_ids, execute_all,
}
use discogs_sql_loader.Entities.{
  EntityRow, Message, Services, Written, done, find_row, some_of, refuses_graph,
}
use discogs_sql_loader.Entities.Batch.{Identified, latest, is_unchanged, hash_is, collect}
use discogs_sql_loader.Entities.Write.{
  payload, process_batch, changed, document, refuses_row, refuses_batch,
}
use discogs_sql_loader.Entities.Write.Distinct.{last_message}
use discogs_sql_loader.Entities.Write.Rows.{row_after}
use discogs_sql_loader.Entities.Write.Outcome.{
  Resolves, with_native, discogs_alias, process_batch-rows,
}
use discogs_sql_loader.Entities.Record.{
  sha256_of, merged, upsert_row, content_changed, terminal_outcome, persist_record, refuses_message,
  refuses_edges,
}

find-upsert_row :
    (id key : Text) (change : Option EntityRow → EntityRow) (rows : List EntityRow)
    → (change none).data_id ≡ key
    → ((row : EntityRow) → row.data_id ≡ key → (change (some row)).data_id ≡ key)
    → find_row id (upsert_row key change rows)
      ≡ (if same Text-discrete id key then some (change (find_row key rows)) else find_row id rows)
unfolding find_row upsert_row
find-upsert_row id key change [] h k = ground arith
find-upsert_row id key change (row ∷ rows) h k = elim (Text-discrete key row.data_id) [
  | yes e ↦ ground (arith, k row (sym e))
  | no n ↦ ground (arith, find-upsert_row id key change rows h k)
]

-- the id that the row has is none, or the one that resolves now
abbrev pub agrees : Text → Option EntityRow → Bool
agrees native_id none = true
agrees native_id (some row) = elim row.gm_item_id [
  | none ↦ true
  | some old ↦ same Text-discrete old native_id
]

merged-row_after :
    (services : Services) (data_type : String) (now : ℕ) (m : Identified) (old : Option EntityRow)
    → agrees m.1 old ≡ true
    → merged services data_type now m old ≡ row_after services data_type now m old
unfolding merged row_after
merged-row_after services data_type now m none h = refl
merged-row_after services data_type now m (some row) h = ground arith

merged-id :
    (services : Services) (data_type : String) (now : ℕ) (m : Message) (native_id : Text)
    (row : EntityRow)
    → row.data_id ≡ m.data_id
    → (merged services data_type now (m, native_id) (some row)).data_id ≡ m.data_id
unfolding merged
merged-id services data_type now m native_id row h = ground arith

alias_ref-known :
    (data_type : String) (kind data_id : Text)
    → entity_kind data_type ≡ some kind
    → alias_ref data_type data_id ≡ some (discogs_alias kind data_id)
unfolding alias_ref
alias_ref-known data_type kind data_id h = ground arith

no_documents :
    (services : Services) (data_type : String) (graph : Tables)
    → write_document_graph services.common services.keys data_type [] graph ≡ graph
unfolding write_document_graph derive_all statements vertex_inserts edge_deletes edge_inserts
    vertex_rows edge_rows replaced_ids execute_all
no_documents services data_type graph = refl

no_statements :
    (services : Services) (data_type : String) → refuses_graph services data_type [] ≡ false
unfolding refuses_graph derive_all some_of
no_statements services data_type = refl

module _ (services : Services) (native : AliasRef → Text) (resolves : Resolves services native)
    (data_type : String) (kind : Text) (known : entity_kind data_type ≡ some kind) (now : ℕ) where
  persist_record-done :
      (m : Message) (rows : List EntityRow) (graph : Tables) (targets : Targets)
      → sha256_of m.data' ≡ some m.sha256
      → alias_targets services.identifiers data_type (payload (with_native native kind m) ∷ [])
        ≡ some targets
      → refuses_message services data_type now m ≡ false
      → refuses_edges services data_type now rows m ≡ false
      → persist_record services data_type now m.data_id m.data' rows graph
        ≡ done (
          record {
            rows =
                upsert_row m.data_id
                  (merged services data_type now (with_native native kind m))
                  rows;
            graph =
                if content_changed rows m
                then write_document_graph services.common services.keys data_type
                    ((m.data_id, m.data') ∷ [])
                    graph
                else graph;
            attached = targets;
          },
          terminal_outcome data_type rows m,
        )
  unfolding persist_record
  persist_record-done m rows graph targets h k sent drawn =
      let ref = discogs_alias kind m.data_id in
      let here : services.resolve_aliases (ref ∷ []) ref ≡ some (native ref) =
        resolves.gives (ref ∷ []) ref
          (unfold contains in ground (arith, same_refl AliasRef-discrete ref)) in
      rw (alias_ref-known data_type kind m.data_id known, here, h, sent, k, drawn) refl

  drawn_one :
      (m : Message) (native_id : Text) (rows : List EntityRow) (graph : Tables)
      → write_document_graph services.common services.keys data_type
          (map document (changed rows ((m, native_id) ∷ [])))
          graph
        ≡ (if content_changed rows m
            then write_document_graph services.common services.keys data_type
                ((m.data_id, m.data') ∷ [])
                graph
            else graph)
  unfolding content_changed is_unchanged
  drawn_one m native_id rows graph =
      elim (Bool-cases (hash_is m.sha256 (find_row m.data_id rows))) [
        | inl e ↦ rw e (no_documents services data_type graph)
        | inr e ↦ rw e refl
      ]

  row_sent :
      (m : Message) (native_id : Text) (rows : List EntityRow)
      → refuses_message services data_type now m ≡ false
      → refuses_row services data_type now rows (m, native_id) ≡ false
  unfolding refuses_message refuses_row is_unchanged collect some_of
  row_sent m native_id rows sent = elim (Bool-cases (hash_is m.sha256 (find_row m.data_id rows))) [
    | inr e ↦ rw e (ground (arith, sent))
    | inl e ↦ rw e (ground (arith, sent))
  ]

  graph_sent :
      (m : Message) (native_id : Text) (rows : List EntityRow)
      → refuses_graph services data_type (map document (changed rows ((m, native_id) ∷ [])))
        ≡ refuses_edges services data_type now rows m
  unfolding refuses_edges content_changed is_unchanged
  graph_sent m native_id rows = elim (Bool-cases (hash_is m.sha256 (find_row m.data_id rows))) [
    | inl e ↦ rw e (no_statements services data_type)
    | inr e ↦ rw e refl
  ]

  -- what the upsert sends of a record holds all that a batch of it does
  batch_sent :
      (m : Message) (native_id : Text) (rows : List EntityRow)
      → refuses_message services data_type now m ≡ false
      → refuses_edges services data_type now rows m ≡ false
      → (some_of services.refuses.text (m.data_id ∷ []) ≡ false)
        × (refuses_batch services data_type now rows ((m, native_id) ∷ []) ≡ false)
  unfolding refuses_batch some_of refuses_message
  batch_sent m native_id rows sent drawn = (
    ground (arith, sent),
    ground (arith, row_sent m native_id rows sent, graph_sent m native_id rows, drawn),
  )

  -- A record of a known type, with a text for its hash, well-formed identifiers and aliases that all
  -- resolve, of which PostgreSQL refuses neither a value that the upsert binds nor, where its hash
  -- changed, a row that it derives for the graph tables, is persisted by itself as a batch of that one record
  -- would write it: every document's row, the graph tables and the attached aliases come out the same,
  -- if the stored native id of the record is missing or is the one that its alias resolves to now.
  -- `attach_aliases`, which is not modelled, raises nothing.
  pub persist_record-as-batch :
      (m : Message) (rows : List EntityRow) (graph : Tables) (targets : Targets) (id : Text)
      → sha256_of m.data' ≡ some m.sha256
      → alias_targets services.identifiers data_type (payload (with_native native kind m) ∷ [])
        ≡ some targets
      → refuses_message services data_type now m ≡ false
      → refuses_edges services data_type now rows m ≡ false
      → agrees (native (discogs_alias kind m.data_id)) (find_row m.data_id rows) ≡ true
      → (w : Written) × (v : Written) × (persist_record services data_type now m.data_id m.data'
            rows graph
          ≡ done (w, terminal_outcome data_type rows m))
        × (process_batch services data_type now true (m ∷ []) rows graph ≡ done v)
        × (find_row id w.rows ≡ find_row id v.rows)
        × (w.graph ≡ v.graph)
        × (w.attached ≡ v.attached)
  unfolding latest last_message
  persist_record-as-batch m rows graph targets id h k sent drawn' a =
      let (ids_sent, values_sent) =
        batch_sent m (native (discogs_alias kind m.data_id)) rows sent drawn' in
      let (v, e, found, attached, drawn) =
        process_batch-rows services native resolves data_type kind known now (m ∷ []) rows graph
          targets id k ids_sent values_sent in
      (
        _,
        v,
        persist_record-done m rows graph targets h k sent drawn',
        e,
        find-upsert_row id m.data_id (merged services data_type now (with_native native kind m))
              rows (unfold merged in refl)
              (merged-id services data_type now m (native (discogs_alias kind m.data_id)))
            ∙ (elim (Text-discrete id m.data_id) [
              | yes e ↦ ground (
                arith,
                e,
                found,
                merged-row_after services data_type now (with_native native kind m)
                    (find_row m.data_id rows) a,
              )
              | no n ↦ ground (arith, found)
            ]),
        sym (drawn ∙ drawn_one m (native (discogs_alias kind m.data_id)) rows graph),
        sym attached,
      )
