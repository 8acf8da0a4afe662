-- ===== src/Entities/Write/Outcome.antt =====
-- The contract of `process_batch`, from the messages to the rows.
use discogs_sql_loader.Prelude.{
  ℕ, String, true, false, List, [], ◌∷◌, map, ◌≡◌, refl, sym, ◌∙◌, ap, if◌then◌else◌, inl, inr,
  Bool-cases, arith, Option, none, some, same_refl, contains, distinct,
}
use discogs_sql_loader.Text.{Text, Text-discrete, codes}
use discogs_sql_loader.Identity.{
  AliasRef, AliasRef-discrete, Targets, entity_kind, alias_ref, alias_targets,
}
use discogs_sql_loader.Graph.Writer.{Tables, write_document_graph}
use discogs_sql_loader.Entities.{
  EntityRow, Message, Services, Written, done, failed, refused, malformed_identifiers, find_row,
  some_of,
}
use discogs_sql_loader.Entities.Batch.{
  Identified, refs_for, identified, unresolved_ids, latest, record_for,
}
use discogs_sql_loader.Entities.Write.{
  changed, payload, document, write_rows, refuses_batch, written_with, write_identified,
  process_batch,
}
use discogs_sql_loader.Entities.Write.Distinct.{
  message_for, last_message, message_ids, message-latest, distinct-latest,
}
use discogs_sql_loader.Entities.Write.Found.{ids}
use discogs_sql_loader.Entities.Write.Contract.{after, write_rows-row}

-- `resolve_aliases` finds or mints a native id for each alias that it is asked for, and an alias has
-- one native id, whatever else is asked for with it.
pub record Resolves (services : Services) (native : AliasRef → Text) : Type 0 where
  pub gives :
      (refs : List AliasRef) (ref : AliasRef)
      → contains AliasRef-discrete ref refs ≡ true
      → services.resolve_aliases refs ref ≡ some (native ref)

abbrev pub discogs_alias : Text → Text → AliasRef
discogs_alias kind data_id = record {
  provider = codes "discogs";
  kind = kind;
  external_id = data_id;
}

-- each message with its alias, and with its native id
abbrev pub with_ref : Text → Message → Message × AliasRef
with_ref kind m = (m, discogs_alias kind m.data_id)

abbrev pub with_native : (AliasRef → Text) → Text → Message → Identified
with_native native kind m = (m, native (discogs_alias kind m.data_id))

refs-known :
    (data_type : String) (kind : Text) (ms : List Message)
    → entity_kind data_type ≡ some kind
    → refs_for data_type ms ≡ some (map (with_ref kind) ms)
unfolding refs_for alias_ref
refs-known data_type kind [] h = refl
refs-known data_type kind (m ∷ ms) h = ground (arith, refs-known data_type kind ms h)

module _ (native_ids : AliasRef → Option Text) (native : AliasRef → Text) (kind : Text) where
  identified-resolved :
      (ms : List Message)
      → ((ref : AliasRef)
          → contains AliasRef-discrete ref (map (λ p. p.1) (map (with_ref kind) ms)) ≡ true
          → native_ids ref ≡ some (native ref))
      → (identified native_ids (map (with_ref kind) ms) ≡ map (with_native native kind) ms)
        × (unresolved_ids native_ids (map (with_ref kind) ms) ≡ [])
  unfolding identified unresolved_ids contains
  identified-resolved [] h = (refl, refl)
  identified-resolved (m ∷ ms) h =
      let here =
        h (discogs_alias kind m.data_id)
          (ground (arith, same_refl AliasRef-discrete (discogs_alias kind m.data_id))) in
      let (rest, none_left) = identified-resolved ms (λ ref k. h ref (ground arith)) in
      (rw (here, rest) refl, rw (here, none_left) refl)

module _ (native : AliasRef → Text) (kind : Text) where
  abbrev pub identified_message : Option Message → Option Identified
  identified_message none = none
  identified_message (some m) = some (with_native native kind m)

  record_for-map :
      (id : Text) (ms : List Message)
      → record_for id (map (with_native native kind) ms) ≡ identified_message (message_for id ms)
  unfolding record_for message_for
  record_for-map id [] = refl
  record_for-map id (m ∷ ms) = ground (arith, record_for-map id ms)

  ids-map : (ms : List Message) → ids (map (with_native native kind) ms) ≡ message_ids ms
  ids-map [] = refl
  ids-map (m ∷ ms) = ap (◌∷◌ m.data_id) (ids-map ms)

write_identified-outcome :
    (services : Services) (data_type : String) (now : ℕ) (rows rows' : List EntityRow)
    (graph : Tables) (ms : List Identified) (targets : Targets)
    → alias_targets services.identifiers data_type (map payload ms) ≡ some targets
    → write_rows services data_type now rows ms ≡ done rows'
    → write_identified services data_type now rows graph ms ≡ (
        if refuses_batch services data_type now rows ms
        then failed refused
        else done (record {
          rows = rows';
          graph =
              write_document_graph services.common services.keys data_type
                (map document (changed rows ms))
                graph;
          attached = targets;
        }))
unfolding write_identified
write_identified-outcome services data_type now rows rows' graph ms targets h k =
    rw (h, write_identified) (rw (k, written_with) refl)

module _ (services : Services) (native : AliasRef → Text) (resolves : Resolves services native)
    (data_type : String) (kind : Text) (known : entity_kind data_type ≡ some kind) (now : ℕ) where
  -- once every alias has its native id
  process_batch-identified :
      (messages : List Message) (rows : List EntityRow) (graph : Tables)
      → process_batch services data_type now true messages rows graph ≡ (
          if some_of services.refuses.text (message_ids (latest messages))
          then failed refused
          else write_identified services data_type now rows graph
              (map (with_native native kind) (latest messages)))
  unfolding process_batch
  process_batch-identified messages rows graph =
      let refs = map (with_ref kind) (latest messages) in
      let (all_of, none_left) =
        identified-resolved (services.resolve_aliases (map (λ p. p.1) refs)) native kind
          (latest messages) (resolves.gives (map (λ p. p.1) refs)) in
      rw (refs-known data_type kind (latest messages) known, none_left, all_of) refl

  pub process_batch-malformed :
      (messages : List Message) (rows : List EntityRow) (graph : Tables)
      → alias_targets services.identifiers data_type
          (map payload (map (with_native native kind) (latest messages)))
        ≡ none
      → process_batch services data_type now true messages rows graph ≡ (
          if some_of services.refuses.text (message_ids (latest messages))
          then failed refused
          else failed malformed_identifiers)
  unfolding write_identified
  process_batch-malformed messages rows graph h =
      process_batch-identified messages rows graph ∙ rw (h, write_identified) refl

  module _ (messages : List Message) (rows : List EntityRow) (graph : Tables) (targets : Targets)
      (id : Text)
      (minted : alias_targets services.identifiers data_type
          (map payload (map (with_native native kind) (latest messages)))
        ≡ some targets) where
    -- the batch is written, or it is refused
    pub process_batch-outcome :
        (w : Written) × (process_batch services data_type now true messages rows graph ≡ (
          if some_of services.refuses.text (message_ids (latest messages))
          then failed refused
          else if refuses_batch services data_type now rows
              (map (with_native native kind) (latest messages))
          then failed refused
          else done w))
        × (find_row id w.rows
            ≡ after services data_type now
                (identified_message native kind (last_message id messages))
                (find_row id rows))
        × (w.attached ≡ targets)
        × (w.graph
            ≡ write_document_graph services.common services.keys data_type
                (map document (changed rows (map (with_native native kind) (latest messages))))
                graph)
    unfolding process_batch write_identified
    process_batch-outcome =
        let ms = map (with_native native kind) (latest messages) in
        let one : distinct Text-discrete (ids ms) ≡ true = rw ids-map (distinct-latest messages) in
        let (rows', e, found) = write_rows-row services data_type now rows ms one id in
        (
          record {
            rows = rows';
            graph =
                write_document_graph services.common services.keys data_type
                  (map document (changed rows ms)) graph;
            attached = targets;
          },
          process_batch-identified messages rows graph
              ∙ rw
                  (write_identified-outcome services data_type now rows rows' graph ms targets
                    minted e)
                  refl,
          found
              ∙ ap (λ o. after services data_type now o (find_row id rows))
                  (record_for-map native kind id (latest messages)
                    ∙ ap (identified_message native kind) (message-latest id messages)),
          refl,
          refl,
        )

    -- a batch that is written, at its rows
    pub written-rows :
        (w : Written)
        → process_batch services data_type now true messages rows graph ≡ done w
        → find_row id w.rows
          ≡ after services data_type now
              (identified_message native kind (last_message id messages))
              (find_row id rows)
    written-rows w h =
        let (v, e, found, _, _) = process_batch-outcome in
        elim (Bool-cases (some_of services.refuses.text (message_ids (latest messages)))) [
          | inl k ↦ cc (e, h, k)
          | inr k ↦
              elim (Bool-cases (
                refuses_batch services data_type now rows
                  (map (with_native native kind) (latest messages)))) [
                    | inl l ↦ cc (e, h, k, l)
                    | inr l ↦ let here : v ≡ w = cc (e, h, k, l) in rw (sym here) found
                  ]
        ]

  -- A batch of a known type that is admitted, whose identifiers are well formed, whose aliases all
  -- resolve, and of whose values PostgreSQL refuses none (no id, and none that the backfills, the
  -- upsert or the rows for the graph tables bind) is written, if `attach_aliases`, which is not
  -- modelled, raises nothing. Each document's row is then what
  -- the last message for its id makes of the row before: left alone without a message, filled in and
  -- refreshed if its hash stayed, and overwritten otherwise. The aliases attached are those of its
  -- documents, and the graph rows are written for the documents whose hash changed.
  pub process_batch-rows :
      (messages : List Message) (rows : List EntityRow) (graph : Tables) (targets : Targets)
      (id : Text)
      → alias_targets services.identifiers data_type
          (map payload (map (with_native native kind) (latest messages)))
        ≡ some targets
      → some_of services.refuses.text (message_ids (latest messages)) ≡ false
      → refuses_batch services data_type now rows (map (with_native native kind) (latest messages))
        ≡ false
      → (w : Written) × (process_batch services data_type now true messages rows graph ≡ done w)
        × (find_row id w.rows
            ≡ after services data_type now
                (identified_message native kind (last_message id messages))
                (find_row id rows))
        × (w.attached ≡ targets)
        × (w.graph
            ≡ write_document_graph services.common services.keys data_type
                (map document (changed rows (map (with_native native kind) (latest messages))))
                graph)
  process_batch-rows messages rows graph targets id h k l =
      let (w, e, found, attached, drawn) = process_batch-outcome messages rows graph targets id h in
      (w, rw (k, l) at e, found, attached, drawn)
