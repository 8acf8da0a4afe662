-- ===== src/Tests/Entities.antt =====
-- Runs of the two write paths and of the purge.
use discogs_sql_loader.Prelude.{
  String, Bool, ◌==◌, ltb, from_keys, add_keys, add_key, true, false, List, [], ◌∷◌, map, ◌≡◌, refl,
  none, some, arith, if◌then◌else◌, ◌is◌,
}
use discogs_sql_loader.Text.{Text, Text-discrete, codes, strip}
use discogs_sql_loader.Json.{Json, str, Fields, field, end, get}
use discogs_sql_loader.Identity.{
  AliasRef, AliasRef-discrete, Identifiers, Targets, target_of, entity_kind, alias_ref,
  alias_targets, targets_from, set_defaults,
}
use discogs_sql_loader.Identity.First.{first_minting, alias_targets-first}
use discogs_sql_loader.Graph.{Cell, bigint, put, Edge-discrete, Row-discrete}
use discogs_sql_loader.Graph.Ids.{element_ids, entity_id, tag_names}
use discogs_sql_loader.Graph.Credits.{credits, track_credits, track_performers}
use discogs_sql_loader.Graph.MediaRows.{media_rows}
use discogs_sql_loader.Media.{media_for_release}
use discogs_sql_loader.Graph.Derive.{derive_document, derive_release}
use discogs_sql_loader.Graph.Writer.{write_document_graph, derive_all}
use discogs_sql_loader.Entities.{
  EntityRow, Message, Services, Written, Refusals, done, failed, refused, find_row, some_of,
  refuses_graph, refuses_derived,
}
use discogs_sql_loader.Entities.Batch.{
  latest, is_unchanged, collect, refs_for, identified, unresolved_ids,
}
use discogs_sql_loader.Entities.Write.{
  process_batch, write_identified, payload, document, changed, refuses_row, refuses_batch,
}
use discogs_sql_loader.Entities.Write.Distinct.{last_message, message_ids}
use discogs_sql_loader.Entities.Write.Contract.{after}
use discogs_sql_loader.Entities.Write.Rows.{row_after}
use discogs_sql_loader.Entities.Write.Outcome.{
  Resolves, with_native, identified_message, process_batch-rows,
}
use discogs_sql_loader.Entities.Record.{
  persist_record, terminal_outcome, sha256_of, refuses_message, refuses_edges, content_changed,
}
use discogs_sql_loader.Entities.Record.AsBatch.{agrees, persist_record-as-batch}
use discogs_sql_loader.Entities.Purge.{PurgePolicy, Purged, purge_stale_rows, purge_before}
use discogs_sql_loader.Entities.Purge.Fresh.{Effect, purge_keeps_fresh, purge_stale_rows-Effect}
use discogs_sql_loader.Entities.Purge.Survives.{batch_survives_purge}
use discogs_sql_loader.Tests.Samples.{common, keys, tables, text_json}

abbrev barcode : AliasRef
barcode = record { provider = codes "barcode"; kind = codes "release"; external_id = codes "0724" }

-- an alias is its own native id, and every block prints one barcode
abbrev identifiers : Identifiers
identifiers = record {
  alias_refs_for_release = λ j. some (barcode ∷ []);
  float_is_zero = λ s. false;
}

abbrev pub native : AliasRef → Text
native ref = ref.external_id

-- A text with a NUL is refused, and a payload with one in its notes, as PostgreSQL refuses them; the
-- graph takes every row but one with an integer beyond `bigint`.
abbrev nul_in : Text → Bool
nul_in = some_of (λ c. c == 0)

abbrev nul_in_json : Json → Bool
nul_in_json (str s) = nul_in s
nul_in_json _ = false

abbrev beyond_bigint : Cell → Bool
beyond_bigint (bigint n) = ltb 9223372036854775807 n
beyond_bigint _ = false

abbrev refusals : Refusals
refusals = record {
  text = nul_in;
  jsonb = λ fs. nul_in_json (get "notes" fs);
  vertex = λ v. some_of beyond_bigint;
  edge = λ e. some_of beyond_bigint;
}

abbrev pub services : Services
services = record {
  common = common;
  keys = keys;
  media_resolver = λ fs. fs;
  resolve_aliases = λ refs ref. some (native ref);
  identifiers = identifiers;
  refuses = refusals;
}

pub resolves : Resolves services native
resolves = record { gives = λ refs ref h. refl }

pub known : entity_kind "releases" ≡ some (codes "release")
unfolding entity_kind
known = refl

abbrev printed : Fields
printed = field "sha256" (text_json "h2") (field "identifiers" (text_json "block") end)

abbrev pub message : String → Message
message id = record { data_id = codes id; data' = printed; sha256 = codes "h2" }

-- one row that stays as it is, and one whose hash is older
abbrev row : String → String → EntityRow
row id hash = record {
  data_id = codes id;
  hash = codes hash;
  data' = end;
  media = none;
  gm_item_id = none;
  updated_at = 1;
}

abbrev pub rows : List EntityRow
rows = row "1" "h2" ∷ row "2" "h1" ∷ row "3" "h1" ∷ []

-- 1 is unchanged, 2 is overwritten, 4 is new
abbrev messages : List Message
messages = message "1" ∷ message "2" ∷ message "4" ∷ message "2" ∷ []

abbrev targets : Targets
targets = (barcode, codes "1") ∷ []

abbrev payloads : List (Fields × Text)
payloads = (printed, codes "1") ∷ (printed, codes "2") ∷ []

minted : alias_targets identifiers "releases" payloads ≡ some targets
unfolding alias_targets targets_from set_defaults AliasRef-discrete
minted = refl

alias_targets-first_example :
    target_of barcode targets
    ≡ (if "releases" is "releases" then first_minting identifiers barcode payloads else none)
alias_targets-first_example =
    alias_targets-first identifiers "releases" payloads targets barcode minted

batch_minted :
    alias_targets identifiers "releases"
      (map payload (map (with_native native (codes "release")) (latest messages)))
    ≡ some targets
unfolding alias_targets targets_from set_defaults AliasRef-discrete latest
batch_minted = refl

ids_sent : some_of services.refuses.text (message_ids (latest messages)) ≡ false
unfolding some_of latest Text-discrete
ids_sent = refl

values_sent :
    refuses_batch services "releases" 5 rows
      (map (with_native native (codes "release")) (latest messages))
    ≡ false
unfolding refuses_batch refuses_row some_of latest Text-discrete is_unchanged find_row collect
    refuses_graph refuses_derived derive_all derive_document derive_release put element_ids
    from_keys add_keys entity_id tag_names credits track_credits strip add_key Edge-discrete
    Row-discrete media_rows media_for_release track_performers
values_sent = refl

-- a record that PostgreSQL refuses
abbrev pub poison : String → String → Message
poison id hash = record {
  data_id = codes id;
  data' = field "notes" (str (104 ∷ 0 ∷ [])) end;
  sha256 = codes hash;
}

poison_refused :
    process_batch services "releases" 5 true (message "1" ∷ poison "2" "h2" ∷ []) rows tables
    ≡ failed refused
unfolding process_batch write_identified refs_for identified unresolved_ids latest alias_ref
    entity_kind alias_targets targets_from set_defaults AliasRef-discrete refuses_batch refuses_row
    some_of Text-discrete is_unchanged find_row
poison_refused = refl

process_batch-rows_example :
    (w : Written) × (process_batch services "releases" 5 true messages rows tables ≡ done w)
    × (find_row (codes "2") w.rows
        ≡ after services "releases" 5
            (identified_message native (codes "release") (last_message (codes "2") messages))
            (find_row (codes "2") rows))
    × (w.attached ≡ targets)
    × (w.graph
        ≡ write_document_graph common keys "releases"
            (map document
              (changed rows (map (with_native native (codes "release")) (latest messages))))
            tables)
process_batch-rows_example =
    process_batch-rows services native resolves "releases" (codes "release") known 5 messages rows
      tables targets (codes "2") batch_minted ids_sent values_sent

one_minted :
    alias_targets identifiers "releases" ((printed, codes "2") ∷ [])
    ≡ some ((barcode, codes "2") ∷ [])
unfolding alias_targets targets_from set_defaults
one_minted = refl

hashed : sha256_of printed ≡ some (codes "h2")
unfolding sha256_of
hashed = refl

agreed : agrees (codes "2") (find_row (codes "2") rows) ≡ true
unfolding find_row Text-discrete
agreed = refl

one_sent : refuses_message services "releases" 5 (message "2") ≡ false
unfolding refuses_message some_of
one_sent = refl

one_drawn : refuses_edges services "releases" 5 rows (message "2") ≡ false
unfolding refuses_edges content_changed some_of Text-discrete find_row refuses_graph refuses_derived
    derive_all derive_document derive_release put element_ids from_keys add_keys entity_id tag_names
    credits track_credits strip add_key Edge-discrete Row-discrete media_rows media_for_release
    track_performers
one_drawn = refl

persist_record-as-batch_example :
    (w : Written) × (v : Written) × (persist_record services "releases" 5
        (codes "2")
        printed
        rows
        tables
      ≡ done (w, terminal_outcome "releases" rows (message "2")))
    × (process_batch services "releases" 5 true (message "2" ∷ []) rows tables ≡ done v)
    × (find_row (codes "3") w.rows ≡ find_row (codes "3") v.rows)
    × (w.graph ≡ v.graph)
    × (w.attached ≡ v.attached)
persist_record-as-batch_example =
    persist_record-as-batch services native resolves "releases" (codes "release") known 5
      (message "2") rows tables ((barcode, codes "2") ∷ []) (codes "3") hashed one_minted one_sent
      one_drawn agreed

-- a cap of nine tenths, and a time that is always 1 more than the rows that nothing refreshed
abbrev policy : PurgePolicy
policy = record { cap = 9; scale = 10; fromisoformat = λ s. some 2 }

abbrev fresh : EntityRow
fresh = record (row "1" "h2") { updated_at = 5 }

abbrev swept : Purged
swept = purge_before policy "labels" 2 (row "3" "h1" ∷ fresh ∷ []) tables

swept_run :
    purge_stale_rows policy "labels" (codes "2025") (some 1) (row "3" "h1" ∷ fresh ∷ []) tables
    ≡ done swept
unfolding purge_stale_rows
swept_run = refl

swept_rows : swept.rows ≡ fresh ∷ []
unfolding purge_before
swept_rows = refl

purge_stale_rows-Effect_example :
    Effect policy "labels" (codes "2025") (some 1) (row "3" "h1" ∷ fresh ∷ []) tables swept
purge_stale_rows-Effect_example =
    purge_stale_rows-Effect policy "labels" (codes "2025") (some 1) (row "3" "h1" ∷ fresh ∷ [])
      tables swept swept_run

fresh_found : find_row (codes "1") (row "3" "h1" ∷ fresh ∷ []) ≡ some fresh
unfolding find_row Text-discrete
fresh_found = refl

purge_keeps_fresh_example : find_row (codes "1") swept.rows ≡ some fresh
purge_keeps_fresh_example =
    purge_keeps_fresh policy "labels" (codes "2025") (some 1) (row "3" "h1" ∷ fresh ∷ []) tables
      swept 2 (codes "1") fresh swept_run refl fresh_found (omega arith)

written_run :
    (w : Written) × (process_batch services "releases" 5 true messages rows tables ≡ done w)
written_run =
    let (w, e, _, _, _) =
      process_batch-rows services native resolves "releases" (codes "release") known 5 messages rows
        tables targets (codes "1") batch_minted ids_sent values_sent in
    (w, e)

abbrev purged_after : Purged
purged_after = purge_before policy "releases" 2 written_run.0.rows written_run.0.graph

purged_run :
    purge_stale_rows policy "releases" (codes "2025") none written_run.0.rows written_run.0.graph
    ≡ done purged_after
unfolding purge_stale_rows
purged_run = refl

delivered : last_message (codes "1") messages ≡ some (message "1")
unfolding last_message Text-discrete
delivered = refl

batch_survives_purge_example :
    find_row (codes "1") purged_after.rows
    ≡ some (
        row_after services "releases" 5
          (with_native native (codes "release") (message "1"))
          (find_row (codes "1") rows))
batch_survives_purge_example =
    batch_survives_purge services native resolves "releases" (codes "release") known 5 messages rows
      tables targets written_run.0 policy (codes "2025") none purged_after 2 (codes "1")
      (message "1") batch_minted written_run.1 purged_run refl (omega arith) delivered
