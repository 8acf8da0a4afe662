-- ===== src/Handler/Message.antt =====
-- `_process_data_message` up to where a record is handed over, and the branch for a `file_complete`.
use discogs_sql_loader.Prelude.{
  String, Bool, true, false, not, ◌&&◌, List, [], ◌∷◌, ◌++◌, Option, some, if◌then◌else◌, same,
  add_key, String-discrete,
}
use discogs_sql_loader.Text.{Text-discrete, codes}
use discogs_sql_loader.Json.{Json, str, obj, Fields, get, truthy}
use discogs_sql_loader.Common.{Common}
use discogs_sql_loader.Handler.{
  Setup, Service, Answers, Effect, unschedules, acks, nacks, submits, delivers,
}
use discogs_sql_loader.Handler.Terminal.{scheduled, without, extraction_complete}

-- `data.get("type") == name`
abbrev pub is_text : String → Json → Bool
is_text name (str s) = same Text-discrete s (codes name)
is_text name _ = false

unfoldable pub file_complete : Setup → Answers → String → Service → Service × List Effect
file_complete setup w data_type s =
    if setup.batch_processor && not w.flushed then (s, nacks true ∷ []) else (
      record s { completed_files = add_key String-discrete s.completed_files data_type },
      scheduled setup ++ acks ∷ [],
    )

-- A record re-arms the progress of its type, whether it is taken or not. Only the batch processor sets
-- its flags `dlq_nacked`, on what it rejects itself.
unfoldable pub take_record :
    Common → Setup → Answers → String → Fields → Service → Service × List Effect
take_record common setup w data_type data' s =
    let s' = record s {
      completed_files = without data_type s.completed_files;
      extraction_signalled = without data_type s.extraction_signalled;
    } in
    if not (truthy common.float_is_zero (get "id" data'))
    then (s', unschedules ∷ nacks false ∷ [])
    else if setup.batch_mode && setup.batch_processor
    then (s', unschedules ∷ (if w.submitted then submits else nacks false) ∷ [])
    else if w.normalized
    then (s', unschedules ∷ delivers ∷ [])
    else (s', unschedules ∷ nacks false ∷ [])

abbrev pub by_type :
    Common → Setup → Answers → String → Option Json → Service → Service × List Effect
by_type common setup w data_type (some (obj data')) s =
    if is_text "file_complete" (get "type" data')
    then file_complete setup w data_type s
    else if is_text "extraction_complete" (get "type" data')
    then extraction_complete common setup w data_type data' s
    else take_record common setup w data_type data' s
by_type common setup w data_type _ s = (s, nacks false ∷ [])

-- `body` is what `loads` gives, `none` where it raises
unfoldable pub process_data_message :
    Common → Setup → Answers → String → Option Json → Service → Service × List Effect
unfolding file_complete extraction_complete take_record
process_data_message common setup w data_type body s =
    if w.shutdown_requested then (s, []) else by_type common setup w data_type body s
