-- ===== src/Handler/Terminal.antt =====
-- `purge_veto_reason`, `persist_purge_veto`, `purge_stale_rows` and the branch of
-- `_process_data_message` for an `extraction_complete`.
use discogs_sql_loader.Prelude.{
  ℕ, String, Bool, true, false, not, ◌&&◌, ◌||◌, List, [], ◌∷◌, ◌++◌, Option, none, some, ltb, ◌is◌,
  if◌then◌else◌, contains, add_key, keep, String-discrete,
}
use discogs_sql_loader.Text.{Text}
use discogs_sql_loader.Json.{Json, str, obj, Fields, end, get, get_or}
use discogs_sql_loader.Common.{Common}
use discogs_sql_loader.Latch.{
  LatchRow, ExtractionLatch, record_extraction_signal, should_refresh, mark_extraction_refreshed,
  record_purge_veto, purge_was_vetoed, extraction_latch_key,
}
use discogs_sql_loader.Durable.{Durable, Result, done, failed, is_set}
use discogs_sql_loader.Durable.Version.{ordered_version}
use discogs_sql_loader.Durable.Signal.{DurableSignal, record_durable_signal}
use discogs_sql_loader.Handler.{
  all_types, Setup, Service, Answers, Effect, purges, refreshes, schedules, pauses, acks, nacks,
}

pub data VetoReason : Type 0 where
  dead_lettered unreadable_queue letters_waiting unreadable_veto vetoed_before : VetoReason

abbrev pub recorded_reason :
    Setup → Answers → String → Option Text → List LatchRow → Option VetoReason
recorded_reason setup w data_type none latches = none
recorded_reason setup w data_type (some version) latches =
    if not (setup.connection_pool && setup.extraction_latch)
    then none
    else if not w.veto_read
    then some unreadable_veto
    else if purge_was_vetoed version data_type latches
    then some vetoed_before
    else none

abbrev pub waiting_reason : Option ℕ → Option VetoReason → Option VetoReason
waiting_reason none recorded = some unreadable_queue
waiting_reason (some n) recorded = if ltb 0 n then some letters_waiting else recorded

unfoldable pub purge_veto_reason :
    Common → Setup → Answers → String → Fields → Service → Option VetoReason
unfolding contains purge_was_vetoed extraction_latch_key
purge_veto_reason common setup w data_type data' s =
    if setup.batch_processor && contains String-discrete data_type s.dlq_nacked
    then some dead_lettered
    else waiting_reason w.dead_letters
        (recorded_reason setup w data_type (extraction_latch_key common data') s.latches)

-- whether the veto is recorded, and the rows after it
abbrev pub persist_veto_of :
    Setup → Answers → String → Option Text → List LatchRow → Bool × List LatchRow
persist_veto_of setup w data_type none latches = (true, latches)
persist_veto_of setup w data_type (some version) latches =
    if not (setup.connection_pool && setup.extraction_latch)
    then (true, latches)
    else if setup.write_admission && w.veto_written
    then (true, record_purge_veto w.now version data_type latches)
    else (false, latches)

unfoldable pub persist_purge_veto :
    Common → Setup → Answers → String → Fields → List LatchRow → Bool × List LatchRow
unfolding record_purge_veto extraction_latch_key
persist_purge_veto common setup w data_type data' latches =
    persist_veto_of setup w data_type (extraction_latch_key common data') latches

-- the purge, vetoed or not
pub record Cleanup : Type 0 where
  pub purge_ok : Bool
  pub vetoed : Bool
  pub latches : List LatchRow
  pub effects : List Effect

-- `record_counts.get(data_type)`, which raises where it is no mapping
abbrev pub count_in : String → Json → Option Json
count_in data_type (obj counts) = some (get data_type counts)
count_in data_type _ = none

abbrev pub purge_rows : Setup → Answers → Json → Option Json → List LatchRow → Cleanup
purge_rows setup w started_at none latches = record {
  purge_ok = not setup.connection_pool;
  vetoed = false;
  latches = latches;
  effects = [];
}
purge_rows setup w started_at (some count) latches = record {
  purge_ok = not setup.connection_pool || setup.write_admission && w.purged;
  vetoed = false;
  latches = latches;
  effects =
      if setup.connection_pool && (setup.write_admission && w.purged)
      then purges started_at count ∷ []
      else [];
}

abbrev pub after_veto : Bool × List LatchRow → Cleanup
after_veto (ok, latches) = record { purge_ok = ok; vetoed = true; latches = latches; effects = [] }

abbrev pub cleanup_for :
    Common → Setup → Answers → String → Fields → Option VetoReason → List LatchRow → Cleanup
cleanup_for common setup w data_type data' none latches =
    purge_rows setup w (get_or "started_at" (str []) data')
      (count_in data_type (get_or "record_counts" (obj end) data')) latches
cleanup_for common setup w data_type data' (some reason) latches =
    after_veto (persist_purge_veto common setup w data_type data' latches)

unfoldable pub cleanup : Common → Setup → Answers → String → Fields → Service → Cleanup
unfolding purge_veto_reason persist_purge_veto
cleanup common setup w data_type data' s =
    cleanup_for common setup w data_type data' (purge_veto_reason common setup w data_type data' s)
      s.latches

-- the signal for the derived pass, and the pass itself where it runs inline
pub record Handoff : Type 0 where
  pub refresh_ok : Bool
  pub handoff_failed : Bool
  pub latches : List LatchRow
  pub durable : Durable
  pub effects : List Effect

abbrev pub handed : Bool → Bool → List LatchRow → Durable → Handoff
handed ok failed' latches durable = record {
  refresh_ok = ok;
  handoff_failed = failed';
  latches = latches;
  durable = durable;
  effects = [];
}

abbrev pub durable_handed : Result (Durable × DurableSignal) → List LatchRow → Durable → Handoff
durable_handed (done (durable', report)) latches durable = handed true false latches durable'
durable_handed (failed e) latches durable = handed false true latches durable

unfoldable pub durable_handoff :
    Common → Setup → Answers → String → Fields → List LatchRow → Durable → Handoff
unfolding record_durable_signal
durable_handoff common setup w data_type data' latches durable =
    if setup.connection_pool
      && w.durable_refresh_ready
      && (setup.write_admission && w.signal_committed)
    then durable_handed
        (record_durable_signal common all_types (get "version" data') data_type durable) latches
        durable
    else handed false true latches durable

abbrev pub pass_if : Bool → Answers → Text → List LatchRow → Durable → Handoff
pass_if true w version latches durable =
    if w.refreshed
    then record {
      refresh_ok = true;
      handoff_failed = false;
      latches = mark_extraction_refreshed w.now version latches;
      durable = durable;
      effects = refreshes version ∷ [];
    }
    else handed false false latches durable
pass_if false w version latches durable = handed true false latches durable

-- `record_extraction_signal`, then the pass where it is due
abbrev pub after_signal : Answers → Text → List LatchRow × ExtractionLatch → Durable → Handoff
after_signal w version (latches, latch) durable =
    pass_if (should_refresh all_types latch) w version latches durable

abbrev pub inline_of : Setup → Answers → String → Option Text → List LatchRow → Durable → Handoff
inline_of setup w data_type none latches durable = handed true false latches durable
inline_of setup w data_type (some version) latches durable =
    if setup.write_admission && w.signal_committed
    then after_signal w version (record_extraction_signal w.now version data_type latches) durable
    else handed false false latches durable

unfoldable pub handoff :
    Common → Setup → Answers → String → Fields → Bool → List LatchRow → Durable → Handoff
unfolding durable_handoff record_extraction_signal should_refresh mark_extraction_refreshed
    extraction_latch_key
handoff common setup w data_type data' purge_ok latches durable =
    if not purge_ok
    then handed true false latches durable
    else if setup.durable_refresh_active
    then durable_handoff common setup w data_type data' latches durable
    else if setup.connection_pool && setup.extraction_latch
    then inline_of setup w data_type (extraction_latch_key common data') latches durable
    else handed true false latches durable

abbrev pub scheduled : Setup → List Effect
scheduled setup = if setup.cancels_consumers then schedules ∷ [] else []

abbrev pub without : String → List String → List String
without data_type types = keep (λ t. not (t is data_type)) types

-- the acknowledgement of the signal, or its return
abbrev pub settled : Setup → String → Bool → Service → Service
settled setup data_type vetoed s = record s {
  completed_files = add_key String-discrete s.completed_files data_type;
  extraction_signalled = add_key String-discrete s.extraction_signalled data_type;
  dlq_nacked =
      if vetoed && setup.batch_processor then without data_type s.dlq_nacked else s.dlq_nacked;
}

abbrev pub returned : Answers → Bool → List Effect
returned w handoff_failed =
    if handoff_failed then pauses ∷ (if w.paused then nacks true ∷ [] else []) else nacks true ∷ []

unfoldable pub finish :
    Setup → Answers → String → Cleanup → Handoff → Service → Service × List Effect
finish setup w data_type c h s =
    let s' = record s { latches = h.latches; durable = h.durable } in
    if c.purge_ok && h.refresh_ok
    then (
      settled setup data_type c.vetoed s',
      (c.effects ++ h.effects) ++ (scheduled setup ++ acks ∷ []),
    )
    else (s', (c.effects ++ h.effects) ++ returned w h.handoff_failed)

unfoldable pub extraction_complete :
    Common → Setup → Answers → String → Fields → Service → Service × List Effect
unfolding cleanup handoff finish ordered_version
extraction_complete common setup w data_type data' s =
    if setup.batch_processor && not w.flushed
    then (s, nacks true ∷ [])
    else if setup.durable_refresh_active
        && not (is_set (ordered_version common (get "version" data')))
    then (s, nacks false ∷ [])
    else let c = cleanup common setup w data_type data' s in
      let h = handoff common setup w data_type data' c.purge_ok c.latches s.durable in
      finish setup w data_type c h s
