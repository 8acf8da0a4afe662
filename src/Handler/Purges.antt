-- ===== src/Handler/Purges.antt =====
-- When a delivery purges stale rows.
use discogs_sql_loader.Prelude.{
  ℕ, zero, suc, String, Bool, true, false, not, ◌&&◌, ◌||◌, List, [], ◌∷◌, ◌++◌, ◌≡◌, refl, Option,
  none, some, if◌then◌else◌, all, contains, String-discrete, arith, Bool-cases, inl, inr,
}
use discogs_sql_loader.Text.{Text}
use discogs_sql_loader.Json.{Fields, obj, get, truthy}
use discogs_sql_loader.Common.{Common}
use discogs_sql_loader.Latch.{LatchRow, purge_was_vetoed, extraction_latch_key}
use discogs_sql_loader.Durable.{is_set}
use discogs_sql_loader.Durable.Version.{ordered_version}
use discogs_sql_loader.Handler.{Setup, Service, Answers, Effect, refreshes, acks}
use discogs_sql_loader.Handler.Terminal.{
  VetoReason, recorded_reason, waiting_reason, purge_veto_reason, cleanup_for, cleanup, Cleanup,
  Handoff, handoff, scheduled, returned, finish, extraction_complete,
}
use discogs_sql_loader.Handler.Message.{
  is_text, file_complete, take_record, by_type, process_data_message,
}
use discogs_sql_loader.Handler.Effects.{
  is_purge, is_pass, count, count-append, count-none, handoff-passes,
}
use discogs_sql_loader.Handler.Settlement.{has}

pass-no_purge : (e : Effect) → is_pass e ≡ true → is_purge e ≡ false
pass-no_purge (refreshes v) h = refl
pass-no_purge _ h = cc

scheduled-no_purge : (setup : Setup) → count is_purge (scheduled setup ++ acks ∷ []) ≡ 0
scheduled-no_purge setup = elim (Bool-cases setup.cancels_consumers) [
  | inl e ↦ rw e refl
  | inr e ↦ rw e refl
]

returned-no_purge : (w : Answers) (failed' : Bool) → count is_purge (returned w failed') ≡ 0
returned-no_purge w true = elim (Bool-cases w.paused) [ inl e ↦ rw e refl | inr e ↦ rw e refl ]
returned-no_purge w false = refl

finish-purges :
    (setup : Setup) (w : Answers) (t : String) (c : Cleanup) (h : Handoff) (s : Service)
    → all is_pass h.effects ≡ true
    → count is_purge c.effects ≡ 0
    → count is_purge (finish setup w t c h s).1 ≡ 0
unfolding finish
finish-purges setup w t c h s q z =
    let passes = count-none is_purge is_pass h.effects pass-no_purge q in
    elim (Bool-cases (c.purge_ok && h.refresh_ok)) [
      | inl e ↦
          rw
            (
              e,
              count-append is_purge (c.effects ++ h.effects) (scheduled setup ++ acks ∷ []),
              count-append is_purge c.effects h.effects,
              z,
              passes,
              scheduled-no_purge setup,
            )
            refl
      | inr e ↦
          rw
            (
              e,
              count-append is_purge (c.effects ++ h.effects) (returned w h.handoff_failed),
              count-append is_purge c.effects h.effects,
              z,
              passes,
              returned-no_purge w h.handoff_failed,
            )
            refl
    ]

abbrev pub is_given : Option VetoReason → Bool
is_given none = false
is_given (some reason) = true

vetoed_for :
    (common : Common) (setup : Setup) (w : Answers) (t : String) (data' : Fields)
    (reason : Option VetoReason) (latches : List LatchRow)
    → is_given reason ≡ true
    → count is_purge (cleanup_for common setup w t data' reason latches).effects ≡ 0
vetoed_for common setup w t data' none latches g = cc
vetoed_for common setup w t data' (some reason) latches g = refl

vetoed-no_purge :
    (common : Common) (setup : Setup) (w : Answers) (t : String) (data' : Fields) (s : Service)
    → is_given (purge_veto_reason common setup w t data' s) ≡ true
    → count is_purge (cleanup common setup w t data' s).effects ≡ 0
unfolding cleanup
vetoed-no_purge common setup w t data' s =
    vetoed_for common setup w t data' (purge_veto_reason common setup w t data' s) s.latches

-- with the batches unflushed, or a reason for a veto
extraction_complete-guarded :
    (common : Common) (setup : Setup) (w : Answers) (t : String) (data' : Fields) (s : Service)
    → setup.batch_processor && not w.flushed
        || is_given (purge_veto_reason common setup w t data' s)
      ≡ true
    → count is_purge (extraction_complete common setup w t data' s).1 ≡ 0
unfolding extraction_complete
extraction_complete-guarded common setup w t data' s g =
    let c = cleanup common setup w t data' s in
    let h = handoff common setup w t data' c.purge_ok c.latches s.durable in
    elim (Bool-cases (setup.batch_processor && not w.flushed)) [
      | inl e ↦ rw e refl
      | inr e ↦
          elim (Bool-cases (
            setup.durable_refresh_active
            && not (is_set (ordered_version common (get "version" data'))))) [
              | inl f ↦ rw (e, f) refl
              | inr f ↦
                  rw (e, f)
                    (finish-purges setup w t c h s
                      (handoff-passes common setup w t data' c.purge_ok c.latches s.durable)
                      (vetoed-no_purge common setup w t data' s (ground (arith, g, e))))
            ]
    ]

file_complete-no_purge :
    (setup : Setup) (w : Answers) (t : String) (s : Service)
    → count is_purge (file_complete setup w t s).1 ≡ 0
unfolding file_complete
file_complete-no_purge setup w t s = elim (Bool-cases (setup.batch_processor && not w.flushed)) [
  | inl e ↦ rw e refl
  | inr e ↦ rw e (scheduled-no_purge setup)
]

take_record-no_purge :
    (common : Common) (setup : Setup) (w : Answers) (t : String) (data' : Fields) (s : Service)
    → count is_purge (take_record common setup w t data' s).1 ≡ 0
unfolding take_record
take_record-no_purge common setup w t data' s =
    elim (Bool-cases (truthy common.float_is_zero (get "id" data'))) [
      | inr e ↦ rw e refl
      | inl e ↦ elim (Bool-cases (setup.batch_mode && setup.batch_processor)) [
        | inl f ↦ elim (Bool-cases w.submitted) [
          | inl g ↦ rw (e, f, g) refl
          | inr g ↦ rw (e, f, g) refl
        ]
        | inr f ↦ elim (Bool-cases w.normalized) [
          | inl g ↦ rw (e, f, g) refl
          | inr g ↦ rw (e, f, g) refl
        ]
      ]
    ]

by_type-guarded :
    (common : Common) (setup : Setup) (w : Answers) (t : String) (data' : Fields) (s : Service)
    → setup.batch_processor && not w.flushed
        || is_given (purge_veto_reason common setup w t data' s)
      ≡ true
    → count is_purge (by_type common setup w t (some (obj data')) s).1 ≡ 0
by_type-guarded common setup w t data' s g =
    elim (Bool-cases (is_text "file_complete" (get "type" data'))) [
      | inl e ↦ rw e (file_complete-no_purge setup w t s)
      | inr e ↦ elim (Bool-cases (is_text "extraction_complete" (get "type" data'))) [
        | inl f ↦ rw (e, f) (extraction_complete-guarded common setup w t data' s g)
        | inr f ↦ rw (e, f) (take_record-no_purge common setup w t data' s)
      ]
    ]

unless :
    (stop : Bool) (s : Service) (out : Service × List Effect)
    → count is_purge out.1 ≡ 0
    → has is_purge (if stop then (s, []) else out).1 ≡ false
unless true s out h = refl
unless false s out h = rw h refl

pub process-guarded :
    (common : Common) (setup : Setup) (w : Answers) (t : String) (data' : Fields) (s : Service)
    → setup.batch_processor && not w.flushed
        || is_given (purge_veto_reason common setup w t data' s)
      ≡ true
    → has is_purge (process_data_message common setup w t (some (obj data')) s).1 ≡ false
unfolding process_data_message
process-guarded common setup w t data' s g =
    unless w.shutdown_requested s (by_type common setup w t (some (obj data')) s)
      (by_type-guarded common setup w t data' s g)

-- the latch holds a veto of the extraction that a signal names
abbrev pub is_vetoed : Setup → String → Option Text → List LatchRow → Bool
is_vetoed setup t none latches = false
is_vetoed setup t (some v) latches =
    setup.connection_pool && setup.extraction_latch && purge_was_vetoed v t latches

not_recorded :
    (setup : Setup) (w : Answers) (t : String) (v : Option Text) (latches : List LatchRow)
    → is_given (recorded_reason setup w t v latches) ≡ false
    → is_vetoed setup t v latches ≡ false
not_recorded setup w t none latches h = refl
not_recorded setup w t (some v) latches h = ground (arith, h)

none_waiting :
    (waiting : Option ℕ) (recorded : Option VetoReason)
    → is_given (waiting_reason waiting recorded) ≡ false
    → (waiting ≡ some 0) × (is_given recorded ≡ false)
none_waiting none recorded h = cc
none_waiting (some zero) recorded h = (refl, h)
none_waiting (some (suc n)) recorded h = absurd (ground (arith, h))

unvetoed :
    (common : Common) (setup : Setup) (w : Answers) (t : String) (data' : Fields) (s : Service)
    → is_given (purge_veto_reason common setup w t data' s) ≡ false
    → (setup.batch_processor && contains String-discrete t s.dlq_nacked ≡ false)
      × (w.dead_letters ≡ some 0)
      × (is_vetoed setup t (extraction_latch_key common data') s.latches ≡ false)
unfolding purge_veto_reason
unvetoed common setup w t data' s h =
    elim (Bool-cases (setup.batch_processor && contains String-discrete t s.dlq_nacked)) [
      | inl e ↦ absurd (ground (arith, h, e))
      | inr e ↦
          let (waiting, unrecorded) =
            none_waiting w.dead_letters
              (recorded_reason setup w t (extraction_latch_key common data') s.latches)
              (ground (arith, h, e)) in
          (
            e,
            waiting,
            not_recorded setup w t (extraction_latch_key common data') s.latches unrecorded,
          )
    ]

-- A delivery runs the purge of stale rows only where a batch processor that there is has flushed the
-- type and holds no flag of a record of the type that it rejected, the broker answers that the type's
-- dead-letter queue is empty, and
-- the latch, where it is declared, holds no veto of the extraction that the signal names.
pub purges_only_when_safe :
    (common : Common) (setup : Setup) (w : Answers) (t : String) (data' : Fields) (s : Service)
    → has is_purge (process_data_message common setup w t (some (obj data')) s).1 ≡ true
    → (setup.batch_processor && not w.flushed ≡ false)
      × (setup.batch_processor && contains String-discrete t s.dlq_nacked ≡ false)
      × (w.dead_letters ≡ some 0)
      × (is_vetoed setup t (extraction_latch_key common data') s.latches ≡ false)
purges_only_when_safe common setup w t data' s h =
    elim (Bool-cases (
      setup.batch_processor && not w.flushed
      || is_given (purge_veto_reason common setup w t data' s))) [
        | inl g ↦ absurd (ground (arith, process-guarded common setup w t data' s g, h))
        | inr g ↦
            let (clean, waiting, unrecorded) =
              unvetoed common setup w t data' s (ground (arith, g)) in
            (ground (arith, g), clean, waiting, unrecorded)
      ]
