-- ===== src/Handler/Redelivery.antt =====
-- A veto outlives the delivery that it was recorded in: whatever is delivered later, the rows of the
-- extraction's type are not purged.
use discogs_sql_loader.Prelude.{
  ℕ, String, Bool, true, false, not, ◌&&◌, List, [], ◌∷◌, ◌≡◌, refl, Option, none, some, ltb,
  if◌then◌else◌, contains, String-discrete, arith, Bool-cases, inl, inr,
}
use discogs_sql_loader.Text.{Text}
use discogs_sql_loader.Json.{
  Json, Fields, null, bool, int, float, str, arr, obj, end, get, get_or, truthy,
}
use discogs_sql_loader.Common.{Common}
use discogs_sql_loader.Latch.{
  LatchRow, record_extraction_signal, purge_was_vetoed, should_refresh, extraction_latch_key,
}
use discogs_sql_loader.Latch.Vetoes.{veto_self, veto-veto, veto-record, veto-mark}
use discogs_sql_loader.Durable.{Durable, Result, done, failed, is_set}
use discogs_sql_loader.Durable.Version.{ordered_version}
use discogs_sql_loader.Durable.Signal.{DurableSignal, record_durable_signal}
use discogs_sql_loader.Handler.{all_types, Setup, Service, Answers, Effect}
use discogs_sql_loader.Handler.Terminal.{
  VetoReason, recorded_reason, waiting_reason, purge_veto_reason, persist_veto_of,
  persist_purge_veto, purge_rows, count_in, cleanup_for, cleanup, Cleanup, Handoff, durable_handed,
  durable_handoff, pass_if, inline_of, handoff, finish, extraction_complete,
}
use discogs_sql_loader.Handler.Message.{
  is_text, file_complete, take_record, by_type, process_data_message,
}
use discogs_sql_loader.Handler.Purges.{is_given}

pub record Delivery : Type 0 where
  pub answers : Answers
  pub data_type : String
  pub body : Option Json

-- the deliveries of a service, one after the other
module _ (common : Common) (setup : Setup) where
  unfoldable pub deliver : List Delivery → Service → Service
  unfolding process_data_message
  deliver [] s = s
  deliver (d ∷ deliveries) s =
      deliver deliveries (process_data_message common setup d.answers d.data_type d.body s).0

waiting-given :
    (waiting : Option ℕ) (recorded : Option VetoReason)
    → is_given recorded ≡ true
    → is_given (waiting_reason waiting recorded) ≡ true
waiting-given none recorded h = refl
waiting-given (some n) recorded h = elim (Bool-cases (ltb 0 n)) [
  | inl e ↦ rw e refl
  | inr e ↦ rw e h
]

module _ (common : Common) (setup : Setup) (v : Text) (t : String) where
  abbrev Kept : List LatchRow → List LatchRow → Type 0
  Kept rows rows' = purge_was_vetoed v t rows ≡ true → purge_was_vetoed v t rows' ≡ true

  persist_veto_of-Kept :
      (w : Answers) (u : String) (x : Option Text) (rows : List LatchRow)
      → Kept rows (persist_veto_of setup w u x rows).1
  persist_veto_of-Kept w u none rows h = h
  persist_veto_of-Kept w u (some x) rows h =
      elim (Bool-cases (setup.connection_pool && setup.extraction_latch)) [
        | inr e ↦ rw e h
        | inl e ↦ elim (Bool-cases (setup.write_admission && w.veto_written)) [
          | inl f ↦ rw (e, f) (veto-veto w.now x v t u rows h)
          | inr f ↦ rw (e, f) h
        ]
      ]

  purge_rows-Kept :
      (w : Answers) (a : Json) (n : Option Json) (rows : List LatchRow)
      → Kept rows (purge_rows setup w a n rows).latches
  purge_rows-Kept w a none rows h = h
  purge_rows-Kept w a (some n) rows h = h

  cleanup_for-Kept :
      (w : Answers) (u : String) (data' : Fields) (reason : Option VetoReason)
      (rows : List LatchRow)
      → Kept rows (cleanup_for common setup w u data' reason rows).latches
  unfolding persist_purge_veto
  cleanup_for-Kept w u data' none rows =
      purge_rows-Kept w (get_or "started_at" (str []) data')
        (count_in u (get_or "record_counts" (obj end) data')) rows
  cleanup_for-Kept w u data' (some reason) rows =
      persist_veto_of-Kept w u (extraction_latch_key common data') rows

  pass_if-Kept :
      (due : Bool) (w : Answers) (x : Text) (rows : List LatchRow) (d : Durable)
      → Kept rows (pass_if due w x rows d).latches
  pass_if-Kept true w x rows d h = elim (Bool-cases w.refreshed) [
    | inl e ↦ rw e (veto-mark w.now x v t rows h)
    | inr e ↦ rw e h
  ]
  pass_if-Kept false w x rows d h = h

  inline_of-Kept :
      (w : Answers) (u : String) (x : Option Text) (rows : List LatchRow) (d : Durable)
      → Kept rows (inline_of setup w u x rows d).latches
  inline_of-Kept w u none rows d h = h
  inline_of-Kept w u (some x) rows d h =
      elim (Bool-cases (setup.write_admission && w.signal_committed)) [
        | inl e ↦ rw e (
            pass_if-Kept (should_refresh all_types (record_extraction_signal w.now x u rows).1) w x
              (record_extraction_signal w.now x u rows).0 d (veto-record w.now x v t u rows h))
        | inr e ↦ rw e h
      ]

  durable_handed-Kept :
      (r : Result (Durable × DurableSignal)) (rows : List LatchRow) (d : Durable)
      → Kept rows (durable_handed r rows d).latches
  durable_handed-Kept (done (d', report)) rows d h = h
  durable_handed-Kept (failed e) rows d h = h

  durable_handoff-Kept :
      (w : Answers) (u : String) (data' : Fields) (rows : List LatchRow) (d : Durable)
      → Kept rows (durable_handoff common setup w u data' rows d).latches
  unfolding durable_handoff
  durable_handoff-Kept w u data' rows d h =
      elim (Bool-cases (
        setup.connection_pool
        && w.durable_refresh_ready
        && (setup.write_admission && w.signal_committed))) [
          | inl e ↦ rw e (
              durable_handed-Kept (record_durable_signal common all_types (get "version" data') u d)
                rows d h)
          | inr e ↦ rw e h
        ]

  pub handoff-Kept :
      (w : Answers) (u : String) (data' : Fields) (ok : Bool) (rows : List LatchRow) (d : Durable)
      → Kept rows (handoff common setup w u data' ok rows d).latches
  unfolding handoff
  handoff-Kept w u data' false rows d h = h
  handoff-Kept w u data' true rows d h = elim (Bool-cases setup.durable_refresh_active) [
    | inl e ↦ rw e (durable_handoff-Kept w u data' rows d h)
    | inr e ↦ elim (Bool-cases (setup.connection_pool && setup.extraction_latch)) [
      | inl f ↦ rw (e, f) (inline_of-Kept w u (extraction_latch_key common data') rows d h)
      | inr f ↦ rw (e, f) h
    ]
  ]

  pub finish-latches :
      (w : Answers) (u : String) (c : Cleanup) (h : Handoff) (s : Service)
      → (finish setup w u c h s).0.latches ≡ h.latches
  unfolding finish
  finish-latches w u c h s = elim (Bool-cases (c.purge_ok && h.refresh_ok)) [
    | inl e ↦ rw e refl
    | inr e ↦ rw e refl
  ]

  extraction_complete-Kept :
      (w : Answers) (u : String) (data' : Fields) (s : Service)
      → Kept s.latches (extraction_complete common setup w u data' s).0.latches
  unfolding extraction_complete cleanup
  extraction_complete-Kept w u data' s h =
      let c = cleanup common setup w u data' s in
      let o = handoff common setup w u data' c.purge_ok c.latches s.durable in
      elim (Bool-cases (setup.batch_processor && not w.flushed)) [
        | inl e ↦ rw e h
        | inr e ↦
            elim (Bool-cases (
              setup.durable_refresh_active
              && not (is_set (ordered_version common (get "version" data'))))) [
                | inl f ↦ rw (e, f) h
                | inr f ↦
                    rw (e, f, finish-latches w u c o s)
                      (handoff-Kept w u data' c.purge_ok c.latches s.durable (
                        cleanup_for-Kept w u data' (purge_veto_reason common setup w u data' s)
                          s.latches h))
              ]
      ]

  file_complete-Kept :
      (w : Answers) (u : String) (s : Service)
      → Kept s.latches (file_complete setup w u s).0.latches
  unfolding file_complete
  file_complete-Kept w u s h = elim (Bool-cases (setup.batch_processor && not w.flushed)) [
    | inl e ↦ rw e h
    | inr e ↦ rw e h
  ]

  take_record-Kept :
      (w : Answers) (u : String) (data' : Fields) (s : Service)
      → Kept s.latches (take_record common setup w u data' s).0.latches
  unfolding take_record
  take_record-Kept w u data' s h =
      elim (Bool-cases (truthy common.float_is_zero (get "id" data'))) [
        | inr e ↦ rw e h
        | inl e ↦ elim (Bool-cases (setup.batch_mode && setup.batch_processor)) [
          | inl f ↦ rw (e, f) h
          | inr f ↦ elim (Bool-cases w.normalized) [
            | inl g ↦ rw (e, f, g) h
            | inr g ↦ rw (e, f, g) h
          ]
        ]
      ]

  by_type-Kept :
      (w : Answers) (u : String) (body : Option Json) (s : Service)
      → Kept s.latches (by_type common setup w u body s).0.latches
  by_type-Kept w u (some (obj data')) s h =
      elim (Bool-cases (is_text "file_complete" (get "type" data'))) [
        | inl e ↦ rw e (file_complete-Kept w u s h)
        | inr e ↦ elim (Bool-cases (is_text "extraction_complete" (get "type" data'))) [
          | inl f ↦ rw (e, f) (extraction_complete-Kept w u data' s h)
          | inr f ↦ rw (e, f) (take_record-Kept w u data' s h)
        ]
      ]
  by_type-Kept w u none s h = h
  by_type-Kept w u (some null) s h = h
  by_type-Kept w u (some (bool b)) s h = h
  by_type-Kept w u (some (int z)) s h = h
  by_type-Kept w u (some (float x)) s h = h
  by_type-Kept w u (some (str x)) s h = h
  by_type-Kept w u (some (arr js)) s h = h

  unless-Kept :
      (stop : Bool) (s : Service) (out : Service × List Effect)
      → Kept s.latches out.0.latches
      → Kept s.latches (if stop then (s, []) else out).0.latches
  unless-Kept true s out k h = h
  unless-Kept false s out k h = k h

  pub deliver-Kept :
      (deliveries : List Delivery) (s : Service)
      → Kept s.latches (deliver common setup deliveries s).latches
  unfolding deliver process_data_message
  deliver-Kept [] s h = h
  deliver-Kept (d ∷ deliveries) s h =
      deliver-Kept deliveries (process_data_message common setup d.answers d.data_type d.body s).0 (
        unless-Kept d.answers.shutdown_requested s
          (by_type common setup d.answers d.data_type d.body s)
          (by_type-Kept d.answers d.data_type d.body s) h)

  -- a veto on the latch is a reason for every delivery that names the extraction
  pub recorded-given :
      (w : Answers) (data' : Fields) (s : Service)
      → setup.connection_pool && setup.extraction_latch ≡ true
      → extraction_latch_key common data' ≡ some v
      → purge_was_vetoed v t s.latches ≡ true
      → is_given (purge_veto_reason common setup w t data' s) ≡ true
  unfolding purge_veto_reason
  recorded-given w data' s declared key h =
      elim (Bool-cases (setup.batch_processor && contains String-discrete t s.dlq_nacked)) [
        | inl e ↦ rw e refl
        | inr e ↦
            rw (e, key)
              (waiting-given w.dead_letters (recorded_reason setup w t (some v) s.latches)
                (ground (arith, declared, h)))
      ]

  -- a veto that is recorded
  pub persist_veto_of-vetoed :
      (w : Answers) (rows : List LatchRow)
      → setup.connection_pool && setup.extraction_latch ≡ true
      → (persist_veto_of setup w t (some v) rows).0 ≡ true
      → purge_was_vetoed v t (persist_veto_of setup w t (some v) rows).1 ≡ true
  persist_veto_of-vetoed w rows declared ok =
      elim (Bool-cases (setup.write_admission && w.veto_written)) [
        | inl e ↦ rw (declared, e) (veto_self w.now v t rows)
        | inr e ↦ absurd (ground (arith, ok, declared, e))
      ]
