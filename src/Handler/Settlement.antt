-- ===== src/Handler/Settlement.antt =====
-- Every delivery is settled once: acknowledged, returned, or left to whoever has it.
use mathlib.Core.List.{append_assoc}
use discogs_sql_loader.Prelude.{
  String, Bool, true, false, not, ◌&&◌, ◌||◌, List, [], ◌∷◌, ◌++◌, ◌≡◌, refl, Option, none, some,
  ◌==◌, if◌then◌else◌, all, arith, Bool-cases, inl, inr,
}
use discogs_sql_loader.Json.{Json, Fields, null, bool, int, float, str, arr, obj, get, truthy}
use discogs_sql_loader.Common.{Common}
use discogs_sql_loader.Durable.{is_set}
use discogs_sql_loader.Durable.Version.{ordered_version}
use discogs_sql_loader.Handler.{Setup, Service, Answers, Effect, purges, refreshes, acks}
use discogs_sql_loader.Handler.Terminal.{
  Cleanup, Handoff, cleanup, handoff, scheduled, returned, finish, extraction_complete,
}
use discogs_sql_loader.Handler.Message.{
  is_text, file_complete, take_record, by_type, process_data_message,
}
use discogs_sql_loader.Handler.Effects.{
  is_purge, is_pass, is_pause, is_settlement, is_handover, count, count-append, count-none,
  cleanup-purges, handoff-passes,
}

abbrev pub has : (Effect → Bool) → List Effect → Bool
has p effects = not (count p effects == 0)

-- the delivery stays open: the service shuts down, another component has it, or the consumers could
-- not be paused
abbrev pub stays_open : Answers → List Effect → Bool
stays_open w effects =
    w.shutdown_requested || (has is_handover effects || has is_pause effects && not w.paused)

abbrev SettledOnce : Answers → List Effect → Type 0
SettledOnce w effects = count is_settlement effects ≡ (if stays_open w effects then 0 else 1)

-- effects that neither settle nor hand over nor pause come before
module _ (w : Answers) (first : List Effect) (settles : count is_settlement first ≡ 0)
    (hands : count is_handover first ≡ 0) (pauses' : count is_pause first ≡ 0) where
  SettledOnce-after : (rest : List Effect) → SettledOnce w rest → SettledOnce w (first ++ rest)
  SettledOnce-after rest h =
      rw
        (
          count-append is_settlement first rest,
          count-append is_handover first rest,
          count-append is_pause first rest,
          settles,
          hands,
          pauses',
        )
        (ground (arith, h))

returned-SettledOnce :
    (w : Answers) (failed' : Bool)
    → w.shutdown_requested ≡ false
    → SettledOnce w (returned w failed')
returned-SettledOnce w true n = elim (Bool-cases w.paused) [
  | inl e ↦ rw (e, n) refl
  | inr e ↦ rw (e, n) refl
]
returned-SettledOnce w false n = rw n refl

acked-SettledOnce :
    (setup : Setup) (w : Answers)
    → w.shutdown_requested ≡ false
    → SettledOnce w (scheduled setup ++ acks ∷ [])
acked-SettledOnce setup w n = elim (Bool-cases setup.cancels_consumers) [
  | inl e ↦ rw (e, n) refl
  | inr e ↦ rw (e, n) refl
]

-- the purge and the derived pass neither settle the delivery nor hand it over nor pause
module _ (q : Effect → Bool)
    (quiet : (e : Effect)
      → q e ≡ true
      → is_settlement e || (is_handover e || is_pause e) ≡ false) where
  quiet-SettledOnce :
      (w : Answers) (first rest : List Effect)
      → all q first ≡ true
      → SettledOnce w rest
      → SettledOnce w (first ++ rest)
  quiet-SettledOnce w first rest h =
      SettledOnce-after w first
        (count-none is_settlement q first (λ e k. ground (arith, quiet e k)) h)
        (count-none is_handover q first (λ e k. ground (arith, quiet e k)) h)
        (count-none is_pause q first (λ e k. ground (arith, quiet e k)) h) rest

purge_quiet :
    (e : Effect) → is_purge e ≡ true → is_settlement e || (is_handover e || is_pause e) ≡ false
purge_quiet (purges a b) h = refl
purge_quiet _ h = cc

pass_quiet :
    (e : Effect) → is_pass e ≡ true → is_settlement e || (is_handover e || is_pause e) ≡ false
pass_quiet (refreshes v) h = refl
pass_quiet _ h = cc

finish-SettledOnce :
    (setup : Setup) (w : Answers) (t : String) (c : Cleanup) (h : Handoff) (s : Service)
    → w.shutdown_requested ≡ false
    → all is_purge c.effects ≡ true
    → all is_pass h.effects ≡ true
    → SettledOnce w (finish setup w t c h s).1
unfolding finish
finish-SettledOnce setup w t c h s n p q = elim (Bool-cases (c.purge_ok && h.refresh_ok)) [
  | inl e ↦
      rw (e, append_assoc c.effects h.effects (scheduled setup ++ acks ∷ []))
        (quiet-SettledOnce is_purge purge_quiet w c.effects
          (h.effects ++ (scheduled setup ++ acks ∷ [])) p
          (quiet-SettledOnce is_pass pass_quiet w h.effects (scheduled setup ++ acks ∷ []) q
            (acked-SettledOnce setup w n)))
  | inr e ↦
      rw (e, append_assoc c.effects h.effects (returned w h.handoff_failed))
        (quiet-SettledOnce is_purge purge_quiet w c.effects
          (h.effects ++ returned w h.handoff_failed) p
          (quiet-SettledOnce is_pass pass_quiet w h.effects (returned w h.handoff_failed) q
            (returned-SettledOnce w h.handoff_failed n)))
]

extraction_complete-SettledOnce :
    (common : Common) (setup : Setup) (w : Answers) (t : String) (data' : Fields) (s : Service)
    → w.shutdown_requested ≡ false
    → SettledOnce w (extraction_complete common setup w t data' s).1
unfolding extraction_complete
extraction_complete-SettledOnce common setup w t data' s n =
    let c = cleanup common setup w t data' s in
    let h = handoff common setup w t data' c.purge_ok c.latches s.durable in
    elim (Bool-cases (setup.batch_processor && not w.flushed)) [
      | inl e ↦ rw (e, n) refl
      | inr e ↦
          elim (Bool-cases (
            setup.durable_refresh_active
            && not (is_set (ordered_version common (get "version" data'))))) [
              | inl f ↦ rw (e, f, n) refl
              | inr f ↦
                  rw (e, f)
                    (finish-SettledOnce setup w t c h s n (cleanup-purges common setup w t data' s)
                      (handoff-passes common setup w t data' c.purge_ok c.latches s.durable))
            ]
    ]

file_complete-SettledOnce :
    (setup : Setup) (w : Answers) (t : String) (s : Service)
    → w.shutdown_requested ≡ false
    → SettledOnce w (file_complete setup w t s).1
unfolding file_complete
file_complete-SettledOnce setup w t s n =
    elim (Bool-cases (setup.batch_processor && not w.flushed)) [
      | inl e ↦ rw (e, n) refl
      | inr e ↦ rw e (acked-SettledOnce setup w n)
    ]

take_record-SettledOnce :
    (common : Common) (setup : Setup) (w : Answers) (t : String) (data' : Fields) (s : Service)
    → w.shutdown_requested ≡ false
    → SettledOnce w (take_record common setup w t data' s).1
unfolding take_record
take_record-SettledOnce common setup w t data' s n =
    elim (Bool-cases (truthy common.float_is_zero (get "id" data'))) [
      | inr e ↦ rw (e, n) refl
      | inl e ↦ elim (Bool-cases (setup.batch_mode && setup.batch_processor)) [
        | inl f ↦ elim (Bool-cases w.submitted) [
          | inl g ↦ rw (e, f, g, n) refl
          | inr g ↦ rw (e, f, g, n) refl
        ]
        | inr f ↦ elim (Bool-cases w.normalized) [
          | inl g ↦ rw (e, f, g, n) refl
          | inr g ↦ rw (e, f, g, n) refl
        ]
      ]
    ]

by_type-SettledOnce :
    (common : Common) (setup : Setup) (w : Answers) (t : String) (body : Option Json) (s : Service)
    → w.shutdown_requested ≡ false
    → SettledOnce w (by_type common setup w t body s).1
by_type-SettledOnce common setup w t (some (obj data')) s n =
    elim (Bool-cases (is_text "file_complete" (get "type" data'))) [
      | inl e ↦ rw e (file_complete-SettledOnce setup w t s n)
      | inr e ↦ elim (Bool-cases (is_text "extraction_complete" (get "type" data'))) [
        | inl f ↦ rw (e, f) (extraction_complete-SettledOnce common setup w t data' s n)
        | inr f ↦ rw (e, f) (take_record-SettledOnce common setup w t data' s n)
      ]
    ]
by_type-SettledOnce common setup w t none s n = rw n refl
by_type-SettledOnce common setup w t (some null) s n = rw n refl
by_type-SettledOnce common setup w t (some (bool b)) s n = rw n refl
by_type-SettledOnce common setup w t (some (int z)) s n = rw n refl
by_type-SettledOnce common setup w t (some (float x)) s n = rw n refl
by_type-SettledOnce common setup w t (some (str x)) s n = rw n refl
by_type-SettledOnce common setup w t (some (arr js)) s n = rw n refl

unstopped :
    (common : Common) (setup : Setup) (w : Answers) (t : String) (body : Option Json) (s : Service)
    → w.shutdown_requested ≡ false
    → SettledOnce w (if w.shutdown_requested then (s, []) else by_type common setup w t body s).1
unstopped common setup w t body s e = elim (Bool-cases w.shutdown_requested) [
  | inl f ↦ absurd (ground (arith, e, f))
  | inr f ↦ ground (arith, f, by_type-SettledOnce common setup w t body s e)
]

-- Of every delivery, whatever its body and whatever the broker and the database answer, there is
-- exactly one acknowledgement or negative acknowledgement; and none where the service shuts down, where
-- the record goes to the batch processor or the delivery runner, and where a failed durable signal finds
-- its consumers not to be paused.
pub settled_once :
    (common : Common) (setup : Setup) (w : Answers) (t : String) (body : Option Json) (s : Service)
    → count is_settlement (process_data_message common setup w t body s).1
      ≡ (if stays_open w (process_data_message common setup w t body s).1 then 0 else 1)
unfolding process_data_message
settled_once common setup w t body s = elim (Bool-cases w.shutdown_requested) [
  | inl e ↦ rw e refl
  | inr e ↦ unstopped common setup w t body s e
]
