-- ===== src/Handler/Effects.antt =====
-- Which effects the parts of an `extraction_complete` have.
use discogs_sql_loader.Prelude.{
  ℕ, ◌+◌, String, Bool, true, false, ◌&&◌, List, [], ◌∷◌, ◌++◌, ◌≡◌, refl, Option, none, some,
  if◌then◌else◌, all, arith, Bool-cases, inl, inr,
}
use discogs_sql_loader.Text.{Text}
use discogs_sql_loader.Json.{Json, Fields, str, obj, end, get, get_or}
use discogs_sql_loader.Common.{Common}
use discogs_sql_loader.Latch.{
  LatchRow, record_extraction_signal, should_refresh, extraction_latch_key,
}
use discogs_sql_loader.Durable.{Durable, Result, done, failed}
use discogs_sql_loader.Durable.Signal.{DurableSignal, record_durable_signal}
use discogs_sql_loader.Handler.{
  all_types, Setup, Service, Answers, Effect, purges, refreshes, pauses, acks, nacks, submits,
  delivers,
}
use discogs_sql_loader.Handler.Terminal.{
  VetoReason, purge_veto_reason, count_in, purge_rows, cleanup_for, cleanup, durable_handed,
  durable_handoff, pass_if, inline_of, handoff,
}

abbrev pub is_purge : Effect → Bool
is_purge (purges a b) = true
is_purge _ = false

abbrev pub is_pass : Effect → Bool
is_pass (refreshes v) = true
is_pass _ = false

abbrev pub is_pause : Effect → Bool
is_pause pauses = true
is_pause _ = false

abbrev pub is_ack : Effect → Bool
is_ack acks = true
is_ack _ = false

-- the delivery goes back to the broker or is done with
abbrev pub is_settlement : Effect → Bool
is_settlement acks = true
is_settlement (nacks requeue) = true
is_settlement _ = false

-- another component has it and settles it
abbrev pub is_handover : Effect → Bool
is_handover submits = true
is_handover delivers = true
is_handover _ = false

abbrev pub count : (Effect → Bool) → List Effect → ℕ
count p [] = 0
count p (e ∷ effects) = (if p e then 1 else 0) + count p effects

pub count-append :
    (p : Effect → Bool) (xs ys : List Effect) → count p (xs ++ ys) ≡ count p xs + count p ys
count-append p [] ys = omega arith
count-append p (x ∷ xs) ys = ground (arith, count-append p xs ys)

pub count-none :
    (p q : Effect → Bool) (effects : List Effect)
    → ((e : Effect) → q e ≡ true → p e ≡ false)
    → all q effects ≡ true
    → count p effects ≡ 0
count-none p q [] apart h = refl
count-none p q (e ∷ effects) apart h = ground (arith, h, apart e, count-none p q effects apart)

purge_rows-purges :
    (setup : Setup) (w : Answers) (a : Json) (n : Option Json) (latches : List LatchRow)
    → all is_purge (purge_rows setup w a n latches).effects ≡ true
purge_rows-purges setup w a none latches = refl
purge_rows-purges setup w a (some n) latches =
    elim (Bool-cases (setup.connection_pool && (setup.write_admission && w.purged))) [
      | inl e ↦ rw e refl
      | inr e ↦ rw e refl
    ]

cleanup_for-purges :
    (common : Common) (setup : Setup) (w : Answers) (t : String) (data' : Fields)
    (reason : Option VetoReason) (latches : List LatchRow)
    → all is_purge (cleanup_for common setup w t data' reason latches).effects ≡ true
cleanup_for-purges common setup w t data' none latches =
    purge_rows-purges setup w (get_or "started_at" (str []) data')
      (count_in t (get_or "record_counts" (obj end) data')) latches
cleanup_for-purges common setup w t data' (some reason) latches = refl

pub cleanup-purges :
    (common : Common) (setup : Setup) (w : Answers) (t : String) (data' : Fields) (s : Service)
    → all is_purge (cleanup common setup w t data' s).effects ≡ true
unfolding cleanup
cleanup-purges common setup w t data' s =
    cleanup_for-purges common setup w t data' (purge_veto_reason common setup w t data' s) s.latches

pass_if-passes :
    (due : Bool) (w : Answers) (v : Text) (latches : List LatchRow) (d : Durable)
    → all is_pass (pass_if due w v latches d).effects ≡ true
pass_if-passes true w v latches d = elim (Bool-cases w.refreshed) [
  | inl e ↦ rw e refl
  | inr e ↦ rw e refl
]
pass_if-passes false w v latches d = refl

inline_of-passes :
    (setup : Setup) (w : Answers) (t : String) (v : Option Text) (latches : List LatchRow)
    (d : Durable)
    → all is_pass (inline_of setup w t v latches d).effects ≡ true
inline_of-passes setup w t none latches d = refl
inline_of-passes setup w t (some v) latches d =
    elim (Bool-cases (setup.write_admission && w.signal_committed)) [
      | inl e ↦ rw e (
          pass_if-passes (should_refresh all_types (record_extraction_signal w.now v t latches).1) w
            v (record_extraction_signal w.now v t latches).0 d)
      | inr e ↦ rw e refl
    ]

durable_handed-passes :
    (r : Result (Durable × DurableSignal)) (latches : List LatchRow) (d : Durable)
    → all is_pass (durable_handed r latches d).effects ≡ true
durable_handed-passes (done (d', report)) latches d = refl
durable_handed-passes (failed e) latches d = refl

durable_handoff-passes :
    (common : Common) (setup : Setup) (w : Answers) (t : String) (data' : Fields)
    (latches : List LatchRow) (d : Durable)
    → all is_pass (durable_handoff common setup w t data' latches d).effects ≡ true
unfolding durable_handoff
durable_handoff-passes common setup w t data' latches d =
    elim (Bool-cases (
      setup.connection_pool
      && w.durable_refresh_ready
      && (setup.write_admission && w.signal_committed))) [
        | inl e ↦ rw e (
            durable_handed-passes (record_durable_signal common all_types (get "version" data') t d)
              latches d)
        | inr e ↦ rw e refl
      ]

pub handoff-passes :
    (common : Common) (setup : Setup) (w : Answers) (t : String) (data' : Fields) (ok : Bool)
    (latches : List LatchRow) (d : Durable)
    → all is_pass (handoff common setup w t data' ok latches d).effects ≡ true
unfolding handoff
handoff-passes common setup w t data' false latches d = refl
handoff-passes common setup w t data' true latches d =
    elim (Bool-cases setup.durable_refresh_active) [
      | inl e ↦ rw e (durable_handoff-passes common setup w t data' latches d)
      | inr e ↦ elim (Bool-cases (setup.connection_pool && setup.extraction_latch)) [
        | inl f ↦
            rw (e, f) (inline_of-passes setup w t (extraction_latch_key common data') latches d)
        | inr f ↦ rw (e, f) refl
      ]
    ]
