-- ===== src/Handler/Vetoes.antt =====
-- The vetoed signal that is acknowledged: its veto holds from then on.
use mathlib.Core.Path.{subst}
use discogs_sql_loader.Prelude.{
  String, Bool, true, false, not, ◌&&◌, List, [], ◌∷◌, ◌++◌, ◌≡◌, refl, sym, Option, none, some,
  if◌then◌else◌, all, arith, Bool-cases, inl, inr,
}
use discogs_sql_loader.Text.{Text}
use discogs_sql_loader.Json.{Fields, obj, get}
use discogs_sql_loader.Common.{Common}
use discogs_sql_loader.Latch.{LatchRow, purge_was_vetoed, extraction_latch_key}
use discogs_sql_loader.Durable.{is_set}
use discogs_sql_loader.Durable.Version.{ordered_version}
use discogs_sql_loader.Handler.{Setup, Service, Answers, Effect, purges, refreshes, nacks}
use discogs_sql_loader.Handler.Terminal.{
  VetoReason, purge_veto_reason, persist_purge_veto, cleanup_for, cleanup, Cleanup, Handoff,
  handoff, returned, finish, extraction_complete,
}
use discogs_sql_loader.Handler.Message.{process_data_message}
use discogs_sql_loader.Handler.Effects.{
  is_purge, is_pass, is_ack, count, count-append, count-none, cleanup-purges, handoff-passes,
}
use discogs_sql_loader.Handler.Settlement.{has}
use discogs_sql_loader.Handler.Purges.{process-guarded, is_given}
use discogs_sql_loader.Handler.Redelivery.{
  Delivery, deliver, deliver-Kept, recorded-given, persist_veto_of-vetoed, handoff-Kept,
  finish-latches,
}

purge-no_ack : (e : Effect) → is_purge e ≡ true → is_ack e ≡ false
purge-no_ack (purges a b) h = refl
purge-no_ack _ h = cc

pass-no_ack : (e : Effect) → is_pass e ≡ true → is_ack e ≡ false
pass-no_ack (refreshes v) h = refl
pass-no_ack _ h = cc

returned-no_ack : (w : Answers) (failed' : Bool) → count is_ack (returned w failed') ≡ 0
returned-no_ack w true = elim (Bool-cases w.paused) [ inl e ↦ rw e refl | inr e ↦ rw e refl ]
returned-no_ack w false = refl

-- an acknowledgement says that the purge, or its veto, is done
finish-acked :
    (setup : Setup) (w : Answers) (t : String) (c : Cleanup) (h : Handoff) (s : Service)
    → all is_purge c.effects ≡ true
    → all is_pass h.effects ≡ true
    → has is_ack (finish setup w t c h s).1 ≡ true
    → c.purge_ok && h.refresh_ok ≡ true
unfolding finish
finish-acked setup w t c h s p q a = elim (Bool-cases (c.purge_ok && h.refresh_ok)) [
  | inl e ↦ e
  | inr e ↦
      let none_acked : count is_ack ((c.effects ++ h.effects) ++ returned w h.handoff_failed) ≡ 0 =
        rw
          (
            count-append is_ack (c.effects ++ h.effects) (returned w h.handoff_failed),
            count-append is_ack c.effects h.effects,
            count-none is_ack is_purge c.effects purge-no_ack p,
            count-none is_ack is_pass h.effects pass-no_ack q,
            returned-no_ack w h.handoff_failed,
          )
          refl in
      absurd (ground (arith, a, e, none_acked))
]

-- the part of the handler that an acknowledgement comes from
abbrev finished : Common → Setup → Answers → String → Fields → Service → Service × List Effect
finished common setup w t data' s =
    let c = cleanup common setup w t data' s in
    finish setup w t c (handoff common setup w t data' c.purge_ok c.latches s.durable) s

past_guards :
    (unflushed unordered : Bool) (s : Service) (out : Service × List Effect)
    → has is_ack
        (if unflushed
          then (s, nacks true ∷ [])
          else if unordered
          then (s, nacks false ∷ [])
          else out).1
      ≡ true
    → (if unflushed then (s, nacks true ∷ []) else if unordered then (s, nacks false ∷ []) else out)
      ≡ out
past_guards true unordered s out a = absurd (ground (arith, a))
past_guards false true s out a = absurd (ground (arith, a))
past_guards false false s out a = refl

acked-finished :
    (common : Common) (setup : Setup) (w : Answers) (t : String) (data' : Fields) (s : Service)
    → has is_ack (extraction_complete common setup w t data' s).1 ≡ true
    → extraction_complete common setup w t data' s ≡ finished common setup w t data' s
unfolding extraction_complete
acked-finished common setup w t data' s =
    past_guards (setup.batch_processor && not w.flushed)
      (setup.durable_refresh_active && not (is_set (ordered_version common (get "version" data'))))
      s (finished common setup w t data' s)

-- the veto is on the latch
vetoed_for :
    (common : Common) (setup : Setup) (w : Answers) (v : Text) (t : String) (data' : Fields)
    (reason : Option VetoReason) (rows : List LatchRow)
    → setup.connection_pool && setup.extraction_latch ≡ true
    → extraction_latch_key common data' ≡ some v
    → is_given reason ≡ true
    → (cleanup_for common setup w t data' reason rows).purge_ok ≡ true
    → purge_was_vetoed v t (cleanup_for common setup w t data' reason rows).latches ≡ true
unfolding persist_purge_veto
vetoed_for common setup w v t data' none rows declared key g = λ ok. cc
vetoed_for common setup w v t data' (some reason) rows declared key g =
    rw key (persist_veto_of-vetoed common setup v t w rows declared)

acked-vetoed :
    (common : Common) (setup : Setup) (w : Answers) (v : Text) (t : String) (data' : Fields)
    (s : Service)
    → setup.connection_pool && setup.extraction_latch ≡ true
    → extraction_latch_key common data' ≡ some v
    → is_given (purge_veto_reason common setup w t data' s) ≡ true
    → has is_ack (extraction_complete common setup w t data' s).1 ≡ true
    → purge_was_vetoed v t (extraction_complete common setup w t data' s).0.latches ≡ true
unfolding cleanup
acked-vetoed common setup w v t data' s declared key g a =
    let c = cleanup common setup w t data' s in
    let h = handoff common setup w t data' c.purge_ok c.latches s.durable in
    let is_finished = acked-finished common setup w t data' s a in
    let acked : has is_ack (finish setup w t c h s).1 ≡ true =
      subst (λ (out : Service × List Effect). has is_ack out.1 ≡ true) is_finished a in
    let done_all =
      finish-acked setup w t c h s (cleanup-purges common setup w t data' s)
        (handoff-passes common setup w t data' c.purge_ok c.latches s.durable) acked in
    subst (λ (out : Service × List Effect). purge_was_vetoed v t out.0.latches ≡ true)
      (sym is_finished)
      (rw (finish-latches common setup v t w t c h s) (
        handoff-Kept common setup v t w t data' c.purge_ok c.latches s.durable (
          vetoed_for common setup w v t data' (purge_veto_reason common setup w t data' s) s.latches
            declared key g (ground (arith, done_all)))))

-- Where the latch is declared and a delivery of the signal for an extraction is acknowledged with its
-- purge vetoed, no later delivery for that data type that names the extraction purges, whatever is
-- delivered in between and although the process has forgotten its own dead letters.
pub acked_veto_holds :
    (common : Common) (setup : Setup) (w later : Answers) (v : Text) (t : String)
    (signal redelivered : Fields) (between : List Delivery) (s : Service)
    → setup.connection_pool && setup.extraction_latch ≡ true
    → extraction_latch_key common signal ≡ some v
    → extraction_latch_key common redelivered ≡ some v
    → is_given (purge_veto_reason common setup w t signal s) ≡ true
    → has is_ack (extraction_complete common setup w t signal s).1 ≡ true
    → has is_purge
        (process_data_message common setup later t
          (some (obj redelivered))
          (deliver common setup between (extraction_complete common setup w t signal s).0)).1
      ≡ false
acked_veto_holds common setup w later v t signal redelivered between s declared key key' g a =
    let s' = (extraction_complete common setup w t signal s).0 in
    let s'' = deliver common setup between s' in
    let vetoed =
      deliver-Kept common setup v t between s'
        (acked-vetoed common setup w v t signal s declared key g a) in
    process-guarded common setup later t redelivered s''
      (ground (arith, recorded-given common setup v t later redelivered s'' declared key' vetoed))
