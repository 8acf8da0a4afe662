-- ===== src/Batch/Isolation/Writes.antt =====
-- The bisection over the writes of an entity table: `write` with `process_batch` of Entities/Write.
use discogs_sql_loader.Prelude.{
  sym, ℕ, ◌<◌, ◌||◌, String, Bool, true, false, not, List, [], ◌∷◌, ◌≡◌, refl, map, arith, none,
  some, if◌then◌else◌, length, contains, distinct, inl, inr, Bool-cases, Option-cases,
}
use mathlib.Core.List.{flatten}
use discogs_sql_loader.Text.{Text, Text-discrete}
use discogs_sql_loader.Identity.{AliasRef, Targets, entity_kind, alias_targets}
use discogs_sql_loader.Entities.{
  Message, Services, Written, Failure, refused, malformed_identifiers, Result, done, failed,
  some_of,
}
use discogs_sql_loader.Entities.Batch.{latest}
use discogs_sql_loader.Entities.Write.{payload, process_batch, refuses_batch}
use discogs_sql_loader.Entities.Write.Distinct.{message_ids}
use discogs_sql_loader.Entities.Write.Outcome.{
  Resolves, with_native, process_batch-malformed, process_batch-outcome,
}
use discogs_sql_loader.Batch.Sink.{Attempt, written, deterministic, transient, write}
use discogs_sql_loader.Batch.Isolation.{any, Refuses, Exact, write-Exact}
use discogs_sql_loader.Batch.Isolation.Apart.{
  apart, apart-distinct, apart-left, apart-right, latest-apart,
}
use discogs_sql_loader.Batch.Isolation.Poison.{
  poison, malformed, any-poison, alias_targets-there, poison-row,
}
use discogs_sql_loader.Batch.Isolation.Store.{Store, replay, replay-row}

-- what a write comes to, by the class that `PostgreSQLFailureClassifier` gives its error
abbrev attempted : (Failure → Bool) → Result Written → Attempt Written
attempted is_deterministic (done w) = written w
attempted is_deterministic (failed e) = if is_deterministic e then deterministic else transient

-- `_process_batch` of the processor, on the database that the committed batches leave
abbrev pub attempt :
    Services
    → String
    → (ℕ → ℕ)
    → (Failure → Bool)
    → Store
    → List (List Message)
    → List Message
    → Attempt Written
attempt services data_type clock is_deterministic store db ms =
    let (rows, graph) = replay services data_type clock 0 db store in
    attempted is_deterministic
      (process_batch services data_type (clock (length db)) true ms rows graph)

-- a write fails for good, or it gives a result
abbrev ComesTo : Attempt Written → Bool → Type 0
ComesTo a true = a ≡ deterministic
ComesTo a false = (w : Written) × (a ≡ written w)

abbrev pub is_refused : Attempt Written → Bool
is_refused (written w) = false
is_refused deterministic = true
is_refused transient = false

ComesTo-refused : (a : Attempt Written) (b : Bool) → ComesTo a (b || false) → is_refused a ≡ b
ComesTo-refused a true h = rw h refl
ComesTo-refused a false (w, h) = rw h refl

-- the write of the record alone, onto the database as it is before the batch, fails for good
abbrev pub fails_alone : Services → String → (ℕ → ℕ) → (Failure → Bool) → Store → Message → Bool
fails_alone services data_type clock is_deterministic store m =
    is_refused (attempt services data_type clock is_deterministic store [] (m ∷ []))

module _ (services : Services) (native : AliasRef → Text) (resolves : Resolves services native)
    (data_type : String) (kind : Text) (known : entity_kind data_type ≡ some kind)
    (is_deterministic : Failure → Bool) (refuses : is_deterministic refused ≡ true)
    (rejects : is_deterministic malformed_identifiers ≡ true) where
  module _ (now : ℕ) (ms : List Message) (store : Store) (alone : latest ms ≡ ms) where
    minted_outcome :
        (targets : Targets)
        → alias_targets services.identifiers data_type
            (map payload (map (with_native native kind) ms))
          ≡ some targets
        → ComesTo
            (attempted is_deterministic
              (process_batch services data_type now true ms store.0 store.1))
            (any (poison services native kind data_type now store.0) ms)
    minted_outcome targets minted =
        let (w, e, _, _, _) =
          process_batch-outcome services native resolves data_type kind known now ms store.0 store.1
            targets [] (rw alone minted) in
        let here : malformed services native kind data_type now store.0 ms ≡ false =
          ground
            (arith, alias_targets-there services native kind data_type now store.0 ms, minted) in
        let outcome = rw alone at e in
        let refuses_id = some_of services.refuses.text (message_ids ms) in
        let refuses_value =
          refuses_batch services data_type now store.0 (map (with_native native kind) ms) in
        rw (any-poison, here, outcome)
          (elim (Bool-cases refuses_id) [
            | inl k ↦ rw (k, refuses) refl
            | inr k ↦ elim (Bool-cases refuses_value) [
              | inl l ↦ rw (k, l, refuses) refl
              | inr l ↦ rw (k, l) (w, refl)
            ]
          ])

    malformed_outcome :
        alias_targets services.identifiers data_type
            (map payload (map (with_native native kind) ms))
          ≡ none
        → ComesTo
            (attempted is_deterministic
              (process_batch services data_type now true ms store.0 store.1))
            (any (poison services native kind data_type now store.0) ms)
    malformed_outcome none_minted =
        let outcome = rw alone at (
          process_batch-malformed services native resolves data_type kind known now ms store.0
            store.1 (rw alone none_minted)) in
        let here : malformed services native kind data_type now store.0 ms ≡ true =
          ground (
            arith,
            alias_targets-there services native kind data_type now store.0 ms,
            none_minted,
          ) in
        rw (any-poison, here, outcome)
          (elim (Bool-cases (some_of services.refuses.text (message_ids ms))) [
            | inl k ↦ rw (k, refuses) refl
            | inr k ↦ rw (k, rejects) refl
          ])

    outcome_of_write :
        ComesTo
          (attempted is_deterministic
            (process_batch services data_type now true ms store.0 store.1))
          (any (poison services native kind data_type now store.0) ms)
    outcome_of_write =
        elim (Option-cases (
          alias_targets services.identifiers data_type
            (map payload (map (with_native native kind) ms)))) [
              | inl e ↦ malformed_outcome e
              | inr (targets, e) ↦ minted_outcome targets e
            ]

  module _ (clock : ℕ → ℕ) (store : Store) where
    abbrev is_poison : Message → Bool
    is_poison = poison services native kind data_type (clock 0) store.0

    -- what is committed for other documents does not change which records are poison
    any-apart :
        (db : List (List Message)) (ms : List Message)
        → apart (flatten db) ms ≡ true
        → any
            (poison services native kind data_type
              (clock (length db))
              (replay services data_type clock 0 db store).0)
            ms
          ≡ any is_poison ms
    any-apart db [] h = refl
    any-apart db (m ∷ ms) h =
        let other : contains Text-discrete m.data_id (message_ids (flatten db)) ≡ false =
          unfold apart in ground arith in
        rw
          (
            any-apart db ms (unfold apart in ground arith),
            poison-row services native kind data_type (clock (length db)) (clock 0)
                (replay services data_type clock 0 db store).0 store.0 m
                (replay-row services native resolves data_type kind known clock 0 db store m.data_id
                  other),
          )
          refl

    attempt-outcome :
        (db : List (List Message)) (ms : List Message)
        → apart (flatten db) ms ≡ true
        → ComesTo (attempt services data_type clock is_deterministic store db ms) (any is_poison ms)
    attempt-outcome db ms h = rw (any-apart db ms h) at (
        outcome_of_write (clock (length db)) ms (replay services data_type clock 0 db store)
          (latest-apart (flatten db) ms h))

    abbrev alone : Message → Bool
    alone = fails_alone services data_type clock is_deterministic store

    fails_alone-poison : (m : Message) → alone m ≡ is_poison m
    unfolding apart flatten contains
    fails_alone-poison m =
        ComesTo-refused (attempt services data_type clock is_deterministic store [] (m ∷ []))
          (is_poison m) (attempt-outcome [] (m ∷ []) refl)

    any-fails_alone : (ms : List Message) → any alone ms ≡ any is_poison ms
    any-fails_alone [] = refl
    any-fails_alone (m ∷ ms) = rw (fails_alone-poison m, any-fails_alone ms) refl

    attempt-Refuses :
        (outcome_of : Message → Written → String)
        → Refuses
            (attempt services data_type clock is_deterministic store)
            outcome_of
            alone
            (λ db ms. apart (flatten db) ms ≡ true)
    attempt-Refuses outcome_of = record {
      fails = λ db ms a h. rw (sym (any-fails_alone ms), h) at (attempt-outcome db ms a);
      writes = λ db ms a h. rw (sym (any-fails_alone ms), h) at (attempt-outcome db ms a);
      left = λ db xs ys a. apart-left (flatten db) xs ys a;
      right = λ db db' xs ys e a. rw e (apart-right (λ m. not (alone m)) (flatten db) xs ys a);
    }

    -- A batch of several records, one for each document, of a known type whose aliases all resolve, is
    -- written under admission, where nothing fails but by what is written (a value that PostgreSQL
    -- refuses, or malformed identifiers) and such a failure is classified as deterministic. Then the
    -- bisection ends, with the items of the batch in order: a record whose write fails by itself, alone
    -- and onto the database before the batch, is rejected, every other one is acknowledged, and exactly
    -- these are committed, in order.
    pub poison_isolated :
        (outcome_of : Message → Written → String) (ms : List Message)
        → distinct Text-discrete (message_ids ms) ≡ true
        → 1 < length ms
        → Exact
            (attempt services data_type clock is_deterministic store)
            outcome_of
            (fails_alone services data_type clock is_deterministic store)
            []
            ms
            (write (attempt services data_type clock is_deterministic store) outcome_of [] ms)
    poison_isolated outcome_of ms h several =
        write-Exact (attempt services data_type clock is_deterministic store) outcome_of alone
          (λ db ns. apart (flatten db) ns ≡ true) (attempt-Refuses outcome_of) [] ms
          (unfold flatten in apart-distinct ms h) several
