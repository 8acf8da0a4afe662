-- ===== src/Batch/Sink.antt =====
-- `PostgreSQLBatchSink.write` and `_isolate` of tableinator/batch_processor.py. A failed write rolls
-- back whole, so the database is known by the batches that were committed, in order.
use discogs_sql_loader.Prelude.{
  ℕ, zero, suc, ◌/◌, String, List, [], ◌∷◌, ◌++◌, map, length, ltb, if◌then◌else◌,
}

pub data Settlement : Type 0 where
  ack reject requeue : Settlement

-- `BatchItemResult`
pub record Item : Type 0 where
  pub settlement : Settlement
  pub outcome : String

-- What one call of `_process_batch` comes to: a result, or an exception by its class.
pub data Attempt (R : Type 0) : Type 0 where
  written : R → Attempt R
  deterministic : Attempt R
  transient : Attempt R

-- What the engine sees, with the batches that are committed by then: one item for each payload, or an
-- exception, after which it retries the whole batch. `out_of_fuel` is no outcome of the code.
pub data Outcome (M : Type 0) : Type 0 where
  settled : List (List M) → List Item → Outcome M
  raised : List (List M) → Outcome M
  out_of_fuel : Outcome M

module _ {M : Type 0} where
  unfoldable pub take : ℕ → List M → List M
  take zero xs = []
  take (suc n) [] = []
  take (suc n) (x ∷ xs) = x ∷ take n xs

  unfoldable pub drop : ℕ → List M → List M
  drop zero xs = xs
  drop (suc n) [] = []
  drop (suc n) (x ∷ xs) = drop n xs

module _ {M R : Type 0} (process_batch : List (List M) → List M → Attempt R)
    (outcome_of : M → R → String) where
  abbrev pub acked : R → List M → List Item
  acked r = map (λ m. record { settlement = ack; outcome = outcome_of m r })

  -- the second half's items behind the first half's
  abbrev prepend : List Item → Outcome M → Outcome M
  prepend items (settled db more) = settled db (items ++ more)
  prepend items (raised db) = raised db
  prepend items out_of_fuel = out_of_fuel

  abbrev pub then_half : Outcome M → (List (List M) → Outcome M) → Outcome M
  then_half (settled db items) next = prepend items (next db)
  then_half (raised db) next = raised db
  then_half out_of_fuel next = out_of_fuel

  -- one round of the loop over the two halves
  abbrev pub half : (List (List M) → List M → Outcome M) → List (List M) → List M → Outcome M
  half isolate db ms = elim (process_batch db ms) [
    | written r ↦ settled (db ++ ms ∷ []) (acked r ms)
    | deterministic ↦ isolate db ms
    | transient ↦ raised db
  ]

  unfoldable pub isolate : ℕ → List (List M) → List M → Outcome M
  unfolding take drop
  isolate zero db ms = out_of_fuel
  isolate (suc fuel) db (m ∷ []) =
      settled db (record { settlement = reject; outcome = "poison" } ∷ [])
  isolate (suc fuel) db ms =
      let middle = length ms / 2 in
      then_half (half (isolate fuel) db (take middle ms))
        (λ db'. half (isolate fuel) db' (drop middle ms))

  -- `write` handles its one batch as the loop handles a half, but for a single record that fails: it
  -- is raised, for the engine to count. The length is fuel enough.
  unfoldable pub write : List (List M) → List M → Outcome M
  unfolding isolate
  write = half (λ db ms. if ltb 1 (length ms) then isolate (length ms) db ms else raised db)
