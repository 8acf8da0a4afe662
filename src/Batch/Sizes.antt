-- ===== src/Batch/Sizes.antt =====
-- The sizes of the bisection's outcomes: `_isolate` ends, with an item for each payload.
use mathlib.Core.Path.{subst}
use discogs_sql_loader.Prelude.{
  ℕ, zero, suc, ◌+◌, ◌/◌, ◌<◌, ◌≤◌, ◌≡◌, refl, sym, ◌∙◌, ap, String, List, [], ◌∷◌, ◌++◌, length,
  length-append, ltb, if◌then◌else◌, inl, inr, Bool-cases, arith,
}
use discogs_sql_loader.Batch.Halves.{take-append-drop, length-take-le, length-drop}
use discogs_sql_loader.Batch.Sink.{
  Item, Attempt, written, deterministic, transient, Outcome, settled, raised, out_of_fuel, take,
  drop, acked, then_half, half, isolate, write,
}

-- one item for each of `n` payloads, or an exception
abbrev pub Sized : {M : Type 0} → ℕ → Outcome M → Type 0
Sized n (settled db items) = length items ≡ n
Sized n (raised db) = Unit
Sized n out_of_fuel = ⊥

module _ {M R : Type 0} (process_batch : List (List M) → List M → Attempt R)
    (outcome_of : M → R → String) where
  length-acked : (r : R) (ms : List M) → length (acked process_batch outcome_of r ms) ≡ length ms
  length-acked r [] = refl
  length-acked r (m ∷ ms) = ap suc (length-acked r ms)

  half-Sized :
      (next : List (List M) → List M → Outcome M) (db : List (List M)) (ms : List M)
      → Sized (length ms) (next db ms)
      → Sized (length ms) (half process_batch outcome_of next db ms)
  half-Sized next db ms h =
      elim (process_batch db ms)
        as (λ a. Sized (length ms) (elim a [
          | written r ↦ settled (db ++ ms ∷ []) (acked process_batch outcome_of r ms)
          | deterministic ↦ next db ms
          | transient ↦ raised db
        ])) [ written r ↦ length-acked r ms | deterministic ↦ h | transient ↦ tt ]

  prepend-Sized :
      (k n : ℕ) (db : List (List M)) (items : List Item) (o : Outcome M)
      → length items ≡ k
      → Sized n o
      → Sized (k + n) (then_half process_batch outcome_of (settled db items) (λ _. o))
  prepend-Sized k n db items (settled db' more) e h = length-append items more ∙ omega arith
  prepend-Sized k n db items (raised db') e h = tt
  prepend-Sized k n db items out_of_fuel e h = h

  then-Sized :
      (k n : ℕ) (o : Outcome M) (next : List (List M) → Outcome M)
      → Sized k o
      → ((db : List (List M)) → Sized n (next db))
      → Sized (k + n) (then_half process_batch outcome_of o next)
  then-Sized k n (settled db items) next h all_next =
      prepend-Sized k n db items (next db) h (all_next db)
  then-Sized k n (raised db) next h all_next = tt
  then-Sized k n out_of_fuel next h all_next = h

  isolate-Sized :
      (fuel : ℕ) (db : List (List M)) (ms : List M)
      → length ms ≤ fuel
      → 0 < length ms
      → Sized (length ms) (isolate process_batch outcome_of fuel db ms)
  unfolding isolate
  isolate-Sized zero db ms h k = absurd (omega arith)
  isolate-Sized (suc fuel) db [] h k = absurd (omega arith)
  isolate-Sized (suc fuel) db (m ∷ []) h k = refl
  isolate-Sized (suc fuel) db (m ∷ n ∷ rest) h k =
      let ms : List M = m ∷ n ∷ rest in
      let middle = length ms / 2 in
      let first = take middle ms in
      let second = drop middle ms in
      let sizes : length first + length second ≡ length ms =
        sym (length-append first second) ∙ ap length (take-append-drop middle ms) in
      subst
        (λ size. Sized size (
          then_half process_batch outcome_of
            (half process_batch outcome_of (isolate process_batch outcome_of fuel) db first)
            (λ db'.
              half process_batch outcome_of (isolate process_batch outcome_of fuel) db' second)))
        sizes
        (then-Sized (length first) (length second) _ _
          (half-Sized (isolate process_batch outcome_of fuel) db first (
            isolate-Sized fuel db first (omega (arith, length-take-le middle ms))
              (omega (arith, length-drop middle ms))))
          (λ db'. half-Sized (isolate process_batch outcome_of fuel) db' second (
            isolate-Sized fuel db' second (omega (arith, length-drop middle ms))
              (omega (arith, length-drop middle ms)))))

  -- However the writes turn out, a batch ends in an exception or in one item for each payload: the
  -- bisection never runs without end, and no delivery is left without a settlement.
  pub write_total :
      (db : List (List M)) (ms : List M) → Sized (length ms) (write process_batch outcome_of db ms)
  unfolding write
  write_total db ms =
      half-Sized
        (λ d ns.
          if ltb 1 (length ns) then isolate process_batch outcome_of (length ns) d ns else raised d)
        db ms
        (elim (Bool-cases (ltb 1 (length ms))) [
          | inl e ↦ rw e (isolate-Sized (length ms) db ms (omega arith) (ground arith))
          | inr e ↦ rw e tt
        ])
