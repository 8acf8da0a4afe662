-- ===== src/Batch/Isolation.antt =====
-- The bisection of `_isolate`: what it settles, what it commits, and that it ends.
pub mod Apart
pub mod Poison
pub mod Store
pub mod Writes
use mathlib.Core.List.{append-nil, append_assoc, map-append, flatten}
use mathlib.Core.Path.{subst}
use discogs_sql_loader.Prelude.{
  ℕ, zero, suc, ◌/◌, ◌<◌, ◌≤◌, ◌≡◌, refl, sym, ◌∙◌, String, Bool, true, false, not, ◌||◌, List, [],
  ◌∷◌, ◌++◌, map, length, keep, ltb, if◌then◌else◌, inl, inr, Bool-cases, arith,
}
use discogs_sql_loader.Batch.Halves.{take-append-drop, length-take-le, length-drop}
use discogs_sql_loader.Batch.Sink.{
  Settlement, ack, reject, Item, Attempt, written, deterministic, Outcome, settled, raised, take,
  drop, acked, then_half, half, isolate, write,
}

module _ {M : Type 0} where
  -- some record of the list is refused
  abbrev pub any : (M → Bool) → List M → Bool
  any bad [] = false
  any bad (m ∷ ms) = bad m || any bad ms

abbrev pub settlements : List Item → List Settlement
settlements = map (λ i. i.settlement)

module _ {M R : Type 0} (process_batch : List (List M) → List M → Attempt R)
    (outcome_of : M → R → String) (bad : M → Bool) where
  abbrev pub verdict : M → Settlement
  verdict m = if bad m then reject else ack

  abbrev pub healthy : List M → List M
  healthy = keep (λ m. not (bad m))

  -- A record is refused on its own account: a write fails deterministically exactly when it holds a
  -- refused record. This is asked of the writes that the bisection may come to: `Apart` holds of what is
  -- committed and of the records that are left.
  pub record Refuses (Apart : List (List M) → List M → Type 0) : Type 0 where
    pub fails :
        (db : List (List M)) (ms : List M)
        → Apart db ms
        → any bad ms ≡ true
        → process_batch db ms ≡ deterministic
    pub writes :
        (db : List (List M)) (ms : List M)
        → Apart db ms
        → any bad ms ≡ false
        → (r : R) × (process_batch db ms ≡ written r)
    pub left : (db : List (List M)) (xs ys : List M) → Apart db (xs ++ ys) → Apart db xs
    pub right :
        (db db' : List (List M)) (xs ys : List M)
        → flatten db' ≡ flatten db ++ healthy xs
        → Apart db (xs ++ ys)
        → Apart db' ys

  -- the outcome settles each record by its verdict and commits the healthy ones, in order
  pub record Exact (db : List (List M)) (ms : List M) (o : Outcome M) : Type 0 where
    pub committed : List (List M)
    pub items : List Item
    pub is_settled : o ≡ settled committed items
    pub verdicts : settlements items ≡ map verdict ms
    pub commits : flatten committed ≡ flatten db ++ healthy ms

  settlements-acked :
      (r : R) (ms : List M)
      → any bad ms ≡ false
      → settlements (acked process_batch outcome_of r ms) ≡ map verdict ms
  settlements-acked r [] h = refl
  settlements-acked r (m ∷ ms) h = ground (arith, settlements-acked r ms)

  healthy_all : (ms : List M) → any bad ms ≡ false → healthy ms ≡ ms
  healthy_all [] h = refl
  healthy_all (m ∷ ms) h = ground (arith, healthy_all ms)

  healthy-append : (xs ys : List M) → healthy (xs ++ ys) ≡ healthy xs ++ healthy ys
  healthy-append [] ys = refl
  healthy-append (x ∷ xs) ys = ground (arith, healthy-append xs ys)

  flatten-concat : (db : List (List M)) (ms : List M) → flatten (db ++ ms ∷ []) ≡ flatten db ++ ms
  unfolding flatten
  flatten-concat [] ms = append-nil ms
  flatten-concat (x ∷ db) ms = rw (flatten-concat db ms) (sym (append_assoc x (flatten db) ms))

  module _ (Apart : List (List M) → List M → Type 0) (refuses : Refuses Apart) where
    half-Exact :
        (next : List (List M) → List M → Outcome M) (db : List (List M)) (ms : List M)
        → Apart db ms
        → (any bad ms ≡ true → Exact db ms (next db ms))
        → Exact db ms (half process_batch outcome_of next db ms)
    half-Exact next db ms apart ih = elim (Bool-cases (any bad ms)) [
      | inl some_bad ↦ rw (refuses.fails db ms apart some_bad, half) (ih some_bad)
      | inr none_bad ↦
          let (r, e) = refuses.writes db ms apart none_bad in
          rw (e, half)
            (record {
              committed = db ++ ms ∷ [];
              items = acked process_batch outcome_of r ms;
              is_settled = refl;
              verdicts = settlements-acked r ms none_bad;
              commits = rw (healthy_all ms none_bad) (flatten-concat db ms);
            })
    ]

    then-Exact :
        (db : List (List M)) (xs ys : List M) (o : Outcome M) (next : List (List M) → Outcome M)
        → Exact db xs o
        → ((db' : List (List M)) → flatten db' ≡ flatten db ++ healthy xs → Exact db' ys (next db'))
        → Exact db (xs ++ ys) (then_half process_batch outcome_of o next)
    then-Exact db xs ys o next first second =
        let later = second first.committed first.commits in
        record {
          committed = later.committed;
          items = first.items ++ later.items;
          is_settled = rw (first.is_settled, later.is_settled);
          verdicts = rw (map-append, map-append, first.verdicts, later.verdicts);
          commits =
              later.commits
              ∙ rw (first.commits, healthy-append)
                  (append_assoc (flatten db) (healthy xs) (healthy ys));
        }

    isolate-Exact :
        (fuel : ℕ) (db : List (List M)) (ms : List M)
        → length ms ≤ fuel
        → Apart db ms
        → any bad ms ≡ true
        → Exact db ms (isolate process_batch outcome_of fuel db ms)
    unfolding isolate
    isolate-Exact zero db [] h a k = cc
    isolate-Exact zero db (m ∷ ms) h a k = absurd (omega arith)
    isolate-Exact (suc fuel) db [] h a k = cc
    isolate-Exact (suc fuel) db (m ∷ []) h a k = record {
      committed = db;
      items = record { settlement = reject; outcome = "poison" } ∷ [];
      is_settled = refl;
      verdicts = ground arith;
      commits = ground (arith, append-nil (flatten db));
    }
    isolate-Exact (suc fuel) db (m ∷ n ∷ rest) h a k =
        let ms : List M = m ∷ n ∷ rest in
        let middle = length ms / 2 in
        let apart : Apart db (take middle ms ++ drop middle ms) =
          rw (take-append-drop middle ms) a in
        subst
          (λ xs. Exact db xs (
            then_half process_batch outcome_of
              (half process_batch outcome_of (isolate process_batch outcome_of fuel) db
                (take middle ms))
              (λ db'.
                half process_batch outcome_of (isolate process_batch outcome_of fuel) db'
                  (drop middle ms))))
          (take-append-drop middle ms)
          (then-Exact db (take middle ms) (drop middle ms) _ _
            (half-Exact (isolate process_batch outcome_of fuel) db (take middle ms)
              (refuses.left db (take middle ms) (drop middle ms) apart)
              (isolate-Exact fuel db (take middle ms) (omega (arith, length-take-le middle ms))
                (refuses.left db (take middle ms) (drop middle ms) apart)))
            (λ db' more.
              half-Exact (isolate process_batch outcome_of fuel) db' (drop middle ms)
                (refuses.right db db' (take middle ms) (drop middle ms) more apart)
                (isolate-Exact fuel db' (drop middle ms) (omega (arith, length-drop middle ms))
                  (refuses.right db db' (take middle ms) (drop middle ms) more apart))))

    -- A batch of several records in which some are refused is settled: the refused ones are rejected
    -- and all others acknowledged, each at its own place, and exactly the healthy ones are
    -- committed, in order. The bisection always ends with that.
    pub write-Exact :
        (db : List (List M)) (ms : List M)
        → Apart db ms
        → 1 < length ms
        → Exact db ms (write process_batch outcome_of db ms)
    unfolding write
    write-Exact db ms a h =
        half-Exact
          (λ d ns.
            if ltb 1 (length ns)
            then isolate process_batch outcome_of (length ns) d ns
            else raised d)
          db ms a
          (λ some_bad.
            let several : ltb 1 (length ms) ≡ true = ground arith in
            rw several (isolate-Exact (length ms) db ms (omega arith) a some_bad))
