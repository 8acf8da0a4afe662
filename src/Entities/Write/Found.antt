-- ===== src/Entities/Write/Found.antt =====
-- What the lists that the loop of `_process_batch` fills hold under one document id.
use Prim.Native.Nat.{compare, Ordering}
use Prim.Native.Nat.compare
use discogs_sql_loader.Prelude.{
  ℕ, zero, suc, Bool, true, false, List, [], ◌∷◌, map, ◌≡◌, refl, arith, Option, none, some,
  if◌then◌else◌, same, contains, keep, distinct, ◌∙◌,
}
use discogs_sql_loader.Text.{Text, Text-discrete}
use discogs_sql_loader.Graph.Order.{insert_sorted, sort, text_le, compare_text}
use discogs_sql_loader.Entities.Batch.{Identified, collect, value_of, record_for}
use discogs_sql_loader.Entities.Statements.{id_of}
use discogs_sql_loader.Entities.Write.{by_id, ids_in}

abbrev pub ids : List Identified → List Text
ids = map id_of

abbrev pub and_then {ℓ κ} : {A : Type ℓ} {B : Type κ} → Option A → (A → Option B) → Option B
and_then none f = none
and_then (some a) f = f a

abbrev pub is_there {ℓ} : {A : Type ℓ} → Option A → Bool
is_there none = false
is_there (some a) = true

compare_refl : (m : ℕ) → compare m m ≡ Ordering.eq
compare_refl zero = compare.zero-zero
compare_refl (suc m) = compare.suc-suc m m ∙ compare_refl m

compare_text_refl : (s : Text) → compare_text s s ≡ Ordering.eq
unfolding compare_text
compare_text_refl [] = refl
compare_text_refl (c ∷ s) = rw (compare_refl, compare_text_refl s) refl

text_le_refl : (s : Text) → text_le s s ≡ true
unfolding text_le
text_le_refl s = rw compare_text_refl refl

module _ (id : Text) where
  record_for-absent :
      (ms : List Identified) → contains Text-discrete id (ids ms) ≡ false → record_for id ms ≡ none
  unfolding contains record_for
  record_for-absent [] h = refl
  record_for-absent (m ∷ ms) h = ground (arith, record_for-absent ms)

  value_of-absent :
      {A : Type 0} (value : Identified → Option A) (ms : List Identified)
      → contains Text-discrete id (ids ms) ≡ false
      → value_of id (collect value ms) ≡ none
  unfolding contains value_of collect
  value_of-absent value [] h = refl
  value_of-absent value (m ∷ ms) h = ground (arith, value_of-absent value ms)

  -- the value under an id is the one that its message gives
  pub value_of-collect :
      {A : Type 0} (value : Identified → Option A) (ms : List Identified)
      → distinct Text-discrete (ids ms) ≡ true
      → value_of id (collect value ms) ≡ and_then (record_for id ms) value
  unfolding distinct contains value_of collect record_for
  value_of-collect value [] h = refl
  value_of-collect value (m ∷ ms) h =
      ground (arith, value_of-collect value ms, value_of-absent value ms)

  pub contains-ids_in :
      {A : Type 0} (pairs : List (A × Text))
      → contains Text-discrete id (ids_in pairs) ≡ is_there (value_of id pairs)
  unfolding contains value_of
  contains-ids_in [] = refl
  contains-ids_in (p ∷ pairs) = ground (arith, contains-ids_in pairs)

  pub contains-ids :
      (ms : List Identified) → contains Text-discrete id (ids ms) ≡ is_there (record_for id ms)
  unfolding contains record_for
  contains-ids [] = refl
  contains-ids (m ∷ ms) = ground (arith, contains-ids ms)

  pub record_for-keep :
      (p : Identified → Bool) (ms : List Identified)
      → distinct Text-discrete (ids ms) ≡ true
      → record_for id (keep p ms) ≡ and_then (record_for id ms) (λ m. if p m then some m else none)
  unfolding distinct contains record_for
  record_for-keep p [] h = refl
  record_for-keep p (m ∷ ms) h = ground (arith, record_for-keep p ms, record_for-absent ms)

  record_for-insert_sorted :
      (m : Identified) (ms : List Identified)
      → record_for id (insert_sorted by_id m ms)
        ≡ (if same Text-discrete id (id_of m) then some m else record_for id ms)
  unfolding record_for insert_sorted
  record_for-insert_sorted m [] = refl
  record_for-insert_sorted m (n ∷ ms) =
      ground (arith, record_for-insert_sorted m ms, text_le_refl (id_of m))

  pub record_for-sort : (ms : List Identified) → record_for id (sort by_id ms) ≡ record_for id ms
  unfolding record_for sort
  record_for-sort [] = refl
  record_for-sort (m ∷ ms) = rw (record_for-insert_sorted, record_for-sort ms) refl

distinct-insert_sorted :
    (m : Identified) (ms : List Identified)
    → distinct Text-discrete (ids ms) ≡ true
    → contains Text-discrete (id_of m) (ids ms) ≡ false
    → distinct Text-discrete (ids (insert_sorted by_id m ms)) ≡ true
unfolding distinct contains insert_sorted
distinct-insert_sorted m [] h k = refl
distinct-insert_sorted m (n ∷ ms) h k = ground (
  arith,
  distinct-insert_sorted m ms,
  contains-ids (id_of n) (insert_sorted by_id m ms),
  contains-ids (id_of n) ms,
  record_for-insert_sorted (id_of n) m ms,
)

pub distinct-sort :
    (ms : List Identified)
    → distinct Text-discrete (ids ms) ≡ true
    → distinct Text-discrete (ids (sort by_id ms)) ≡ true
unfolding distinct sort
distinct-sort [] h = refl
distinct-sort (m ∷ ms) h =
    distinct-insert_sorted m (sort by_id ms) (distinct-sort ms (ground arith)) (
      ground (
        arith,
        contains-ids (id_of m) (sort by_id ms),
        contains-ids (id_of m) ms,
        record_for-sort (id_of m) ms,
      ))

pub distinct-keep :
    (p : Identified → Bool) (ms : List Identified)
    → distinct Text-discrete (ids ms) ≡ true
    → distinct Text-discrete (ids (keep p ms)) ≡ true
unfolding distinct
distinct-keep p [] h = refl
distinct-keep p (m ∷ ms) h = ground (
  arith,
  distinct-keep p ms,
  contains-ids (id_of m) ms,
  contains-ids (id_of m) (keep p ms),
  record_for-keep (id_of m) p ms,
)
