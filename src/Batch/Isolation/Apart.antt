-- ===== src/Batch/Isolation/Apart.antt =====
-- Records of different documents, and how the bisection keeps them so.
use discogs_sql_loader.Prelude.{
  sym, keep, Bool, true, false, not, ◌&&◌, ◌||◌, List, [], ◌∷◌, ◌++◌, ◌≡◌, refl, ◌∙◌, arith, same,
  contains, distinct, inl, inr, Bool-cases,
}
use mathlib.Core.List.{append-nil, append_assoc}
use discogs_sql_loader.Text.{Text, Text-discrete}
use discogs_sql_loader.Entities.{Message}
use discogs_sql_loader.Entities.Batch.{put_message, latest_from, latest}
use discogs_sql_loader.Entities.Write.Distinct.{message_ids}

-- a batch with one message for each document is its own latest
put_new :
    (d : List Message) (m : Message)
    → contains Text-discrete m.data_id (message_ids d) ≡ false
    → put_message d m ≡ d ++ m ∷ []
unfolding put_message contains
put_new [] m h = refl
put_new (x ∷ d) m h = ground (arith, put_new d m)

pub contains-append :
    (id : Text) (xs ys : List Message)
    → contains Text-discrete id (message_ids (xs ++ ys))
      ≡ (contains Text-discrete id (message_ids xs) || contains Text-discrete id (message_ids ys))
unfolding contains
contains-append id [] ys = refl
contains-append id (x ∷ xs) ys = ground (arith, contains-append id xs ys)

-- `ms` has one message for each document, and none for a document of `d`
unfoldable pub apart : List Message → List Message → Bool
apart d [] = true
apart d (m ∷ ms) =
    not (contains Text-discrete m.data_id (message_ids d))
    && not (contains Text-discrete m.data_id (message_ids ms))
    && apart d ms

pub apart-distinct :
    (ms : List Message) → distinct Text-discrete (message_ids ms) ≡ true → apart [] ms ≡ true
unfolding apart distinct contains
apart-distinct [] h = refl
apart-distinct (m ∷ ms) h = ground (arith, apart-distinct ms)

same_sym : (a b : Text) → same Text-discrete a b ≡ same Text-discrete b a
same_sym a b = grind arith

apart-push :
    (d : List Message) (x : Message) (ms : List Message)
    → contains Text-discrete x.data_id (message_ids ms) ≡ false
    → apart d ms ≡ true
    → apart (d ++ x ∷ []) ms ≡ true
unfolding apart contains
apart-push d x [] h k = refl
apart-push d x (m ∷ ms) h k =
    ground
      (arith, apart-push d x ms, contains-append m.data_id d (x ∷ []), same_sym x.data_id m.data_id)

apart-next :
    (d : List Message) (x : Message) (ms : List Message)
    → apart d (x ∷ ms) ≡ true
    → apart (d ++ x ∷ []) ms ≡ true
unfolding apart
apart-next d x ms h = apart-push d x ms (ground arith) (ground arith)

pub apart-left : (d xs ys : List Message) → apart d (xs ++ ys) ≡ true → apart d xs ≡ true
unfolding apart
apart-left d [] ys h = refl
apart-left d (x ∷ xs) ys h = ground (arith, apart-left d xs ys, contains-append x.data_id xs ys)

apart-alone : (d ms : List Message) → apart d ms ≡ true → apart [] ms ≡ true
unfolding apart contains
apart-alone d [] h = refl
apart-alone d (m ∷ ms) h = ground (arith, apart-alone d ms)

module _ (p : Message → Bool) where
  pub apart-right :
      (d xs ys : List Message) → apart d (xs ++ ys) ≡ true → apart (d ++ keep p xs) ys ≡ true
  apart-right d [] ys h = rw append-nil h
  apart-right d (x ∷ xs) ys h = elim (Bool-cases (p x)) [
    | inl e ↦ rw e (
        rw (append_assoc d (x ∷ []) (keep p xs)) at
          (apart-right (d ++ x ∷ []) xs ys (apart-next d x (xs ++ ys) h)))
    | inr e ↦ rw e (apart-right d xs ys (unfold apart in ground arith))
  ]

latest_from-apart : (d ms : List Message) → apart d ms ≡ true → latest_from d ms ≡ d ++ ms
unfolding latest_from
latest_from-apart d [] h = sym (append-nil d)
latest_from-apart d (m ∷ ms) h =
    rw (put_new d m (unfold apart in ground arith))
      (latest_from-apart (d ++ m ∷ []) ms (apart-next d m ms h) ∙ append_assoc d (m ∷ []) ms)

pub latest-apart : (d ms : List Message) → apart d ms ≡ true → latest ms ≡ ms
unfolding latest
latest-apart d ms h = latest_from-apart [] ms (apart-alone d ms h)
