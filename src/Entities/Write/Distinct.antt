-- ===== src/Entities/Write/Distinct.antt =====
-- The documents of a batch: one message for each id, the latest one.
use discogs_sql_loader.Prelude.{
  true, ◌||◌, List, [], ◌∷◌, map, ◌≡◌, refl, ◌∙◌, arith, Option, none, some, if◌then◌else◌, same,
  contains, distinct,
}
use discogs_sql_loader.Text.{Text, Text-discrete}
use discogs_sql_loader.Entities.{Message}
use discogs_sql_loader.Entities.Batch.{put_message, latest_from, latest}

-- the message of an id in a list with one for each id, and the last one of an id among all
unfoldable pub message_for : Text → List Message → Option Message
message_for id [] = none
message_for id (m ∷ ms) = if same Text-discrete id m.data_id then some m else message_for id ms

unfoldable pub last_message : Text → List Message → Option Message
last_message id [] = none
last_message id (m ∷ ms) = elim (last_message id ms) [
  | none ↦ if same Text-discrete id m.data_id then some m else none
  | some later ↦ some later
]

abbrev pub message_ids : List Message → List Text
message_ids = map (λ m. m.data_id)

abbrev later_of : Option Message → Option Message → Option Message
later_of none b = b
later_of (some a) b = some a

module _ (id : Text) where
  message-put :
      (d : List Message) (m : Message)
      → message_for id (put_message d m)
        ≡ (if same Text-discrete id m.data_id then some m else message_for id d)
  unfolding message_for put_message
  message-put [] m = refl
  message-put (x ∷ d) m = ground (arith, message-put d m)

  message-latest_from :
      (d ms : List Message)
      → message_for id (latest_from d ms) ≡ later_of (last_message id ms) (message_for id d)
  unfolding latest_from last_message
  message-latest_from d [] = refl
  message-latest_from d (m ∷ ms) =
      ground (arith, message-latest_from (put_message d m) ms, message-put d m)

  pub message-latest : (ms : List Message) → message_for id (latest ms) ≡ last_message id ms
  unfolding latest
  message-latest ms = message-latest_from [] ms ∙ (unfold message_for in ground arith)

contains-put :
    (id : Text) (d : List Message) (m : Message)
    → contains Text-discrete id (message_ids (put_message d m))
      ≡ (contains Text-discrete id (message_ids d) || same Text-discrete id m.data_id)
unfolding contains put_message
contains-put id [] m = ground arith
contains-put id (x ∷ d) m = ground (arith, contains-put id d m)

distinct-put :
    (d : List Message) (m : Message)
    → distinct Text-discrete (message_ids d) ≡ true
    → distinct Text-discrete (message_ids (put_message d m)) ≡ true
unfolding distinct put_message contains
distinct-put [] m h = refl
distinct-put (x ∷ d) m h = ground (arith, distinct-put d m, contains-put x.data_id d m)

distinct-latest_from :
    (d ms : List Message)
    → distinct Text-discrete (message_ids d) ≡ true
    → distinct Text-discrete (message_ids (latest_from d ms)) ≡ true
unfolding latest_from
distinct-latest_from d [] h = h
distinct-latest_from d (m ∷ ms) h = distinct-latest_from (put_message d m) ms (distinct-put d m h)

pub distinct-latest : (ms : List Message) → distinct Text-discrete (message_ids (latest ms)) ≡ true
unfolding latest distinct
distinct-latest ms = distinct-latest_from [] ms refl
