-- ===== src/Entities/Batch.antt =====
-- `_process_batch` of tableinator/batch_writer.py.
use discogs_sql_loader.Prelude.{
  String, Bool, true, false, ◌&&◌, List, [], ◌∷◌, map, Option, none, some, if◌then◌else◌, same,
  ◌is◌,
}
use discogs_sql_loader.Text.{Text, Text-discrete}
use discogs_sql_loader.Json.{Fields}
use discogs_sql_loader.Identity.{AliasRef, alias_ref}
use discogs_sql_loader.Entities.{EntityRow, Message, Services, find_row}

-- `{msg.data_id: msg for msg in messages}`: the latest message at the place of the first
unfoldable pub put_message : List Message → Message → List Message
put_message [] m = m ∷ []
put_message (x ∷ xs) m =
    if same Text-discrete m.data_id x.data_id then m ∷ xs else x ∷ put_message xs m

unfoldable pub latest_from : List Message → List Message → List Message
unfolding put_message
latest_from d [] = d
latest_from d (m ∷ ms) = latest_from (put_message d m) ms

unfoldable pub latest : List Message → List Message
unfolding latest_from
latest = latest_from []

abbrev pub ids_of : List Message → List Text
ids_of = map (λ m. m.data_id)

-- `refs`, in the order of the messages
abbrev pub Refs : Type 0
Refs = List (Message × AliasRef)

unfoldable pub refs_for : String → List Message → Option Refs
unfolding alias_ref
refs_for data_type [] = some []
refs_for data_type (m ∷ ms) = elim (alias_ref data_type m.data_id) [
  | none ↦ none
  | some ref ↦ elim (refs_for data_type ms) [ none ↦ none | some refs ↦ some ((m, ref) ∷ refs) ]
]

-- a message with its native id
abbrev pub Identified : Type 0
Identified = Message × Text

unfoldable pub identified : (AliasRef → Option Text) → Refs → List Identified
identified native_ids [] = []
identified native_ids ((m, ref) ∷ refs) =
    let rest = identified native_ids refs in
    elim (native_ids ref) [ none ↦ rest | some native_id ↦ (m, native_id) ∷ rest ]

-- the ids of the documents whose alias has no native id
unfoldable pub unresolved_ids : (AliasRef → Option Text) → Refs → List Text
unresolved_ids native_ids [] = []
unresolved_ids native_ids ((m, ref) ∷ refs) =
    let rest = unresolved_ids native_ids refs in
    elim (native_ids ref) [ none ↦ m.data_id ∷ rest | some native_id ↦ rest ]

-- `existing_hash == msg.sha256`, and a column that `IS NULL` in the row that exists
abbrev pub hash_is : Text → Option EntityRow → Bool
hash_is sha256 none = false
hash_is sha256 (some row) = same Text-discrete row.hash sha256

abbrev pub null_in {ℓ} : {A : Type ℓ} → (EntityRow → Option A) → Option EntityRow → Bool
null_in column none = false
null_in column (some row) = elim (column row) [ none ↦ true | some a ↦ false ]

unfoldable pub is_unchanged : List EntityRow → Identified → Bool
unfolding find_row
is_unchanged rows (m, native_id) = hash_is m.sha256 (find_row m.data_id rows)

-- the pairs that the loop appends to a list of backfills, by the value that one message gives
unfoldable pub collect {ℓ} :
    {A : Type ℓ} → (Identified → Option A) → List Identified → List (A × Text)
collect value [] = []
collect value ((m, native_id) ∷ ms) =
    let rest = collect value ms in
    elim (value (m, native_id)) [ none ↦ rest | some a ↦ (a, m.data_id) ∷ rest ]

abbrev pub media_backfill : Services → String → List EntityRow → Identified → Option Fields
media_backfill services data_type rows (m, native_id) =
    if is_unchanged rows (m, native_id)
      && (data_type is "releases" && null_in (λ row. row.media) (find_row m.data_id rows))
    then some (services.media_resolver m.data')
    else none

abbrev pub identity_backfill : List EntityRow → Identified → Option Text
identity_backfill rows (m, native_id) =
    if is_unchanged rows (m, native_id) && null_in (λ row. row.gm_item_id) (find_row m.data_id rows)
    then some native_id
    else none

-- what `unnest(…) AS incoming` pairs with a document
unfoldable pub value_of {ℓ} : {A : Type ℓ} → Text → List (A × Text) → Option A
value_of id [] = none
value_of id ((value, data_id) ∷ pairs) =
    if same Text-discrete id data_id then some value else value_of id pairs

unfoldable pub record_for : Text → List Identified → Option Identified
record_for id [] = none
record_for id ((m, native_id) ∷ ms) =
    if same Text-discrete id m.data_id then some (m, native_id) else record_for id ms
