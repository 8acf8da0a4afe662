-- ===== src/Graph/Ids.antt =====
-- The readers of one JSON value in tableinator/graph_derivation.py: `_elements`, `_entity_id`,
-- `_element_ids`, `_tag_names`, `_text`, `_discogs_id`, `_quantity`, `_xmltodict_array`.
pub mod Agree
use discogs_sql_loader.Prelude.{
  ℕ, suc, String, ◌&&◌, ◌||◌, List, [], ◌∷◌, Option, none, some, leb, if◌then◌else◌, same,
  from_keys,
}
use discogs_sql_loader.Text.{Text, Text-discrete, codes, blank, strip, is_digits, value}
use discogs_sql_loader.Text.Decimal.{decimal}
use discogs_sql_loader.Json.{
  ℤ, pos, negsuc, Json, null, int, str, arr, obj, Fields, get, elements_of, lookup,
}

-- `str(n)` of an integer
unfoldable pub int_text : ℤ → Text
int_text (pos n) = decimal n
int_text (negsuc n) = b'-' ∷ decimal (suc n)

-- the mappings among a list's elements
abbrev pub dicts : List Json → List Fields
dicts [] = []
dicts (obj fs ∷ js) = fs ∷ dicts js
dicts (_ ∷ js) = dicts js

unfoldable pub elements : Json → List Fields
elements (arr js) = dicts (elements_of js)
elements _ = []

-- the values of the options that have one, `[x for x in xs if x is not None]`
abbrev pub present {ℓ} : {A : Type ℓ} → List (Option A) → List A
present [] = []
present (none ∷ xs) = present xs
present (some x ∷ xs) = x ∷ present xs

-- `NO_ENTITY_ID`
abbrev pub no_entity_id : Text
no_entity_id = codes "0"

abbrev usable : Text → Option Text
usable text = if blank text || same Text-discrete text no_entity_id then none else some text

unfoldable pub entity_id : Json → Option Text
entity_id (int n) = usable (int_text n)
entity_id (str s) = usable (strip s)
entity_id _ = none

abbrev pub ids_of : List Fields → List (Option Text)
ids_of [] = []
ids_of (fs ∷ rest) = entity_id (get "id" fs) ∷ ids_of rest

-- `_element_ids` of a list that is at hand
unfoldable pub ids_of_dicts : List Fields → List Text
ids_of_dicts ds = from_keys Text-discrete (present (ids_of ds))

unfoldable pub element_ids : Json → List Text
unfolding elements ids_of_dicts
element_ids value = ids_of_dicts (elements value)

-- the non-empty texts of a list
abbrev texts : List Json → List Text
texts [] = []
texts (str [] ∷ js) = texts js
texts (str (c ∷ s) ∷ js) = (c ∷ s) ∷ texts js
texts (_ ∷ js) = texts js

unfoldable pub tag_names : Json → List Text
tag_names (arr js) = from_keys Text-discrete (texts (elements_of js))
tag_names _ = []

abbrev some_text : Text → Option Text
some_text text = if blank text then none else some text

-- `_text`
unfoldable pub trimmed : Json → Option Text
trimmed (str s) = some_text (strip s)
trimmed _ = none

unfoldable pub discogs_id : Json → Option Text
discogs_id (int (pos n)) = if leb 1 n then some (decimal n) else none
discogs_id (int (negsuc n)) = none
discogs_id (str s) =
    let text = strip s in if is_digits text && leb 1 (value text) then some text else none
discogs_id _ = none

abbrev quantity_of : Json → ℕ
quantity_of (int (pos n)) = if leb 1 n then n else 1
quantity_of _ = 1

unfoldable pub quantity : Fields → ℕ
quantity item = quantity_of (get "qty" item)

-- what a wrapper's value under the key unwraps to
abbrev unwrapped : Option Json → List Json
unwrapped none = []
unwrapped (some (arr js)) = elements_of js
unwrapped (some null) = []
unwrapped (some inner) = inner ∷ []

unfoldable pub xmltodict_array : Json → String → List Json
xmltodict_array (arr js) key = elements_of js
xmltodict_array (obj fs) key = unwrapped (lookup key fs)
xmltodict_array null key = []
xmltodict_array container key = container ∷ []
