-- ===== src/Counters.antt =====
-- tableinator/graph_counters.py: the sweep of `member_of` and `same_as`, which the writer of one
-- document only adds to. An entity table is the list of its rows in the order of its primary key.
pub mod Pages
pub mod Asserted
pub mod Sweep
use discogs_sql_loader.Prelude.{
  ℕ, zero, suc, String, Bool, true, false, not, ◌&&◌, ◌||◌, List, [], ◌∷◌, ◌++◌, if◌then◌else◌, ltb,
  keep, length, contains, from_keys,
}
use discogs_sql_loader.Text.{Text}
use discogs_sql_loader.Json.{Json, arr, obj, cons, Fields, get}
use discogs_sql_loader.Common.{Common}
use discogs_sql_loader.Graph.{Row, Row-discrete, Edge, Edge-discrete, member_of, same_as, rows_of}
use discogs_sql_loader.Graph.Derive.{derive_document}
use discogs_sql_loader.Durable.Version.{text_lt}

-- the keys of `ADDITIVE_RELATIONS`, and the tables of their documents
pub data Additive : Type 0 where
  memberships identities : Additive

abbrev pub relation_of : Additive → Edge
relation_of memberships = member_of
relation_of identities = same_as

abbrev pub table_of : Additive → String
table_of memberships = "artists"
table_of identities = "releases"

pub record Document : Type 0 where
  pub data_id : Text
  pub body : Json

-- `jsonb_typeof(j) = 'array' AND jsonb_array_length(j) > 0`
abbrev pub is_filled : Json → Bool
is_filled (arr (cons j js)) = true
is_filled _ = false

-- the predicates of `ADDITIVE_RELATIONS`; a body that is no mapping has no key
abbrev pub could_assert : Additive → Json → Bool
could_assert memberships (obj data') =
    is_filled (get "members" data') || is_filled (get "groups" data')
could_assert identities (obj data') = is_filled (get "extraartists" data')
could_assert relation _ = false

abbrev pub take : ℕ → List Document → List Document
take zero docs = []
take (suc n) [] = []
take (suc n) (d ∷ docs) = d ∷ take n docs

-- `_document_page`
unfoldable pub document_page : Additive → Text → ℕ → List Document → List Document
unfolding text_lt
document_page relation last limit docs =
    take limit (keep (λ d. could_assert relation d.body && text_lt last d.data_id) docs)

-- the rows of the relation that one document asserts
abbrev pub body_rows : Common → Additive → Text → Json → List Row
body_rows common relation data_id (obj data') =
    rows_of Edge-discrete (relation_of relation)
      (derive_document common (table_of relation) data_id data').edges
body_rows common relation data_id _ = []

abbrev pub all_rows : Common → Additive → List Document → List Row
all_rows common relation [] = []
all_rows common relation (d ∷ docs) =
    body_rows common relation d.data_id d.body ++ all_rows common relation docs

-- `_asserted_rows`
unfoldable pub asserted_rows : Common → Additive → List Document → List Row
unfolding derive_document rows_of from_keys
asserted_rows common relation docs = from_keys Row-discrete (all_rows common relation docs)

abbrev pub last_id : Text → List Document → Text
last_id last [] = last
last_id last (d ∷ docs) = last_id d.data_id docs

-- the loop over the pages, on fuel: what is copied to the temporary table
unfoldable pub copy_pages : ℕ → Common → Additive → ℕ → Text → List Document → List Row
unfolding document_page asserted_rows
copy_pages zero common relation limit last docs = []
copy_pages (suc fuel) common relation limit last docs =
    let page = document_page relation last limit docs in
    let rest = copy_pages fuel common relation limit (last_id last page) docs in
    asserted_rows common relation page ++ (if ltb (length page) limit then [] else rest)

-- `_insert_asserted` and `_delete_unasserted`
abbrev pub insert_asserted : List Row → List Row → List Row
insert_asserted asserted rows =
    rows ++ keep (λ r. not (contains Row-discrete r rows)) (from_keys Row-discrete asserted)

abbrev pub delete_unasserted : List Row → List Row → List Row
delete_unasserted asserted = keep (λ r. contains Row-discrete r asserted)

-- `DOCUMENT_PAGE_SIZE`
abbrev pub page_size : ℕ
page_size = 2000

abbrev pub reconciled : List Row → List Row → List Row
reconciled asserted rows = delete_unasserted asserted (insert_asserted asserted rows)

-- one relation of `reconcile_additive_edges`, by its rows; each page but the last takes one document at
-- least, so one round more than there are documents is enough
unfoldable pub reconcile_additive_edges :
    Common → Additive → ℕ → List Document → List Row → List Row
unfolding copy_pages contains from_keys
reconcile_additive_edges common relation limit [] rows = rows
reconcile_additive_edges common relation limit (d ∷ docs) rows =
    reconciled (copy_pages (suc (length (d ∷ docs))) common relation limit [] (d ∷ docs)) rows
