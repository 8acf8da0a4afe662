-- ===== src/Graph.antt =====
-- tableinator/graph_derivation.py and tableinator/graph_writer.py: the relations of the `graph`
-- schema that this loader writes, their columns, and the rows that one document asserts.
pub mod Ids
pub mod Credits
pub mod MediaRows
pub mod Derive
pub mod Order
pub mod Writer
use discogs_sql_loader.Prelude.{
  ℕ, String, Bool, true, false, ◌||◌, List, [], ◌∷◌, Option, none, some, ◌is◌, if◌then◌else◌,
  ℕ_discrete, same,
}
use discogs_sql_loader.Text.{Text, codes}

-- one value of a row: SQL NULL, `text` or `bigint`
pub data Cell : Type 0 where
  missing : Cell
  text : Text → Cell
  bigint : ℕ → Cell

abbrev pub Row : Type 0
Row = List Cell

unfoldable pub Row-discrete : Discrete Row
unfolding ℕ_discrete
Row-discrete = hlevel ℕ_discrete

-- the keys of `VERTEX_COLUMNS`
pub data Vertex : Type 0 where
  genre style person media_family medium company : Vertex

-- the keys of `EDGE_COLUMNS`
pub data Edge : Type 0 where
  by_artist on_label derived_from in_genre in_style : Edge
  master_by_artist master_in_genre master_in_style member_of alias_of : Edge
  credited_on same_as credited_to issued_on track_credited_on track_by_artist : Edge

unfoldable pub Vertex-discrete : Discrete Vertex
Vertex-discrete = hlevel

unfoldable pub Edge-discrete : Discrete Edge
Edge-discrete = hlevel

-- `DISCOGS_SOURCE`
abbrev pub discogs_source : Text
discogs_source = codes "discogs"

unfoldable pub vertex_columns : Vertex → List String
vertex_columns medium = "medium_id" ∷ "family" ∷ "label" ∷ []
vertex_columns company = "company_id" ∷ "name" ∷ "discogs_label_id" ∷ []
vertex_columns _ = "name" ∷ []

-- `VERTEX_COLUMNS` in its own order
abbrev pub all_vertices : List Vertex
all_vertices = genre ∷ style ∷ person ∷ media_family ∷ medium ∷ company ∷ []

unfoldable pub edge_columns : Edge → List String
edge_columns by_artist = "release_id" ∷ "artist_id" ∷ []
edge_columns on_label = "release_id" ∷ "label_id" ∷ []
edge_columns derived_from = "release_id" ∷ "master_id" ∷ []
edge_columns in_genre = "release_id" ∷ "genre_name" ∷ []
edge_columns in_style = "release_id" ∷ "style_name" ∷ []
edge_columns master_by_artist = "master_id" ∷ "artist_id" ∷ []
edge_columns master_in_genre = "master_id" ∷ "genre_name" ∷ []
edge_columns master_in_style = "master_id" ∷ "style_name" ∷ []
edge_columns member_of = "member_artist_id" ∷ "group_artist_id" ∷ []
edge_columns alias_of = "alias_artist_id" ∷ "artist_id" ∷ []
edge_columns credited_on = "person_name" ∷ "release_id" ∷ "role" ∷ []
edge_columns same_as = "person_name" ∷ "artist_id" ∷ []
edge_columns credited_to = "release_id" ∷ "company_id" ∷ "role" ∷ "role_category" ∷ "source" ∷ []
edge_columns issued_on = "release_id" ∷ "medium_id" ∷ "source" ∷ "qty" ∷ []
edge_columns track_credited_on =
    "person_name" ∷ "release_id" ∷ "track_ordinal" ∷ "sub_track_ordinal" ∷ "track_position" ∷ "role"
    ∷ []
edge_columns track_by_artist =
    "release_id" ∷ "track_ordinal" ∷ "sub_track_ordinal" ∷ "track_position" ∷ "artist_id" ∷ []

-- `EDGE_COLUMNS` in its own order
abbrev pub all_edges : List Edge
all_edges =
    by_artist ∷ on_label ∷ derived_from ∷ in_genre ∷ in_style ∷ master_by_artist ∷ master_in_genre
    ∷ master_in_style ∷ member_of ∷ alias_of ∷ credited_on ∷ same_as ∷ credited_to ∷ issued_on
    ∷ track_credited_on ∷ track_by_artist ∷ []

-- the value under a column's name
unfoldable pub cell_at : List String → String → Row → Option Cell
cell_at (c ∷ columns) name (v ∷ row) = if c is name then some v else cell_at columns name row
cell_at columns name row = none

-- a dictionary from relations to their rows; `put` is `_put`, which leaves out an empty list
module _ {K : Type 0} (dec : Discrete K) where
  unfoldable pub put : K → List Row → List (K × List Row) → List (K × List Row)
  put relation [] target = target
  put relation (r ∷ rows) target = (relation, r ∷ rows) ∷ target

  unfoldable pub rows_of : K → List (K × List Row) → List Row
  rows_of relation [] = []
  rows_of relation ((k, rows) ∷ target) =
      if same dec k relation then rows else rows_of relation target

pub record DocumentGraph : Type 0 where
  pub vertices : List (Vertex × List Row)
  pub edges : List (Edge × List Row)
  pub replaced : List Edge

-- `_DOCUMENT_SCOPE`: the column that names the asserting document, and whether the relation is
-- shared with another provider and so scoped to a source
unfoldable pub document_scope : Edge → Option (String × Bool)
document_scope credited_to = some ("release_id", true)
document_scope issued_on = some ("release_id", true)
document_scope master_by_artist = some ("master_id", false)
document_scope master_in_genre = some ("master_id", false)
document_scope master_in_style = some ("master_id", false)
document_scope alias_of = some ("artist_id", false)
document_scope member_of = none
document_scope same_as = none
document_scope _ = some ("release_id", false)
