-- ===== src/Graph/Writer.antt =====
-- tableinator/graph_writer.py: the statements by which the rows of a batch of documents reach the
-- `graph` tables, and what PostgreSQL does on each.
pub mod Inserts
pub mod Replace
pub mod Scope
pub mod Purge
use discogs_sql_loader.Prelude.{
  ℕ, String, Bool, true, false, not, ◌&&◌, ◌||◌, List, [], ◌∷◌, ◌++◌, Option, none, some,
  if◌then◌else◌, same, contains, add_keys, keep, ◌is◌,
}
use discogs_sql_loader.Text.{Text, Text-discrete}
use discogs_sql_loader.Json.{Fields}
use discogs_sql_loader.Common.{Common}
use discogs_sql_loader.Graph.{
  Cell, missing, text, bigint, Row, Row-discrete, Vertex, Vertex-discrete, all_vertices, Edge,
  Edge-discrete, all_edges, alias_of, by_artist, credited_on, credited_to, derived_from, in_genre,
  in_style, issued_on, master_by_artist, master_in_genre, master_in_style, member_of, on_label,
  same_as, track_by_artist, track_credited_on, edge_columns, cell_at, discogs_source, DocumentGraph,
  document_scope, rows_of,
}
use discogs_sql_loader.Graph.Order.{sort, vertex_le, edge_le, text_le}
use discogs_sql_loader.Graph.Derive.{derive_document}

-- the tables of the `graph` schema
pub record Tables : Type 0 where
  pub vertices : Vertex → List Row
  pub edges : Edge → List Row

-- The columns that each table's unique index covers, which the schema repository declares.
pub record Keys : Type 0 where
  pub vertex_key : Vertex → Row → Row
  pub edge_key : Edge → Row → Row

pub data Statement : Type 0 where
  insert_vertices : Vertex → List Row → Statement
  delete_edges : Edge → List Text → Statement
  insert_edges : Edge → List Row → Statement

-- `INSERT … ON CONFLICT DO NOTHING`, one row after the other
module _ (key : Row → Row) where
  unfoldable pub conflicts : Row → List Row → Bool
  conflicts r [] = false
  conflicts r (q ∷ table) = same Row-discrete (key r) (key q) || conflicts r table

  unfoldable pub insert_row : List Row → Row → List Row
  unfolding conflicts
  insert_row table r = if conflicts r table then table else table ++ r ∷ []

  unfoldable pub insert_rows : List Row → List Row → List Row
  unfolding insert_row
  insert_rows table [] = table
  insert_rows table (r ∷ rows) = insert_rows (insert_row table r) rows

abbrev is_one_of : List Text → Option Cell → Bool
is_one_of ids (some (text s)) = contains Text-discrete s ids
is_one_of ids _ = false

-- the predicate of `_scoped_delete`, `_DOCUMENT_SCOPE[relation]` put in
abbrev reached_by : Option (String × Bool) → List String → List Text → Row → Bool
reached_by none columns ids row = false
reached_by (some (column, source_scoped)) columns ids row =
    is_one_of ids (cell_at columns column row)
    && (if source_scoped
        then is_one_of (discogs_source ∷ []) (cell_at columns "source" row)
        else true)

unfoldable pub reached : Edge → List Text → Row → Bool
unfolding document_scope edge_columns cell_at
reached e ids row = reached_by (document_scope e) (edge_columns e) ids row

abbrev set_vertex : Vertex → List Row → Tables → Tables
set_vertex v rows t = record t {
  vertices = λ u. if same Vertex-discrete v u then rows else t.vertices u;
}

abbrev set_edge : Edge → List Row → Tables → Tables
set_edge e rows t = record t { edges = λ f. if same Edge-discrete e f then rows else t.edges f }

unfoldable pub execute : Keys → Statement → Tables → Tables
unfolding insert_rows reached
execute keys (insert_vertices v rows) t =
    set_vertex v (insert_rows (keys.vertex_key v) (t.vertices v) rows) t
execute keys (delete_edges e ids) t = set_edge e (keep (λ r. not (reached e ids r)) (t.edges e)) t
execute keys (insert_edges e rows) t = set_edge e (insert_rows (keys.edge_key e) (t.edges e) rows) t

unfoldable pub execute_all : Keys → List Statement → Tables → Tables
execute_all keys [] t = t
execute_all keys (s ∷ statements) t = execute_all keys statements (execute keys s t)

-- a document's id with what `derive_document` gave
abbrev pub Derived : Type 0
Derived = Text × DocumentGraph

unfoldable pub derive_all : Common → String → List (Text × Fields) → List Derived
derive_all common data_type [] = []
derive_all common data_type ((data_id, data') ∷ documents) =
    (data_id, derive_document common data_type data_id data')
    ∷ derive_all common data_type documents

-- `vertex_rows[relation]`, `edge_rows[relation]` and `replaced_ids[relation]` after the loop over
-- the documents; an entry that is not there is empty
unfoldable pub vertex_rows : Vertex → List Row → List Derived → List Row
unfolding rows_of
vertex_rows v rows [] = rows
vertex_rows v rows ((_, document) ∷ derived) =
    vertex_rows v (add_keys Row-discrete rows (rows_of Vertex-discrete v document.vertices)) derived

unfoldable pub edge_rows : Edge → List Row → List Derived → List Row
unfolding rows_of
edge_rows e rows [] = rows
edge_rows e rows ((_, document) ∷ derived) =
    edge_rows e (add_keys Row-discrete rows (rows_of Edge-discrete e document.edges)) derived

unfoldable pub replaced_ids : Edge → List Derived → List Text
replaced_ids e [] = []
replaced_ids e ((data_id, document) ∷ derived) =
    let rest = replaced_ids e derived in
    if contains Edge-discrete e document.replaced then data_id ∷ rest else rest

-- `sorted` over the names of the relations
abbrev pub edges_by_name : List Edge
edges_by_name =
    alias_of ∷ by_artist ∷ credited_on ∷ credited_to ∷ derived_from ∷ in_genre ∷ in_style
    ∷ issued_on ∷ master_by_artist ∷ master_in_genre ∷ master_in_style ∷ member_of ∷ on_label
    ∷ same_as ∷ track_by_artist ∷ track_credited_on ∷ []

-- a statement is made only where there is something to write
abbrev pub vertex_insert : Vertex → List Row → List Statement
vertex_insert v [] = []
vertex_insert v (r ∷ rows) = insert_vertices v (sort vertex_le (r ∷ rows)) ∷ []

abbrev pub edge_insert : Edge → List Row → List Statement
edge_insert e [] = []
edge_insert e (r ∷ rows) = insert_edges e (sort edge_le (r ∷ rows)) ∷ []

abbrev pub edge_delete : Edge → List Text → List Statement
edge_delete e [] = []
edge_delete e (id ∷ ids) = delete_edges e (sort text_le (id ∷ ids)) ∷ []

unfoldable pub vertex_inserts : List Vertex → List Derived → List Statement
unfolding vertex_rows
vertex_inserts [] derived = []
vertex_inserts (v ∷ vs) derived =
    vertex_insert v (vertex_rows v [] derived) ++ vertex_inserts vs derived

unfoldable pub edge_deletes : List Edge → List Derived → List Statement
unfolding replaced_ids
edge_deletes [] derived = []
edge_deletes (e ∷ es) derived = edge_delete e (replaced_ids e derived) ++ edge_deletes es derived

unfoldable pub edge_inserts : List Edge → List Derived → List Statement
unfolding edge_rows
edge_inserts [] derived = []
edge_inserts (e ∷ es) derived = edge_insert e (edge_rows e [] derived) ++ edge_inserts es derived

unfoldable pub statements : List Derived → List Statement
unfolding vertex_inserts edge_deletes edge_inserts
statements derived =
    vertex_inserts all_vertices derived
    ++ (edge_deletes edges_by_name derived ++ edge_inserts all_edges derived)

unfoldable pub write_document_graph :
    Common → Keys → String → List (Text × Fields) → Tables → Tables
unfolding statements execute_all derive_all
write_document_graph common keys data_type documents =
    execute_all keys (statements (derive_all common data_type documents))

-- `_PURGE_SCOPE.get(data_type, ())`
unfoldable pub purge_scope : String → List Edge
purge_scope data_type =
    if data_type is "artists"
    then alias_of ∷ []
    else if data_type is "masters"
    then master_by_artist ∷ master_in_genre ∷ master_in_style ∷ []
    else if data_type is "releases"
    then by_artist ∷ on_label ∷ derived_from ∷ in_genre ∷ in_style ∷ credited_on ∷ credited_to
      ∷ issued_on ∷ track_credited_on ∷ track_by_artist ∷ []
    else []

-- `stale` is the ids of the entity rows that the purge is about to remove
unfoldable pub purge_edges : List Edge → List Text → Tables → Tables
unfolding execute
purge_edges [] stale t = t
purge_edges (e ∷ es) stale t =
    purge_edges es stale (set_edge e (keep (λ r. not (reached e stale r)) (t.edges e)) t)

unfoldable pub purge_document_graph : String → List Text → Tables → Tables
unfolding purge_scope purge_edges
purge_document_graph data_type stale = purge_edges (purge_scope data_type) stale
