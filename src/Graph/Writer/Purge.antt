-- ===== src/Graph/Writer/Purge.antt =====
-- `purge_document_graph`: the edges of the documents that the stale-row purge is about to remove.
use discogs_sql_loader.Prelude.{
  String, Bool, true, false, not, ◌&&◌, ◌||◌, List, [], ◌∷◌, ◌≡◌, ◌∙◌, arith, if◌then◌else◌, same,
  contains, keep,
}
use discogs_sql_loader.Text.{Text}
use discogs_sql_loader.Json.{Fields}
use discogs_sql_loader.Common.{Common}
use discogs_sql_loader.Graph.{Row, Row-discrete, Edge, Edge-discrete, by_artist}
use discogs_sql_loader.Graph.Derive.{derive_artist, derive_master, derive_release, derive_document}
use discogs_sql_loader.Graph.Writer.{
  Tables, reached, purge_scope, purge_edges, purge_document_graph,
}
use discogs_sql_loader.Graph.Writer.Inserts.{contains-keep}

module _ (e : Edge) (stale : List Text) (r : Row) where
  abbrev swept : List Edge → Bool
  swept es = contains Edge-discrete e es && reached e stale r

  contains-purge_edges :
      (es : List Edge) (t : Tables)
      → contains Row-discrete r ((purge_edges es stale t).edges e)
        ≡ (contains Row-discrete r (t.edges e) && not (swept es))
  unfolding purge_edges contains
  contains-purge_edges [] t = ground arith
  contains-purge_edges (f ∷ es) t = contains-purge_edges es _ ∙ step
    where
      step :
          (contains Row-discrete r (
              if same Edge-discrete f e
              then keep (λ q. not (reached f stale q)) (t.edges f)
              else t.edges e)
            && not (swept es))
          ≡ (contains Row-discrete r (t.edges e)
              && not ((same Edge-discrete e f || contains Edge-discrete e es) && reached e stale r))
      step = ground (arith, contains-keep Row-discrete (λ q. not (reached f stale q)) r (t.edges f))

-- what a document of the type may replace, a purge of the type sweeps
replaced_is_swept :
    (common : Common) (data_type : String) (data_id : Text) (data' : Fields) (e : Edge)
    → contains Edge-discrete e (derive_document common data_type data_id data').replaced ≡ true
    → contains Edge-discrete e (purge_scope data_type) ≡ true
unfolding derive_document derive_artist derive_master derive_release purge_scope contains
    Edge-discrete
replaced_is_swept common data_type data_id data' by_artist h = ground arith
replaced_is_swept common data_type data_id data' _ h = ground arith

-- After a purge a relation holds the rows that it held before but, where it is in the data type's scope,
-- those of the stale documents.
pub purge_sweeps :
    (data_type : String) (stale : List Text) (t : Tables) (e : Edge) (r : Row)
    → contains Row-discrete r ((purge_document_graph data_type stale t).edges e) ≡ (
        contains Row-discrete r (t.edges e)
        && not (contains Edge-discrete e (purge_scope data_type) && reached e stale r))
unfolding purge_document_graph
purge_sweeps data_type stale t e r = contains-purge_edges e stale r (purge_scope data_type) t

-- Once the documents are purged, no relation that a document of their type replaces holds a row of
-- them.
pub purge_leaves_none :
    (common : Common) (data_type : String) (data_id : Text) (data' : Fields) (stale : List Text)
    (t : Tables) (e : Edge) (r : Row)
    → contains Edge-discrete e (derive_document common data_type data_id data').replaced ≡ true
    → reached e stale r ≡ true
    → contains Row-discrete r ((purge_document_graph data_type stale t).edges e) ≡ false
purge_leaves_none common data_type data_id data' stale t e r h k = ground (
  arith,
  purge_sweeps data_type stale t e r,
  replaced_is_swept common data_type data_id data' e h,
)
