-- ===== src/Tests/Graph.antt =====
-- Runs of the graph writer.
use discogs_sql_loader.Prelude.{
  true, false, not, ◌&&◌, ◌||◌, List, [], ◌∷◌, ◌≡◌, refl, ap, same, contains, add_keys, add_key,
  from_keys, all,
}
use discogs_sql_loader.Text.{Text, strip, Text-discrete, codes}
use discogs_sql_loader.Graph.{Row-discrete, Edge-discrete, put, by_artist, member_of, rows_of}
use discogs_sql_loader.Graph.Ids.{element_ids, tag_names, entity_id, int_text}
use discogs_sql_loader.Text.Decimal.{decimal}
use discogs_sql_loader.Media.{media_for_release}
use discogs_sql_loader.Graph.Credits.{credits, track_credits, track_performers}
use discogs_sql_loader.Graph.MediaRows.{media_rows}
use discogs_sql_loader.Graph.Derive.{derive_artist, derive_document, derive_release}
use discogs_sql_loader.Graph.Derive.Conform.{derived_conform}
use discogs_sql_loader.Graph.Derive.Shapes.{conforms}
use discogs_sql_loader.Graph.Derive.Membership.{member_of_rows}
use discogs_sql_loader.Graph.Writer.{
  reached, execute, write_document_graph, purge_document_graph, purge_scope, derive_all,
  replaced_ids,
}
use discogs_sql_loader.Graph.Order.{sort, edge_le}
use discogs_sql_loader.Graph.Writer.Scope.{replaced_exactly, others_kept, replacing, asserted}
use discogs_sql_loader.Graph.Writer.Purge.{purge_sweeps, purge_leaves_none}
use discogs_sql_loader.Json.{get, Fields}
use discogs_sql_loader.Tests.Samples.{common, release, artist, pair, tables, keys}

abbrev documents : List (Text × Fields)
documents = (codes "1", release) ∷ []

-- the rows of the release after its redelivery: 4 is gone, 5 stays, 6 is new
rewritten :
    (write_document_graph common keys "releases" documents tables).edges by_artist
    ≡ pair "2" "4" ∷ pair "1" "5" ∷ pair "1" "6" ∷ []
unfolding write_document_graph add_keys derive_document derive_release put tag_names from_keys
    credits track_credits media_rows media_for_release contains Edge-discrete element_ids entity_id
    int_text decimal Text-discrete strip add_key Row-discrete track_performers execute sort edge_le
rewritten = refl

reached_by_release :
    reached by_artist (replacing common keys "releases" documents by_artist) (pair "1" "4") ≡ true
unfolding reached replaced_ids derive_all derive_document derive_release contains Edge-discrete
    Text-discrete
reached_by_release = refl

replaced_exactly_example :
    contains Row-discrete
      (pair "1" "4")
      ((write_document_graph common keys "releases" documents tables).edges by_artist)
    ≡ contains Row-discrete (pair "1" "4") (asserted common keys "releases" documents by_artist)
replaced_exactly_example =
    replaced_exactly common keys "releases" documents by_artist tables (pair "1" "4")
      (λ ids q r h. ap (reached by_artist ids) h) (λ q r hq hr h. h) reached_by_release

out_of_reach :
    reached by_artist (replacing common keys "releases" documents by_artist) (pair "2" "4") ≡ false
unfolding reached replaced_ids derive_all derive_document derive_release contains Edge-discrete
    Text-discrete
out_of_reach = refl

others_kept_example :
    contains Row-discrete
      (pair "2" "4")
      ((write_document_graph common keys "releases" documents tables).edges by_artist)
    ≡ (contains Row-discrete (pair "2" "4") (tables.edges by_artist)
        || contains Row-discrete
            (pair "2" "4")
            (asserted common keys "releases" documents by_artist)
          && contains Row-discrete
              (pair "2" "4")
              ((write_document_graph common keys "releases" documents tables).edges by_artist))
others_kept_example =
    others_kept common keys "releases" documents by_artist tables (pair "2" "4") out_of_reach

derived_conform_example :
    all (conforms by_artist (codes "1")) (
      rows_of Edge-discrete by_artist (derive_document common "releases" (codes "1") release).edges)
    ≡ true
derived_conform_example = derived_conform (codes "1") common "releases" release by_artist

replaces_by_artist :
    contains Edge-discrete by_artist
      (derive_document common "releases" (codes "1") release).replaced
    ≡ true
unfolding derive_document derive_release contains Edge-discrete
replaces_by_artist = refl

member_of_rows_example :
    contains Row-discrete
      (pair "8" "9")
      (rows_of Edge-discrete member_of (derive_artist (codes "8") artist).edges)
    ≡ (same Text-discrete (codes "9") (codes "8")
          && contains Text-discrete (codes "8") (element_ids (get "members" artist))
        || same Text-discrete (codes "8") (codes "8")
          && contains Text-discrete (codes "9") (element_ids (get "groups" artist)))
member_of_rows_example = member_of_rows (codes "8") (codes "9") (codes "8") artist

purge_sweeps_example :
    contains Row-discrete
      (pair "1" "4")
      ((purge_document_graph "releases" (codes "1" ∷ []) tables).edges by_artist)
    ≡ (contains Row-discrete (pair "1" "4") (tables.edges by_artist)
        && not (
            contains Edge-discrete by_artist (purge_scope "releases")
            && reached by_artist (codes "1" ∷ []) (pair "1" "4")))
purge_sweeps_example = purge_sweeps "releases" (codes "1" ∷ []) tables by_artist (pair "1" "4")

reached_by_purge : reached by_artist (codes "1" ∷ []) (pair "1" "4") ≡ true
unfolding reached contains Text-discrete
reached_by_purge = refl

purge_leaves_none_example :
    contains Row-discrete
      (pair "1" "4")
      ((purge_document_graph "releases" (codes "1" ∷ []) tables).edges by_artist)
    ≡ false
purge_leaves_none_example =
    purge_leaves_none common "releases" (codes "1") release (codes "1" ∷ []) tables by_artist
      (pair "1" "4") replaces_by_artist reached_by_purge
