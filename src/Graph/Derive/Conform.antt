-- ===== src/Graph/Derive/Conform.antt =====
-- Every row that a document asserts fits its relation, and belongs to the document where the
-- relation is one that documents replace.
use discogs_sql_loader.Prelude.{String, Bool, true, List, ◌≡◌, refl, arith, some, contains, all}
use discogs_sql_loader.Text.{Text}
use discogs_sql_loader.Json.{Fields, get}
use discogs_sql_loader.Common.{Common}
use discogs_sql_loader.Graph.{
  Edge, Edge-discrete, by_artist, on_label, derived_from, in_genre, in_style, master_by_artist,
  master_in_genre, master_in_style, member_of, alias_of, credited_on, same_as, credited_to,
  issued_on, track_credited_on, track_by_artist, rows_of, document_scope,
}
use discogs_sql_loader.Graph.Credits.{Credit, credits, Placed, track_credits}
use discogs_sql_loader.Graph.Derive.{
  derive_artist, derive_master, derive_release, derive_document, unique, same_as_rows,
}
use discogs_sql_loader.Graph.Derive.Shapes.{
  conforms, Conform, Conform-put, Conform-unique, Conform-append, pairs-Conform, pairs_to-Conform,
  credited_on-Conform, track_credits-Conform, track_artists-Conform, issued_on-Conform,
  credited_to-Conform, master_rows-Conform, resolved-Conform, empty-Conform,
}

module _ (data_id : Text) where
  artist-Conform :
      (data' : Fields) (e : Edge)
      → Conform data_id e (rows_of Edge-discrete e (derive_artist data_id data').edges)
  unfolding derive_artist
  artist-Conform data' e =
      Conform-put data_id member_of e _ _
        (Conform-unique data_id (
          Conform-append data_id (pairs_to-Conform data_id member_of _ refl)
            (pairs-Conform data_id member_of _ refl)))
        (Conform-put data_id alias_of e _ _
          (Conform-unique data_id (pairs_to-Conform data_id alias_of _ refl))
          (empty-Conform data_id e))

  master-Conform :
      (data' : Fields) (e : Edge)
      → Conform data_id e (rows_of Edge-discrete e (derive_master data_id data').edges)
  unfolding derive_master
  master-Conform data' e =
      Conform-put data_id master_by_artist e _ _ (pairs-Conform data_id master_by_artist _ refl) (
        Conform-put data_id master_in_genre e _ _ (pairs-Conform data_id master_in_genre _ refl) (
          Conform-put data_id master_in_style e _ _ (pairs-Conform data_id master_in_style _ refl)
            (empty-Conform data_id e)))

  same_as-Conform :
      (cs : List Credit) (ts : List (Placed Credit))
      → Conform data_id same_as (unique (same_as_rows cs ts))
  same_as-Conform cs ts = Conform-unique data_id (
      Conform-append data_id (resolved-Conform data_id (λ c. c) cs)
        (resolved-Conform data_id (λ t. t.item) ts))

  release-Conform :
      (common : Common) (data' : Fields) (e : Edge)
      → Conform data_id e (rows_of Edge-discrete e (derive_release common data_id data').edges)
  unfolding derive_release
  release-Conform common data' e =
      Conform-put data_id by_artist e _ _ (pairs-Conform data_id by_artist _ refl) (
        Conform-put data_id on_label e _ _ (pairs-Conform data_id on_label _ refl) (
          Conform-put data_id derived_from e _ _ (master_rows-Conform data_id _) (
            Conform-put data_id in_genre e _ _ (pairs-Conform data_id in_genre _ refl) (
              Conform-put data_id in_style e _ _ (pairs-Conform data_id in_style _ refl) (
                Conform-put data_id credited_on e _ _
                  (Conform-unique data_id (credited_on-Conform data_id _))
                  (Conform-put data_id same_as e _ _
                    (same_as-Conform (credits common (get "extraartists" data'))
                      (track_credits common (get "tracklist" data')))
                    (Conform-put data_id issued_on e _ _ (issued_on-Conform data_id _) (
                      Conform-put data_id credited_to e _ _ (credited_to-Conform data_id _) (
                        Conform-put data_id track_credited_on e _ _
                          (Conform-unique data_id (track_credits-Conform data_id _))
                          (Conform-put data_id track_by_artist e _ _
                            (Conform-unique data_id (track_artists-Conform data_id _))
                            (empty-Conform data_id e)))))))))))

  -- Whatever the document, every row it asserts of an edge relation has one value for each column
  -- of the relation; and if documents replace the relation, the row names this document (and, where
  -- the relation is shared, this source) where the scoped delete looks.
  pub derived_conform :
      (common : Common) (data_type : String) (data' : Fields) (e : Edge)
      → all
          (conforms e data_id)
          (rows_of Edge-discrete e (derive_document common data_type data_id data').edges)
        ≡ true
  unfolding derive_document
  derived_conform common data_type data' e = ground (
    arith,
    (artist-Conform data' e).holds,
    (master-Conform data' e).holds,
    (release-Conform common data' e).holds,
    (empty-Conform data_id e).holds,
  )

-- Every relation that a document replaces has a document scope, so the scoped delete never looks up
-- one that has none; `member_of` and `same_as` are never replaced.
pub replaced-scoped :
    (common : Common) (data_type : String) (data_id : Text) (data' : Fields) (e : Edge)
    → contains Edge-discrete e (derive_document common data_type data_id data').replaced ≡ true
    → (scope : String × Bool) × (document_scope e ≡ some scope)
unfolding derive_document derive_artist derive_master derive_release contains document_scope
    Edge-discrete
replaced-scoped common data_type data_id data' by_artist h = (_, refl)
replaced-scoped common data_type data_id data' member_of h = ground arith
replaced-scoped common data_type data_id data' same_as h = ground arith
replaced-scoped common data_type data_id data' _ h = (_, refl)
