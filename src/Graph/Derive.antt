-- ===== src/Graph/Derive.antt =====
-- `derive_document`, `derive_artist`, `derive_master` and `derive_release` of
-- tableinator/graph_derivation.py. The rows of a relation are put in the order of the source.
pub mod Shapes
pub mod Conform
pub mod Membership
use discogs_sql_loader.Prelude.{
  String, List, [], ◌∷◌, ◌++◌, Option, none, some, ◌is◌, if◌then◌else◌, map, from_keys,
}
use discogs_sql_loader.Text.{Text}
use discogs_sql_loader.Json.{Json, obj, Fields, get}
use discogs_sql_loader.Common.{Common}
use discogs_sql_loader.Media.{media_for_release}
use discogs_sql_loader.Graph.{
  Cell, missing, text, bigint, Row, Row-discrete, Vertex, genre, style, person, media_family,
  medium, company, Edge, by_artist, on_label, derived_from, in_genre, in_style, master_by_artist,
  master_in_genre, master_in_style, member_of, alias_of, credited_on, same_as, credited_to,
  issued_on, track_credited_on, track_by_artist, discogs_source, put, Vertex-discrete,
  Edge-discrete, DocumentGraph,
}
use discogs_sql_loader.Graph.Ids.{element_ids, entity_id, tag_names, present}
use discogs_sql_loader.Graph.Credits.{Credit, credits, Placed, track_credits, track_performers}
use discogs_sql_loader.Graph.MediaRows.{
  MediumRow, media_rows, CompanyRow, company_rows, discogs_label_id,
}

abbrev cell : Option Text → Cell
cell none = missing
cell (some s) = text s

-- `_unique`
abbrev pub unique : List Row → List Row
unique = from_keys Row-discrete

-- the rows `(value,)`, `(data_id, value)` and `(value, data_id)`
abbrev names : List Text → List Row
names = map (λ s. text s ∷ [])

abbrev pub pairs : Text → List Text → List Row
pairs data_id = map (λ s. text data_id ∷ text s ∷ [])

abbrev pub pairs_to : Text → List Text → List Row
pairs_to data_id = map (λ s. text s ∷ text data_id ∷ [])

unfoldable pub derive_artist : Text → Fields → DocumentGraph
derive_artist data_id data' =
    let members = pairs_to data_id (element_ids (get "members" data')) in
    let groups = pairs data_id (element_ids (get "groups" data')) in
    let aliases = pairs_to data_id (element_ids (get "aliases" data')) in
    record {
      vertices = [];
      edges =
          put Edge-discrete member_of (unique (members ++ groups))
            (put Edge-discrete alias_of (unique aliases) []);
      replaced = alias_of ∷ [];
    }

unfoldable pub derive_master : Text → Fields → DocumentGraph
derive_master data_id data' =
    let genres = tag_names (get "genres" data') in
    let styles = tag_names (get "styles" data') in
    record {
      vertices =
          put Vertex-discrete genre (names genres) (put Vertex-discrete style (names styles) []);
      edges =
          put Edge-discrete master_by_artist (pairs data_id (element_ids (get "artists" data'))) (
            put Edge-discrete master_in_genre (pairs data_id genres)
              (put Edge-discrete master_in_style (pairs data_id styles) []));
      replaced = master_by_artist ∷ master_in_genre ∷ master_in_style ∷ [];
    }

-- the rows that one release asserts of each relation, from what was read of it
abbrev person_names : List Credit → List (Placed Credit) → List Row
person_names cs ts = map (λ c. text c.name ∷ []) cs ++ map (λ t. text t.item.name ∷ []) ts

abbrev resolved : Credit → Option Row
resolved c = elim c.artist_id [ none ↦ none | some id ↦ some (text c.name ∷ text id ∷ []) ]

abbrev same_as_rows : List Credit → List (Placed Credit) → List Row
same_as_rows cs ts = present (map resolved cs) ++ present (map (λ t. resolved t.item) ts)

abbrev credited_on_rows : Text → List Credit → List Row
credited_on_rows data_id = map (λ c. text c.name ∷ text data_id ∷ text c.role ∷ [])

abbrev track_credit_rows : Text → List (Placed Credit) → List Row
track_credit_rows data_id = map (λ t.
    text t.item.name
    ∷ text data_id
    ∷ bigint t.track
    ∷ bigint t.sub
    ∷ cell t.position
    ∷ text t.item.role
    ∷ [])

abbrev track_artist_rows : Text → List (Placed Text) → List Row
track_artist_rows data_id =
    map (λ t. text data_id ∷ bigint t.track ∷ bigint t.sub ∷ cell t.position ∷ text t.item ∷ [])

abbrev issued_on_rows : Text → List MediumRow → List Row
issued_on_rows data_id =
    map (λ m. text data_id ∷ text m.medium ∷ text discogs_source ∷ bigint m.qty ∷ [])

abbrev credited_to_rows : Text → List CompanyRow → List Row
credited_to_rows data_id = map (λ c.
    text data_id ∷ text c.company_id ∷ text c.role ∷ text c.category ∷ text discogs_source ∷ [])

abbrev master_rows : Text → Option Text → List Row
master_rows data_id none = []
master_rows data_id (some master_id) = (text data_id ∷ text master_id ∷ []) ∷ []

abbrev companies_in : Common → Json → List CompanyRow
companies_in common (obj block) = company_rows common block
companies_in common _ = []

-- what every release replaces
abbrev release_relations : List Edge
release_relations =
    by_artist ∷ on_label ∷ derived_from ∷ in_genre ∷ in_style ∷ credited_on ∷ issued_on
    ∷ track_credited_on ∷ track_by_artist ∷ []

-- a release that is silent about companies leaves `credited_to` as it is
abbrev release_replaced : Json → List Edge
release_replaced (obj block) = credited_to ∷ release_relations
release_replaced _ = release_relations

abbrev release_vertices :
    List Text
    → List Text
    → List Credit
    → List (Placed Credit)
    → List MediumRow
    → List CompanyRow
    → List (Vertex × List Row)
release_vertices genres styles cs ts media companies = put Vertex-discrete genre (names genres) (
    put Vertex-discrete style (names styles) (
      put Vertex-discrete person (unique (person_names cs ts)) (
        put Vertex-discrete media_family (unique (map (λ m. text m.family ∷ []) media)) (
          put Vertex-discrete medium
            (map (λ m. text m.medium ∷ text m.family ∷ text m.label ∷ []) media)
            (put Vertex-discrete company
              (map
                (λ c. text c.company_id ∷ text c.name ∷ cell (discogs_label_id c.company_id) ∷ [])
                companies)
              [])))))

unfoldable pub derive_release : Common → Text → Fields → DocumentGraph
derive_release common data_id data' =
    let genres = tag_names (get "genres" data') in
    let styles = tag_names (get "styles" data') in
    let cs = credits common (get "extraartists" data') in
    let ts = track_credits common (get "tracklist" data') in
    let performers = track_performers (get "tracklist" data') in
    let media = media_rows common (media_for_release common data') in
    let companies = companies_in common (get "companies" data') in
    let artists = element_ids (get "artists" data') in
    let labels = element_ids (get "labels" data') in
    let master_id = entity_id (get "master_id" data') in
    record {
      vertices = release_vertices genres styles cs ts media companies;
      edges = put Edge-discrete by_artist (pairs data_id artists) (
          put Edge-discrete on_label (pairs data_id labels) (
            put Edge-discrete derived_from (master_rows data_id master_id) (
              put Edge-discrete in_genre (pairs data_id genres) (
                put Edge-discrete in_style (pairs data_id styles) (
                  put Edge-discrete credited_on (unique (credited_on_rows data_id cs)) (
                    put Edge-discrete same_as (unique (same_as_rows cs ts)) (
                      put Edge-discrete issued_on (issued_on_rows data_id media) (
                        put Edge-discrete credited_to (credited_to_rows data_id companies) (
                          put Edge-discrete track_credited_on
                            (unique (track_credit_rows data_id ts))
                            (put Edge-discrete track_by_artist
                              (unique (track_artist_rows data_id performers)) []))))))))));
      replaced = release_replaced (get "companies" data');
    }

abbrev pub no_rows : DocumentGraph
no_rows = record { vertices = []; edges = []; replaced = [] }

unfoldable pub derive_document : Common → String → Text → Fields → DocumentGraph
derive_document common data_type data_id data' =
    if data_type is "artists"
    then derive_artist data_id data'
    else if data_type is "masters"
    then derive_master data_id data'
    else if data_type is "releases"
    then derive_release common data_id data'
    else no_rows
