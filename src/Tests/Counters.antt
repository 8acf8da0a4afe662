-- ===== src/Tests/Counters.antt =====
-- Runs of the sweep: memberships that nobody asserts any more, and a credit on a track.
use discogs_sql_loader.Prelude.{
  true, false, List, [], ◌∷◌, ◌≡◌, refl, contains, from_keys, add_keys, add_key, arith,
}
use discogs_sql_loader.Text.{Text-discrete, codes, strip}
use discogs_sql_loader.Json.{obj, Fields, field, end}
use discogs_sql_loader.Graph.{Row-discrete, Edge-discrete, put, rows_of}
use discogs_sql_loader.Graph.Ids.{element_ids, entity_id, tag_names}
use discogs_sql_loader.Graph.Credits.{credits, track_credits}
use discogs_sql_loader.Graph.Derive.{derive_document, derive_release}
use discogs_sql_loader.Counters.{
  memberships, identities, Document, all_rows, reconcile_additive_edges,
}
use discogs_sql_loader.Counters.Asserted.{candidates}
use discogs_sql_loader.Counters.Sweep.{reconcile-asserted, member_of-reconciled, same_as-emptied}
use discogs_sql_loader.Durable.Version.{text_lt}
use discogs_sql_loader.Tests.Samples.{common, text_json, list_json, artist, pair}

-- the artist 8, and one without memberships
abbrev first_artist : Document
first_artist = record { data_id = codes "8"; body = obj artist }

abbrev artists : List Document
artists = record { data_id = codes "9"; body = obj end } ∷ []

abbrev credit_on_track : Fields
credit_on_track =
    field "name" (text_json "Bob")
      (field "role" (text_json "Bass") (field "id" (text_json "12") end))

-- a release whose only credit is on its track
abbrev release_with_track : Document
release_with_track = record {
  data_id = codes "1";
  body = obj (
      field "tracklist"
        (list_json (obj (field "extraartists" (list_json (obj credit_on_track ∷ [])) end) ∷ []))
        end);
}

reconcile-asserted_example :
    contains Row-discrete
      (pair "5" "6")
      (reconcile_additive_edges common memberships 1 (first_artist ∷ artists) (pair "5" "6" ∷ []))
    ≡ contains Row-discrete
        (pair "5" "6")
        (all_rows common memberships (candidates memberships (first_artist ∷ artists)))
unfolding text_lt
reconcile-asserted_example =
    reconcile-asserted common memberships 1 first_artist artists (pair "5" "6" ∷ []) (pair "5" "6")
      (omega arith) refl refl

member_of-reconciled_example :
    contains Row-discrete
      (pair "7" "8")
      (reconcile_additive_edges common memberships 1 (first_artist ∷ artists) (pair "5" "6" ∷ []))
    ≡ contains Row-discrete (pair "7" "8") (all_rows common memberships (first_artist ∷ artists))
unfolding text_lt
member_of-reconciled_example =
    member_of-reconciled common 1 first_artist artists (pair "5" "6" ∷ []) (pair "7" "8")
      (omega arith) refl refl

same_as-emptied_example :
    contains Row-discrete (pair "Bob" "12") (
      reconcile_additive_edges common identities 2000
        (release_with_track ∷ [])
        (pair "Bob" "12" ∷ []))
    ≡ false
unfolding text_lt contains rows_of derive_document derive_release put element_ids from_keys add_keys
    entity_id tag_names credits track_credits strip Text-discrete add_key Edge-discrete Row-discrete
same_as-emptied_example =
    same_as-emptied common 2000 release_with_track [] (pair "Bob" "12" ∷ []) (pair "Bob" "12")
      (omega arith) refl refl refl

-- the row that goes is one that the release asserts
same_as_asserted :
    contains Row-discrete (pair "Bob" "12") (all_rows common identities (release_with_track ∷ []))
    ≡ true
unfolding contains rows_of derive_document derive_release put element_ids from_keys add_keys
    entity_id tag_names credits track_credits strip Text-discrete add_key Edge-discrete Row-discrete
same_as_asserted = refl
