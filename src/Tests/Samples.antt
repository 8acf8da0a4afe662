-- ===== src/Tests/Samples.antt =====
-- The documents and tables that the tests run on.
use discogs_sql_loader.Prelude.{ℕ, String, false, List, [], ◌∷◌, some}
use discogs_sql_loader.Text.{codes}
use discogs_sql_loader.Json.{Json, str, int, arr, obj, pos, Fields, field, end, items_of}
use discogs_sql_loader.Common.{Common}
use discogs_sql_loader.Graph.{text, Row, Edge, by_artist}
use discogs_sql_loader.Graph.Writer.{Tables, Keys}

-- one concrete reading of the external functions
abbrev pub common : Common
common = record {
  strip_person_name = λ s. s;
  medium_label = λ s. some s;
  map_discogs_formats = λ fs. end;
  legacy_format_names_to_media = λ names. end;
  flatten_descriptions = λ j. [];
  casefold = λ s. s;
  repr = λ j. [];
  float_is_zero = λ s. false;
}

abbrev pub text_json : String → Json
text_json s = str (codes s)

abbrev pub list_json : List Json → Json
list_json js = arr (items_of js)

-- `{"id": n}`
abbrev pub reference : ℕ → Json
reference n = obj (field "id" (int (pos n)) end)

-- a release by the artists 5 and, with its id as text, 6
abbrev pub release : Fields
release =
    field "artists" (list_json (reference 5 ∷ obj (field "id" (text_json " 6 ") end) ∷ [])) end

-- the artist that has 7 for a member and belongs to 9
abbrev pub artist : Fields
artist =
    field "members" (list_json (reference 7 ∷ []))
      (field "groups" (list_json (reference 9 ∷ [])) end)

abbrev pub pair : String → String → Row
pair a b = text (codes a) ∷ text (codes b) ∷ []

-- release 1 by the artists 4 and 5, and release 2 by the artist 4
abbrev pub by_artist_table : List Row
by_artist_table = pair "1" "4" ∷ pair "1" "5" ∷ pair "2" "4" ∷ []

abbrev by_artist_only : Edge → List Row
by_artist_only by_artist = by_artist_table
by_artist_only _ = []

abbrev pub tables : Tables
tables = record { vertices = λ v. []; edges = by_artist_only }

-- every column stands in the unique index
abbrev pub keys : Keys
keys = record { vertex_key = λ v r. r; edge_key = λ e r. r }
