-- ===== src/Tests/Rows.antt =====
-- Runs of what one document is read for: ids, media, companies and tracklists.
use discogs_sql_loader.Prelude.{
  contains, String, true, ℕ, ◌≡◌, ◌↔◌, refl, distinct, [], ◌∷◌, some, none,
}
use discogs_sql_loader.Prelude.Members.{In}
use discogs_sql_loader.Text.{Text, Text-discrete, codes}
use discogs_sql_loader.Text.Decimal.{decimal}
use discogs_sql_loader.Json.{Json, Fields, field, end, int, pos, str, obj, get}
use discogs_sql_loader.Graph.Ids.{quantity, elements, xmltodict_array}
use discogs_sql_loader.Graph.Credits.{
  Credit, Placed, track_credits, track_performers, credits_on, performers_on,
}
use discogs_sql_loader.Graph.Credits.Placement.{
  OnTracklist, track_credits-placed, track_performers-placed,
}
use discogs_sql_loader.Graph.MediaRows.{media_rows, company_rows, company_identity}
use discogs_sql_loader.Graph.MediaRows.Media.{media_rows-merge, mediums, is_named, qty_of, total_of}
use discogs_sql_loader.Graph.MediaRows.Companies.{
  company_rows-first, company_identity-decimal, companies_distinct, find_company, named_items,
}
use discogs_sql_loader.Tests.Samples.{common, text_json, list_json, reference}

-- two CDs in two items, and a DVD
abbrev item : String → ℕ → Json
item medium n = obj (
    field "medium" (text_json medium)
      (field "family" (text_json "optical") (field "qty" (int (pos n)) end)))

abbrev block : Fields
block = field "items" (list_json (item "cd" 1 ∷ item "dvd" 1 ∷ item "cd" 1 ∷ [])) end

total : total_of (codes "cd") (elements (get "items" block)) ≡ 2
unfolding total_of elements Text-discrete quantity
total = refl

media_rows-merge_example :
    (distinct Text-discrete (mediums (media_rows common block)) ≡ true)
    × (contains Text-discrete (codes "cd") (mediums (media_rows common block))
        ≡ is_named (codes "cd") (elements (get "items" block)))
    × (qty_of (codes "cd") (media_rows common block)
        ≡ total_of (codes "cd") (elements (get "items" block)))
media_rows-merge_example = media_rows-merge common block (codes "cd")

-- one company in one role twice, with its id as a number and as text
abbrev pressed : Json → Fields
pressed id =
    field "discogs_id" id
      (field "name" (text_json "Pallas") (field "role" (text_json "Pressed By") end))

abbrev companies : Fields
companies =
    field "items" (list_json (obj (pressed (int (pos 12))) ∷ obj (pressed (str (decimal 12))) ∷ []))
      end

company_rows-first_example :
    (companies_distinct (company_rows common companies) ≡ true)
    × (find_company (codes "12") (codes "Pressed By") (company_rows common companies)
        ≡ find_company (codes "12") (codes "Pressed By") (
            named_items
              (codes "12")
              (codes "Pressed By")
              common
              (elements (get "items" companies))))
company_rows-first_example = company_rows-first common companies (codes "12") (codes "Pressed By")

company_identity-decimal_example :
    company_identity common (pressed (int (pos 12)))
    ≡ company_identity common (pressed (str (decimal 12)))
company_identity-decimal_example =
    company_identity-decimal common (pressed (int (pos 12))) (pressed (str (decimal 12))) 12 refl
      refl refl

-- a track with a sub-track that has a performer
abbrev tracklist : Json
tracklist = list_json (
    obj (
      field "position" (text_json "A1") (
        field "sub_tracks"
          (list_json (
            obj (
              field "position" (text_json "A1.a") (
                field "artists" (list_json (reference 5 ∷ [])) (
                  field "extraartists"
                    (list_json (
                      obj (field "name" (text_json "Ann") (field "role" (text_json "Bass") end))
                      ∷ []))
                    end)))
            ∷ []))
          end))
    ∷ [])

abbrev performer : Placed Text
performer = record { track = 1; sub = 1; position = some (codes "A1.a"); item = codes "5" }

abbrev credited : Placed Credit
credited = record {
  track = 1;
  sub = 1;
  position = some (codes "A1.a");
  item = record { name = codes "Ann"; role = codes "Bass"; artist_id = none };
}

track_performers-placed_example :
    In performer (track_performers tracklist)
    ↔ OnTracklist performers_on (xmltodict_array tracklist "track") performer
track_performers-placed_example = track_performers-placed tracklist performer

track_credits-placed_example :
    In credited (track_credits common tracklist)
    ↔ OnTracklist (credits_on common) (xmltodict_array tracklist "track") credited
track_credits-placed_example = track_credits-placed common tracklist credited
