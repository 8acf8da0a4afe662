-- ===== src/Media.antt =====
-- tableinator/media.py: the canonical media block of a release.
use discogs_sql_loader.Prelude.{List, [], ◌∷◌, ◌++◌, if◌then◌else◌, all}
use discogs_sql_loader.Text.{Text}
use discogs_sql_loader.Json.{Json, str, arr, obj, Fields, get, elements_of, is_dict}
use discogs_sql_loader.Common.{Common}

abbrev name_in : Json → List Text
name_in (str s) = s ∷ []
name_in _ = []

unfoldable pub flatten_formats : Common → List Json → List Text
flatten_formats common [] = []
flatten_formats common (obj fs ∷ entries) =
    name_in (get "name" fs)
    ++ (common.flatten_descriptions (get "descriptions" fs) ++ flatten_formats common entries)
flatten_formats common (_ ∷ entries) = flatten_formats common entries

abbrev of_formats : Common → Json → Fields
of_formats common (arr js) =
    if all is_dict (elements_of js)
    then common.map_discogs_formats (elements_of js)
    else common.legacy_format_names_to_media (flatten_formats common (elements_of js))
of_formats common _ = common.legacy_format_names_to_media (flatten_formats common [])

abbrev of_media : Common → Json → Json → Fields
of_media common (obj block) formats = block
of_media common _ formats = of_formats common formats

unfoldable pub media_for_release : Common → Fields → Fields
unfolding flatten_formats
media_for_release common data' = of_media common (get "media" data') (get "formats" data')
