-- ===== src/Common.antt =====
-- The functions of the shared `common` package, and the one table of Python's Unicode data, that the
-- loader calls and this repository does not hold. They are a parameter of all that uses them.
use discogs_sql_loader.Prelude.{Bool, List, Option}
use discogs_sql_loader.Text.{Text}
use discogs_sql_loader.Json.{Json, Fields}

pub record Common : Type 0 where
  -- `common.person_names.strip_person_name`
  pub strip_person_name : Text → Text
  -- `common.media.medium_label`, `none` where it raises `KeyError`
  pub medium_label : Text → Option Text
  -- `common.media.map_discogs_formats`
  pub map_discogs_formats : List Json → Fields
  -- `common.media.legacy_format_names_to_media`
  pub legacy_format_names_to_media : List Text → Fields
  -- `common.media.flatten_descriptions`
  pub flatten_descriptions : Json → List Text
  -- `str.casefold`
  pub casefold : Text → Text
  -- `str` of a float, a list or a mapping, and whether a float's literal is zero
  pub repr : Json → Text
  pub float_is_zero : Text → Bool
