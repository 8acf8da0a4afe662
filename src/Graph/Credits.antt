-- ===== src/Graph/Credits.antt =====
-- `_credits`, `_track_position`, `_track_credits` and `_track_performers` of
-- tableinator/graph_derivation.py.
pub mod Placement
use discogs_sql_loader.Prelude.{ℕ, List, [], ◌∷◌, ◌++◌, Option, none, some, map, suc}
use discogs_sql_loader.Text.{Text}
use discogs_sql_loader.Json.{Json, str, obj, Fields, get, get_or}
use discogs_sql_loader.Common.{Common}
use discogs_sql_loader.Graph.Ids.{dicts, elements, entity_id, ids_of_dicts, xmltodict_array}

pub record Credit : Type 0 where
  pub name : Text
  pub role : Text
  pub artist_id : Option Text

-- what one entry of `extraartists` comes to
pub data Entry : Type 0 where
  unusable : Entry
  -- a name that is all padding, which is counted and logged
  padded : Entry
  credit : Credit → Entry

abbrev named : Text → Credit → Entry
named [] c = padded
named (_ ∷ _) c = credit c

-- by the name, the role and the id of the entry
abbrev usable : Common → Json → Json → Json → Entry
usable common (str (c ∷ s)) (str (r ∷ role)) id =
    let name = common.strip_person_name (c ∷ s) in
    named name (record { name = name; role = r ∷ role; artist_id = entity_id id })
usable common _ _ id = unusable

unfoldable pub read_entry : Common → Fields → Entry
read_entry common element =
    usable common (get "name" element) (get_or "role" (str []) element) (get "id" element)

-- the loop of `_credits`: the credits, and `padding_only`
unfoldable pub read_entries : Common → List Fields → List Credit × ℕ
unfolding read_entry
read_entries common [] = ([], 0)
read_entries common (element ∷ rest) =
    let (credits, padding_only) = read_entries common rest in
    elim (read_entry common element) [
      | unusable ↦ (credits, padding_only)
      | padded ↦ (credits, suc padding_only)
      | credit c ↦ (c ∷ credits, padding_only)
    ]

unfoldable pub credits : Common → Json → List Credit
unfolding read_entries elements
credits common value = (read_entries common (elements value)).0

-- `position.get` of a track: a value that is no text reads as absent
abbrev text_of : Json → Option Text
text_of (str s) = some s
text_of _ = none

unfoldable pub track_position : Fields → Option Text
track_position track = text_of (get "position" track)

-- what is read on a track (`sub` is 0) or on one of its sub-tracks
pub record Placed (A : Type 0) : Type 0 where
  pub track : ℕ
  pub sub : ℕ
  pub position : Option Text
  pub item : A

-- The walk that `_track_credits` and `_track_performers` share, over what each reads on a track.
module _ {A : Type 0} (read : Fields → List A) where
  abbrev pub place : ℕ → ℕ → Fields → List (Placed A)
  place track sub fs =
      map (λ a. record { track = track; sub = sub; position = track_position fs; item = a })
        (read fs)

  -- `enumerate(…, start=n)` over the sub-tracks of one track
  unfoldable pub walk_subs : ℕ → ℕ → List Json → List (Placed A)
  walk_subs track n [] = []
  walk_subs track n (obj fs ∷ rest) = place track n fs ++ walk_subs track (suc n) rest
  walk_subs track n (_ ∷ rest) = walk_subs track (suc n) rest

  abbrev pub sub_tracks : Fields → List Json
  sub_tracks fs = xmltodict_array (get "sub_tracks" fs) "track"

  unfoldable pub walk_tracks : ℕ → List Json → List (Placed A)
  walk_tracks n [] = []
  walk_tracks n (obj fs ∷ rest) =
      place n 0 fs ++ (walk_subs n 1 (sub_tracks fs) ++ walk_tracks (suc n) rest)
  walk_tracks n (_ ∷ rest) = walk_tracks (suc n) rest

abbrev pub credits_on : Common → Fields → List Credit
credits_on common fs =
    (read_entries common (dicts (xmltodict_array (get "extraartists" fs) "artist"))).0

abbrev pub performers_on : Fields → List Text
performers_on fs = ids_of_dicts (dicts (xmltodict_array (get "artists" fs) "artist"))

unfoldable pub track_credits : Common → Json → List (Placed Credit)
unfolding walk_subs walk_tracks read_entries xmltodict_array track_position
track_credits common tracklist =
    walk_tracks (credits_on common) 1 (xmltodict_array tracklist "track")

unfoldable pub track_performers : Json → List (Placed Text)
unfolding walk_subs walk_tracks ids_of_dicts xmltodict_array track_position
track_performers tracklist = walk_tracks performers_on 1 (xmltodict_array tracklist "track")
