-- ===== src/Graph/MediaRows.antt =====
-- `_media_rows`, `_company_rows`, `company_identity`, `_discogs_label_id` and `_medium_label` of
-- tableinator/graph_derivation.py.
pub mod Media
pub mod Companies
use discogs_sql_loader.Prelude.{
  ℕ, ◌+◌, Bool, false, ◌&&◌, ◌||◌, List, [], ◌∷◌, ◌++◌, Option, none, some, if◌then◌else◌, same,
}
use discogs_sql_loader.Text.{Text, Text-discrete, codes, split, join, is_digits}
use discogs_sql_loader.Json.{Json, str, Fields, get}
use discogs_sql_loader.Common.{Common}
use discogs_sql_loader.Graph.Ids.{elements, trimmed, discogs_id, quantity}

-- one entry of `order`, with its `resolved` and `quantities`
pub record MediumRow : Type 0 where
  pub medium : Text
  pub family : Text
  pub label : Text
  pub qty : ℕ

abbrev or_id : Text → Option Text → Text
or_id medium none = medium
or_id medium (some label) = label

unfoldable pub medium_label : Common → Text → Text
medium_label common medium = or_id medium (common.medium_label medium)

-- `quantities[medium] += n`, the medium entered with `family` if it is new
unfoldable pub add_quantity : Common → Text → Text → ℕ → List MediumRow → List MediumRow
unfolding medium_label
add_quantity common medium family n [] =
    record { medium = medium; family = family; label = medium_label common medium; qty = n } ∷ []
add_quantity common medium family n (row ∷ rows) =
    if same Text-discrete medium row.medium
    then record row { qty = row.qty + n } ∷ rows
    else row ∷ add_quantity common medium family n rows

-- the medium and the family of an item that names both
abbrev medium_of : Json → Json → Option (Text × Text)
medium_of (str (c ∷ s)) (str (d ∷ t)) = some (c ∷ s, d ∷ t)
medium_of _ _ = none

abbrev pub named_medium : Fields → Option (Text × Text)
named_medium item = medium_of (get "medium" item) (get "family" item)

-- the loop over the items, from the rows found so far
unfoldable pub media_from : Common → List MediumRow → List Fields → List MediumRow
unfolding add_quantity
media_from common rows [] = rows
media_from common rows (item ∷ items) =
    media_from common
      (elim (named_medium item) [
        | none ↦ rows
        | some (medium, family) ↦ add_quantity common medium family (quantity item) rows
      ])
      items

unfoldable pub media_rows : Common → Fields → List MediumRow
unfolding media_from elements
media_rows common block = media_from common [] (elements (get "items" block))

-- `DERIVED_ID_PREFIX` and `UNMAPPED_ROLE_CATEGORY`
abbrev derived_id_prefix : Text
derived_id_prefix = codes "name:"

abbrev unmapped_role_category : Text
unmapped_role_category = codes "other"

abbrev derived_identity : Common → Option Text → Option Text
derived_identity common none = none
derived_identity common (some name) =
    some (derived_id_prefix ++ common.casefold (join (split name)))

abbrev identity_of : Common → Option Text → Option Text → Option Text
identity_of common (some id) name = some id
identity_of common none name = derived_identity common name

unfoldable pub company_identity : Common → Fields → Option Text
company_identity common item =
    identity_of common (discogs_id (get "discogs_id" item)) (trimmed (get "name" item))

unfoldable pub discogs_label_id : Text → Option Text
discogs_label_id company_id = if is_digits company_id then some company_id else none

pub record CompanyRow : Type 0 where
  pub company_id : Text
  pub name : Text
  pub role : Text
  pub category : Text

-- `(company_id, role) in rows`
unfoldable pub has_company : Text → Text → List CompanyRow → Bool
has_company company_id role [] = false
has_company company_id role (row ∷ rows) =
    same Text-discrete company_id row.company_id && same Text-discrete role row.role
    || has_company company_id role rows

abbrev or_else : Text → Option Text → Text
or_else d none = d
or_else d (some s) = s

-- the row of an item that has an identity and a role
abbrev pub company_row : Fields → Option Text → Option Text → Option CompanyRow
company_row item (some company_id) (some role) = some (record {
  company_id = company_id;
  name = or_else company_id (trimmed (get "name" item));
  role = role;
  category = or_else unmapped_role_category (trimmed (get "role_category" item));
})
company_row item _ _ = none

abbrev pub named_company : Common → Fields → Option CompanyRow
named_company common item =
    company_row item (company_identity common item) (trimmed (get "role" item))

-- the loop over the items; the first of two rows with one company and role stays
unfoldable pub companies_from : Common → List CompanyRow → List Fields → List CompanyRow
unfolding has_company
companies_from common rows [] = rows
companies_from common rows (item ∷ items) =
    companies_from common
      (elim (named_company common item) [
        | none ↦ rows
        | some row ↦ if has_company row.company_id row.role rows then rows else rows ++ row ∷ []
      ])
      items

unfoldable pub company_rows : Common → Fields → List CompanyRow
unfolding companies_from elements
company_rows common block = companies_from common [] (elements (get "items" block))
