-- ===== src/Entities.antt =====
-- tableinator/batch_writer.py and tableinator/record_persistence.py: the four entity tables, and the
-- two paths by which a document reaches its row. A table is a list of rows, `data_id` its unique key.
pub mod Batch
pub mod Statements
pub mod Write
pub mod Record
pub mod Purge
use discogs_sql_loader.Prelude.{
  ℕ, String, Bool, true, false, not, ◌||◌, List, [], ◌∷◌, ◌++◌, map, Option, none, some,
  if◌then◌else◌, same, contains, keep, ◌is◌,
}
use discogs_sql_loader.Text.{Text, Text-discrete}
use discogs_sql_loader.Json.{Fields}
use discogs_sql_loader.Common.{Common}
use discogs_sql_loader.Identity.{AliasRef, Identifiers, Targets}
use discogs_sql_loader.Graph.{Row, Vertex, Edge}
use discogs_sql_loader.Graph.Writer.{Tables, Keys, Derived, derive_all}

-- a row; `hash` is NOT NULL, and only the releases table has a `media` column
pub record EntityRow : Type 0 where
  pub data_id : Text
  pub hash : Text
  pub data' : Fields
  pub media : Option Fields
  pub gm_item_id : Option Text
  pub updated_at : ℕ

-- `BatchRecord`
pub record Message : Type 0 where
  pub data_id : Text
  pub data' : Fields
  pub sha256 : Text

-- What a write fails on. Its transaction rolls back whole.
pub data Failure : Type 0 where
  -- `DatabaseUnavailableError`: there is no write admission
  unavailable : Failure
  -- `KeyError` of `alias_ref`
  unknown_type : Failure
  -- `RuntimeError`: the ids that `resolve_aliases` gave no native id
  unresolved : List Text → Failure
  -- `IdentifierValidationError`
  malformed_identifiers : Failure
  -- "ON CONFLICT DO UPDATE command cannot affect row a second time"
  cardinality_violation : Failure
  -- a `sha256` that is no text, which the `hash` column refuses
  hash_refused : Failure
  -- `psycopg.DataError`: a value that PostgreSQL refuses, say a NUL in a text or a `jsonb`, or an
  -- integer beyond `bigint`
  refused : Failure
  -- `ValueError` of `datetime.fromisoformat`
  malformed_time : Failure

pub data Result {ℓ} (A : Type ℓ) : Type ℓ where
  done : A → Result A
  failed : Failure → Result A

-- which values PostgreSQL refuses, by what binds them: a text, a `jsonb`, and a row of a statement
-- on the `graph` tables
pub record Refusals : Type 0 where
  pub text : Text → Bool
  pub jsonb : Fields → Bool
  pub vertex : Vertex → Row → Bool
  pub edge : Edge → Row → Bool

-- what a write calls: `common`, the table keys of the `graph` schema, the media resolver that it was
-- made with, `resolve_aliases`, the functions of `common.identifiers`, and PostgreSQL's refusals
pub record Services : Type 0 where
  pub common : Common
  pub keys : Keys
  pub media_resolver : Fields → Fields
  pub resolve_aliases : List AliasRef → AliasRef → Option Text
  pub identifiers : Identifiers
  pub refuses : Refusals

-- what one transaction leaves: the entity table, the `graph` tables, and the aliases that it hands to
-- `attach_aliases`
pub record Written : Type 0 where
  pub rows : List EntityRow
  pub graph : Tables
  pub attached : Targets

-- the row of a document
unfoldable pub find_row : Text → List EntityRow → Option EntityRow
find_row id [] = none
find_row id (row ∷ rows) = if same Text-discrete id row.data_id then some row else find_row id rows

-- the media value that a record of the type carries
abbrev pub media_value : Services → String → Fields → Option Fields
media_value services data_type data' =
    if data_type is "releases" then some (services.media_resolver data') else none

module _ {ℓ} {A : Type ℓ} where
  -- a test that some entry passes
  unfoldable pub some_of : (A → Bool) → List A → Bool
  some_of p [] = false
  some_of p (x ∷ xs) = p x || some_of p xs

abbrev pub refuses_media : Services → Option Fields → Bool
refuses_media services none = false
refuses_media services (some media) = services.refuses.jsonb media

-- PostgreSQL refuses a row that a document gives to the statements on the `graph` tables
unfoldable pub refuses_derived : Refusals → Derived → Bool
unfolding some_of
refuses_derived refuses (data_id, document) =
    some_of (λ p. some_of (refuses.vertex p.0) p.1) document.vertices
    || some_of (λ p. some_of (refuses.edge p.0) p.1) document.edges

unfoldable pub refuses_graph : Services → String → List (Text × Fields) → Bool
unfolding refuses_derived derive_all
refuses_graph services data_type documents =
    some_of (refuses_derived services.refuses) (derive_all services.common data_type documents)
