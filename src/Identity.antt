-- ===== src/Identity.antt =====
-- tableinator/identity.py: which alias a row and its printed identifiers stand under, and the
-- conflicts that attaching them meets.
pub mod First
use discogs_sql_loader.Prelude.{
  ℕ, zero, suc, String, Bool, true, false, List, [], ◌∷◌, Option, none, some, ◌is◌, if◌then◌else◌,
  same,
}
use discogs_sql_loader.Text.{Text, Text-discrete, codes}
use discogs_sql_loader.Json.{Json, Fields, get, truthy}

-- an alias key: the provider, the kind and the id under which it is known
pub record AliasRef : Type 0 where
  pub provider : Text
  pub kind : Text
  pub external_id : Text

unfoldable pub AliasRef-discrete : Discrete AliasRef
unfolding Text-discrete
AliasRef-discrete = hlevel Text-discrete

-- the functions of `common` that this part calls: `alias_refs_for_release`, `none` where it raises
-- `IdentifierValidationError`, and whether the literal of a float is zero
pub record Identifiers : Type 0 where
  pub alias_refs_for_release : Json → Option (List AliasRef)
  pub float_is_zero : Text → Bool

-- `ENTITY_KIND_BY_DATA_TYPE[data_type]`, `none` where it raises `KeyError`
unfoldable pub entity_kind : String → Option Text
entity_kind data_type =
    if data_type is "artists"
    then some (codes "artist")
    else if data_type is "labels"
    then some (codes "label")
    else if data_type is "masters"
    then some (codes "master")
    else if data_type is "releases"
    then some (codes "release")
    else none

abbrev discogs_ref : Text → Option Text → Option AliasRef
discogs_ref data_id none = none
discogs_ref data_id (some kind) =
    some (record { provider = codes "discogs"; kind = kind; external_id = data_id })

unfoldable pub alias_ref : String → Text → Option AliasRef
unfolding entity_kind
alias_ref data_type data_id = discogs_ref data_id (entity_kind data_type)

-- a dictionary from aliases to native ids
abbrev pub Targets : Type 0
Targets = List (AliasRef × Text)

unfoldable pub target_of : AliasRef → Targets → Option Text
target_of ref [] = none
target_of ref ((key, native_id) ∷ targets) =
    if same AliasRef-discrete ref key then some native_id else target_of ref targets

-- `targets.setdefault(ref, native_id)`
unfoldable pub setdefault : Targets → AliasRef → Text → Targets
setdefault [] ref native_id = (ref, native_id) ∷ []
setdefault ((key, value) ∷ targets) ref native_id =
    if same AliasRef-discrete ref key
    then (key, value) ∷ targets
    else (key, value) ∷ setdefault targets ref native_id

unfoldable pub set_defaults : Targets → List AliasRef → Text → Targets
unfolding setdefault
set_defaults targets [] native_id = targets
set_defaults targets (ref ∷ refs) native_id =
    set_defaults (setdefault targets ref native_id) refs native_id

-- the aliases of one payload: a block that is absent or empty has none
unfoldable pub block_refs : Identifiers → Fields → Option (List AliasRef)
block_refs identifiers data' =
    if truthy identifiers.float_is_zero (get "identifiers" data')
    then identifiers.alias_refs_for_release (get "identifiers" data')
    else some []

-- the loop over the payloads, from the targets found so far; `none` where a block is malformed
unfoldable pub targets_from : Identifiers → Targets → List (Fields × Text) → Option Targets
unfolding set_defaults block_refs
targets_from identifiers targets [] = some targets
targets_from identifiers targets ((data', native_id) ∷ payloads) =
    elim (block_refs identifiers data') [
      | none ↦ none
      | some refs ↦ targets_from identifiers (set_defaults targets refs native_id) payloads
    ]

unfoldable pub alias_targets : Identifiers → String → List (Fields × Text) → Option Targets
unfolding targets_from
alias_targets identifiers data_type payloads =
    if data_type is "releases" then targets_from identifiers [] payloads else some []

-- the conflicts that `attach_alias_targets` counts; `attached` is what `attach_aliases` returned
unfoldable pub alias_conflicts : (AliasRef → Option Text) → Targets → ℕ
alias_conflicts attached [] = 0
alias_conflicts attached ((ref, native_id) ∷ targets) =
    let rest = alias_conflicts attached targets in
    elim (attached ref) [
      | none ↦ rest
      | some other ↦ if same Text-discrete other native_id then rest else suc rest
    ]
