-- ===== src/Identity/First.antt =====
-- The native id that each alias is attached to.
use discogs_sql_loader.Prelude.{
  String, Bool, false, List, [], ◌∷◌, ◌≡◌, refl, ◌∙◌, arith, Option, none, some, same, contains,
  if◌then◌else◌, ◌is◌, inl, inr, Bool-cases,
}
use discogs_sql_loader.Text.{Text}
use discogs_sql_loader.Json.{Fields}
use discogs_sql_loader.Identity.{
  AliasRef, AliasRef-discrete, Identifiers, Targets, target_of, setdefault, set_defaults,
  block_refs, targets_from, alias_targets,
}

abbrev first_of : Option Text → Option Text → Option Text
first_of none b = b
first_of (some a) b = some a

abbrev mints : AliasRef → Option (List AliasRef) → Bool
mints ref none = false
mints ref (some refs) = contains AliasRef-discrete ref refs

-- the native id of the first payload whose identifiers mint the alias
unfoldable pub first_minting : Identifiers → AliasRef → List (Fields × Text) → Option Text
first_minting identifiers ref [] = none
first_minting identifiers ref ((data', native_id) ∷ payloads) =
    if mints ref (block_refs identifiers data')
    then some native_id
    else first_minting identifiers ref payloads

module _ (ref : AliasRef) where
  target-setdefault :
      (targets : Targets) (key : AliasRef) (native_id : Text)
      → target_of ref (setdefault targets key native_id)
        ≡ first_of
            (target_of ref targets)
            (if same AliasRef-discrete ref key then some native_id else none)
  unfolding target_of setdefault
  target-setdefault [] key native_id = ground arith
  target-setdefault ((k, v) ∷ targets) key native_id =
      ground (arith, target-setdefault targets key native_id)

  target-set_defaults :
      (targets : Targets) (refs : List AliasRef) (native_id : Text)
      → target_of ref (set_defaults targets refs native_id)
        ≡ first_of
            (target_of ref targets)
            (if contains AliasRef-discrete ref refs then some native_id else none)
  unfolding set_defaults contains
  target-set_defaults targets [] native_id = ground arith
  target-set_defaults targets (key ∷ refs) native_id = ground (
    arith,
    target-set_defaults (setdefault targets key native_id) refs native_id,
    target-setdefault targets key native_id,
  )

  target-targets_from :
      (identifiers : Identifiers) (targets result : Targets) (payloads : List (Fields × Text))
      → targets_from identifiers targets payloads ≡ some result
      → target_of ref result
        ≡ first_of (target_of ref targets) (first_minting identifiers ref payloads)
  unfolding targets_from first_minting
  target-targets_from identifiers targets result [] h = ground arith
  target-targets_from identifiers targets result ((data', native_id) ∷ payloads) h =
      (elim (block_refs identifiers data')
          as (λ o.
            (elim o [
              | none ↦ none
              | some refs ↦ targets_from identifiers (set_defaults targets refs native_id) payloads
            ])
              ≡ some result
            → target_of ref result
              ≡ first_of (target_of ref targets) (
                  if mints ref o then some native_id else first_minting identifiers ref payloads)) [
                    | none ↦ (λ k. cc)
                    | some refs ↦ (λ k. ground (
                      arith,
                      target-targets_from identifiers (set_defaults targets refs native_id) result
                          payloads k,
                      target-set_defaults targets refs native_id,
                    ))
                  ])
        h

-- Where no identifiers are malformed, the targets of a batch of releases, which the write hands to
-- `attach_aliases`, map each alias to the native id of the first payload, in batch order, whose
-- identifiers mint it, and map no other alias; another data type has no targets.
pub alias_targets-first :
    (identifiers : Identifiers) (data_type : String) (payloads : List (Fields × Text))
    (targets : Targets) (ref : AliasRef)
    → alias_targets identifiers data_type payloads ≡ some targets
    → target_of ref targets
      ≡ (if data_type is "releases" then first_minting identifiers ref payloads else none)
unfolding alias_targets
alias_targets-first identifiers data_type payloads targets ref h =
    elim (Bool-cases (data_type is "releases")) [
      | inl e ↦ rw e (
          target-targets_from ref identifiers [] targets payloads (rw e at h)
          ∙ (unfold target_of in refl))
      | inr e ↦ rw e (unfold target_of in ground arith)
    ]
