-- ===== src/Counters/Sweep.antt =====
-- What the sweep leaves in `member_of` and in `same_as`.
use discogs_sql_loader.Prelude.{
  ℕ, suc, ◌<◌, ◌≤◌, true, false, not, List, [], ◌∷◌, ◌≡◌, refl, ◌∙◌, ap, keep, length, all,
  contains, contains-keep, arith, Bool-cases, inl, inr, contains-append, contains-from_keys,
  from_keys, add_keys,
}
use discogs_sql_loader.Text.{Text}
use discogs_sql_loader.Json.{Json, null, bool, int, float, str, arr, obj, nil, cons, get}
use discogs_sql_loader.Common.{Common}
use discogs_sql_loader.Graph.{Row, Row-discrete, put}
use discogs_sql_loader.Graph.Ids.{element_ids}
use discogs_sql_loader.Graph.Derive.{derive_document, derive_artist, pairs_to, unique}
use discogs_sql_loader.Graph.Derive.Membership.{no_members}
use discogs_sql_loader.Counters.{
  Additive, memberships, identities, Document, is_filled, could_assert, all_rows, body_rows,
  insert_asserted, reconciled, copy_pages, reconcile_additive_edges,
}
use discogs_sql_loader.Counters.Pages.{all_after, is_ordered, after, after-all_after}
use discogs_sql_loader.Counters.Asserted.{candidates, copy_pages_lem, all_after-keep}

reconciled_lem :
    (asserted rows : List Row) (r : Row)
    → contains Row-discrete r (reconciled asserted rows) ≡ contains Row-discrete r asserted
reconciled_lem asserted rows r =
    let fresh = keep (λ x. not (contains Row-discrete x rows)) (from_keys Row-discrete asserted) in
    contains-keep Row-discrete (λ x. contains Row-discrete x asserted) r
      (insert_asserted asserted rows)
    ∙ rw
        (
          contains-append Row-discrete r rows fresh,
          contains-keep Row-discrete (λ x. not (contains Row-discrete x rows)) r
              (from_keys Row-discrete asserted),
          contains-from_keys Row-discrete r asserted,
        )
        (ground arith)

candidates-length :
    (relation : Additive) (docs : List Document) → length (candidates relation docs) ≤ length docs
candidates-length relation [] = omega arith
candidates-length relation (d ∷ docs) = elim (Bool-cases (could_assert relation d.body)) [
  | inl e ↦ rw e (omega (arith, candidates-length relation docs))
  | inr e ↦ rw e (omega (arith, candidates-length relation docs))
]

-- With documents in the order of their keys, no key empty: whatever the size of a page, after the sweep
-- the relation has exactly the rows that the documents which the predicate takes assert.
pub reconcile-asserted :
    (common : Common) (relation : Additive) (limit : ℕ) (d : Document) (docs : List Document)
    (rows : List Row) (r : Row)
    → 0 < limit
    → is_ordered (d ∷ docs) ≡ true
    → all_after [] (d ∷ docs) ≡ true
    → contains Row-discrete r (reconcile_additive_edges common relation limit (d ∷ docs) rows)
      ≡ contains Row-discrete r (all_rows common relation (candidates relation (d ∷ docs)))
unfolding reconcile_additive_edges
reconcile-asserted common relation limit d docs rows r pos o named =
    let all_of : after [] (candidates relation (d ∷ docs)) ≡ candidates relation (d ∷ docs) =
      after-all_after [] (candidates relation (d ∷ docs))
        (all_after-keep (λ x. could_assert relation x.body) [] (d ∷ docs) named) in
    reconciled_lem (copy_pages (suc (length (d ∷ docs))) common relation limit [] (d ∷ docs)) rows r
    ∙ copy_pages_lem common relation limit (d ∷ docs) pos o (suc (length (d ∷ docs))) [] r (
        omega (
          arith,
          candidates-length relation (d ∷ docs),
          ap (λ (z : List Document). length z) all_of,
        ))
    ∙ ap (λ (z : List Document). contains Row-discrete r (all_rows common relation z)) all_of

-- a document that the predicate does not take asserts no membership
element_ids-unfilled : (j : Json) → is_filled j ≡ false → element_ids j ≡ []
unfolding element_ids from_keys add_keys
element_ids-unfilled (arr nil) h = refl
element_ids-unfilled (arr (cons j js)) h = cc
element_ids-unfilled null h = refl
element_ids-unfilled (bool b) h = refl
element_ids-unfilled (int n) h = refl
element_ids-unfilled (float x) h = refl
element_ids-unfilled (str s) h = refl
element_ids-unfilled (obj fs) h = refl

no_membership :
    (common : Common) (data_id : Text) (j : Json)
    → could_assert memberships j ≡ false
    → body_rows common memberships data_id j ≡ []
unfolding derive_document derive_artist put from_keys add_keys
no_membership common data_id (obj data') h =
    rw
      (
        element_ids-unfilled (get "members" data') (ground (arith, h)),
        element_ids-unfilled (get "groups" data') (ground (arith, h)),
      )
      (no_members (unique (pairs_to data_id (element_ids (get "aliases" data')))))
no_membership common data_id null h = refl
no_membership common data_id (bool b) h = refl
no_membership common data_id (int n) h = refl
no_membership common data_id (float x) h = refl
no_membership common data_id (str s) h = refl
no_membership common data_id (arr js) h = refl

memberships-all :
    (common : Common) (r : Row) (docs : List Document)
    → contains Row-discrete r (all_rows common memberships (candidates memberships docs))
      ≡ contains Row-discrete r (all_rows common memberships docs)
memberships-all common r [] = refl
memberships-all common r (d ∷ docs) = elim (Bool-cases (could_assert memberships d.body)) [
  | inl e ↦
      rw
        (
          e,
          contains-append Row-discrete r (body_rows common memberships d.data_id d.body)
              (all_rows common memberships (candidates memberships docs)),
          contains-append Row-discrete r (body_rows common memberships d.data_id d.body)
              (all_rows common memberships docs),
          memberships-all common r docs,
        )
        refl
  | inr e ↦ rw (e, no_membership common d.data_id d.body e) (memberships-all common r docs)
]

-- With artist documents in the order of their keys, no key empty: after the sweep a row stands in
-- `member_of` exactly when some current artist document asserts it, whatever the relation held before
-- and whatever the size of a page.
pub member_of-reconciled :
    (common : Common) (limit : ℕ) (d : Document) (docs : List Document) (rows : List Row) (r : Row)
    → 0 < limit
    → is_ordered (d ∷ docs) ≡ true
    → all_after [] (d ∷ docs) ≡ true
    → contains Row-discrete r (reconcile_additive_edges common memberships limit (d ∷ docs) rows)
      ≡ contains Row-discrete r (all_rows common memberships (d ∷ docs))
member_of-reconciled common limit d docs rows r pos o named =
    reconcile-asserted common memberships limit d docs rows r pos o named
    ∙ memberships-all common r (d ∷ docs)

none_taken :
    (relation : Additive) (docs : List Document)
    → all (λ d. not (could_assert relation d.body)) docs ≡ true
    → candidates relation docs ≡ []
none_taken relation [] h = refl
none_taken relation (d ∷ docs) h = ground (arith, h, none_taken relation docs)

-- Over any ordered documents with ids, and with any page size, the sweep leaves no row at all in
-- `same_as` where no release has credits of its own: neither a row that nothing asserts nor one that the
-- credits on the tracks of a current release assert.
pub same_as-emptied :
    (common : Common) (limit : ℕ) (d : Document) (docs : List Document) (rows : List Row) (r : Row)
    → 0 < limit
    → is_ordered (d ∷ docs) ≡ true
    → all_after [] (d ∷ docs) ≡ true
    → all (λ x. not (could_assert identities x.body)) (d ∷ docs) ≡ true
    → contains Row-discrete r (reconcile_additive_edges common identities limit (d ∷ docs) rows)
      ≡ false
unfolding contains
same_as-emptied common limit d docs rows r pos o named none_of =
    reconcile-asserted common identities limit d docs rows r pos o named
    ∙ rw (none_taken identities (d ∷ docs) none_of) refl
