-- ===== src/Graph/Derive/Membership.antt =====
-- The `member_of` rows of an artist document: membership stated from both ends.
use discogs_sql_loader.Prelude.{
  ◌&&◌, ◌||◌, List, [], ◌∷◌, ◌++◌, ◌≡◌, refl, ◌∙◌, ap, arith, same, contains, contains-append,
  contains-from_keys,
}
use discogs_sql_loader.Text.{Text, Text-discrete}
use discogs_sql_loader.Json.{Fields, get}
use discogs_sql_loader.Graph.{
  text, Row, Row-discrete, Edge, Edge-discrete, member_of, alias_of, rows_of, put,
}
use discogs_sql_loader.Graph.Ids.{element_ids}
use discogs_sql_loader.Graph.Derive.{derive_artist, pairs, pairs_to, unique}

rows_of-put_self :
    (e : Edge) (rows : List Row) (target : List (Edge × List Row))
    → rows_of Edge-discrete e target ≡ []
    → rows_of Edge-discrete e (put Edge-discrete e rows target) ≡ rows
unfolding rows_of put
rows_of-put_self e [] target h = h
rows_of-put_self e (r ∷ rows) target h = ground arith

pub no_members :
    (rows : List Row) → rows_of Edge-discrete member_of (put Edge-discrete alias_of rows []) ≡ []
unfolding rows_of put Edge-discrete
no_members [] = refl
no_members (r ∷ rows) = refl

module _ (a b data_id : Text) where
  contains-pairs_to :
      (xs : List Text)
      → contains Row-discrete (text a ∷ text b ∷ []) (pairs_to data_id xs)
        ≡ (same Text-discrete b data_id && contains Text-discrete a xs)
  unfolding contains
  contains-pairs_to [] = ground arith
  contains-pairs_to (x ∷ xs) = ground (arith, contains-pairs_to xs)

  contains-pairs :
      (xs : List Text)
      → contains Row-discrete (text a ∷ text b ∷ []) (pairs data_id xs)
        ≡ (same Text-discrete a data_id && contains Text-discrete b xs)
  unfolding contains
  contains-pairs [] = ground arith
  contains-pairs (x ∷ xs) = ground (arith, contains-pairs xs)

  -- An artist document asserts that `a` is a member of `b` exactly when it is the document of `b` and
  -- lists `a` among its members, or the document of `a` and lists `b` among its groups: both ends
  -- give one and the same directed row.
  pub member_of_rows :
      (data' : Fields)
      → contains Row-discrete
          (text a ∷ text b ∷ [])
          (rows_of Edge-discrete member_of (derive_artist data_id data').edges)
        ≡ (same Text-discrete b data_id
              && contains Text-discrete a (element_ids (get "members" data'))
            || same Text-discrete a data_id
              && contains Text-discrete b (element_ids (get "groups" data')))
  unfolding derive_artist
  member_of_rows data' =
      let members = element_ids (get "members" data') in
      let groups = element_ids (get "groups" data') in
      let members_of = pairs_to data_id members in
      let groups_of = pairs data_id groups in
      let aliases = unique (pairs_to data_id (element_ids (get "aliases" data'))) in
      ap (contains Row-discrete (text a ∷ text b ∷ [])) (
        rows_of-put_self member_of (unique (members_of ++ groups_of))
          (put Edge-discrete alias_of aliases []) (no_members aliases))
      ∙ (contains-from_keys Row-discrete _ (pairs_to data_id members ++ pairs data_id groups)
          ∙ contains-append Row-discrete _ (pairs_to data_id members) (pairs data_id groups)
          ∙ ground (arith, contains-pairs_to members, contains-pairs groups))
