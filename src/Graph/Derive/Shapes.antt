-- ===== src/Graph/Derive/Shapes.antt =====
-- The shapes of the rows that a document asserts, and the lists they stand in.
use discogs_sql_loader.Prelude.{
  String, Bool, true, false, ◌&&◌, List, [], ◌∷◌, ◌++◌, ◌≡◌, refl, arith, Option, none, some, ◌==◌,
  same, contains, add_key, add_keys, from_keys, same_refl, length, all, map,
}
use discogs_sql_loader.Text.{Text, Text-discrete}
use discogs_sql_loader.Graph.{
  text, bigint, Row, Row-discrete, Edge, Edge-discrete, by_artist, on_label, derived_from, in_genre,
  in_style, master_by_artist, master_in_genre, master_in_style, member_of, alias_of, credited_on,
  same_as, credited_to, issued_on, track_credited_on, track_by_artist, edge_columns, rows_of, put,
  document_scope, discogs_source,
}
use discogs_sql_loader.Graph.Ids.{present}
use discogs_sql_loader.Graph.Credits.{Credit, Placed}
use discogs_sql_loader.Graph.MediaRows.{MediumRow, CompanyRow}
use discogs_sql_loader.Graph.Writer.{reached}
use discogs_sql_loader.Graph.Derive.{
  pairs, pairs_to, unique, master_rows, credited_on_rows, resolved, issued_on_rows,
  credited_to_rows, track_credit_rows, track_artist_rows, cell,
}

abbrev where_scoped : Option (String × Bool) → Bool → Bool
where_scoped none b = true
where_scoped (some scope) b = b

-- as many values as columns and, in a relation that documents replace, within reach of the delete
-- that is scoped to the document
unfoldable pub conforms : Edge → Text → Row → Bool
unfolding document_scope edge_columns reached
conforms e data_id row =
    length row == length (edge_columns e)
    && where_scoped (document_scope e) (reached e (data_id ∷ []) row)

module _ {A : Type 0} where
  all-map :
      (p : Row → Bool) (f : A → Row) (xs : List A)
      → ((a : A) → p (f a) ≡ true)
      → all p (map f xs) ≡ true
  all-map p f [] h = refl
  all-map p f (x ∷ xs) h = ground (arith, h x, all-map p f xs h)

module _ (p : Row → Bool) where
  all-append : (xs ys : List Row) → all p xs ≡ true → all p ys ≡ true → all p (xs ++ ys) ≡ true
  all-append [] ys h k = k
  all-append (x ∷ xs) ys h k = ground (arith, all-append xs ys)

  all-add_keys :
      (d xs : List Row)
      → all p d ≡ true
      → all p xs ≡ true
      → all p (add_keys Row-discrete d xs) ≡ true
  unfolding add_keys
  all-add_keys d [] h k = h
  all-add_keys d (x ∷ xs) h k = all-add_keys (add_key Row-discrete d x) xs added (ground arith)
    where
      added : all p (add_key Row-discrete d x) ≡ true
      added = unfold add_key in (ground (arith, all-append d (x ∷ [])))

  all-unique : (xs : List Row) → all p xs ≡ true → all p (unique xs) ≡ true
  unfolding from_keys
  all-unique xs h = all-add_keys [] xs refl h

module _ (data_id : Text) where
  pub record Conform (e : Edge) (rows : List Row) : Type 0 where
    pub holds : all (conforms e data_id) rows ≡ true

  -- a dictionary's rows conform if each list that was put in does
  pub Conform-put :
      (f e : Edge) (rows : List Row) (target : List (Edge × List Row))
      → Conform f rows
      → Conform e (rows_of Edge-discrete e target)
      → Conform e (rows_of Edge-discrete e (put Edge-discrete f rows target))
  unfolding put rows_of
  Conform-put f e [] target h k = k
  Conform-put f e (r ∷ rows) target h k = record { holds = ground (arith, h.holds, k.holds) }

  pub Conform-unique : {e : Edge} {rows : List Row} → Conform e rows → Conform e (unique rows)
  Conform-unique {e} {rows} h = record { holds = all-unique (conforms e data_id) rows h.holds }

  pub Conform-append :
      {e : Edge} {xs ys : List Row} → Conform e xs → Conform e ys → Conform e (xs ++ ys)
  Conform-append {e} {xs} {ys} h k = record {
    holds = all-append (conforms e data_id) xs ys h.holds k.holds;
  }

  own : same Text-discrete data_id data_id ≡ true
  own = same_refl Text-discrete data_id

  -- the relations of two columns whose first names the document, and whose second does
  abbrev leads : Edge → Bool
  leads by_artist = true
  leads on_label = true
  leads in_genre = true
  leads in_style = true
  leads master_by_artist = true
  leads master_in_genre = true
  leads master_in_style = true
  leads member_of = true
  leads _ = false

  abbrev trails : Edge → Bool
  trails member_of = true
  trails alias_of = true
  trails _ = false

  leading_pair :
      (e : Edge) (s : Text)
      → leads e ≡ true
      → conforms e data_id (text data_id ∷ text s ∷ []) ≡ true
  unfolding conforms contains
  leading_pair by_artist s h = ground (arith, own)
  leading_pair _ s h = ground (arith, own)

  trailing_pair :
      (e : Edge) (s : Text)
      → trails e ≡ true
      → conforms e data_id (text s ∷ text data_id ∷ []) ≡ true
  unfolding conforms contains
  trailing_pair by_artist s h = ground arith
  trailing_pair _ s h = ground (arith, own)

  map-Conform :
      {A : Type 0} (e : Edge) (f : A → Row) (xs : List A)
      → ((a : A) → conforms e data_id (f a) ≡ true)
      → Conform e (map f xs)
  map-Conform e f xs h = record { holds = all-map (conforms e data_id) f xs h }

  pub pairs-Conform : (e : Edge) (xs : List Text) → leads e ≡ true → Conform e (pairs data_id xs)
  pairs-Conform e xs h = map-Conform e _ xs (λ s. leading_pair e s h)

  pub pairs_to-Conform :
      (e : Edge) (xs : List Text) → trails e ≡ true → Conform e (pairs_to data_id xs)
  pairs_to-Conform e xs h = map-Conform e _ xs (λ s. trailing_pair e s h)

  pub credited_on-Conform : (xs : List Credit) → Conform credited_on (credited_on_rows data_id xs)
  unfolding conforms contains
  credited_on-Conform xs =
      map-Conform credited_on (λ c. text c.name ∷ text data_id ∷ text c.role ∷ []) xs
        (λ s. ground (arith, own))

  pub track_credits-Conform :
      (xs : List (Placed Credit)) → Conform track_credited_on (track_credit_rows data_id xs)
  unfolding conforms contains
  track_credits-Conform xs =
      map-Conform track_credited_on
        (λ t.
          text t.item.name
          ∷ text data_id
          ∷ bigint t.track
          ∷ bigint t.sub
          ∷ cell t.position
          ∷ text t.item.role
          ∷ [])
        xs (λ s. ground (arith, own))

  pub track_artists-Conform :
      (xs : List (Placed Text)) → Conform track_by_artist (track_artist_rows data_id xs)
  unfolding conforms contains
  track_artists-Conform xs =
      map-Conform track_by_artist
        (λ t. text data_id ∷ bigint t.track ∷ bigint t.sub ∷ cell t.position ∷ text t.item ∷ []) xs
        (λ s. ground (arith, own))

  pub issued_on-Conform : (xs : List MediumRow) → Conform issued_on (issued_on_rows data_id xs)
  unfolding conforms contains
  issued_on-Conform xs =
      map-Conform issued_on
        (λ m. text data_id ∷ text m.medium ∷ text discogs_source ∷ bigint m.qty ∷ []) xs
        (λ s. ground (arith, own, same_refl Text-discrete discogs_source))

  pub credited_to-Conform :
      (xs : List CompanyRow) → Conform credited_to (credited_to_rows data_id xs)
  unfolding conforms contains
  credited_to-Conform xs =
      map-Conform credited_to
        (λ c.
          text data_id
          ∷ text c.company_id
          ∷ text c.role
          ∷ text c.category
          ∷ text discogs_source
          ∷ [])
        xs (λ s. ground (arith, own, same_refl Text-discrete discogs_source))

  pub master_rows-Conform : (m : Option Text) → Conform derived_from (master_rows data_id m)
  unfolding conforms contains
  master_rows-Conform none = record { holds = refl }
  master_rows-Conform (some id) = record { holds = ground (arith, own) }

  pub resolved-Conform :
      {A : Type 0} (credit_of : A → Credit) (xs : List A)
      → Conform same_as (present (map (λ a. resolved (credit_of a)) xs))
  unfolding conforms
  resolved-Conform credit_of [] = record { holds = refl }
  resolved-Conform credit_of (x ∷ xs) = record {
    holds = ground (arith, (resolved-Conform credit_of xs).holds);
  }

  pub empty-Conform : (e : Edge) → Conform e (rows_of Edge-discrete e [])
  unfolding rows_of
  empty-Conform e = record { holds = refl }
