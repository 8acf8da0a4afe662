-- ===== src/Graph/Writer/Scope.antt =====
-- The contract of `write_document_graph`: in a relation that documents replace, what stands for
-- them afterwards is what they assert now, and nothing else is touched.
use discogs_sql_loader.Prelude.{
  String, Bool, true, false, not, ◌&&◌, ◌||◌, List, [], ◌≡◌, refl, ◌∙◌, ap, inl, inr, Bool-cases,
  arith, Option, none, some, contains,
}
use discogs_sql_loader.Text.{Text, Text-discrete}
use discogs_sql_loader.Json.{Fields}
use discogs_sql_loader.Common.{Common}
use discogs_sql_loader.Graph.{
  Cell, missing, text, bigint, Row, Row-discrete, Edge, document_scope, edge_columns,
}
use discogs_sql_loader.Graph.Order.{sort, edge_le, text_le}
use discogs_sql_loader.Graph.Writer.{
  Tables, Keys, insert_rows, reached, reached_by, is_one_of, derive_all, edge_rows, replaced_ids,
  write_document_graph,
}
use discogs_sql_loader.Graph.Writer.Inserts.{
  contains-keep, contains-sort, Faithful, contains-insert_rows, insert_rows_sound,
  insert_rows-writes, conflicts-free,
}
use discogs_sql_loader.Graph.Writer.Replace.{deleted, edges-statements}

-- A relation's unique index covers the columns of its scoped delete: two rows that conflict belong
-- to one document and one source.
abbrev pub KeyCovers : Keys → Edge → Type 0
KeyCovers keys e =
    (ids : List Text) (q r : Row)
    → keys.edge_key e q ≡ keys.edge_key e r
    → reached e ids q ≡ reached e ids r

is_one_of-sort :
    (ids : List Text) (c : Option Cell) → is_one_of (sort text_le ids) c ≡ is_one_of ids c
is_one_of-sort ids none = refl
is_one_of-sort ids (some missing) = refl
is_one_of-sort ids (some (bigint n)) = refl
is_one_of-sort ids (some (text s)) = contains-sort Text-discrete text_le s ids

reached_by-sort :
    (scope : Option (String × Bool)) (columns : List String) (ids : List Text) (r : Row)
    → reached_by scope columns (sort text_le ids) r ≡ reached_by scope columns ids r
reached_by-sort none columns ids r = refl
reached_by-sort (some (column, shared)) columns ids r = rw is_one_of-sort

reached-sort :
    (e : Edge) (ids : List Text) (r : Row) → reached e (sort text_le ids) r ≡ reached e ids r
unfolding reached
reached-sort e ids r = reached_by-sort (document_scope e) (edge_columns e) ids r

module _ (common : Common) (keys : Keys) (data_type : String)
    (documents : List (Text × Fields)) where
  -- the rows that the batch asserts of a relation, and the documents that replace theirs
  abbrev pub asserted : Edge → List Row
  asserted e = edge_rows e [] (derive_all common data_type documents)

  abbrev pub replacing : Edge → List Text
  replacing e = replaced_ids e (derive_all common data_type documents)

  edges-write :
      (e : Edge) (t : Tables)
      → (write_document_graph common keys data_type documents t).edges e
        ≡ insert_rows
            (keys.edge_key e)
            (deleted e (sort text_le (replacing e)) (t.edges e))
            (sort edge_le (asserted e))
  unfolding write_document_graph
  edges-write e t = edges-statements keys e (derive_all common data_type documents) t

  module _ (e : Edge) (t : Tables) (r : Row) where
    contains-deleted :
        contains Row-discrete r (deleted e (sort text_le (replacing e)) (t.edges e))
        ≡ (contains Row-discrete r (t.edges e) && not (reached e (replacing e) r))
    contains-deleted =
        contains-keep Row-discrete (λ q. not (reached e (sort text_le (replacing e)) q)) r
          (t.edges e)
        ∙ ap (λ b. contains Row-discrete r (t.edges e) && not b) (reached-sort e (replacing e) r)

    -- Of the rows that belong to a replacing document, the relation holds after the write exactly
    -- those that the batch asserts, if the relation's key covers its document columns and the
    -- asserted rows do not conflict with one another.
    pub replaced_exactly :
        KeyCovers keys e
        → Faithful (keys.edge_key e) (asserted e)
        → reached e (replacing e) r ≡ true
        → contains Row-discrete r ((write_document_graph common keys data_type documents t).edges e)
          ≡ contains Row-discrete r (asserted e)
    replaced_exactly covers faithful h =
        rw edges-write (elim (Bool-cases (contains Row-discrete r (asserted e))) [
          | inl in_it ↦
              insert_rows-writes (keys.edge_key e) r _ (sort edge_le (asserted e))
                (λ q p hq hp.
                  faithful q p (rw (contains-sort Row-discrete edge_le) at hq)
                    (rw (contains-sort Row-discrete edge_le) at hp))
                (rw (contains-sort Row-discrete edge_le) in_it)
                (conflicts-free (keys.edge_key e) (reached e (sort text_le (replacing e)))
                  (covers (sort text_le (replacing e))) r (t.edges e) (rw reached-sort h))
              ∙ ground arith
          | inr out ↦
              insert_rows_sound (keys.edge_key e) r _ (sort edge_le (asserted e))
                (ground (arith, contains-deleted)) (rw (contains-sort Row-discrete edge_le) out)
              ∙ ground arith
        ])

    -- Any other row, of another document or another provider, stays if it was there, and one that
    -- was not there appears only if the batch asserts it.
    pub others_kept :
        reached e (replacing e) r ≡ false
        → contains Row-discrete r ((write_document_graph common keys data_type documents t).edges e)
          ≡ (contains Row-discrete r (t.edges e)
              || contains Row-discrete r (asserted e)
                && contains Row-discrete r
                    ((write_document_graph common keys data_type documents t).edges e))
    others_kept h = rw edges-write (elim (Bool-cases (contains Row-discrete r (t.edges e))) [
      | inl old ↦
          contains-insert_rows (keys.edge_key e) r _ (sort edge_le (asserted e))
            (ground (arith, contains-deleted))
          ∙ ground arith
      | inr new ↦ elim (Bool-cases (contains Row-discrete r (asserted e))) [
        | inl in_it ↦ ground arith
        | inr out ↦
            insert_rows_sound (keys.edge_key e) r _ (sort edge_le (asserted e))
              (ground (arith, contains-deleted)) (rw (contains-sort Row-discrete edge_le) out)
            ∙ ground arith
      ]
    ])
