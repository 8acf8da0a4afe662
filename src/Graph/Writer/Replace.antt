-- ===== src/Graph/Writer/Replace.antt =====
-- What a batch leaves in one edge relation: the statements of `write_document_graph` put together.
use discogs_sql_loader.Prelude.{
  true, false, not, List, [], ◌∷◌, ◌++◌, ◌≡◌, refl, ◌∙◌, ap, arith, if◌then◌else◌, same, contains,
  distinct, keep,
}
use discogs_sql_loader.Text.{Text}
use discogs_sql_loader.Graph.{Row, Vertex, all_vertices, Edge, Edge-discrete, all_edges, by_artist}
use discogs_sql_loader.Graph.Order.{sort, edge_le, text_le}
use discogs_sql_loader.Graph.Writer.{
  Tables, Keys, Statement, insert_rows, reached, execute, execute_all, Derived, vertex_rows,
  edge_rows, replaced_ids, edges_by_name, edge_insert, edge_delete, vertex_insert, vertex_inserts,
  edge_deletes, edge_inserts, statements,
}

-- the rows of an edge relation after its scoped delete
abbrev pub deleted : Edge → List Text → List Row → List Row
deleted e ids = keep (λ r. not (reached e ids r))

keep_all : (e : Edge) (table : List Row) → deleted e [] table ≡ table
unfolding reached contains
keep_all e [] = refl
keep_all e (r ∷ table) = ground (arith, keep_all e table)

module _ (keys : Keys) where
  execute_all-append :
      (xs ys : List Statement) (t : Tables)
      → execute_all keys (xs ++ ys) t ≡ execute_all keys ys (execute_all keys xs t)
  unfolding execute_all
  execute_all-append [] ys t = refl
  execute_all-append (x ∷ xs) ys t = execute_all-append xs ys (execute keys x t)

  edges-vertex_insert :
      (v : Vertex) (rows : List Row) (t : Tables)
      → (execute_all keys (vertex_insert v rows) t).edges ≡ t.edges
  unfolding execute_all execute
  edges-vertex_insert v [] t = refl
  edges-vertex_insert v (r ∷ rows) t = refl

  edges-vertex_inserts :
      (vs : List Vertex) (d : List Derived) (t : Tables)
      → (execute_all keys (vertex_inserts vs d) t).edges ≡ t.edges
  unfolding vertex_inserts
  edges-vertex_inserts [] d t = unfold execute_all in refl
  edges-vertex_inserts (v ∷ vs) d t =
      rw execute_all-append
        (edges-vertex_inserts vs d _ ∙ edges-vertex_insert v (vertex_rows v [] d) t)

  module _ (e : Edge) (d : List Derived) where
    edges-edge_delete :
        (f : Edge) (ids : List Text) (t : Tables)
        → (execute_all keys (edge_delete f ids) t).edges e
          ≡ (if same Edge-discrete f e then deleted f (sort text_le ids) (t.edges f) else t.edges e)
    unfolding execute_all execute sort
    edges-edge_delete f [] t = ground (arith, keep_all f (t.edges f))
    edges-edge_delete f (id ∷ ids) t = refl

    edges-edge_insert :
        (f : Edge) (rows : List Row) (t : Tables)
        → (execute_all keys (edge_insert f rows) t).edges e ≡ (
            if same Edge-discrete f e
            then insert_rows (keys.edge_key f) (t.edges f) (sort edge_le rows)
            else t.edges e)
    unfolding execute_all execute sort insert_rows
    edges-edge_insert f [] t = ground arith
    edges-edge_insert f (r ∷ rows) t = refl

    deletes_absent :
        (es : List Edge) (t : Tables)
        → contains Edge-discrete e es ≡ false
        → (execute_all keys (edge_deletes es d) t).edges e ≡ t.edges e
    unfolding edge_deletes contains
    deletes_absent [] t h = unfold execute_all in refl
    deletes_absent (f ∷ es) t h = rw execute_all-append (
        deletes_absent es _ (ground arith)
        ∙ ground (arith, edges-edge_delete f (replaced_ids f d) t))

    deletes_present :
        (es : List Edge) (t : Tables)
        → contains Edge-discrete e es ≡ true
        → distinct Edge-discrete es ≡ true
        → (execute_all keys (edge_deletes es d) t).edges e
          ≡ deleted e (sort text_le (replaced_ids e d)) (t.edges e)
    unfolding edge_deletes contains distinct
    deletes_present [] t h k = cc
    deletes_present (f ∷ es) t h k = rw execute_all-append (elim (Edge-discrete e f) [
      | yes p ↦
          deletes_absent es _ (ground arith)
          ∙ ground (arith, edges-edge_delete f (replaced_ids f d) t)
      | no n ↦
          deletes_present es _ (ground arith) (ground arith)
          ∙ ap (deleted e (sort text_le (replaced_ids e d)))
              (ground (arith, edges-edge_delete f (replaced_ids f d) t))
    ])

    inserts_absent :
        (es : List Edge) (t : Tables)
        → contains Edge-discrete e es ≡ false
        → (execute_all keys (edge_inserts es d) t).edges e ≡ t.edges e
    unfolding edge_inserts contains
    inserts_absent [] t h = unfold execute_all in refl
    inserts_absent (f ∷ es) t h = rw execute_all-append (
        inserts_absent es _ (ground arith)
        ∙ ground (arith, edges-edge_insert f (edge_rows f [] d) t))

    inserts_present :
        (es : List Edge) (t : Tables)
        → contains Edge-discrete e es ≡ true
        → distinct Edge-discrete es ≡ true
        → (execute_all keys (edge_inserts es d) t).edges e
          ≡ insert_rows (keys.edge_key e) (t.edges e) (sort edge_le (edge_rows e [] d))
    unfolding edge_inserts contains distinct
    inserts_present [] t h k = cc
    inserts_present (f ∷ es) t h k = rw execute_all-append (elim (Edge-discrete e f) [
      | yes p ↦
          inserts_absent es _ (ground arith)
          ∙ ground (arith, edges-edge_insert f (edge_rows f [] d) t)
      | no n ↦
          inserts_present es _ (ground arith) (ground arith)
          ∙ ap (λ rows. insert_rows (keys.edge_key e) rows (sort edge_le (edge_rows e [] d)))
              (ground (arith, edges-edge_insert f (edge_rows f [] d) t))
    ])

every_edge :
    (e : Edge)
    → (contains Edge-discrete e all_edges ≡ true) × (contains Edge-discrete e edges_by_name ≡ true)
unfolding contains Edge-discrete
every_edge by_artist = (refl, refl)
every_edge _ = (refl, refl)

edges_distinct :
    (distinct Edge-discrete all_edges ≡ true) × (distinct Edge-discrete edges_by_name ≡ true)
unfolding distinct contains Edge-discrete
edges_distinct = (refl, refl)

-- one edge relation after all the statements of a batch
pub edges-statements :
    (keys : Keys) (e : Edge) (d : List Derived) (t : Tables)
    → (execute_all keys (statements d) t).edges e
      ≡ insert_rows
          (keys.edge_key e)
          (deleted e (sort text_le (replaced_ids e d)) (t.edges e))
          (sort edge_le (edge_rows e [] d))
unfolding statements
edges-statements keys e d t =
    rw (execute_all-append, execute_all-append)
      (inserts_present keys e d all_edges _ (every_edge e).0 edges_distinct.0
        ∙ ap (λ rows. insert_rows (keys.edge_key e) rows (sort edge_le (edge_rows e [] d)))
            (deletes_present keys e d edges_by_name _ (every_edge e).1 edges_distinct.1
              ∙ ap (λ es. deleted e (sort text_le (replaced_ids e d)) (es e))
                  (edges-vertex_inserts keys all_vertices d t)))
