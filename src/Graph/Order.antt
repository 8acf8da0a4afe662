-- ===== src/Graph/Order.antt =====
-- `_vertex_order`, `_edge_order` and `sorted` of tableinator/graph_writer.py: the one order in which
-- every writer walks the rows of a relation.
use Prim.Native.Nat.{compare, Ordering}
use discogs_sql_loader.Prelude.{Bool, true, false, List, [], ◌∷◌, if◌then◌else◌}
use discogs_sql_loader.Text.{Text}
use discogs_sql_loader.Graph.{Cell, missing, text, bigint, Row}

abbrev pub then_by : Ordering → Ordering → Ordering
then_by Ordering.eq o = o
then_by Ordering.lt o = Ordering.lt
then_by Ordering.gt o = Ordering.gt

unfoldable pub compare_text : Text → Text → Ordering
compare_text [] [] = Ordering.eq
compare_text [] (_ ∷ _) = Ordering.lt
compare_text (_ ∷ _) [] = Ordering.gt
compare_text (c ∷ s) (d ∷ t) = then_by (compare c d) (compare_text s t)

-- `(value is None, value)`; a column holds texts or numbers, so a text is never held to a number
unfoldable pub compare_cell : Cell → Cell → Ordering
unfolding compare_text
compare_cell missing missing = Ordering.eq
compare_cell missing _ = Ordering.gt
compare_cell (text s) missing = Ordering.lt
compare_cell (text s) (text t) = compare_text s t
compare_cell (text s) (bigint n) = Ordering.gt
compare_cell (bigint m) missing = Ordering.lt
compare_cell (bigint m) (text t) = Ordering.lt
compare_cell (bigint m) (bigint n) = compare m n

unfoldable pub compare_row : Row → Row → Ordering
unfolding compare_cell
compare_row [] [] = Ordering.eq
compare_row [] (_ ∷ _) = Ordering.lt
compare_row (_ ∷ _) [] = Ordering.gt
compare_row (v ∷ r) (w ∷ q) = then_by (compare_cell v w) (compare_row r q)

abbrev pub not_gt : Ordering → Bool
not_gt Ordering.gt = false
not_gt _ = true

-- `row[0]`
abbrev pub first_cell : Row → Cell
first_cell [] = missing
first_cell (v ∷ r) = v

unfoldable pub vertex_le : Row → Row → Bool
unfolding compare_cell
vertex_le r q = not_gt (compare_cell (first_cell r) (first_cell q))

unfoldable pub edge_le : Row → Row → Bool
unfolding compare_row
edge_le r q = not_gt (compare_row r q)

unfoldable pub text_le : Text → Text → Bool
unfolding compare_text
text_le s t = not_gt (compare_text s t)

-- `sorted`, which is stable
module _ {A : Type 0} (le : A → A → Bool) where
  unfoldable pub insert_sorted : A → List A → List A
  insert_sorted x [] = x ∷ []
  insert_sorted x (y ∷ ys) = if le x y then x ∷ y ∷ ys else y ∷ insert_sorted x ys

  unfoldable pub sort : List A → List A
  unfolding insert_sorted
  sort [] = []
  sort (x ∷ xs) = insert_sorted x (sort xs)
