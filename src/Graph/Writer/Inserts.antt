-- ===== src/Graph/Writer/Inserts.antt =====
-- What `INSERT … ON CONFLICT DO NOTHING`, a scoped delete and a sort do to the rows of one table.
use discogs_sql_loader.Prelude.{
  Bool, true, false, not, ◌&&◌, ◌||◌, List, [], ◌∷◌, ◌++◌, ◌≡◌, refl, arith, same, contains,
  contains-append, same_refl, keep, ◌≢◌,
}
use discogs_sql_loader.Graph.{Row, Row-discrete}
use discogs_sql_loader.Graph.Order.{insert_sorted, sort}
use discogs_sql_loader.Graph.Writer.{conflicts, insert_row, insert_rows}

module _ {A : Type 0} (dec : Discrete A) where
  pub contains-keep :
      (p : A → Bool) (a : A) (xs : List A) → contains dec a (keep p xs) ≡ (contains dec a xs && p a)
  unfolding contains
  contains-keep p a [] = refl
  contains-keep p a (x ∷ xs) = ground (arith, contains-keep p a xs)

  module _ (le : A → A → Bool) where
    contains-insert_sorted :
        (a x : A) (xs : List A)
        → contains dec a (insert_sorted le x xs) ≡ (same dec a x || contains dec a xs)
    unfolding contains insert_sorted
    contains-insert_sorted a x [] = refl
    contains-insert_sorted a x (y ∷ ys) = ground (arith, contains-insert_sorted a x ys)

    pub contains-sort : (a : A) (xs : List A) → contains dec a (sort le xs) ≡ contains dec a xs
    unfolding sort contains
    contains-sort a [] = refl
    contains-sort a (x ∷ xs) =
        ground (arith, contains-insert_sorted a x (sort le xs), contains-sort a xs)

-- No two rows of the list have one key and differ.
abbrev pub Faithful : (Row → Row) → List Row → Type 0
Faithful key rows =
    (q r : Row)
    → contains Row-discrete q rows ≡ true
    → contains Row-discrete r rows ≡ true
    → key q ≡ key r
    → q ≡ r

module _ (key : Row → Row) where
  conflicts-append_one :
      (r x : Row) (table : List Row)
      → conflicts key r (table ++ x ∷ [])
        ≡ (conflicts key r table || same Row-discrete (key r) (key x))
  unfolding conflicts
  conflicts-append_one r x [] = ground arith
  conflicts-append_one r x (q ∷ table) = ground (arith, conflicts-append_one r x table)

  contains-insert_row :
      (r x : Row) (table : List Row)
      → contains Row-discrete r table ≡ true
      → contains Row-discrete r (insert_row key table x) ≡ true
  unfolding insert_row
  contains-insert_row r x table h = ground (arith, contains-append Row-discrete r table (x ∷ []))

  -- a row that is there stays
  pub contains-insert_rows :
      (r : Row) (table rows : List Row)
      → contains Row-discrete r table ≡ true
      → contains Row-discrete r (insert_rows key table rows) ≡ true
  unfolding insert_rows
  contains-insert_rows r table [] h = h
  contains-insert_rows r table (x ∷ rows) h =
      contains-insert_rows r (insert_row key table x) rows (contains-insert_row r x table h)

  -- what is there was there or is one of the rows
  pub insert_rows_sound :
      (r : Row) (table rows : List Row)
      → contains Row-discrete r table ≡ false
      → contains Row-discrete r rows ≡ false
      → contains Row-discrete r (insert_rows key table rows) ≡ false
  unfolding insert_rows insert_row contains
  insert_rows_sound r table [] h k = h
  insert_rows_sound r table (x ∷ rows) h k =
      insert_rows_sound r (insert_row key table x) rows
        (ground (arith, contains-append Row-discrete r table (x ∷ []))) (ground arith)

  written_now :
      (r x : Row) (table : List Row)
      → r ≡ x
      → conflicts key r table ≡ false
      → contains Row-discrete r (insert_row key table x) ≡ true
  unfolding insert_row contains
  written_now r x table e k =
      let k' : conflicts key x table ≡ false = rw (← e) k in
      rw k' (ground (arith, contains-append Row-discrete r table (x ∷ [])))

  still_free :
      (r x : Row) (table : List Row)
      → key r ≢ key x
      → conflicts key r table ≡ false
      → conflicts key r (insert_row key table x) ≡ false
  unfolding insert_row
  still_free r x table e k = ground (arith, conflicts-append_one r x table)

  -- a row whose key is free is written
  pub insert_rows-writes :
      (r : Row) (table rows : List Row)
      → Faithful key rows
      → contains Row-discrete r rows ≡ true
      → conflicts key r table ≡ false
      → contains Row-discrete r (insert_rows key table rows) ≡ true
  unfolding contains insert_rows
  insert_rows-writes r table [] f h k = cc
  insert_rows-writes r table (x ∷ rows) f h k = elim (Row-discrete r x) [
    | yes e ↦ contains-insert_rows r (insert_row key table x) rows (written_now r x table e k)
    | no n ↦
        insert_rows-writes r (insert_row key table x) rows
          (λ q p hq hp. f q p (ground arith) (ground arith)) (ground arith)
          (still_free r x table (λ e. n (f r x h (ground (arith, same_refl Row-discrete x)) e)) k)
  ]

-- a table that holds no row of a scope has no conflict with a row of the scope
pub conflicts-free :
    (key : Row → Row) (p : Row → Bool)
    → ((q r : Row) → key q ≡ key r → p q ≡ p r)
    → (r : Row) (table : List Row) → p r ≡ true
    → conflicts key r (keep (λ q. not (p q)) table) ≡ false
unfolding conflicts
conflicts-free key p covers r [] h = refl
conflicts-free key p covers r (q ∷ table) h =
    ground (arith, covers q r, conflicts-free key p covers r table h)
