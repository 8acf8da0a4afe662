-- ===== src/Graph/MediaRows/Companies.antt =====
-- What `_company_rows` makes of a companies block: the first entry of each company in each role.
use discogs_sql_loader.Prelude.{
  ℕ, ◌≡◌, refl, sym, ◌∙◌, Bool, true, false, not, ◌&&◌, ◌||◌, List, [], ◌∷◌, ◌++◌, Option, none,
  some, if◌then◌else◌, arith, same, map, inl, inr, Bool-cases,
}
use discogs_sql_loader.Text.{Text, Text-discrete}
use discogs_sql_loader.Json.{pos, int, str, Fields, get}
use discogs_sql_loader.Text.Decimal.{decimal}
use discogs_sql_loader.Graph.Ids.Agree.{discogs_id-decimal}
use discogs_sql_loader.Common.{Common}
use discogs_sql_loader.Graph.Ids.{elements, present}
use discogs_sql_loader.Graph.MediaRows.{
  CompanyRow, company_identity, has_company, named_company, companies_from, company_rows,
}

-- the first row of a company in a role
unfoldable pub find_company : Text → Text → List CompanyRow → Option CompanyRow
find_company id role [] = none
find_company id role (row ∷ rows) =
    if same Text-discrete id row.company_id && same Text-discrete role row.role
    then some row
    else find_company id role rows

-- no two rows have one company and one role
unfoldable pub companies_distinct : List CompanyRow → Bool
companies_distinct [] = true
companies_distinct (row ∷ rows) =
    not (has_company row.company_id row.role rows) && companies_distinct rows

module _ (id role : Text) where
  has-append :
      (xs ys : List CompanyRow)
      → has_company id role (xs ++ ys) ≡ (has_company id role xs || has_company id role ys)
  unfolding has_company
  has-append [] ys = refl
  has-append (x ∷ xs) ys = ground (arith, has-append xs ys)

  abbrev first_of_two : Option CompanyRow → Option CompanyRow → Option CompanyRow
  first_of_two none b = b
  first_of_two (some a) b = some a

  find-append :
      (xs ys : List CompanyRow)
      → find_company id role (xs ++ ys)
        ≡ first_of_two (find_company id role xs) (find_company id role ys)
  unfolding find_company
  find-append [] ys = refl
  find-append (x ∷ xs) ys = ground (arith, find-append xs ys)

  -- a row that is found stays the first when the company is there already
  find_again :
      (row : CompanyRow) (xs : List CompanyRow) (rest : Option CompanyRow)
      → has_company row.company_id row.role xs ≡ true
      → first_of_two (find_company id role xs) (
          if same Text-discrete id row.company_id && same Text-discrete role row.role
          then some row
          else rest)
        ≡ first_of_two (find_company id role xs) rest
  unfolding has_company find_company
  find_again row [] rest h = cc
  find_again row (x ∷ xs) rest h = ground (arith, find_again row xs rest)

  module _ (common : Common) where
    -- the items that have an identity and a role, in order
    abbrev pub named_items : List Fields → List CompanyRow
    named_items items = present (map (named_company common) items)

    find_step :
        (row : CompanyRow) (rows : List CompanyRow) (rest : Option CompanyRow)
        → first_of_two
            (find_company id role
              (if has_company row.company_id row.role rows then rows else rows ++ row ∷ []))
            rest
          ≡ first_of_two (find_company id role rows) (
              if same Text-discrete id row.company_id && same Text-discrete role row.role
              then some row
              else rest)
    find_step row rows rest = elim (Bool-cases (has_company row.company_id row.role rows)) [
      | inl old ↦ rw old (sym (find_again row rows rest old))
      | inr new ↦ rw new (rw find-append (unfold find_company in ground arith))
    ]

    find-companies_from :
        (rows : List CompanyRow) (items : List Fields)
        → find_company id role (companies_from common rows items)
          ≡ first_of_two (find_company id role rows) (find_company id role (named_items items))
    unfolding companies_from
    find-companies_from rows [] = unfold find_company in ground arith
    find-companies_from rows (item ∷ items) =
        elim (named_company common item)
          as (λ o.
            find_company id role (
              companies_from common
                (elim o [
                  | none ↦ rows
                  | some row ↦
                      if has_company row.company_id row.role rows then rows else rows ++ row ∷ []
                ])
                items)
            ≡ first_of_two (find_company id role rows)
                (find_company id role (present (o ∷ map (named_company common) items)))) [
                  | none ↦ find-companies_from rows items
                  | some row ↦
                      find-companies_from
                        (if has_company row.company_id row.role rows
                          then rows
                          else rows ++ row ∷ [])
                        items
                      ∙ find_step row rows (find_company id role (named_items items))
                      ∙ (unfold find_company in refl)
                ]

distinct-append_one :
    (row : CompanyRow) (rows : List CompanyRow)
    → companies_distinct rows ≡ true
    → has_company row.company_id row.role rows ≡ false
    → companies_distinct (rows ++ row ∷ []) ≡ true
unfolding companies_distinct has_company
distinct-append_one row [] h k = refl
distinct-append_one row (x ∷ rows) h k =
    ground (arith, distinct-append_one row rows, has-append x.company_id x.role rows (row ∷ []))

distinct_step :
    (row : CompanyRow) (rows : List CompanyRow)
    → companies_distinct rows ≡ true
    → companies_distinct
        (if has_company row.company_id row.role rows then rows else rows ++ row ∷ [])
      ≡ true
distinct_step row rows h = elim (Bool-cases (has_company row.company_id row.role rows)) [
  | inl old ↦ rw old h
  | inr new ↦ rw new (distinct-append_one row rows h new)
]

module _ (common : Common) where
  distinct-companies_from :
      (rows : List CompanyRow) (items : List Fields)
      → companies_distinct rows ≡ true
      → companies_distinct (companies_from common rows items) ≡ true
  unfolding companies_from
  distinct-companies_from rows [] h = h
  distinct-companies_from rows (item ∷ items) h =
      elim (named_company common item)
        as (λ o.
          companies_distinct (
            companies_from common
              (elim o [
                | none ↦ rows
                | some row ↦
                    if has_company row.company_id row.role rows then rows else rows ++ row ∷ []
              ])
              items)
          ≡ true) [
            | none ↦ distinct-companies_from rows items h
            | some row ↦
                distinct-companies_from
                  (if has_company row.company_id row.role rows then rows else rows ++ row ∷ [])
                  items (distinct_step row rows h)
          ]

  -- The rows of a companies block hold each company in each role at most once, and the row of a
  -- company in a role is the one of the first item that names both.
  pub company_rows-first :
      (block : Fields) (id role : Text)
      → (companies_distinct (company_rows common block) ≡ true)
        × (find_company id role (company_rows common block)
            ≡ find_company id role (named_items id role common (elements (get "items" block))))
  unfolding company_rows
  company_rows-first block id role = (
    distinct-companies_from [] (elements (get "items" block)) (unfold companies_distinct in refl),
    find-companies_from id role common [] (elements (get "items" block))
        ∙ (unfold find_company in refl),
  )

  -- An entry is the same company whether its Discogs id is stated as a number or as its text.
  pub company_identity-decimal :
      (a b : Fields) (n : ℕ)
      → get "discogs_id" a ≡ int (pos n)
      → get "discogs_id" b ≡ str (decimal n)
      → get "name" a ≡ get "name" b
      → company_identity common a ≡ company_identity common b
  unfolding company_identity
  company_identity-decimal a b n p q r = cc (p, q, r, discogs_id-decimal n)
