-- ===== src/Counters/Asserted.antt =====
-- What the pages copy to the temporary table: the rows that some document asserts.
use discogs_sql_loader.Prelude.{
  ℕ, zero, suc, ◌<◌, ◌≤◌, Bool, true, false, ◌&&◌, ◌||◌, List, [], ◌∷◌, ◌≡◌, refl, sym, ◌∙◌, ap,
  if◌then◌else◌, ltb, keep, length, contains, arith, Bool-cases, inl, inr, contains-append,
  contains-from_keys,
}
use discogs_sql_loader.Text.{Text}
use discogs_sql_loader.Common.{Common}
use discogs_sql_loader.Graph.{Row, Row-discrete}
use discogs_sql_loader.Durable.Version.{text_lt}
use discogs_sql_loader.Durable.Version.Order.{text_lt_trans, text_lt_total}
use discogs_sql_loader.Counters.{
  Additive, Document, could_assert, take, document_page, all_rows, body_rows, asserted_rows,
  last_id, copy_pages,
}
use discogs_sql_loader.Counters.Pages.{
  drop, all_after, is_ordered, after, after-last_id, last_id-ge,
}

-- the documents that the predicate takes
abbrev pub candidates : Additive → List Document → List Document
candidates relation docs = keep (λ d. could_assert relation d.body) docs

module _ (p : Document → Bool) where
  pub all_after-keep :
      (l : Text) (docs : List Document) → all_after l docs ≡ true → all_after l (keep p docs) ≡ true
  all_after-keep l [] h = refl
  all_after-keep l (d ∷ docs) h = ground (arith, h, all_after-keep l docs)

  pub is_ordered-keep :
      (docs : List Document) → is_ordered docs ≡ true → is_ordered (keep p docs) ≡ true
  is_ordered-keep [] h = refl
  is_ordered-keep (d ∷ docs) h =
      ground (arith, h, is_ordered-keep docs, all_after-keep d.data_id docs)

  after-keep :
      (l : Text) (docs : List Document)
      → keep (λ d. p d && text_lt l d.data_id) docs ≡ after l (keep p docs)
  after-keep l [] = refl
  after-keep l (d ∷ docs) = ground (arith, after-keep l docs)

all_after-after : (l : Text) (docs : List Document) → all_after l (after l docs) ≡ true
all_after-after l [] = refl
all_after-after l (d ∷ docs) = ground (arith, all_after-after l docs)

-- a later id takes from what an earlier one took
after-after :
    (l m : Text) (docs : List Document)
    → text_lt m l ≡ false
    → after m docs ≡ after m (after l docs)
after-after l m [] h = refl
after-after l m (d ∷ docs) h =
    ground (arith, after-after l m docs, h, text_lt_trans m d.data_id l, text_lt_total l d.data_id)

ap2_or : {a b c d : Bool} → a ≡ b → c ≡ d → (a || c) ≡ (b || d)
ap2_or e f = ground (arith, e, f)

take-drop-rows :
    (common : Common) (relation : Additive) (r : Row) (n : ℕ) (docs : List Document)
    → contains Row-discrete r (all_rows common relation docs) ≡ (
        contains Row-discrete r (all_rows common relation (take n docs))
        || contains Row-discrete r (all_rows common relation (drop n docs)))
unfolding contains
take-drop-rows common relation r zero docs = refl
take-drop-rows common relation r (suc n) [] = refl
take-drop-rows common relation r (suc n) (d ∷ docs) =
    let rows = body_rows common relation d.data_id d.body in
    ground (
      arith,
      contains-append Row-discrete r rows (all_rows common relation docs),
      contains-append Row-discrete r rows (all_rows common relation (take n docs)),
      take-drop-rows common relation r n docs,
    )

drop-short : (n : ℕ) (docs : List Document) → ltb (length (take n docs)) n ≡ true → drop n docs ≡ []
drop-short zero docs h = absurd (ground (arith, h))
drop-short (suc n) [] h = refl
drop-short (suc n) (d ∷ docs) h = drop-short n docs (ground (arith, h))

drop-length : (n : ℕ) (docs : List Document) → length (drop n docs) ≤ length docs
drop-length zero docs = omega arith
drop-length (suc n) [] = omega arith
drop-length (suc n) (d ∷ docs) = omega (arith, drop-length n docs)

-- a page that is full leaves fewer documents
drop-shorter :
    (n : ℕ) (docs : List Document)
    → 0 < n
    → ltb (length (take n docs)) n ≡ false
    → length (drop n docs) < length docs
drop-shorter zero docs pos h = absurd (omega (arith, pos))
drop-shorter (suc n) [] pos h = absurd (ground (arith, h))
drop-shorter (suc n) (d ∷ docs) pos h = omega (arith, drop-length n docs)

module _ (common : Common) (relation : Additive) (limit : ℕ) (docs : List Document)
    (pos : 0 < limit) (o : is_ordered docs ≡ true) where
  abbrev pub rest_of : Text → List Document
  rest_of l = after l (candidates relation docs)

  page-take : (l : Text) → document_page relation l limit docs ≡ take limit (rest_of l)
  unfolding document_page
  page-take l = ap (take limit) (after-keep (λ d. could_assert relation d.body) l docs)

  rest-ordered : (l : Text) → is_ordered (rest_of l) ≡ true
  rest-ordered l =
      is_ordered-keep (λ d. text_lt l d.data_id) (candidates relation docs)
        (is_ordered-keep (λ d. could_assert relation d.body) docs o)

  -- what is left after a page
  rest-drop : (l : Text) → rest_of (last_id l (take limit (rest_of l))) ≡ drop limit (rest_of l)
  rest-drop l =
      after-after l (last_id l (take limit (rest_of l))) (candidates relation docs) (
        last_id-ge limit l (rest_of l) (all_after-after l (candidates relation docs))
          (rest-ordered l))
      ∙ after-last_id limit l (rest_of l) (all_after-after l (candidates relation docs))
          (rest-ordered l)

  -- the pages that follow, if the last was full
  later_pages :
      (l : Text) (r : Row) (rows : List Row)
      → (ltb (length (take limit (rest_of l))) limit ≡ false
          → contains Row-discrete r rows
            ≡ contains Row-discrete r
                (all_rows common relation (rest_of (last_id l (take limit (rest_of l))))))
      → contains Row-discrete r (if ltb (length (take limit (rest_of l))) limit then [] else rows)
        ≡ contains Row-discrete r (all_rows common relation (drop limit (rest_of l)))
  later_pages l r rows ih = elim (Bool-cases (ltb (length (take limit (rest_of l))) limit)) [
    | inl e ↦ rw (e, drop-short limit (rest_of l) e) refl
    | inr e ↦ rw e (
        ih e
        ∙ ap (λ (z : List Document). contains Row-discrete r (all_rows common relation z))
            (rest-drop l))
  ]

  -- with fuel for every document that is left, the pages assert what these documents assert
  pub copy_pages_lem :
      (fuel : ℕ) (l : Text) (r : Row)
      → length (rest_of l) < fuel
      → contains Row-discrete r (copy_pages fuel common relation limit l docs)
        ≡ contains Row-discrete r (all_rows common relation (rest_of l))
  unfolding copy_pages asserted_rows
  copy_pages_lem zero l r f = absurd (omega (arith, f))
  copy_pages_lem (suc fuel) l r f =
      let page = take limit (rest_of l) in
      let next = last_id l page in
      let shorter : ltb (length page) limit ≡ false → length (rest_of next) < fuel = (λ e. omega (
        arith,
        f,
        drop-shorter limit (rest_of l) pos e,
        ap (λ (z : List Document). length z) (rest-drop l),
      )) in
      rw (page-take l) (
        contains-append Row-discrete r (asserted_rows common relation page)
          (if ltb (length page) limit then [] else copy_pages fuel common relation limit next docs)
        ∙ ap2_or (contains-from_keys Row-discrete r (all_rows common relation page)) (
            later_pages l r (copy_pages fuel common relation limit next docs)
              (λ e. copy_pages_lem fuel next r (shorter e)))
        ∙ sym (take-drop-rows common relation r limit (rest_of l)))
