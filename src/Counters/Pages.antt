-- ===== src/Counters/Pages.antt =====
-- The keyset pages cover every document that could assert a row, and no document twice.
use discogs_sql_loader.Prelude.{
  ℕ, zero, suc, Bool, true, false, ◌&&◌, List, [], ◌∷◌, ◌≡◌, refl, keep, all, arith, Bool-cases,
  inl, inr,
}
use discogs_sql_loader.Text.{Text}
use discogs_sql_loader.Durable.Version.{text_lt}
use discogs_sql_loader.Durable.Version.Order.{text_lt_irrefl, text_lt_trans}
use discogs_sql_loader.Counters.{Document, take, last_id}

abbrev pub drop : ℕ → List Document → List Document
drop zero docs = docs
drop (suc n) [] = []
drop (suc n) (d ∷ docs) = drop n docs

-- every document comes after the id
abbrev pub all_after : Text → List Document → Bool
all_after last docs = all (λ d. text_lt last d.data_id) docs

-- the rows are in the order of the key
abbrev pub is_ordered : List Document → Bool
is_ordered [] = true
is_ordered (d ∷ docs) = all_after d.data_id docs && is_ordered docs

abbrev pub after : Text → List Document → List Document
after last docs = keep (λ d. text_lt last d.data_id) docs

pub after-all_after :
    (last : Text) (docs : List Document) → all_after last docs ≡ true → after last docs ≡ docs
after-all_after last [] h = refl
after-all_after last (d ∷ docs) h = ground (arith, h, after-all_after last docs)

all_after_trans :
    (l m : Text) (docs : List Document)
    → text_lt l m ≡ true
    → all_after m docs ≡ true
    → all_after l docs ≡ true
all_after_trans l m [] lt h = refl
all_after_trans l m (d ∷ docs) lt h =
    ground (arith, h, lt, text_lt_trans l m d.data_id, all_after_trans l m docs)

-- what is last in a page is not before what comes before the page
pub last_id-ge :
    (n : ℕ) (l : Text) (docs : List Document)
    → all_after l docs ≡ true
    → is_ordered docs ≡ true
    → text_lt (last_id l (take n docs)) l ≡ false
last_id-ge zero l docs h o = text_lt_irrefl l
last_id-ge (suc n) l [] h o = text_lt_irrefl l
last_id-ge (suc n) l (d ∷ docs) h o =
    let here : text_lt l d.data_id ≡ true = ground (arith, h) in
    let later = last_id-ge n d.data_id docs (ground (arith, o)) (ground (arith, o)) in
    elim (Bool-cases (text_lt (last_id d.data_id (take n docs)) l)) [
      | inr e ↦ e
      | inl e ↦ absurd (
          ground (arith, later, text_lt_trans (last_id d.data_id (take n docs)) l d.data_id e here))
    ]

-- the next page begins where the last one ended
pub after-last_id :
    (n : ℕ) (l : Text) (docs : List Document)
    → all_after l docs ≡ true
    → is_ordered docs ≡ true
    → after (last_id l (take n docs)) docs ≡ drop n docs
after-last_id zero l docs h o = after-all_after l docs h
after-last_id (suc n) l [] h o = refl
after-last_id (suc n) l (d ∷ docs) h o = ground (
  arith,
  last_id-ge n d.data_id docs (ground (arith, o)) (ground (arith, o)),
  after-last_id n d.data_id docs (ground (arith, o)) (ground (arith, o)),
)
