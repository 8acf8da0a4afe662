-- ===== src/Table.antt =====
-- A table whose rows are known by a key: the row of a key, the statements that change rows, and
-- predicates on all rows.
use mathlib.Core.Path.{subst}
use mathlib.Core.Logic.{ite}
use discogs_sql_loader.Prelude.Members.{In, get_elem?}
use discogs_sql_loader.Prelude.{
  ℕ, zero, suc, Bool, true, false, ◌||◌, List, [], ◌∷◌, ◌++◌, map, ◌≡◌, refl, sym, ap, arith,
  Option, none, some, if◌then◌else◌, same, same_refl, contains, distinct, inl, inr,
}

abbrev pub map_row {ℓ κ} : {A : Type ℓ} {B : Type κ} → (A → B) → Option A → Option B
map_row f none = none
map_row f (some a) = some (f a)

abbrev pub or_row {ℓ} : {A : Type ℓ} → Option A → Option A → Option A
or_row none b = b
or_row (some a) b = some a

or_row-none {ℓ} : {A : Type ℓ} (l : Option A) → or_row l none ≡ l
or_row-none none = refl
or_row-none (some l) = refl

pub some_inj {ℓ} : {A : Type ℓ} {a b : A} → some a ≡ some b → a ≡ b
some_inj e = cc

module _ {R : Type 0} where
  abbrev pub All : (R → Type 0) → List R → Type 0
  All P [] = Unit
  All P (r ∷ rows) = P r × All P rows

  pub All-map :
      (P Q : R → Type 0) (f : R → R) (rows : List R)
      → ((r : R) → P r → Q (f r))
      → All P rows
      → All Q (map f rows)
  All-map P Q f [] step h = tt
  All-map P Q f (r ∷ rows) step (h, hs) = (step r h, All-map P Q f rows step hs)

  pub All-imp : (P Q : R → Type 0) (rows : List R) → ((r : R) → P r → Q r) → All P rows → All Q rows
  All-imp P Q [] step h = tt
  All-imp P Q (r ∷ rows) step (h, hs) = (step r h, All-imp P Q rows step hs)

  pub All-get :
      (P : R → Type 0) (rows : List R) (n : ℕ) (r : R)
      → All P rows
      → get_elem? rows n ≡ some r
      → P r
  All-get P [] n r h e = cc
  All-get P (x ∷ rows) zero r (h, hs) e = subst P (some_inj e) h
  All-get P (x ∷ rows) (suc n) r (h, hs) e = All-get P rows n r hs e

  pub All-append_one :
      (P : R → Type 0) (rows : List R) (new : R) → All P rows → P new → All P (rows ++ new ∷ [])
  All-append_one P [] new h k = (k, tt)
  All-append_one P (r ∷ rows) new (h, hs) k = (h, All-append_one P rows new hs k)

module _ {R K : Type 0} (dec : Discrete K) (key : R → K) where
  unfoldable pub find : K → List R → Option R
  find k [] = none
  find k (r ∷ rows) = if same dec k (key r) then some r else find k rows

  -- `UPDATE … WHERE` the key
  unfoldable pub update : K → (R → R) → List R → List R
  update k f [] = []
  update k f (r ∷ rows) = if same dec k (key r) then f r ∷ rows else r ∷ update k f rows

  pub find-key : (k : K) (rows : List R) (r : R) → find k rows ≡ some r → key r ≡ k
  unfolding find
  find-key k [] r h = cc
  find-key k (x ∷ rows) r h = ground (arith, find-key k rows r)

  pub find-append_one :
      (k : K) (rows : List R) (new : R)
      → find k (rows ++ new ∷ [])
        ≡ or_row (find k rows) (if same dec k (key new) then some new else none)
  unfolding find
  find-append_one k [] new = refl
  find-append_one k (r ∷ rows) new = ground (arith, find-append_one k rows new)

  pub All-find :
      (P : R → Type 0) (k : K) (rows : List R) (r : R) → All P rows → find k rows ≡ some r → P r
  unfolding find
  All-find P k [] r h e = cc
  All-find P k (x ∷ rows) r (h, hs) e =
      elim (dec k (key x))
          as (λ d. (if ite d true false then some x else find k rows) ≡ some r → P r) [
            | yes p ↦ (λ q. subst P (some_inj q) h)
            | no p ↦ (λ q. All-find P k rows r hs q)
          ]
        e

  module _ (f : R → R) (keeps : (r : R) → key (f r) ≡ key r) where
    pub find-map : (k : K) (rows : List R) → find k (map f rows) ≡ map_row f (find k rows)
    unfolding find
    find-map k [] = refl
    find-map k (r ∷ rows) = ground (arith, keeps r, find-map k rows)

    pub find-update :
        (k j : K) (rows : List R)
        → find k (update j f rows) ≡ (if same dec k j then map_row f (find k rows) else find k rows)
    unfolding find update
    find-update k j [] = ground arith
    find-update k j (r ∷ rows) = ground (arith, keeps r, find-update k j rows)

    pub keys-map : (rows : List R) → map key (map f rows) ≡ map key rows
    keys-map [] = refl
    keys-map (r ∷ rows) = rw (keeps r, keys-map rows) refl

    pub keys-update : (j : K) (rows : List R) → map key (update j f rows) ≡ map key rows
    unfolding update
    keys-update j [] = refl
    keys-update j (r ∷ rows) = ground (arith, keeps r, keys-update j rows)

  pub find-In : (k : K) (rows : List R) (r : R) → find k rows ≡ some r → In r rows
  unfolding find
  find-In k [] r h = cc
  find-In k (x ∷ rows) r h =
      elim (dec k (key x))
          as (λ d. (if ite d true false then some x else find k rows) ≡ some r → In r (x ∷ rows)) [
            | yes p ↦ (λ q. inl (sym (some_inj q)))
            | no p ↦ (λ q. inr (find-In k rows r q))
          ]
        h

  pub missing_row :
      (v w : K) (new : R) (rows : List R)
      → find w rows ≡ none
      → or_row (find v rows) (if same dec v w then some new else none)
        ≡ (if same dec v w then some new else find v rows)
  missing_row v w new rows h =
      elim (dec v w)
        as (λ d.
          or_row (find v rows) (if ite d true false then some new else none)
          ≡ (if ite d true false then some new else find v rows)) [
            | yes p ↦ rw (p, h) refl
            | no p ↦ or_row-none (find v rows)
          ]

  pub at_same :
      (v w : K) (f : Option R → Option R) (rows : List R)
      → (if same dec v w then f (find v rows) else find v rows)
        ≡ (if same dec v w then f (find w rows) else find v rows)
  at_same v w f rows =
      elim (dec v w)
        as (λ d.
          (if ite d true false then f (find v rows) else find v rows)
          ≡ (if ite d true false then f (find w rows) else find v rows)) [
            | yes p ↦ ap (λ (x : K). f (find x rows)) p
            | no p ↦ refl
          ]

  pub All-update :
      (P : R → Type 0) (k : K) (f : R → R) (rows : List R)
      → ((r : R) → key r ≡ k → P r → P (f r))
      → All P rows
      → All P (update k f rows)
  unfolding update
  All-update P k f [] step h = tt
  All-update P k f (r ∷ rows) step (h, hs) =
      elim (dec k (key r))
        as (λ d. All P (if ite d true false then f r ∷ rows else r ∷ update k f rows)) [
          | yes p ↦ (step r (sym p) h, hs)
          | no p ↦ (h, All-update P k f rows step hs)
        ]

  pub find-contains :
      (k : K) (rows : List R)
      → contains dec k (map key rows) ≡ (elim (find k rows) [ none ↦ false | some r ↦ true ])
  unfolding contains find
  find-contains k [] = refl
  find-contains k (r ∷ rows) = ground (arith, find-contains k rows)

  -- with distinct keys, a row that stands in the table is the one that its key finds
  pub In-find :
      (rows : List R) (r : R)
      → distinct dec (map key rows) ≡ true
      → In r rows
      → find (key r) rows ≡ some r
  unfolding distinct contains find
  In-find [] r h i = absurd i
  In-find (x ∷ rows) r h (inl e) = ground (arith, e, same_refl dec (key x))
  In-find (x ∷ rows) r h (inr i) =
      ground (arith, In-find rows r (ground arith) i, find-contains (key x) rows)

-- a test of the row of a key, where the row of one key changes; and of its rows in two tables
module _ {K B : Type 0} (dec : Discrete K) (v w : K) where
  pub at_row :
      (P : K → B → Bool) (b j : B)
      → P w j ≡ true
      → same dec v w || P v b ≡ true
      → P v (if same dec v w then j else b) ≡ true
  at_row P b j here elsewhere =
      elim (dec v w)
          as (λ d.
            ite d true false || P v b ≡ true → P v (if ite d true false then j else b) ≡ true) [
              | yes p ↦ (λ e. rw p here)
              | no p ↦ (λ e. e)
            ]
        elsewhere

  pub at_rows :
      {A : Type 0} (P : K → A → B → Bool) (a l : A) (b j : B)
      → P w l j ≡ true
      → same dec v w || P v a b ≡ true
      → P v (if same dec v w then l else a) (if same dec v w then j else b) ≡ true
  at_rows P a l b j here elsewhere =
      elim (dec v w)
          as (λ d.
            ite d true false || P v a b ≡ true
            → P v (if ite d true false then l else a) (if ite d true false then j else b) ≡ true) [
              | yes p ↦ (λ e. rw p here)
              | no p ↦ (λ e. e)
            ]
        elsewhere
