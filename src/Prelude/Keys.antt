-- ===== src/Prelude/Keys.antt =====
-- Python's `dict.fromkeys` and `dict.update` read as ordered sets of keys, and predicates on lists.
use Prim.Native.Nat.{ℕ, suc, ◌+◌}
use mathlib.Core.Path.{◌≡◌, refl}
use mathlib.Core.Logic.{ite, inl, inr}
use mathlib.Core.Bool.{Bool, true, false, not, ◌&&◌, ◌||◌}
use mathlib.Core.List.{List, [], ◌∷◌, ◌++◌}
use native.Mathlib.Omega.{arith}
use discogs_sql_loader.Prelude.Tests.{if◌then◌else◌, Bool-cases}

module _ {ℓ} {A : Type ℓ} where
  abbrev pub length : List A → ℕ
  length [] = 0
  length (x ∷ xs) = suc (length xs)

  pub length-append : (xs ys : List A) → length (xs ++ ys) ≡ length xs + length ys
  length-append [] ys = omega arith
  length-append (x ∷ xs) ys = omega (arith, length-append xs ys)

  -- `[x for x in xs if p(x)]`
  abbrev pub keep : (A → Bool) → List A → List A
  keep p [] = []
  keep p (x ∷ xs) = let rest = keep p xs in if p x then x ∷ rest else rest

  abbrev pub all : (A → Bool) → List A → Bool
  all p [] = true
  all p (x ∷ xs) = p x && all p xs

module _ {ℓ} {A : Type ℓ} (dec : Discrete A) where
  abbrev pub same : A → A → Bool
  same x y = ite (dec x y) true false

  -- `x in xs`
  unfoldable pub contains : A → List A → Bool
  contains a [] = false
  contains a (x ∷ xs) = same a x || contains a xs

  -- a key that is there keeps its place
  unfoldable pub add_key : List A → A → List A
  add_key d x = if contains x d then d else d ++ x ∷ []

  -- `d.update(dict.fromkeys(xs))`
  unfoldable pub add_keys : List A → List A → List A
  add_keys d [] = d
  add_keys d (x ∷ xs) = add_keys (add_key d x) xs

  -- `list(dict.fromkeys(xs))`
  unfoldable pub from_keys : List A → List A
  from_keys = add_keys []

  -- no element occurs twice
  unfoldable pub distinct : List A → Bool
  distinct [] = true
  distinct (x ∷ xs) = not (contains x xs) && distinct xs

module _ {ℓ} {A : Type ℓ} (dec : Discrete A) where
  pub contains-append :
      (a : A) (xs ys : List A)
      → contains dec a (xs ++ ys) ≡ (contains dec a xs || contains dec a ys)
  unfolding contains
  contains-append a [] ys = refl
  contains-append a (x ∷ xs) ys = ground (arith, contains-append a xs ys)

  pub same-eq : (a b : A) → same dec a b ≡ true → a ≡ b
  same-eq a b h =
      elim (dec a b) as (λ d. ite d true false ≡ true → a ≡ b) [
        | yes p ↦ (λ q. p)
        | no p ↦ (λ q. absurd (ground (arith, q)))
      ]
        h

  pub same_refl : (a : A) → same dec a a ≡ true
  same_refl a = ground arith

  pub contains-keep :
      (p : A → Bool) (a : A) (xs : List A) → contains dec a (keep p xs) ≡ (contains dec a xs && p a)
  unfolding contains
  contains-keep p a [] = refl
  contains-keep p a (x ∷ xs) = elim (Bool-cases (same dec a x)) [
    | inl e ↦ rw (same-eq a x e) (ground (arith, contains-keep p x xs, same_refl x))
    | inr e ↦ ground (arith, contains-keep p a xs, e)
  ]

  contains-add_key :
      (a x : A) (d : List A) → contains dec a (add_key dec d x) ≡ (contains dec a d || same dec a x)
  unfolding add_key contains
  contains-add_key a x d = ground (arith, contains-append a d (x ∷ []))

  pub contains-add_keys :
      (a : A) (d xs : List A)
      → contains dec a (add_keys dec d xs) ≡ (contains dec a d || contains dec a xs)
  unfolding add_keys contains
  contains-add_keys a d [] = ground arith
  contains-add_keys a d (x ∷ xs) =
      ground (arith, contains-add_keys a (add_key dec d x) xs, contains-add_key a x d)

  pub contains-from_keys :
      (a : A) (xs : List A) → contains dec a (from_keys dec xs) ≡ contains dec a xs
  unfolding from_keys contains
  contains-from_keys a xs = contains-add_keys a [] xs

  pub distinct-append_one :
      (x : A) (d : List A)
      → distinct dec d ≡ true
      → contains dec x d ≡ false
      → distinct dec (d ++ x ∷ []) ≡ true
  unfolding distinct contains
  distinct-append_one x [] h k = refl
  distinct-append_one x (y ∷ d) h k =
      ground (arith, distinct-append_one x d, contains-append y d (x ∷ []))

  pub distinct-add_keys :
      (d xs : List A) → distinct dec d ≡ true → distinct dec (add_keys dec d xs) ≡ true
  unfolding add_keys add_key
  distinct-add_keys d [] h = h
  distinct-add_keys d (x ∷ xs) h = elim (Bool-cases (contains dec x d)) [
    | inl old ↦ rw old (distinct-add_keys d xs h)
    | inr new ↦ rw new (distinct-add_keys (d ++ x ∷ []) xs (distinct-append_one x d h new))
  ]

  pub distinct-from_keys : (xs : List A) → distinct dec (from_keys dec xs) ≡ true
  unfolding from_keys distinct
  distinct-from_keys xs = distinct-add_keys [] xs refl
