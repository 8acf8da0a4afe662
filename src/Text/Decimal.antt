-- ===== src/Text/Decimal.antt =====
-- `str(n)` of a number, and what reading it back gives.
use discogs_sql_loader.Prelude.{
  ℕ, zero, suc, ◌+◌, ◌/◌, ◌%◌, ◌<◌, ◌≡◌, refl, true, false, [], ◌∷◌, ltb, if◌then◌else◌, inl, inr,
  Bool-cases, arith, all,
}
use discogs_sql_loader.Text.{
  Text, is_space, lstrip, rstrip, strip, is_digit, is_digits, value_from, value,
}

-- the digits of `n` before `rest`; `n` rounds are enough
unfoldable pub decimal_from : ℕ → ℕ → Text → Text
decimal_from zero n rest = rest
decimal_from (suc f) n rest =
    let more = decimal_from f (n / 10) ((48 + n % 10) ∷ rest) in
    if ltb n 10 then (48 + n) ∷ rest else more

unfoldable pub decimal : ℕ → Text
unfolding decimal_from
decimal n = decimal_from (suc n) n []

value-decimal_from :
    (f n : ℕ) (rest : Text) → n < f → value_from 0 (decimal_from f n rest) ≡ value_from n rest
unfolding decimal_from value_from
value-decimal_from zero n rest h = elim h [ ]
value-decimal_from (suc f) n rest h = elim (Bool-cases (ltb n 10)) [
  | inl small ↦ rw small (ground arith)
  | inr big ↦
      rw (big, value-decimal_from f (n / 10) ((48 + n % 10) ∷ rest) (ground arith)) (ground arith)
]

pub value-decimal : (n : ℕ) → value (decimal n) ≡ n
unfolding value decimal
value-decimal n = value-decimal_from (suc n) n [] (omega arith)

digit_lem : (n : ℕ) → n < 10 → is_digit (48 + n) ≡ true
unfolding is_digit
digit_lem n h = ground arith

is_digits-decimal_from :
    (f n : ℕ) (rest : Text)
    → n < f
    → all is_digit rest ≡ true
    → (is_digits (decimal_from f n rest) ≡ true)
unfolding decimal_from is_digits
is_digits-decimal_from zero n rest h k = elim h [ ]
is_digits-decimal_from (suc f) n rest h k = elim (Bool-cases (ltb n 10)) [
  | inl small ↦ rw (small, digit_lem n (ground arith), k)
  | inr big ↦ rw big (
      is_digits-decimal_from f (n / 10) ((48 + n % 10) ∷ rest) (ground arith)
        (rw (digit_lem (n % 10) (omega arith)) k))
]

pub is_digits-decimal : (n : ℕ) → is_digits (decimal n) ≡ true
unfolding decimal
is_digits-decimal n = is_digits-decimal_from (suc n) n [] (omega arith) refl

digit-not_space : (c : ℕ) → is_digit c ≡ true → is_space c ≡ false
unfolding is_digit is_space
digit-not_space c h = ground arith

rstrip_of_digits : (s : Text) → all is_digit s ≡ true → rstrip s ≡ s
unfolding rstrip
rstrip_of_digits [] h = refl
rstrip_of_digits (c ∷ s) h = ground (arith, rstrip_of_digits s, digit-not_space c)

lstrip_of_digits : (s : Text) → all is_digit s ≡ true → lstrip s ≡ s
unfolding lstrip
lstrip_of_digits [] h = refl
lstrip_of_digits (c ∷ s) h = ground (arith, digit-not_space c)

all_of_is_digits : (s : Text) → is_digits s ≡ true → all is_digit s ≡ true
unfolding is_digits
all_of_is_digits [] h = refl
all_of_is_digits (c ∷ s) h = h

pub strip_of_digits : (s : Text) → is_digits s ≡ true → strip s ≡ s
unfolding strip
strip_of_digits s h =
    rw (lstrip_of_digits s (all_of_is_digits s h)) (rstrip_of_digits s (all_of_is_digits s h))

pub rstrip-decimal : (n : ℕ) → rstrip (decimal n) ≡ decimal n
rstrip-decimal n = rstrip_of_digits (decimal n) (all_of_is_digits (decimal n) (is_digits-decimal n))
