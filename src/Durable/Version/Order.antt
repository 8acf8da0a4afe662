-- ===== src/Durable/Version/Order.antt =====
-- The order of texts, and what it is on the versions that `ordered_version` takes.
use discogs_sql_loader.Prelude.{
  ℕ, ◌+◌, ◌*◌, ◌-◌, ◌<◌, ◌≡◌, refl, sym, ◌∙◌, arith, true, false, ◌&&◌, [], ◌∷◌, some, ltb, length,
  all, Bool-cases, inl, inr,
}
use discogs_sql_loader.Text.{Text, strip, is_digit, value_from, value}
use discogs_sql_loader.Graph.Order.{compare_text}
use discogs_sql_loader.Durable.Version.{text_lt, eight_digits, ordered_text, date_in}

pub text_lt_irrefl : (s : Text) → text_lt s s ≡ false
unfolding text_lt compare_text
text_lt_irrefl [] = refl
text_lt_irrefl (c ∷ s) = ground (arith, text_lt_irrefl s)

pub text_lt_trans : (s t u : Text) → text_lt s t ≡ true → text_lt t u ≡ true → text_lt s u ≡ true
unfolding text_lt compare_text
text_lt_trans [] [] u h k = cc
text_lt_trans [] (d ∷ t) [] h k = cc
text_lt_trans [] (d ∷ t) (e ∷ u) h k = refl
text_lt_trans (c ∷ s) [] u h k = cc
text_lt_trans (c ∷ s) (d ∷ t) [] h k = cc
text_lt_trans (c ∷ s) (d ∷ t) (e ∷ u) h k = ground (arith, text_lt_trans s t u)

pub text_lt_total : (s t : Text) → text_lt s t ≡ false → text_lt t s ≡ false → s ≡ t
unfolding text_lt compare_text
text_lt_total [] [] h k = refl
text_lt_total [] (d ∷ t) h k = cc
text_lt_total (c ∷ s) [] h k = cc
text_lt_total (c ∷ s) (d ∷ t) h k = ground (arith, text_lt_total s t)

smaller :
    (s t : Text) (m n : ℕ)
    → length s ≡ length t
    → all is_digit s ≡ true
    → all is_digit t ≡ true
    → m < n
    → value_from m s < value_from n t
unfolding value_from is_digit
smaller [] [] m n l h k lt = lt
smaller [] (d ∷ t) m n l h k lt = absurd (omega (arith, l))
smaller (c ∷ s) [] m n l h k lt = absurd (omega (arith, l))
smaller (c ∷ s) (d ∷ t) m n l h k lt =
    smaller s t (m * 10 + (c - 48)) (n * 10 + (d - 48)) (omega (arith, l)) (ground arith)
      (ground arith) (ground arith)

lt-value_from :
    (s t : Text) (n : ℕ)
    → length s ≡ length t
    → all is_digit s ≡ true
    → all is_digit t ≡ true
    → text_lt s t ≡ ltb (value_from n s) (value_from n t)
unfolding value_from is_digit text_lt compare_text
lt-value_from [] [] n l h k = ground arith
lt-value_from [] (d ∷ t) n l h k = absurd (omega (arith, l))
lt-value_from (c ∷ s) [] n l h k = absurd (omega (arith, l))
lt-value_from (c ∷ s) (d ∷ t) n l h k =
    let same_length : length s ≡ length t = omega (arith, l) in
    ground (
      arith,
      smaller s t (n * 10 + (c - 48)) (n * 10 + (d - 48)) same_length,
      smaller t s (n * 10 + (d - 48)) (n * 10 + (c - 48)) (sym same_length),
      lt-value_from s t (n * 10 + (c - 48)) same_length,
    )

eight_digits_lem : (v : Text) → eight_digits v ≡ true → (length v ≡ 8) × (all is_digit v ≡ true)
unfolding eight_digits
eight_digits_lem v h = (ground arith, ground arith)

pub taken_lem : (t v : Text) → ordered_text t ≡ some v → (strip t ≡ v) × (eight_digits v ≡ true)
unfolding ordered_text
taken_lem t v h = elim (Bool-cases (eight_digits (strip t) && date_in (strip t))) [
  | inl e ↦ (ground arith, ground arith)
  | inr e ↦ absurd (ground arith)
]

-- The versions that `ordered_version` takes are ordered as their dates are: as texts just as by their
-- numbers YYYYMMDD.
pub ordered_text-value :
    (s t v w : Text)
    → ordered_text s ≡ some v
    → ordered_text t ≡ some w
    → text_lt v w ≡ ltb (value v) (value w)
unfolding value
ordered_text-value s t v w h k =
    let (length_v, digits_v) = eight_digits_lem v ((taken_lem s v h).1) in
    let (length_w, digits_w) = eight_digits_lem w ((taken_lem t w k).1) in
    lt-value_from v w 0 (length_v ∙ sym length_w) digits_v digits_w
