-- ===== src/Graph/Ids/Agree.antt =====
-- A Discogs id reads the same whether the document states it as a number or as text.
use discogs_sql_loader.Prelude.{ℕ, suc, ◌≡◌, refl, ◌∙◌, ap, ◌≢◌, false, [], ◌∷◌, some, arith}
use discogs_sql_loader.Text.{Text, is_space, lstrip, rstrip, strip}
use discogs_sql_loader.Text.Decimal.{
  decimal, value-decimal, is_digits-decimal, strip_of_digits, rstrip-decimal,
}
use discogs_sql_loader.Json.{ℤ, pos, negsuc, Json, int, str}
use discogs_sql_loader.Graph.Ids.{int_text, entity_id, discogs_id, no_entity_id, usable}

rstrip-cons : (c : ℕ) (s : Text) → is_space c ≡ false → rstrip (c ∷ s) ≡ c ∷ rstrip s
unfolding rstrip
rstrip-cons c s h = ground arith

strip-int_text : (n : ℤ) → strip (int_text n) ≡ int_text n
unfolding int_text
strip-int_text (pos n) = strip_of_digits (decimal n) (is_digits-decimal n)
strip-int_text (negsuc n) =
    unfold strip lstrip in
    rstrip-cons 45 (decimal (suc n)) (unfold is_space in refl)
    ∙ ap (◌∷◌ 45) (rstrip-decimal (suc n))

-- The id of a reference is the same for an integer and for its text, whatever the integer.
pub entity_id-int : (n : ℤ) → entity_id (int n) ≡ entity_id (str (int_text n))
unfolding entity_id
entity_id-int n = rw strip-int_text

pub discogs_id-decimal : (n : ℕ) → discogs_id (str (decimal n)) ≡ discogs_id (int (pos n))
unfolding discogs_id
discogs_id-decimal n =
    rw (strip_of_digits (decimal n) (is_digits-decimal n), is_digits-decimal, value-decimal)

rstrip_idem : (s : Text) → rstrip (rstrip s) ≡ rstrip s
unfolding rstrip
rstrip_idem [] = refl
rstrip_idem (c ∷ s) = ground (arith, rstrip_idem s)

lstrip-rstrip : (c : ℕ) (s : Text) → is_space c ≡ false → lstrip (rstrip (c ∷ s)) ≡ rstrip (c ∷ s)
unfolding lstrip rstrip
lstrip-rstrip c s h = ground arith

lstrip-strip : (s : Text) → lstrip (rstrip (lstrip s)) ≡ rstrip (lstrip s)
unfolding lstrip
lstrip-strip [] = unfold rstrip in refl
lstrip-strip (c ∷ s) = ground (arith, lstrip-strip s, lstrip-rstrip c s)

pub strip_idem : (s : Text) → strip (strip s) ≡ strip s
unfolding strip
strip_idem s = ap rstrip (lstrip-strip s) ∙ rstrip_idem (lstrip s)

usable_lem :
    (u t : Text) → strip u ≡ u → usable u ≡ some t → (t ≢ []) × (t ≢ no_entity_id) × (strip t ≡ t)
usable_lem [] t h e = cc
usable_lem (c ∷ u) t h e = (ground arith, ground arith, ground arith)

-- An id that is kept is not blank, is not the "no entity" id 0, and is trimmed.
pub entity_id-usable :
    (value : Json) (t : Text)
    → entity_id value ≡ some t
    → (t ≢ []) × (t ≢ no_entity_id) × (strip t ≡ t)
unfolding entity_id
entity_id-usable (int n) t h = usable_lem (int_text n) t (strip-int_text n) h
entity_id-usable (str s) t h = usable_lem (strip s) t (strip_idem s) h
entity_id-usable _ t h = cc
