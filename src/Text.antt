-- ===== src/Text.antt =====
-- Python's `str` as the list of its code points, with the methods that the loader calls on ids,
-- names and labels: `strip`, `split`, `" ".join`, `str(int)`, `int(str)`, and `[0-9]+`.
pub mod Decimal
use Prim.Native.Char.{code}
use discogs_sql_loader.Prelude.{
  ℕ, ◌+◌, ◌-◌, ◌*◌, String, Bool, true, false, ◌&&◌, ◌||◌, List, [], ◌∷◌, ◌++◌, leb, ◌==◌,
  if◌then◌else◌, ℕ_discrete, all,
}

abbrev pub Text : Type 0
Text = List ℕ

-- a literal's code points
abbrev pub codes : String → Text
codes String.[] = []
codes (String.◌∷◌ c s) = code c ∷ codes s

unfoldable pub Text-discrete : Discrete Text
unfolding ℕ_discrete
Text-discrete = hlevel ℕ_discrete

abbrev pub blank : Text → Bool
blank [] = true
blank (c ∷ s) = false

-- `str.isspace` of one code point
unfoldable pub is_space : ℕ → Bool
is_space c =
    leb 9 c && leb c 13
    || leb 28 c && leb c 32
    || c == 0x85
    || c == 0xa0
    || c == 0x1680
    || leb 0x2000 c && leb c 0x200a
    || c == 0x2028
    || c == 0x2029
    || c == 0x202f
    || c == 0x205f
    || c == 0x3000

unfoldable pub lstrip : Text → Text
lstrip [] = []
lstrip (c ∷ s) = let rest = lstrip s in if is_space c then rest else c ∷ s

unfoldable pub rstrip : Text → Text
rstrip [] = []
rstrip (c ∷ s) = let rest = rstrip s in if blank rest && is_space c then [] else c ∷ rest

unfoldable pub strip : Text → Text
unfolding lstrip rstrip is_space
strip s = rstrip (lstrip s)

-- `s.split()`: `word` is the word that is being read
abbrev end_word : Text → List Text → List Text
end_word [] words = words
end_word (c ∷ s) words = (c ∷ s) ∷ words

split_from : Text → Text → List Text
split_from word [] = end_word word []
split_from word (c ∷ s) =
    let ended = end_word word (split_from [] s) in
    let longer = split_from (word ++ c ∷ []) s in if is_space c then ended else longer

unfoldable pub split : Text → List Text
unfolding split_from is_space
split s = split_from [] s

-- `" ".join(words)`
unfoldable pub join : List Text → Text
join [] = []
join (w ∷ []) = w
join (w ∷ v ∷ words) = w ++ 32 ∷ join (v ∷ words)

unfoldable pub is_digit : ℕ → Bool
is_digit c = leb 48 c && leb c 57

-- `_DIGITS.fullmatch(s)` with `[0-9]+`
unfoldable pub is_digits : Text → Bool
unfolding is_digit
is_digits [] = false
is_digits (c ∷ s) = all is_digit (c ∷ s)

-- `int(s)` for a text of digits
unfoldable pub value_from : ℕ → Text → ℕ
value_from n [] = n
value_from n (c ∷ s) = value_from (n * 10 + (c - 48)) s

unfoldable pub value : Text → ℕ
unfolding value_from
value s = value_from 0 s
