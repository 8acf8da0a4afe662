-- ===== src/Durable/Version.antt =====
-- `ordered_version`: the dump versions that the cursor orders.
pub mod Order
use Prim.Native.Nat.{Ordering}
use discogs_sql_loader.Prelude.{
  ℕ, ◌+◌, ◌*◌, ◌-◌, ◌%◌, Bool, true, false, not, ◌&&◌, ◌||◌, List, [], ◌∷◌, Option, none, some, ltb,
  leb, ◌==◌, if◌then◌else◌, all, length,
}
use discogs_sql_loader.Text.{Text, strip, is_digit, value}
use discogs_sql_loader.Json.{Json}
use discogs_sql_loader.Common.{Common}
use discogs_sql_loader.Latch.{text_or_empty}
use discogs_sql_loader.Graph.Order.{compare_text}

-- `_VERSION_RE.fullmatch`
unfoldable pub eight_digits : Text → Bool
unfolding is_digit
eight_digits v = length v == 8 && all is_digit v

abbrev is_leap : ℕ → Bool
is_leap year = year % 4 == 0 && (not (year % 100 == 0) || year % 400 == 0)

abbrev days_in : ℕ → ℕ → ℕ
days_in year month =
    if month == 2
    then (if is_leap year then 29 else 28)
    else if month == 4 || month == 6 || month == 9 || month == 11
    then 30
    else 31

-- what `date.fromisoformat` takes of a year, a month and a day
abbrev pub is_date : ℕ → ℕ → ℕ → Bool
is_date year month day =
    leb 1 year && leb 1 month && leb month 12 && leb 1 day && leb day (days_in year month)

abbrev pub date_in : Text → Bool
date_in (a ∷ b ∷ c ∷ d ∷ e ∷ f ∷ g ∷ h ∷ []) =
    is_date (value (a ∷ b ∷ c ∷ d ∷ [])) (value (e ∷ f ∷ [])) (value (g ∷ h ∷ []))
date_in _ = false

-- of a text
unfoldable pub ordered_text : Text → Option Text
unfolding eight_digits strip value
ordered_text t =
    let version = strip t in if eight_digits version && date_in version then some version else none

unfoldable pub ordered_version : Common → Json → Option Text
unfolding ordered_text
ordered_version common j = ordered_text (text_or_empty common j)

-- `version < current`
abbrev is_lt : Ordering → Bool
is_lt Ordering.lt = true
is_lt _ = false

unfoldable pub text_lt : Text → Text → Bool
unfolding compare_text
text_lt s t = is_lt (compare_text s t)
