-- ===== src/Json.antt =====
-- The JSON values of a decoded message body, as Python's `json` hands them over: `dict`, `list`,
-- `str`, `int`, `float`, `bool` and `None`.
use discogs_sql_loader.Prelude.{
  ℕ, String, Bool, true, false, List, [], ◌∷◌, Option, none, some, ◌==◌, ◌is◌, if◌then◌else◌,
}
use discogs_sql_loader.Text.{Text, blank}

-- `negsuc n` is -(n + 1)
pub data ℤ : Type 0 where
  pos : ℕ → ℤ
  negsuc : ℕ → ℤ

mutual
  pub data Json : Type 0 where
    null : Json
    bool : Bool → Json
    int : ℤ → Json
    -- by its literal: the loader reads no float
    float : Text → Json
    str : Text → Json
    arr : Items → Json
    obj : Fields → Json

  pub data Items : Type 0 where
    nil : Items
    cons : Json → Items → Items

  pub data Fields : Type 0 where
    end : Fields
    field : String → Json → Fields → Fields

abbrev pub elements_of : Items → List Json
elements_of nil = []
elements_of (cons j js) = j ∷ elements_of js

abbrev pub items_of : List Json → Items
items_of [] = nil
items_of (j ∷ js) = cons j (items_of js)

-- `data[key]`, `none` on a missing key
abbrev pub lookup : String → Fields → Option Json
lookup key end = none
lookup key (field k v fs) = let rest = lookup key fs in if k is key then some v else rest

abbrev pub or_default : Json → Option Json → Json
or_default d none = d
or_default d (some v) = v

-- `data.get(key, default)`
abbrev pub get_or : String → Json → Fields → Json
get_or key d data' = or_default d (lookup key data')

-- `data.get(key)`
abbrev pub get : String → Fields → Json
get key data' = get_or key null data'

abbrev pub is_dict : Json → Bool
is_dict (obj fs) = true
is_dict _ = false

abbrev pub is_null : Json → Bool
is_null null = true
is_null _ = false

-- a value in a test, `if value:`; a float's truth is that of its value, so `zero_float` decides it
abbrev pub truthy : (Text → Bool) → Json → Bool
truthy zero_float null = false
truthy zero_float (bool b) = b
truthy zero_float (int (pos n)) = if n == 0 then false else true
truthy zero_float (int (negsuc n)) = true
truthy zero_float (float x) = if zero_float x then false else true
truthy zero_float (str s) = if blank s then false else true
truthy zero_float (arr nil) = false
truthy zero_float (arr (cons j js)) = true
truthy zero_float (obj end) = false
truthy zero_float (obj (field k v fs)) = true
