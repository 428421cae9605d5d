-- ===== src/Json.antt =====
-- JSON values as the SDK handles them (`Any` in utils/casing.py, errors.py and utils/http.py):
-- Python's None, bool, int, float, str, list and dict with string keys.
use spooled_sdk_python.Prelude.{
  ℕ, ◌==◌, Bool, true, false, not, ◌||◌, Option, none, some, Str, is_true, str_eq, if◌then◌else◌,
}
use spooled_sdk_python.Prelude.Int.{ℤ, pos, negsuc}

mutual
  pub data Value : Type 0 where
    null : Value
    bool : Bool → Value
    int : ℤ → Value
    -- `float m k` is m / 10 ^ k.
    float : ℤ → ℕ → Value
    str : Str → Value
    arr : Items → Value
    obj : Fields → Value

  pub data Items : Type 0 where
    nil : Items
    cons : Value → Items → Items

  -- A dict in the order of insertion.
  pub data Fields : Type 0 where
    end : Fields
    field : Str → Value → Fields → Fields

-- `dict.get(key)`; the keys of a dict are distinct, so the first entry is the one.
unfoldable pub get : Str → Fields → Option Value
get k end = none
get k (field j v fs) = if str_eq j k then some v else get k fs

-- `key in dict`.
unfoldable pub has : Str → Fields → Bool
has k end = false
has k (field j v fs) = str_eq j k || has k fs

-- `d[key] = value`: an old key keeps its place.
unfoldable pub put : Str → Value → Fields → Fields
put k v end = field k v end
put k v (field j w fs) = if str_eq j k then field j v fs else field j w (put k v fs)

abbrev pub get_or : Str → Value → Fields → Value
get_or k d fs = elim (get k fs) [ none ↦ d | some v ↦ v ]

abbrev pub is_zero : ℤ → Bool
is_zero (pos n) = n == 0
is_zero (negsuc n) = false

-- The truth value of a JSON value.
abbrev pub truthy : Value → Bool
truthy null = false
truthy (bool b) = b
truthy (int i) = not (is_zero i)
truthy (float m k) = not (is_zero m)
truthy (str s) = is_true s
truthy (arr nil) = false
truthy (arr (cons x xs)) = true
truthy (obj end) = false
truthy (obj (field k v fs)) = true
