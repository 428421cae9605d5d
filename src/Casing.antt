-- ===== src/Casing.antt =====
-- src/spooled/utils/casing.py: keys to snake_case, and the values whose keys are left alone. The two
-- regular expressions of `to_snake_case` are scans: each inserts underscores, and no two of its
-- matches overlap. Digits are those of ASCII.
pub mod Keys
pub mod Bodies
mod Examples
use spooled_sdk_python.Prelude.{
  ℕ, ◌&&◌, ◌||◌, Bool, true, false, List, [], ◌∷◌, ◌++◌, Option, none, some, Str, codes, is_upper,
  is_lower, is_digit, lower, str_eq, str_mem, if◌then◌else◌, strip, starts_with,
}
use spooled_sdk_python.Json.{
  Value, null, bool, int, float, str, arr, obj, Items, nil, cons, Fields, end, field, put,
}

unfoldable pub skip_conversion_keys : List Str
skip_conversion_keys =
    codes "payload"
    ∷ codes "result"
    ∷ codes "metadata"
    ∷ codes "tags"
    ∷ codes "settings"
    ∷ codes "details"
    ∷ codes "extra"
    ∷ codes "payloadTemplate"
    ∷ codes "payload_template"
    ∷ codes "customLimits"
    ∷ codes "custom_limits"
    ∷ []

-- `re.sub(r"([A-Z]+)([A-Z][a-z])", r"\1_\2", s)`: an underscore before the last capital of a run of
-- two or more that a small letter follows.
unfoldable pub split_acronyms : Str → Str
split_acronyms [] = []
split_acronyms (x ∷ []) = x ∷ []
split_acronyms (x ∷ y ∷ []) = x ∷ y ∷ []
split_acronyms (x ∷ y ∷ z ∷ s) =
    let rest = split_acronyms (y ∷ z ∷ s) in
    if is_upper x && is_upper y && is_lower z then x ∷ b'_' ∷ rest else x ∷ rest

-- `re.sub(r"([a-z\d])([A-Z])", r"\1_\2", s)`.
unfoldable pub split_words : Str → Str
split_words [] = []
split_words (x ∷ []) = x ∷ []
split_words (x ∷ y ∷ s) =
    let rest = split_words (y ∷ s) in
    if (is_lower x || is_digit x) && is_upper y then x ∷ b'_' ∷ rest else x ∷ rest

unfoldable pub to_snake_case : Str → Str
unfolding split_acronyms split_words
to_snake_case s = lower (split_words (split_acronyms s))

-- `skip and (key in skip or new_key in skip)`.
unfoldable pub is_skipped : List Str → Str → Str → Bool
is_skipped skip key new_key = str_mem key skip || str_mem new_key skip

-- `convert_keys`; `converted` is the dict that is built so far.
unfoldable mutual
  pub convert_keys : Value → (Str → Str) → List Str → Value
  convert_keys (obj fs) converter skip = obj (convert_fields fs converter skip end)
  convert_keys (arr xs) converter skip = arr (convert_items xs converter skip)
  convert_keys null converter skip = null
  convert_keys (bool b) converter skip = bool b
  convert_keys (int i) converter skip = int i
  convert_keys (float m k) converter skip = float m k
  convert_keys (str s) converter skip = str s

  pub convert_items : Items → (Str → Str) → List Str → Items
  convert_items nil converter skip = nil
  convert_items (cons v xs) converter skip =
      cons (convert_keys v converter skip) (convert_items xs converter skip)

  pub convert_fields : Fields → (Str → Str) → List Str → Fields → Fields
  convert_fields end converter skip converted = converted
  convert_fields (field key v fs) converter skip converted =
      let new_key = converter key in
      let new = if is_skipped skip key new_key then v else convert_keys v converter skip in
      convert_fields fs converter skip (put new_key new converted)

unfoldable pub convert_request : Value → Value
unfolding convert_keys convert_items convert_fields to_snake_case skip_conversion_keys
convert_request v = convert_keys v to_snake_case skip_conversion_keys

unfoldable pub convert_response : Value → Value
convert_response v = v

-- The text of a Boolean in `convert_query_params`; `text` is Python's `str` on any other value.
unfoldable pub query_text : (Value → Str) → Value → Str
query_text text (bool true) = codes "true"
query_text text (bool false) = codes "false"
query_text text v = text v

-- `d[key] = value` for a dict of texts.
unfoldable pub put_text : Str → Str → List (Str × Str) → List (Str × Str)
put_text k v [] = (k, v) ∷ []
put_text k v ((j, w) ∷ d) = if str_eq j k then (j, v) ∷ d else (j, w) ∷ put_text k v d

abbrev pub is_null : Value → Bool
is_null null = true
is_null _ = false

unfoldable pub convert_query_params : (Value → Str) → Fields → List (Str × Str) → List (Str × Str)
unfolding to_snake_case query_text put_text
convert_query_params text end result = result
convert_query_params text (field key v fs) result =
    convert_query_params text fs
      (if is_null v then result else put_text (to_snake_case key) (query_text text v) result)
