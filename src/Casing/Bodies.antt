-- ===== src/Casing/Bodies.antt =====
-- src/spooled/utils/casing.py: what `convert_keys` and `convert_request` do to a body.
use spooled_sdk_python.Prelude.{
  ℕ, suc, ◌≤◌, true, false, some, List, Str, str_eq, str_eq_refl, eq_of_str_eq, ◌≡◌, refl, arith,
  Bool-cases, inl, inr, if◌then◌else◌,
}
use spooled_sdk_python.Json.{Value, obj, Fields, end, field, get, put}
use spooled_sdk_python.Casing.{
  convert_keys, convert_fields, is_skipped, to_snake_case, convert_request, skip_conversion_keys,
}

pub get-put : (k : Str) (v : Value) (fs : Fields) → get k (put k v fs) ≡ some v
unfolding get put
get-put k v end = ground (arith, str_eq_refl k)
get-put k v (field j w fs) = ground (arith, get-put k v fs, str_eq_refl k)

str_eq_ne : (j k n : Str) → str_eq j k ≡ false → str_eq j n ≡ true → str_eq k n ≡ false
str_eq_ne j k n h e = elim (Bool-cases (str_eq k n)) [
  | inr f ↦ f
  | inl t ↦ ground (arith, eq_of_str_eq j n, eq_of_str_eq k n, str_eq_refl n)
]

pub get-put_other :
    (j k : Str) (v : Value) (fs : Fields) → str_eq j k ≡ false → get k (put j v fs) ≡ get k fs
unfolding get put
get-put_other j k v end h = ground arith
get-put_other j k v (field i w fs) h =
    ground (arith, get-put_other j k v fs h, eq_of_str_eq i j, eq_of_str_eq i k)

-- How many keys of a dict are converted to a key.
abbrev pub count_onto : (Str → Str) → Str → Fields → ℕ
count_onto converter n end = 0
count_onto converter n (field j v fs) =
    if str_eq (converter j) n then suc (count_onto converter n fs) else count_onto converter n fs

module _ (converter : Str → Str) (skip : List Str) where
  get-convert_fields_other :
      (n : Str) (fs acc : Fields)
      → count_onto converter n fs ≡ 0
      → get n (convert_fields fs converter skip acc) ≡ get n acc
  unfolding convert_fields
  get-convert_fields_other n end acc h = refl
  get-convert_fields_other n (field j v fs) acc h =
      let w = if is_skipped skip j (converter j) then v else convert_keys v converter skip in
      ground (
        arith,
        get-convert_fields_other n fs (put (converter j) w acc),
        get-put_other (converter j) n w acc,
      )

  count-get :
      (k : Str) (v : Value) (fs : Fields)
      → get k fs ≡ some v
      → 1 ≤ count_onto converter (converter k) fs
  unfolding get
  count-get k v end e = cc
  count-get k v (field j w fs) e = elim (Bool-cases (str_eq j k)) [
    | inl same ↦ ground (arith, eq_of_str_eq j k same, str_eq_refl (converter k))
    | inr other ↦ ground (arith, count-get k v fs)
  ]

  -- What a dict's key holds after the conversion, if no other key is converted to the same: the
  -- value itself, byte for byte, under a key that is skipped, and the converted value under any other.
  pub get-convert_fields :
      (k : Str) (v : Value) (fs acc : Fields)
      → get k fs ≡ some v
      → count_onto converter (converter k) fs ≡ 1
      → get (converter k) (convert_fields fs converter skip acc)
        ≡ some (if is_skipped skip k (converter k) then v else convert_keys v converter skip)
  unfolding convert_fields get
  get-convert_fields k v end acc e c = cc
  get-convert_fields k v (field j w fs) acc e c =
      let u = if is_skipped skip j (converter j) then w else convert_keys w converter skip in
      elim (Bool-cases (str_eq j k)) [
        | inl same ↦ ground (
          arith,
          eq_of_str_eq j k same,
          str_eq_refl (converter k),
          get-convert_fields_other (converter k) fs (put (converter j) u acc),
          get-put (converter k) u acc,
        )
        | inr other ↦
            ground (arith, count-get k v fs, get-convert_fields k v fs (put (converter j) u acc))
      ]

-- A field that the user owns (`payload`, `result`, `metadata`, …) is sent exactly as it was given,
-- under its key in snake case, if no other key of the body is converted to the same.
pub convert_request_verbatim :
    (k : Str) (v : Value) (fs : Fields)
    → get k fs ≡ some v
    → count_onto to_snake_case (to_snake_case k) fs ≡ 1
    → is_skipped skip_conversion_keys k (to_snake_case k) ≡ true
    → (body : Fields) × (convert_request (obj fs) ≡ obj body)
      × (get (to_snake_case k) body ≡ some v)
unfolding convert_request convert_keys
convert_request_verbatim k v fs e c s = (
  convert_fields fs to_snake_case skip_conversion_keys end,
  refl,
  rw (get-convert_fields to_snake_case skip_conversion_keys k v fs end e c, s),
)
