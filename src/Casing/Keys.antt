-- ===== src/Casing/Keys.antt =====
-- src/spooled/utils/casing.py: what `to_snake_case` does to a key.
use spooled_sdk_python.Prelude.{
  ℕ, ◌==◌, not, Bool, true, false, [], ◌∷◌, Str, ◌≡◌, refl, arith, is_upper, lower, lower_char, all,
  if◌then◌else◌,
}
use spooled_sdk_python.Casing.{split_acronyms, split_words, to_snake_case}

-- No capital letter.
abbrev pub is_small : ℕ → Bool
is_small c = not (is_upper c)

split_acronyms-small : (s : Str) → all is_small s ≡ true → split_acronyms s ≡ s
unfolding split_acronyms
split_acronyms-small [] h = refl
split_acronyms-small (x ∷ []) h = refl
split_acronyms-small (x ∷ y ∷ []) h = refl
split_acronyms-small (x ∷ y ∷ z ∷ s) h = ground (arith, split_acronyms-small (y ∷ z ∷ s))

split_words-small : (s : Str) → all is_small s ≡ true → split_words s ≡ s
unfolding split_words
split_words-small [] h = refl
split_words-small (x ∷ []) h = refl
split_words-small (x ∷ y ∷ s) h = ground (arith, split_words-small (y ∷ s))

lower-small : (s : Str) → all is_small s ≡ true → lower s ≡ s
unfolding lower lower_char
lower-small [] h = refl
lower-small (x ∷ s) h = ground (arith, lower-small s)

is_small-lower_char : (c : ℕ) → is_upper (lower_char c) ≡ false
unfolding lower_char is_upper
is_small-lower_char c = ground arith

small-lower : (s : Str) → all is_small (lower s) ≡ true
unfolding lower
small-lower [] = refl
small-lower (x ∷ s) = ground (arith, is_small-lower_char x, small-lower s)

-- A key without capital letters is left as it is.
pub to_snake_case-small : (s : Str) → all is_small s ≡ true → to_snake_case s ≡ s
unfolding to_snake_case
to_snake_case-small s h = rw (split_acronyms-small s h, split_words-small s h) (lower-small s h)

-- Converting a key twice is converting it once.
pub to_snake_case_idempotent : (s : Str) → to_snake_case (to_snake_case s) ≡ to_snake_case s
unfolding to_snake_case
to_snake_case_idempotent s = to_snake_case-small _ (small-lower _)

-- The key less its underscores.
abbrev pub letters : Str → Str
letters [] = []
letters (c ∷ s) = if c == b'_' then letters s else c ∷ letters s

letters-split_acronyms : (s : Str) → letters (lower (split_acronyms s)) ≡ letters (lower s)
unfolding split_acronyms lower lower_char is_upper
letters-split_acronyms [] = refl
letters-split_acronyms (x ∷ []) = refl
letters-split_acronyms (x ∷ y ∷ []) = refl
letters-split_acronyms (x ∷ y ∷ z ∷ s) = ground (arith, letters-split_acronyms (y ∷ z ∷ s))

letters-split_words : (s : Str) → letters (lower (split_words s)) ≡ letters (lower s)
unfolding split_words lower lower_char is_upper
letters-split_words [] = refl
letters-split_words (x ∷ []) = refl
letters-split_words (x ∷ y ∷ s) = ground (arith, letters-split_words (y ∷ s))

-- The conversion only inserts underscores and makes capitals small: up to these, every key keeps
-- its characters and their order.
pub letters-to_snake_case : (s : Str) → letters (to_snake_case s) ≡ letters (lower s)
unfolding to_snake_case
letters-to_snake_case s = rw (letters-split_words (split_acronyms s)) (letters-split_acronyms s)
