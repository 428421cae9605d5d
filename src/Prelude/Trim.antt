-- ===== src/Prelude/Trim.antt =====
-- Trimming of text: `strip` twice is `strip` once, and what it leaves begins with no space.
use mathlib.Core.Path.{◌≡◌, refl, sym, ap, ◌∙◌}
use mathlib.Core.Logic.{inl, inr}
use mathlib.Core.Bool.{false}
use mathlib.Core.List.{[], ◌∷◌, ◌++◌, reverse, reverse-append, reverse-reverse}
use spooled_sdk_python.Prelude.Tests.{Bool-cases}
use spooled_sdk_python.Prelude.Text.{Str, is_space, lstrip, strip}

-- No space at the front.
abbrev IsFlush : Str → Type 0
IsFlush [] = Unit
IsFlush (c ∷ s) = is_space c ≡ false

lstrip-IsFlush : (s : Str) → IsFlush (lstrip s)
unfolding lstrip
lstrip-IsFlush [] = tt
lstrip-IsFlush (c ∷ s) = elim (Bool-cases (is_space c)) [
  | inl space ↦ rw space (lstrip-IsFlush s)
  | inr other ↦ rw other other
]

lstrip_flush : (s : Str) → IsFlush s → lstrip s ≡ s
unfolding lstrip
lstrip_flush [] h = refl
lstrip_flush (c ∷ s) h = rw h

lstrip-suffix : (s : Str) → (p : Str) × (s ≡ p ++ lstrip s)
unfolding lstrip
lstrip-suffix [] = ([], refl)
lstrip-suffix (c ∷ s) =
    let (p, e) = lstrip-suffix s in
    elim (Bool-cases (is_space c)) [
      | inl space ↦ (c ∷ p, rw space (ap (λ t. c ∷ t) e))
      | inr other ↦ ([], rw other)
    ]

IsFlush-prefix : (s t : Str) → IsFlush (s ++ t) → IsFlush s
IsFlush-prefix [] t h = tt
IsFlush-prefix (c ∷ s) t h = h

pub strip-strip : (s : Str) → strip (strip s) ≡ strip s
unfolding strip
strip-strip s =
    let r = lstrip s in
    let u = lstrip (reverse r) in
    let (p, e) = lstrip-suffix (reverse r) in
    let whole : r ≡ reverse u ++ reverse p =
      sym (reverse-reverse r) ∙ ap reverse e ∙ reverse-append p u in
    let flush : IsFlush (reverse u) =
      IsFlush-prefix (reverse u) (reverse p) (rw (← whole) (lstrip-IsFlush s)) in
    rw
      (lstrip_flush (reverse u) flush, reverse-reverse, lstrip_flush u (lstrip-IsFlush (reverse r)))
