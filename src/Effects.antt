-- ===== src/Effects.antt =====
-- Code that reads and writes a state and may raise: what a method of the SDK does to the client,
-- the network and the clock. The state is kept when an exception is raised, as in Python.
use spooled_sdk_python.Prelude.{◌≡◌}
use spooled_sdk_python.Errors.{Exn, Result, ok, raised}

abbrev pub M : Type 0 → Type 0 → Type 0
M S A = S → Result A × S

module _ {S : Type 0} where
  abbrev pub pure : {A : Type 0} → A → M S A
  pure a s = (ok a, s)

  abbrev pub raise : {A : Type 0} → Exn → M S A
  raise e s = (raised e, s)

  abbrev pub lift : {A : Type 0} → Result A → M S A
  lift r s = (r, s)

  abbrev pub gets : {A : Type 0} → (S → A) → M S A
  gets f s = (ok (f s), s)

  abbrev pub modify : (S → S) → M S (Unit {0})
  modify f s = (ok tt, f s)

  infixl 5 ◌>>=◌ ◌>>◌
  abbrev pub ◌>>=◌ : {A B : Type 0} → M S A → (A → M S B) → M S B
  ◌>>=◌ m f s = let (r, s') = m s in elim r [ ok a ↦ f a s' | raised e ↦ (raised e, s') ]

  abbrev pub ◌>>◌ : {B : Type 0} → M S (Unit {0}) → M S B → M S B
  m >> k = m >>= λ _. k

  -- `try: m  except Exception as e: h(e)`.
  abbrev pub catch : {A : Type 0} → M S A → (Exn → M S A) → M S A
  catch m h s = let (r, s') = m s in elim r [ ok a ↦ (ok a, s') | raised e ↦ h e s' ]

-- A part of the state that one object owns.
pub record Part (S A : Type 0) : Type 0 where
  pub get : S → A
  pub set : A → S → S
  pub get-set : (a : A) (s : S) → get (set a s) ≡ a
  pub set-set : (a b : A) (s : S) → set b (set a s) ≡ set b s
  pub set-get : (s : S) → set (get s) s ≡ s
