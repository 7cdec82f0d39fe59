-- ===== src/Action.antt =====
-- Asynchronous methods: an action reads and writes a world and then returns or throws. What was
-- written before a throw stays written. `await` is the bind, and `catch` a handler of the error.
use nestjs_microservice_plat.Prelude.{◌≡◌, refl, ◌⊎◌, inl, inr, arith}
use nestjs_microservice_plat.Errors.{Exception}

pub data Result {ℓ} (A : Type ℓ) : Type ℓ where
  ok : A → Result A
  err : Exception → Result A

abbrev pub Action : Type 0 → Type 0 → Type 0
Action W A = W → Result A × W

module _ {W A : Type 0} where
  abbrev pub pure : A → Action W A
  pure a w = (ok a, w)

  abbrev pub throw : Exception → Action W A
  throw e w = (err e, w)

  -- A call that only reads.
  abbrev pub query : (W → Result A) → Action W A
  query q w = (q w, w)

  -- The rest of a method after a call has come back.
  abbrev pub continue : {B : Type 0} → Result A → W → (A → Action W B) → Result B × W
  continue (ok a) w f = f a w
  continue (err e) w f = (err e, w)

  abbrev pub handle : Result A → W → (Exception → Action W A) → Result A × W
  handle (ok a) w h = (ok a, w)
  handle (err e) w h = h e w

  -- `try { m } catch (e) { h(e) }`
  abbrev pub try_catch : Action W A → (Exception → Action W A) → Action W A
  try_catch m h w = handle (m w).0 (m w).1 h

infixl 5 ◌>>=◌ ◌>>◌
abbrev pub ◌>>=◌ : {W A B : Type 0} → Action W A → (A → Action W B) → Action W B
◌>>=◌ m f w = continue (m w).0 (m w).1 f

abbrev pub ◌>>◌ : {W A B : Type 0} → Action W A → Action W B → Action W B
m >> k = m >>= λ _. k

pub Result-cases :
    {A : Type 0} (r : Result A) → ((a : A) × (r ≡ ok a)) ⊎ ((e : Exception) × (r ≡ err e))
Result-cases (ok a) = inl (a, refl)
Result-cases (err e) = inr (e, refl)

-- Where a method answers with what it makes of one call, the call succeeded.
pub bind-pure :
    {W A B : Type 0} (m : Action W A) (f : A → B) (w w' : W) (b : B)
    → (m >>= λ a. pure (f a)) w ≡ (ok b, w')
    → (a : A) × (m w ≡ (ok a, w')) × (b ≡ f a)
bind-pure m f w w' b e = elim (Result-cases (m w).0) [
  | inl (a, done) ↦
      let left : (m w).1 ≡ w' = ground arith in (a, λ i. (done i, left i), ground arith)
  | inr (x, failure) ↦ ground arith
]
