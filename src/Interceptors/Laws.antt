-- ===== src/Interceptors/Laws.antt =====
-- The envelope of an answer.
use nestjs_microservice_plat.Prelude.{◌≡◌, refl, ◌⊎◌, inl, inr, true, Bool-cases}
use nestjs_microservice_plat.Interceptors.{
  Context, Answer, enveloped, ApiResponse, has_success, respond,
}

-- What leaves the response interceptor has a success field and wrapping it once more, in any
-- context, changes nothing; an answer that had the field comes out as it is, and any other inside
-- the envelope.
pub respond-wraps_once :
    (context later : Context) (answer : Answer)
    → (has_success (respond context answer) ≡ true)
      × (respond later (respond context answer) ≡ respond context answer)
      × (((has_success answer ≡ true) × (respond context answer ≡ answer))
          ⊎ ((e : ApiResponse) × (respond context answer ≡ enveloped e answer)))
unfolding respond
respond-wraps_once context later answer = elim (Bool-cases (has_success answer)) [
  | inl has ↦ rw (has, has) (refl, refl, inl (refl, refl))
  | inr bare ↦ rw bare (refl, refl, inr (_, refl))
]
