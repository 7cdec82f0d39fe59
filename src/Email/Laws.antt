-- ===== src/Email/Laws.antt =====
-- What a batch of emails counts.
use nestjs_microservice_plat.Prelude.{ℕ, ◌+◌, ◌≡◌, refl, String, List, [], ◌∷◌, arith, length}
use nestjs_microservice_plat.Js.{Value}
use nestjs_microservice_plat.Action.{Result, ok, err, Action}
use nestjs_microservice_plat.Email.{
  EmailData, BatchData, fulfilled, rejected, send_all, send_batch_email,
}

counters_add : {A : Type 0} (rs : List (Result A)) → fulfilled rs + rejected rs ≡ length rs
counters_add [] = omega arith
counters_add (ok a ∷ rs) = omega (arith, counters_add rs)
counters_add (err e ∷ rs) = omega (arith, counters_add rs)

module _ {W : Type 0} (text_of : Value → String) (wait : EmailData → Action W (Unit {0})) where
  length-send_all :
      (batch : BatchData) (tos : List String) (w : W)
      → length (send_all text_of wait batch tos w).0 ≡ length tos
  unfolding send_all
  length-send_all batch [] w = refl
  length-send_all batch (to ∷ rest) w = omega (arith, length-send_all batch rest _)

  -- A batch never fails, however many of its emails do, and every recipient is counted once, as
  -- successful or as failed.
  send_batch_email-counts :
      (batch : BatchData) (w : W)
      → (sent : ℕ) × (lost : ℕ) × ((send_batch_email text_of wait batch w).0 ≡ ok (sent, lost))
        × (sent + lost ≡ length batch.recipients)
  unfolding send_batch_email
  send_batch_email-counts batch w =
      let results = (send_all text_of wait batch batch.recipients w).0 in
      (
        fulfilled results,
        rejected results,
        refl,
        omega (arith, counters_add results, length-send_all batch batch.recipients w),
      )
