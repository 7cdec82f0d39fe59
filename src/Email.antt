-- ===== src/Email.antt =====
-- apps/email-worker/src/email.service.ts and email.controller.ts. The sending is still a wait in the
-- source, which is a parameter, as is what JavaScript's `String` makes of a thrown value. Log lines
-- are left out; the counters that the last one shows are the result of the batch.
pub mod Laws
use nestjs_microservice_plat.Prelude.{ℕ, suc, String, List, [], ◌∷◌}
use nestjs_microservice_plat.Js.{Value}
use nestjs_microservice_plat.Errors.{Exception, error, thrown}
use nestjs_microservice_plat.Action.{Result, ok, err, Action, pure, throw, try_catch, ◌>>=◌, ◌>>◌}

pub record EmailData : Type 0 where
  pub to : String
  pub subject : String
  pub template : String

pub record BatchData : Type 0 where
  pub recipients : List String
  pub subject : String
  pub template : String

-- `error instanceof Error ? error : new Error(String(error))`
abbrev pub as_error : (Value → String) → Exception → Exception
as_error text_of (thrown v) = error (text_of v)
as_error text_of e = e

-- The number of results whose `status` is 'fulfilled', and of those whose it is 'rejected'.
abbrev pub fulfilled : {A : Type 0} → List (Result A) → ℕ
fulfilled [] = 0
fulfilled (ok a ∷ rs) = suc (fulfilled rs)
fulfilled (err e ∷ rs) = fulfilled rs

abbrev pub rejected : {A : Type 0} → List (Result A) → ℕ
rejected [] = 0
rejected (ok a ∷ rs) = rejected rs
rejected (err e ∷ rs) = suc (rejected rs)

module _ {W : Type 0} (text_of : Value → String) (wait : EmailData → Action W (Unit {0})) where
  unfoldable pub send_email : EmailData → Action W (Unit {0})
  send_email email = try_catch (wait email) (λ e. throw (as_error text_of e))

  -- `Promise.allSettled` of the emails, which are sent in order here
  unfoldable pub send_all : BatchData → List String → W → List (Result (Unit {0})) × W
  unfolding send_email
  send_all batch [] w = ([], w)
  send_all batch (to ∷ rest) w =
      let (r, w1) =
        send_email (record { to = to; subject = batch.subject; template = batch.template }) w in
      let (rs, w2) = send_all batch rest w1 in (r ∷ rs, w2)

  unfoldable pub send_batch_email : BatchData → Action W (ℕ × ℕ)
  unfolding send_all
  send_batch_email batch =
      try_catch
        (λ w.
          let (results, w') = send_all batch batch.recipients w in
          (ok (fulfilled results, rejected results), w'))
        (λ e. throw (as_error text_of e))

-- The events of `EmailController`.
pub data Event : Type 0 where
  email_send : EmailData → Event
  email_send_batch : BatchData → Event

module _ {W : Type 0} (text_of : Value → String) (wait : EmailData → Action W (Unit {0})) where
  -- Both handlers wait for the service and answer nothing.
  unfoldable pub controller : Event → Action W (Unit {0})
  unfolding send_email send_batch_email
  controller (email_send email) = do send_email text_of wait email; pure tt
  controller (email_send_batch batch) = do counters ← send_batch_email text_of wait batch; pure tt
