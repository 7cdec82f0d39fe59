-- ===== src/Auth/Registration.antt =====
-- Who may register, and what the events queue has to do with it.
use nestjs_microservice_plat.Prelude.{◌≡◌, refl, String, some, arith, inl, inr}
use nestjs_microservice_plat.Js.{Object, str}
use nestjs_microservice_plat.Errors.{bad_request}
use nestjs_microservice_plat.Action.{ok, err, Result-cases}
use nestjs_microservice_plat.Database.{Model}
use nestjs_microservice_plat.Constants.Patterns.{EventPattern, event_patterns}
use nestjs_microservice_plat.Auth.{Bcrypt, Jwt, Emit, Settings}
use nestjs_microservice_plat.Auth.Service.{
  Session, RegisterDto, by_email, register, generate_tokens, created_event, new_account,
}

module _ {W : Type 0} (model : Model W) (bcrypt : Bcrypt W) (jwt : Jwt W)
    (settings : Settings) where
  -- What a registration answers is the same for any two clients of the events queue, failing ones
  -- included.
  pub register_ignores_events :
      (emit other : Emit W) (dto : RegisterDto) (w : W)
      → (register model bcrypt jwt emit settings dto w).0
        ≡ (register model bcrypt jwt other settings dto w).0
  unfolding register
  register_ignores_events emit other dto w = ground arith

  register-refused :
      (emit : Emit W) (dto : RegisterDto) (w : W) (account : Object)
      → model.find_one (by_email dto.email) w ≡ ok (some account)
      → register model bcrypt jwt emit settings dto w
        ≡ (err (bad_request "Email already registered"), w)
  unfolding register
  register-refused emit dto w account known = rw known refl

  -- A registration that succeeds has stored an account with the email and the hash of the password,
  -- and written nothing after it but the event.
  pub register-wrote :
      (emit : Emit W) (dto : RegisterDto) (w w' : W) (session : Session)
      → register model bcrypt jwt emit settings dto w ≡ (ok session, w')
      → (hashed : String) × (account : Object) × (w1 : W) × (w2 : W) × (bcrypt.hash dto.password
            settings.bcrypt_rounds w
          ≡ (ok hashed, w1))
        × (model.create (new_account model bcrypt jwt emit settings dto hashed) w1
            ≡ (ok account, w2))
        × (w' ≡ (emit (event_patterns EventPattern.user_created) (created_event account) w2).1)
        × (generate_tokens jwt settings account w2 ≡ (ok session.tokens, w2))
  unfolding register generate_tokens
  register-wrote emit dto w w' session e =
      let h = bcrypt.hash dto.password settings.bcrypt_rounds w in
      elim (Result-cases h.0) [
        | inr (x, failed) ↦ absurd (ground arith)
        | inl (hashed, done) ↦
            let c = model.create (new_account model bcrypt jwt emit settings dto hashed) h.1 in
            elim (Result-cases c.0) [
              | inr (x, failed) ↦ absurd (ground arith)
              | inl (account, stored) ↦ (
                hashed,
                account,
                h.1,
                c.1,
                ground arith,
                ground arith,
                ground arith,
                ground arith,
              )
            ]
      ]

  -- Where stored accounts are found by their email and events write nothing to the collection:
  -- once a registration has succeeded, every registration with the same email is refused with
  -- status 400 and changes nothing.
  pub register_once :
      (emit : Emit W) (dto again : RegisterDto) (w w' : W) (session : Session)
      → ((o d : Object) (v v' : W)
          → model.create o v ≡ (ok d, v')
          → o "email" ≡ some (str dto.email)
          → model.find_one (by_email dto.email) v' ≡ ok (some d))
      → ((event : String) (content : Object) (v : W)
          → model.find_one (by_email dto.email) (emit event content v).1
            ≡ model.find_one (by_email dto.email) v)
      → again.email ≡ dto.email
      → register model bcrypt jwt emit settings dto w ≡ (ok session, w')
      → register model bcrypt jwt emit settings again w'
        ≡ (err (bad_request "Email already registered"), w')
  register_once emit dto again w w' session created keeps same done =
      let (hashed, account, w1, w2, _, stored, last, _) =
        register-wrote emit dto w w' session done in
      let known : model.find_one (by_email again.email) w' ≡ ok (some account) =
        rw (same, last, keeps) (created _ account w1 w2 stored refl) in
      register-refused emit again w' account known
