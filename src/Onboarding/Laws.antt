-- ===== src/Onboarding/Laws.antt =====
-- What a registration leads to.
use nestjs_microservice_plat.Prelude.{
  ◌≡◌, refl, ◌∙◌, ap, ◌≢◌, String, [], ◌∷◌, false, true, some, ◌==◌, arith, eq_iff,
}
use nestjs_microservice_plat.Js.{Value, str, strs, Object, or_text}
use nestjs_microservice_plat.Errors.{forbidden}
use nestjs_microservice_plat.Action.{ok, err, Action, try_catch, ◌>>◌}
use nestjs_microservice_plat.Constants.CommonRole.{role_text, user}
use nestjs_microservice_plat.Database.{Model}
use nestjs_microservice_plat.Database.Schema.{SchemaLaws, user_schema}
use nestjs_microservice_plat.Guards.{admit}
use nestjs_microservice_plat.Rabbit.{Message, Op, ack, nack}
use nestjs_microservice_plat.Auth.{Bcrypt, Jwt, Emit}
use nestjs_microservice_plat.Auth as Auth
use nestjs_microservice_plat.Auth.Service.{
  Session, RegisterDto, register, created_event, generate_tokens, token_payload,
}
use nestjs_microservice_plat.Auth.Registration.{register-wrote}
use nestjs_microservice_plat.Notification.{Transports, Settings, Mail}
use nestjs_microservice_plat.Notification.Service.{send, send_email}
use nestjs_microservice_plat.Notification.Controller.{handle_user_created}
use nestjs_microservice_plat.Gateway.Users as Users
use nestjs_microservice_plat.Gateway.Access.{bare}
use nestjs_microservice_plat.Onboarding.{delivered, accepted}

-- The mail that greets an account.
abbrev pub welcome_mail : Settings → String → Mail
welcome_mail settings email = record {
  from = or_text settings.smtp_from_email "noreply@app.com";
  to = email;
  subject = "Welcome to Our App";
  content = some "Thank you for registering!";
}

module _ {W : Type 0} (transports : Transports W) (settings : Settings)
    (perform : Op → Action W (Unit {0})) (m : Message) where
  -- What the worker does with a delivery: one mail, then the answer to the broker.
  abbrev pub greet : String → Action W (Unit {0})
  greet email =
      try_catch (transports.send_mail (welcome_mail settings email) >> perform (ack m))
        (λ e. perform (nack m false true))

  handle_user_created-greets :
      (account : Object) (email : String) (w : W)
      → account "email" ≡ some (str email)
      → (email == "") ≡ false
      → handle_user_created transports settings perform (created_event account) m w ≡ greet email w
  unfolding handle_user_created send send_email
  handle_user_created-greets account email w has given = ground arith

  -- On a model that satisfies SchemaLaws of the schema of users and stores the email as it is,
  -- with a queue that delivers at once: a registration with an email that is not empty creates an
  -- account with the email, and what it does after that is what one mail to the email does,
  -- followed by the acknowledgement or, if that fails, by a rejection with requeue.
  pub register-greets :
      (model : Model W) (bcrypt : Bcrypt W) (jwt : Jwt W) (auth : Auth.Settings)
      (Fits : String → Value → Type 0)
      → SchemaLaws model Fits user_schema
      → (dto : RegisterDto) (w w' : W) (session : Session) → dto.email ≢ ""
      → Fits "email" (str dto.email)
      → register model bcrypt jwt (delivered transports settings perform m) auth dto w
        ≡ (ok session, w')
      → (account : Object) × (before : W) × (stored : W) × (o : Object) × (model.create o before
          ≡ (ok account, stored))
        × (o "email" ≡ some (str dto.email))
        × (w' ≡ (greet dto.email stored).1)
  register-greets model bcrypt jwt auth Fits creation dto w w' session given fits e =
      let (hashed, account, w1, w2, _, created, last, _) =
        register-wrote model bcrypt jwt auth (delivered transports settings perform m) dto w w'
          session e in
      let kept : account "email" ≡ some (str dto.email) =
        creation.create_keeps _ account w1 w2 "email" (str dto.email) created refl fits in
      (
        account,
        w1,
        w2,
        _,
        created,
        refl,
        last
            ∙ ap (λ r. r.1)
                (handle_user_created-greets account dto.email w2 kept
                  (ground (arith, eq_iff dto.email ""))),
      )

-- On a model that satisfies SchemaLaws of the schema of users and stores the roles as they are,
-- where a token signed for the role "user" verifies to claims with that role as long as it lasts:
-- the access token of a new registration, as long as it lasts, verifies, and the guards of the
-- gateway refuse its bearer the route that deletes a user.
pub new_account-no_admin :
    {W : Type 0} (model : Model W) (bcrypt : Bcrypt W) (jwt : Jwt W) (auth : Auth.Settings)
    (emit : Emit W) (Fits : String → Value → Type 0) (Lasts : String → W → Type 0)
    → SchemaLaws model Fits user_schema
    → Fits "roles" (strs (role_text user ∷ []))
    → ((payload : Object) (expires token : String) (v u : W)
        → payload "role" ≡ some (str (role_text user))
        → jwt.sign payload auth.access_secret expires v ≡ ok token
        → Lasts token u
        → (claims : Object) × (jwt.verify token auth.access_secret u ≡ ok claims)
          × (claims "role" ≡ some (str (role_text user))))
    → (dto : RegisterDto) (w w' : W) (session : Session) (id : String)
    → register model bcrypt jwt emit auth dto w ≡ (ok session, w')
    → Lasts session.tokens.access_token w'
    → (claims : Object) × (jwt.verify session.tokens.access_token auth.access_secret w' ≡ ok claims)
      × (admit (Users.route_metadata (Users.delete_route id)) bare (accepted claims)
          ≡ err (forbidden "Insufficient permissions"))
unfolding admit Users.route_metadata accepted generate_tokens
new_account-no_admin model bcrypt jwt auth emit Fits Lasts creation fits verifies dto w w' session
      id e lasts =
    let (hashed, account, w1, w2, _, created, _, tokens) =
      register-wrote model bcrypt jwt auth emit dto w w' session e in
    let roles : account "roles" ≡ some (strs (role_text user ∷ [])) =
      creation.create_keeps _ account w1 w2 "roles" _ created refl fits in
    let (claims, verified, role) =
      verifies (token_payload account (role_text user)) (or_text auth.access_expires_in "15m")
        session.tokens.access_token w2 w' refl (ground arith) lasts in
    (claims, verified, rw role refl)
