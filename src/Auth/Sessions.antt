-- ===== src/Auth/Sessions.antt =====
-- What logging in, refreshing and logging out do to a session.
use nestjs_microservice_plat.Prelude.{
  ℕ, ◌≡◌, refl, ◌⊎◌, inl, inr, String, true, false, Option, none, some, arith, Option-cases,
}
use nestjs_microservice_plat.Js.{Object, str, as_text}
use nestjs_microservice_plat.Errors.{Exception, unauthorized}
use nestjs_microservice_plat.Action.{ok, err, Result-cases}
use nestjs_microservice_plat.Database.{Model}
use nestjs_microservice_plat.Users.Laws.{NoPassword}
use nestjs_microservice_plat.Auth.{Bcrypt, Jwt, Emit, Settings}
use nestjs_microservice_plat.Auth.Service.{
  Session, Tokens, LoginDto, by_email, login, logout, refresh_token, generate_tokens,
  invalid_credentials, sign_refresh, sign_access, token_payload, first_role, Request, Reply,
  a_session, controller, register_request, login_request, logout_request, refresh_request,
  validate_request, sanitize_user, register, validate_token,
}

-- What an answer of the service shows of a user has no password.
abbrev pub HidesPassword : Reply → Type 0
HidesPassword (a_session s) = NoPassword s.account
HidesPassword _ = Unit

module _ {W : Type 0} (model : Model W) (bcrypt : Bcrypt W) (jwt : Jwt W) (emit : Emit W)
    (settings : Settings) where
  -- No answer of the auth service, whatever pattern is sent, shows an account with its password.
  pub auth-HidesPassword :
      (now : ℕ) (q : Request) (w w' : W) (r : Reply)
      → controller model bcrypt jwt emit settings now q w ≡ (ok r, w')
      → HidesPassword r
  unfolding controller register login logout refresh_token validate_token generate_tokens
      sanitize_user
  auth-HidesPassword now (register_request dto) w w' r e = ground arith
  auth-HidesPassword now (login_request dto) w w' r e = ground arith
  auth-HidesPassword now (logout_request id) w w' r e = ground arith
  auth-HidesPassword now (refresh_request token) w w' r e = ground arith
  auth-HidesPassword now (validate_request token) w w' r e = ground arith

  -- When the search and the comparison work, a login fails with "Invalid credentials" and changes
  -- nothing if no account has the email, and just so if the password is not the account's.
  login_refused :
      (now : ℕ) (dto : LoginDto) (w : W) (found : Option Object)
      → model.find_one_selecting "+password" (by_email dto.email) w ≡ ok found
      → (found ≡ none)
        ⊎ ((account : Object) × (found ≡ some account)
            × (bcrypt.compare dto.password (as_text (account "password")) w ≡ ok false))
      → login model bcrypt jwt emit settings now dto w ≡ (err invalid_credentials, w)
  unfolding login
  login_refused now dto w found search (inl missing) = ground arith
  login_refused now dto w found search (inr (account, is, wrong)) = rw (search, is, wrong) refl

  -- A refresh changes nothing, and when it fails its error is status 401 with "Invalid refresh
  -- token" whatever the reason.
  pub refresh_fails_closed :
      (token : String) (w : W)
      → ((refresh_token model bcrypt jwt emit settings token w).1 ≡ w)
        × ((e : Exception)
            → (refresh_token model bcrypt jwt emit settings token w).0 ≡ err e
            → e ≡ unauthorized "Invalid refresh token")
  unfolding refresh_token generate_tokens
  refresh_fails_closed token w = ground arith

  -- A login succeeds only for an account that is stored under the email and whose stored hash
  -- bcrypt accepts for the password, and answers with that account without its password.
  pub login_checks_password :
      (now : ℕ) (dto : LoginDto) (w w' : W) (session : Session)
      → login model bcrypt jwt emit settings now dto w ≡ (ok session, w')
      → (account : Object) × (model.find_one_selecting "+password" (by_email dto.email) w
          ≡ ok (some account))
        × (bcrypt.compare dto.password (as_text (account "password")) w ≡ ok true)
        × (session.account ≡ sanitize_user account)
  unfolding login generate_tokens
  login_checks_password now dto w w' session e =
      elim (Result-cases (model.find_one_selecting "+password" (by_email dto.email) w)) [
        | inr (x, failed) ↦ absurd (ground arith)
        | inl (found, search) ↦ elim (Option-cases found) [
          | inl missing ↦ absurd (ground arith)
          | inr (account, is) ↦ (account, ground arith, ground arith, ground arith)
        ]
      ]

  -- The tokens of a session are signed for the role of the account, one under each secret.
  login-signed :
      (now : ℕ) (dto : LoginDto) (w w' : W) (session : Session)
      → login model bcrypt jwt emit settings now dto w ≡ (ok session, w')
      → (account : Object) × (role : String) × (model.find_one_selecting "+password"
            (by_email dto.email)
            w
          ≡ ok (some account))
        × (sign_access jwt settings (token_payload account role) w'
            ≡ ok session.tokens.access_token)
        × (sign_refresh jwt settings (token_payload account role) w'
            ≡ ok session.tokens.refresh_token)
  unfolding login generate_tokens
  login-signed now dto w w' session e =
      elim (Result-cases (model.find_one_selecting "+password" (by_email dto.email) w)) [
        | inr (x, failed) ↦ absurd (ground arith)
        | inl (found, search) ↦ elim (Option-cases found) [
          | inl missing ↦ absurd (ground arith)
          | inr (account, is) ↦ elim (Result-cases (first_role (account "roles"))) [
            | inr (x, failed) ↦ absurd (ground arith)
            | inl (role, has) ↦ (account, role, ground arith, ground arith, ground arith)
          ]
        ]
      ]

  -- Where a refresh token that JwtService signs verifies, as long as it lasts, to claims with the
  -- subject it was signed for: after a login, whose account has an id that is found, the logout
  -- with that id succeeds and changes nothing, and the refresh token of the session, as long as it
  -- lasts, is accepted afterwards for a new pair of tokens.
  pub refresh_after_logout :
      (now : ℕ) (dto : LoginDto) (w w' : W) (session : Session) (id : String) (current : Object)
      (Lasts : String → W → Type 0)
      → login model bcrypt jwt emit settings now dto w ≡ (ok session, w')
      → ((account : Object)
          → model.find_one_selecting "+password" (by_email dto.email) w ≡ ok (some account)
          → account "_id" ≡ some (str id))
      → ((payload : Object) (subject token : String) (v u : W)
          → payload "sub" ≡ some (str subject)
          → sign_refresh jwt settings payload v ≡ ok token
          → Lasts token u
          → (claims : Object) × (jwt.verify token settings.refresh_secret u ≡ ok claims)
            × (claims "sub" ≡ some (str subject)))
      → Lasts session.tokens.refresh_token w'
      → model.find_by_id id w' ≡ ok (some current)
      → (tokens : Tokens) → generate_tokens jwt settings current w' ≡ (ok tokens, w')
      → (logout model bcrypt jwt emit settings id w' ≡ (ok true, w'))
        × (refresh_token model bcrypt jwt emit settings session.tokens.refresh_token w'
            ≡ (ok tokens, w'))
  unfolding refresh_token logout
  refresh_after_logout now dto w w' session id current Lasts done has_id verified lasts found tokens
        fresh =
      let (account, role, search, _, signed) = login-signed now dto w w' session done in
      let names : token_payload account role "sub" ≡ some (str id) =
        rw (has_id account search) refl in
      let (claims, shown, sub) =
        verified (token_payload account role) id _ w' w' names signed lasts in
      let key : as_text (claims "sub") ≡ some id = rw sub refl in
      (refl, rw (shown, key, found, fresh) refl)

  -- Where a token signed under the access secret does not verify under the refresh secret, the
  -- access token of a session is refused by the refresh with status 401.
  pub access_token_refused :
      (now : ℕ) (dto : LoginDto) (w w' : W) (session : Session)
      → login model bcrypt jwt emit settings now dto w ≡ (ok session, w')
      → ((p : Object) (token : String)
          → sign_access jwt settings p w' ≡ ok token
          → (e : Exception) × (jwt.verify token settings.refresh_secret w' ≡ err e))
      → refresh_token model bcrypt jwt emit settings session.tokens.access_token w'
        ≡ (err (unauthorized "Invalid refresh token"), w')
  unfolding refresh_token
  access_token_refused now dto w w' session done separate =
      let (_, _, _, signed, _) = login-signed now dto w w' session done in
      let (e, refused) = separate _ _ signed in rw refused refl
