-- ===== src/Gateway/Modules/Laws.antt =====
-- Sessions of the stand-in for the auth service: a login and the refresh of its tokens.
use nestjs_microservice_plat.Prelude.{
  ◌≡◌, refl, String, some, arith, inl, inr, Option-cases, Bool-cases, eq_iff, ◌==◌,
}
use mathlib.Core.Path.{fun_ext}
use nestjs_microservice_plat.Js.{Object, default}
use nestjs_microservice_plat.Errors.{Exception, unauthorized}
use nestjs_microservice_plat.Action.{ok, err}
use nestjs_microservice_plat.Auth.{Bcrypt, Jwt}
use nestjs_microservice_plat.Auth.TokenService.{
  JwtConfig, TokenPair, refresh_payload, issue_token_pair, verify_access, verify_refresh,
}
use nestjs_microservice_plat.Auth.TokenPairs.{issue_token_pair-verify}
use nestjs_microservice_plat.Gateway.Modules.Auth.{
  LoginDto, RefreshTokenDto, LoginAnswer, payload_of, login_payload, login, refresh,
}

-- `JwtService` signs a payload, and its tokens verify under their secret while the world stands.
pub record Signs {W : Type 0} (jwt : Jwt W) (payload : Object) : Type 0 where
  pub signed :
      (secret expires : String) (w : W)
      → (token : String) × (jwt.sign payload (some secret) expires w ≡ ok token)
  pub verified :
      (secret expires token : String) (w : W)
      → jwt.sign payload (some secret) expires w ≡ ok token
      → jwt.verify token (some secret) w ≡ ok payload

-- What the refresh signs of the claims of a login is what the login signed.
payload_of-login :
    (email id k : String)
    → payload_of (refresh_payload (login_payload email) id) k ≡ login_payload email k
payload_of-login email id k = elim (Bool-cases ("sub" == k)) [
  | inl sub ↦ let is : "sub" ≡ k = ground (arith, eq_iff "sub" k) in rw (← is) refl
  | inr no_sub ↦ elim (Bool-cases ("email" == k)) [
    | inl email_key ↦ let is : "email" ≡ k = ground (arith, eq_iff "email" k) in rw (← is) refl
    | inr no_email ↦ ground arith
  ]
]

module _ {W : Type 0} (bcrypt : Bcrypt W) (jwt : Jwt W) (config : JwtConfig) where
  issue-secrets :
      (token_id : String) (payload : Object) (w w' : W) (pair : TokenPair)
      → issue_token_pair jwt config token_id payload w ≡ (ok pair, w')
      → (a : String) × (r : String) × (config.access_secret ≡ some a)
        × (config.refresh_secret ≡ some r)
        × (w' ≡ w)
  unfolding issue_token_pair
  issue-secrets token_id payload w w' pair e = elim (Option-cases config.access_secret) [
    | inl missing ↦ absurd (ground arith)
    | inr (a, has_a) ↦ elim (Option-cases config.refresh_secret) [
      | inl missing ↦ absurd (ground arith)
      | inr (r, has_r) ↦ (a, r, has_a, has_r, ground arith)
    ]
  ]

  issue-ok :
      (token_id a r : String) (payload : Object) (w : W)
      → Signs jwt payload
      → Signs jwt (refresh_payload payload token_id)
      → config.access_secret ≡ some a
      → config.refresh_secret ≡ some r
      → (pair : TokenPair) × (issue_token_pair jwt config token_id payload w ≡ (ok pair, w))
  unfolding issue_token_pair
  issue-ok token_id a r payload w signs signs_renewal has_a has_r =
      let (access, access_signed) = signs.signed a (default config.access_expires_in "15m") w in
      let (renewal, renewal_signed) =
        signs_renewal.signed r (default config.refresh_expires_in "7d") w in
      (
        record {
          access_token = access;
          refresh_token = renewal;
          access_token_expires_in = default config.access_expires_in "15m";
          refresh_token_expires_in = default config.refresh_expires_in "7d";
          token_id = token_id;
        },
        rw (has_a, access_signed, has_r, renewal_signed) refl,
      )

  login-tokens :
      (token_id : String) (dto : LoginDto) (w w' : W) (answer : LoginAnswer)
      → login bcrypt jwt config token_id dto w ≡ (ok answer, w')
      → issue_token_pair jwt config token_id (login_payload dto.email) w ≡ (ok answer.tokens, w')
  unfolding login
  login-tokens token_id dto w w' answer e = ground arith

  -- Where JwtService signs the claims of the login, with and without the two minted ids, and
  -- verifies the tokens: the refresh token that the login of modules/auth answers with is accepted
  -- for a new pair with the new id, whose access token verifies to the claims of the login.
  pub refresh-login :
      (first second : String) (dto : LoginDto) (w w' : W) (answer : LoginAnswer)
      → Signs jwt (login_payload dto.email)
      → Signs jwt (refresh_payload (login_payload dto.email) first)
      → Signs jwt (refresh_payload (login_payload dto.email) second)
      → login bcrypt jwt config first dto w ≡ (ok answer, w')
      → (pair : TokenPair) × (refresh bcrypt jwt config second
            (record { refresh_token = answer.tokens.refresh_token })
            w'
          ≡ (ok pair, w'))
        × (verify_access jwt config pair.access_token w' ≡ (ok (login_payload dto.email), w'))
        × (pair.token_id ≡ second)
  unfolding refresh
  refresh-login first second dto w w' answer signs signs_first signs_second e =
      let p = login_payload dto.email in
      let issued = login-tokens first dto w w' answer e in
      let (a, r, has_a, has_r, still) = issue-secrets first p w w' answer.tokens issued in
      let (_, renewed, _, _) =
        issue_token_pair-verify jwt config first p w w' answer.tokens issued
          (λ s x t h. rw still (signs.verified s x t w h))
          (λ s x t h. rw still (signs_first.verified s x t w h)) in
      let same : payload_of (refresh_payload p first) ≡ p =
        fun_ext (payload_of-login dto.email first) in
      let (pair, again) = issue-ok second a r p w' signs signs_second has_a has_r in
      let (verifies, _, id, _) =
        issue_token_pair-verify jwt config second p w' w' pair again
          (λ s x t h. signs.verified s x t w' h) (λ s x t h. signs_second.verified s x t w' h) in
      (pair, rw (renewed, same, again) refl, verifies, id)

  -- A refresh that fails is refused as an invalid refresh token and changes nothing.
  refresh_refuses :
      (token_id : String) (dto : RefreshTokenDto) (w : W) (e : Exception)
      → (refresh bcrypt jwt config token_id dto w).0 ≡ err e
      → (e ≡ unauthorized "Invalid refresh token")
        × ((refresh bcrypt jwt config token_id dto w).1 ≡ w)
  unfolding refresh verify_refresh issue_token_pair
  refresh_refuses token_id dto w e h = ground arith
