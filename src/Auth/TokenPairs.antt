-- ===== src/Auth/TokenPairs.antt =====
-- The two tokens of a pair and what they are verified to.
use nestjs_microservice_plat.Prelude.{◌≡◌, refl, String, some, arith, inl, inr, Option-cases}
use nestjs_microservice_plat.Js.{Object, default}
use nestjs_microservice_plat.Action.{ok}
use nestjs_microservice_plat.Auth.{Jwt}
use nestjs_microservice_plat.Auth.TokenService.{
  JwtConfig, TokenPair, refresh_payload, issue_token_pair, verify_access, verify_refresh,
}

module _ {W : Type 0} (jwt : Jwt W) (config : JwtConfig) where
  -- Where the two tokens that are signed verify under their secrets: the access token of an issued
  -- pair is verified to the payload, the refresh token to the payload with the minted id, which is
  -- also the id of the pair, and nothing is written.
  pub issue_token_pair-verify :
      (token_id : String) (payload : Object) (w w' : W) (pair : TokenPair)
      → issue_token_pair jwt config token_id payload w ≡ (ok pair, w')
      → ((secret expires token : String)
          → jwt.sign payload (some secret) expires w ≡ ok token
          → jwt.verify token (some secret) w' ≡ ok payload)
      → ((secret expires token : String)
          → jwt.sign (refresh_payload payload token_id) (some secret) expires w ≡ ok token
          → jwt.verify token (some secret) w' ≡ ok (refresh_payload payload token_id))
      → (verify_access jwt config pair.access_token w' ≡ (ok payload, w'))
        × (verify_refresh jwt config pair.refresh_token w'
            ≡ (ok (refresh_payload payload token_id), w'))
        × (pair.token_id ≡ token_id)
        × (w' ≡ w)
  unfolding issue_token_pair verify_access verify_refresh
  issue_token_pair-verify token_id payload w w' pair e access_back refresh_back =
      elim (Option-cases config.access_secret) [
        | inl missing ↦ absurd (ground arith)
        | inr (a, has_a) ↦ elim (Option-cases config.refresh_secret) [
          | inl missing ↦ absurd (ground arith)
          | inr (r, has_r) ↦
              let access =
                access_back a (default config.access_expires_in "15m") pair.access_token
                  (ground arith) in
              let refresh =
                refresh_back r (default config.refresh_expires_in "7d") pair.refresh_token
                  (ground arith) in
              (rw (has_a, access) refl, rw (has_r, refresh) refl, ground arith, ground arith)
        ]
      ]
