-- ===== src/Auth/Race.antt =====
-- Registrations that run at once: `register` of apps/auth-service/src/auth.service.ts, cut where it
-- awaits, so that the process may go on with another one there.
use nestjs_microservice_plat.Prelude.{String, Option}
use nestjs_microservice_plat.Js.{Object}
use nestjs_microservice_plat.Action.{Result, ok, err}
use nestjs_microservice_plat.Database.{Model}
use nestjs_microservice_plat.Auth.{Bcrypt, Jwt, Emit, Settings}
use nestjs_microservice_plat.Auth.Service.{
  Session, Tokens, RegisterDto, by_email, refuse_known, generate_tokens, sanitize_user, announce,
  new_account,
}

-- What a registration awaits next, with what it has computed.
pub data Phase : Type 0 where
  finding hashing : Phase
  creating : String → Phase
  announcing : Object → Tokens → Phase
  answered : Result Session → Phase

-- After `findOne`.
abbrev pub after_check : Result (Unit {0}) → Phase
after_check (ok _) = hashing
after_check (err e) = answered (err e)

abbrev pub after_find : {W : Type 0} → Result (Option Object) → W → Phase
after_find (ok existing) w = after_check (refuse_known existing w).0
after_find (err e) w = answered (err e)

-- After `bcrypt.hash`.
abbrev pub after_hash : Result String → Phase
after_hash (ok hashed) = creating hashed
after_hash (err e) = answered (err e)

abbrev pub after_tokens : Object → Result Tokens → Phase
after_tokens account (ok tokens) = announcing account tokens
after_tokens account (err e) = answered (err e)

module _ {W : Type 0} (model : Model W) (bcrypt : Bcrypt W) (jwt : Jwt W) (emit : Emit W)
    (settings : Settings) where
  -- After `create`: the tokens are signed at once.
  abbrev pub after_create : Result Object → W → Phase
  unfolding generate_tokens
  after_create (ok account) w = after_tokens account (generate_tokens jwt settings account w).0
  after_create (err e) w = answered (err e)

  -- One awaited call and what follows it.
  unfoldable pub step : RegisterDto → Phase → W → Phase × W
  unfolding generate_tokens sanitize_user
  step dto finding w = (after_find (model.find_one (by_email dto.email) w) w, w)
  step dto hashing w =
      let h = bcrypt.hash dto.password settings.bcrypt_rounds w in (after_hash h.0, h.1)
  step dto (creating hashed) w =
      let c = model.create (new_account model bcrypt jwt emit settings dto hashed) w in
      (after_create c.0 c.1, c.1)
  step dto (announcing account tokens) w = (
    answered (ok (record { account = sanitize_user account; tokens = tokens })),
    (announce model bcrypt jwt emit settings account w).1,
  )
  step dto (answered r) w = (answered r, w)

  -- The step of a registration, with what it was asked.
  unfoldable pub advance : RegisterDto × Phase → W → (RegisterDto × Phase) × W
  unfolding step
  advance (dto, phase) w = let s = step dto phase w in ((dto, s.0), s.1)
