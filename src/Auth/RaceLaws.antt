-- ===== src/Auth/RaceLaws.antt =====
-- What the unique index promises of registrations that run at once.
use nestjs_microservice_plat.Prelude.{
  ℕ, suc, ◌+◌, ◌≡◌, refl, ◌⊎◌, inl, inr, String, List, [], ◌∷◌, ◌==◌, some, arith, if◌then◌else◌,
}
use nestjs_microservice_plat.Js.{Object, str}
use nestjs_microservice_plat.Action.{Result, ok, err, Result-cases}
use nestjs_microservice_plat.Database.{Model}
use nestjs_microservice_plat.Constants.Patterns.{EventPattern, event_patterns}
use nestjs_microservice_plat.EventLoop.{turn, interleave}
use nestjs_microservice_plat.Auth.{Bcrypt, Jwt, Emit, Settings}
use nestjs_microservice_plat.Auth.Service.{
  Tokens, RegisterDto, by_email, register, created_event, generate_tokens, sanitize_user,
  new_account,
}
use nestjs_microservice_plat.Auth.Race.{
  Phase, finding, hashing, creating, announcing, answered, step, advance, after_tokens,
}

-- An account is found by the email.
abbrev pub Known : {W : Type 0} → Model W → String → W → Type 0
Known model email w = (d : Object) × (model.find_one (by_email email) w ≡ ok (some d))

-- The index on the email: what is created is found, no email is taken twice, and no call of a
-- registration takes an account away.
pub record IndexLaws {W : Type 0} (model : Model W) (bcrypt : Bcrypt W) (emit : Emit W)
    : Type 0 where
  pub create_known :
      (o d : Object) (email : String) (w w' : W)
      → o "email" ≡ some (str email)
      → model.create o w ≡ (ok d, w')
      → Known model email w'
  pub create_unique :
      (o d : Object) (email : String) (w w' : W)
      → o "email" ≡ some (str email)
      → Known model email w
      → ¬ (model.create o w ≡ (ok d, w'))
  pub create_keeps :
      (o : Object) (email : String) (w : W)
      → Known model email w
      → Known model email (model.create o w).1
  pub hash_keeps :
      (password email : String) (rounds : ℕ) (w : W)
      → Known model email w
      → Known model email (bcrypt.hash password rounds w).1
  pub emit_keeps :
      (event email : String) (content : Object) (w : W)
      → Known model email w
      → Known model email (emit event content w).1

-- whether a registration has stored its account and will answer with a session or has done so
abbrev pub has_won : Phase → ℕ
has_won (announcing account tokens) = 1
has_won (answered (ok session)) = 1
has_won _ = 0

-- How many registrations of an email did.
abbrev pub winners : String → List (RegisterDto × Phase) → ℕ
winners email [] = 0
winners email ((dto, phase) ∷ rest) =
    (if dto.email == email then has_won phase else 0) + winners email rest

after_tokens-cases :
    (account : Object) (r : Result Tokens)
    → (has_won (after_tokens account r) ≡ 0) ⊎ (has_won (after_tokens account r) ≡ 1)
after_tokens-cases account (ok tokens) = inr refl
after_tokens-cases account (err e) = inl refl

module _ {W : Type 0} (model : Model W) (bcrypt : Bcrypt W) (jwt : Jwt W) (emit : Emit W)
    (settings : Settings) where
  -- A registration that runs alone does what `register` does.
  pub interleave-register :
      (dto : RegisterDto) (w : W)
      → interleave
          (advance model bcrypt jwt emit settings)
          (0 ∷ 0 ∷ 0 ∷ 0 ∷ [])
          ((dto, finding) ∷ [])
          w
        ≡ (
          (dto, answered (register model bcrypt jwt emit settings dto w).0) ∷ [],
          (register model bcrypt jwt emit settings dto w).1,
        )
  unfolding register interleave turn advance step generate_tokens sanitize_user
  interleave-register dto w = ground arith

  module _ (laws : IndexLaws model bcrypt emit) where
    pub step-keeps :
        (email : String) (dto : RegisterDto) (phase : Phase) (w : W)
        → Known model email w
        → Known model email (step model bcrypt jwt emit settings dto phase w).1
    unfolding step
    step-keeps email dto finding w known = known
    step-keeps email dto hashing w known = laws.hash_keeps _ email _ w known
    step-keeps email dto (creating hashed) w known = laws.create_keeps _ email w known
    step-keeps email dto (announcing account tokens) w known =
        elim (Result-cases
          (emit (event_patterns EventPattern.user_created) (created_event account) w).0) [
            | inl (_, sent) ↦ rw sent (laws.emit_keeps _ email _ w known)
            | inr (_, failed) ↦ rw failed (laws.emit_keeps _ email _ w known)
          ]
    step-keeps email dto (answered r) w known = known

    -- Where the email is known, no registration of it gets further than it is.
    pub step-same :
        (email : String) (dto : RegisterDto) (phase : Phase) (w : W)
        → Known model email w
        → dto.email ≡ email
        → has_won (step model bcrypt jwt emit settings dto phase w).0 ≡ has_won phase
    unfolding step generate_tokens
    step-same email dto finding w known same = ground arith
    step-same email dto hashing w known same = ground arith
    step-same email dto (creating hashed) w known same =
        let c = model.create (new_account model bcrypt jwt emit settings dto hashed) w in
        elim (Result-cases c.0) [
          | inl (d, done) ↦
              absurd (laws.create_unique _ d email w c.1 (rw same refl) known (λ i. (done i, c.1)))
          | inr (x, failed) ↦ rw failed refl
        ]
    step-same email dto (announcing account tokens) w known same = refl
    step-same email dto (answered r) w known same = refl

    pub step-wins :
        (email : String) (dto : RegisterDto) (phase : Phase) (w : W)
        → dto.email ≡ email
        → (has_won (step model bcrypt jwt emit settings dto phase w).0 ≡ has_won phase)
          ⊎ ((has_won (step model bcrypt jwt emit settings dto phase w).0 ≡ suc (has_won phase))
              × Known model email (step model bcrypt jwt emit settings dto phase w).1)
    unfolding step generate_tokens
    step-wins email dto finding w same = ground arith
    step-wins email dto hashing w same = ground arith
    step-wins email dto (creating hashed) w same =
        let c = model.create (new_account model bcrypt jwt emit settings dto hashed) w in
        elim (Result-cases c.0) [
          | inl (d, done) ↦
              let known : Known model email c.1 =
                laws.create_known _ d email w c.1 (rw same refl) (λ i. (done i, c.1)) in
              elim (after_tokens-cases d (generate_tokens jwt settings d c.1).0) [
                | inl none_won ↦ inl (rw done none_won)
                | inr won ↦ inr (rw done won, known)
              ]
          | inr (x, failed) ↦ inl (rw failed refl)
        ]
    step-wins email dto (announcing account tokens) w same = inl refl
    step-wins email dto (answered r) w same = inl refl
