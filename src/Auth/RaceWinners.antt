-- ===== src/Auth/RaceWinners.antt =====
-- Who wins among registrations that run at once, and when each has answered.
use nestjs_microservice_plat.Prelude.{
  ℕ, zero, suc, ◌-◌, ◌≤◌, Option, none, some, ◌≡◌, refl, ◌⊎◌, inl, inr, ◌∙◌, String, List, [], ◌∷◌,
  ◌==◌, arith, eq_iff, Bool-cases, map,
}
use nestjs_microservice_plat.Js.{Object}
use nestjs_microservice_plat.Action.{Result, ok, err}
use nestjs_microservice_plat.Database.{Model}
use nestjs_microservice_plat.EventLoop.{turn, interleave}
use nestjs_microservice_plat.EventLoop.Bounds.{ahead_at, turns_of, interleave-ahead}
use nestjs_microservice_plat.Auth.{Bcrypt, Jwt, Emit, Settings}
use nestjs_microservice_plat.Auth.Service.{RegisterDto, by_email, generate_tokens}
use nestjs_microservice_plat.Auth.Race.{
  Phase, finding, hashing, creating, announcing, answered, step, advance, after_find,
}
use nestjs_microservice_plat.Auth.RaceLaws.{
  Known, IndexLaws, winners, step-keeps, step-same, step-wins,
}

-- all at their first step
abbrev pub started : List RegisterDto → List (RegisterDto × Phase)
started dtos = map (λ dto. (dto, finding)) dtos

-- The steps that a registration has to take at most.
abbrev pub ahead : Phase → ℕ
ahead finding = 4
ahead hashing = 3
ahead (creating hashed) = 2
ahead (announcing account tokens) = 1
ahead (answered r) = 0

-- Those of a registration, with what it was asked.
abbrev pub steps_ahead : RegisterDto × Phase → ℕ
steps_ahead (dto, phase) = ahead phase

winners-started : (email : String) (dtos : List RegisterDto) → winners email (started dtos) ≡ 0
winners-started email [] = refl
winners-started email (dto ∷ dtos) = ground (arith, winners-started email dtos)

ahead_at-started : (i : ℕ) (dtos : List RegisterDto) → ahead_at steps_ahead i (started dtos) ≤ 4
ahead_at-started i [] = omega arith
ahead_at-started zero (dto ∷ dtos) = omega arith
ahead_at-started (suc i) (dto ∷ dtos) = ahead_at-started i dtos

ahead-after_find :
    {W : Type 0} (found : Result (Option Object)) (w : W) → ahead (after_find found w) ≤ 3
ahead-after_find (ok none) w = omega arith
ahead-after_find (ok (some account)) w = omega arith
ahead-after_find (err e) w = omega arith

module _ {W : Type 0} (model : Model W) (bcrypt : Bcrypt W) (jwt : Jwt W) (emit : Emit W)
    (settings : Settings) where
  step-ahead :
      (dto : RegisterDto) (phase : Phase) (w : W)
      → ahead (step model bcrypt jwt emit settings dto phase w).0 ≤ ahead phase - 1
  unfolding step generate_tokens
  step-ahead dto finding w = ahead-after_find (model.find_one (by_email dto.email) w) w
  step-ahead dto hashing w = ground arith
  step-ahead dto (creating hashed) w = ground arith
  step-ahead dto (announcing account tokens) w = ground arith
  step-ahead dto (answered r) w = ground arith

  advance-ahead :
      (r : RegisterDto × Phase) (w : W)
      → steps_ahead (advance model bcrypt jwt emit settings r w).0 ≤ steps_ahead r - 1
  unfolding advance
  advance-ahead (dto, phase) w = step-ahead dto phase w

  module _ (laws : IndexLaws model bcrypt emit) (email : String) where
    -- Where the email is known it stays so, and nobody else wins.
    turn-Known :
        (i : ℕ) (all : List (RegisterDto × Phase)) (w : W)
        → Known model email w
        → Known model email (turn (advance model bcrypt jwt emit settings) i all w).1
          × (winners email (turn (advance model bcrypt jwt emit settings) i all w).0
              ≡ winners email all)
    unfolding turn advance
    turn-Known i [] w known = (known, refl)
    turn-Known zero ((dto, phase) ∷ rest) w known = (
      step-keeps model bcrypt jwt emit settings laws email dto phase w known,
      elim (Bool-cases (dto.email == email)) [
        | inl same ↦ ground (
          arith,
          eq_iff dto.email email,
          step-same model bcrypt jwt emit settings laws email dto phase w known,
        )
        | inr other ↦ rw other refl
      ],
    )
    turn-Known (suc i) (first ∷ rest) w known =
        let (known', same) = turn-Known i rest w known in (known', ground arith)

    -- A step makes one winner at most, and then the email is known.
    turn-wins :
        (i : ℕ) (all : List (RegisterDto × Phase)) (w : W)
        → (winners email (turn (advance model bcrypt jwt emit settings) i all w).0
            ≡ winners email all)
          ⊎ ((winners email (turn (advance model bcrypt jwt emit settings) i all w).0
                ≡ suc (winners email all))
              × Known model email (turn (advance model bcrypt jwt emit settings) i all w).1)
    unfolding turn advance
    turn-wins i [] w = inl refl
    turn-wins zero ((dto, phase) ∷ rest) w = elim (Bool-cases (dto.email == email)) [
      | inl is_email ↦
          elim (step-wins model bcrypt jwt emit settings laws email dto phase w
            (ground (arith, eq_iff dto.email email))) [
              | inl same ↦ inl (rw (is_email, same) refl)
              | inr (won, known) ↦ inr (rw (is_email, won) (omega arith), known)
            ]
      | inr other ↦ inl (rw other refl)
    ]
    turn-wins (suc i) (first ∷ rest) w = elim (turn-wins i rest w) [
      | inl same ↦ inl (ground arith)
      | inr (won, known) ↦ inr (ground arith, known)
    ]

    interleave-Known :
        (schedule : List ℕ) (all : List (RegisterDto × Phase)) (w : W)
        → Known model email w
        → Known model email (interleave (advance model bcrypt jwt emit settings) schedule all w).1
          × (winners email (interleave (advance model bcrypt jwt emit settings) schedule all w).0
              ≡ winners email all)
    unfolding interleave
    interleave-Known [] all w known = (known, refl)
    interleave-Known (i ∷ schedule) all w known =
        let s = turn (advance model bcrypt jwt emit settings) i all w in
        let (known', same) = turn-Known i all w known in
        let (known'', same') = interleave-Known schedule s.0 s.1 known' in (known'', same' ∙ same)

    interleave-wins :
        (schedule : List ℕ) (all : List (RegisterDto × Phase)) (w : W)
        → winners email all ≡ 0
        → (winners email (interleave (advance model bcrypt jwt emit settings) schedule all w).0 ≡ 0)
          ⊎ ((winners email (interleave (advance model bcrypt jwt emit settings) schedule all w).0
                ≡ 1)
              × Known model email
                  (interleave (advance model bcrypt jwt emit settings) schedule all w).1)
    unfolding interleave
    interleave-wins [] all w none_won = inl none_won
    interleave-wins (i ∷ schedule) all w none_won =
        let s = turn (advance model bcrypt jwt emit settings) i all w in
        elim (turn-wins i all w) [
          | inl same ↦ interleave-wins schedule s.0 s.1 (same ∙ none_won)
          | inr (won, known) ↦
              let (known', same) = interleave-Known schedule s.0 s.1 known in
              inr (ground arith, known')
        ]

    -- Where the index on the email lets no email be created that is found already, what was
    -- created is found, and no call of a registration takes an account away: whatever
    -- registrations run at once, in whatever order their steps come, where a step is one awaited
    -- call and what follows it, at most one of those with a given email has stored its account and
    -- answers with a session, then no account with the email was found before and one is found
    -- after, and a registration that has taken n steps has at most 4 - n to take until it has
    -- answered.
    pub registrations_race :
        (schedule : List ℕ) (dtos : List RegisterDto) (w : W) (i : ℕ)
        → ((winners email
                (interleave (advance model bcrypt jwt emit settings) schedule (started dtos) w).0
              ≡ 0)
            ⊎ ((winners email
                    (interleave
                      (advance model bcrypt jwt emit settings)
                      schedule
                      (started dtos)
                      w).0
                  ≡ 1)
                × ¬ Known model email w
                × Known model email
                    (interleave
                      (advance model bcrypt jwt emit settings)
                      schedule
                      (started dtos)
                      w).1))
          × (ahead_at steps_ahead i
                (interleave (advance model bcrypt jwt emit settings) schedule (started dtos) w).0
              ≤ 4 - turns_of i schedule)
    registrations_race schedule dtos w i =
        let fresh = winners-started email dtos in
        (
          elim (interleave-wins schedule (started dtos) w fresh) [
            | inl none_won ↦ inl none_won
            | inr (won, known') ↦ inr (
              won,
              λ known.
                  let (_, same) = interleave-Known schedule (started dtos) w known in ground arith,
              known',
            )
          ],
          ground (
            arith,
            interleave-ahead (advance model bcrypt jwt emit settings) steps_ahead advance-ahead i
                schedule (started dtos) w,
            ahead_at-started i dtos,
          ),
        )
