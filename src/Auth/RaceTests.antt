-- ===== src/Auth/RaceTests.antt =====
-- Two registrations with one email, both of which find it free.
use nestjs_microservice_plat.Prelude.{
  ◌≡◌, ◌≤◌, ◌⊎◌, ◌-◌, refl, String, List, ℕ, [], ◌∷◌, none, some,
}
use nestjs_microservice_plat.Js.{Object, remove}
use nestjs_microservice_plat.Errors.{error}
use nestjs_microservice_plat.Action.{ok, err}
use nestjs_microservice_plat.Database.Memory.{Store, memory}
use nestjs_microservice_plat.EventLoop.{turn, interleave}
use nestjs_microservice_plat.EventLoop.Bounds.{ahead_at}
use nestjs_microservice_plat.Auth.Service.{RegisterDto, generate_tokens, sanitize_user}
use nestjs_microservice_plat.Auth.Race.{Phase, finding, answered, step, advance}
use nestjs_microservice_plat.Auth.RaceLaws.{Known, IndexLaws, winners}
use nestjs_microservice_plat.Auth.RaceWinners.{steps_ahead, registrations_race}
use nestjs_microservice_plat.Auth.Tests.{
  bcrypt, settings, role_tokens, silent, ann_registers, ann_stored, user_tokens, insert-found,
}

abbrev in_turns : List ℕ
in_turns = 0 ∷ 1 ∷ 0 ∷ 1 ∷ 0 ∷ 1 ∷ 0 ∷ 1 ∷ []

create_unique_lem :
    (o d : Object) (email : String) (w w' : Store)
    → Known memory email w
    → ¬ (memory.create o w ≡ (ok d, w'))
create_unique_lem o d email none w' (x, found) e = cc
create_unique_lem o d email (some old) w' known e = cc

create_keeps_lem :
    (o : Object) (email : String) (w : Store)
    → Known memory email w
    → Known memory email (memory.create o w).1
create_keeps_lem o email none (x, found) = cc
create_keeps_lem o email (some old) known = known

index : IndexLaws memory bcrypt silent
index = record {
  create_known = λ o d email w w' is done. (d, insert-found email o d w w' done is);
  create_unique = λ o d email w w' is. create_unique_lem o d email w w';
  create_keeps = create_keeps_lem;
  hash_keeps = λ password email rounds w known. known;
  emit_keeps = λ event email content w known. known;
}

abbrev both_answered : List (RegisterDto × Phase)
both_answered =
    (
      ann_registers,
      answered (ok (record { account = remove "password" ann_stored; tokens = user_tokens })),
    )
    ∷ (ann_registers, answered (err (error "E11000 duplicate key error")))
    ∷ []

-- The one that comes late is told what the index says.
late_one_fails :
    interleave
      (advance memory bcrypt role_tokens silent settings)
      in_turns
      ((ann_registers, finding) ∷ (ann_registers, finding) ∷ [])
      none
    ≡ (both_answered, some ann_stored)
unfolding interleave turn advance step generate_tokens sanitize_user
late_one_fails = refl

registrations_race_example :
    ((winners "ann@x.org" both_answered ≡ 0)
      ⊎ ((winners "ann@x.org" both_answered ≡ 1)
          × ¬ Known memory "ann@x.org" none
          × Known memory "ann@x.org" (some ann_stored)))
    × (ahead_at steps_ahead 1 both_answered ≤ 4 - 4)
unfolding interleave turn advance step generate_tokens sanitize_user
registrations_race_example =
    registrations_race memory bcrypt role_tokens silent settings index "ann@x.org" in_turns
      (ann_registers ∷ ann_registers ∷ []) none 1
