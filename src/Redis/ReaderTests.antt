-- ===== src/Redis/ReaderTests.antt =====
-- Two readers who both find the cache empty.
use nestjs_microservice_plat.Prelude.{
  pos, refl, ◌≤◌, ◌-◌, inl, ℕ, String, List, [], ◌∷◌, Option, none, some, All, arith,
}
use nestjs_microservice_plat.Js.{Value, num}
use nestjs_microservice_plat.Action.{ok, Action, pure}
use nestjs_microservice_plat.EventLoop.{turn, interleave}
use nestjs_microservice_plat.EventLoop.Bounds.{ahead_at}
use nestjs_microservice_plat.Redis.{get, set, read_cache, write_cache}
use nestjs_microservice_plat.Redis.Readers.{Phase, answered, ahead, read_step}
use nestjs_microservice_plat.Redis.ReaderLaws.{Agrees, Holding, Source, Fresh, readers_agree}
use nestjs_microservice_plat.Redis.Tests.{client, json}

abbrev one : Value
one = num (pos 1)

abbrev source : Action (Option String) Value
source = pure one

abbrev in_turns : List ℕ
in_turns = 0 ∷ 1 ∷ 0 ∷ 1 ∷ 0 ∷ 1 ∷ []

abbrev held : Option String → Option String
held w = w

holding : Holding client json "k" source held
holding = record {
  get_finds = λ text w e. ground arith;
  get_keeps = λ text w e. e;
  set_leaves = λ payload text w e. inl (ground arith);
  set_ex_leaves = λ payload text ttl w e. inl (ground arith);
}

has_one : Source client json "k" source held one
has_one = record { gives = λ value w e. ground arith; leaves = λ text w e. e }

abbrev both : List (ℕ × Phase Value)
both = (60, answered (ok one)) ∷ (30, answered (ok one)) ∷ []

readers_agree_example :
    Fresh client json "k" source held holding one has_one refl refl (some "1")
    × All (Agrees one) both
    × (ahead_at ahead 1 both ≤ 3 - 3)
unfolding interleave turn read_step read_cache write_cache get set
readers_agree_example =
    readers_agree client json "k" source held holding one has_one refl refl in_turns (60 ∷ 30 ∷ [])
      none 1 (λ text e. cc)
