-- ===== src/Posts/AtOnceTests.antt =====
-- Cat and Daniel like one post at once.
use nestjs_microservice_plat.Prelude.{
  ◌-◌, ◌≤◌, ◌≡◌, refl, ℕ, List, [], ◌∷◌, none, some, Option, arith, All, subst, ap,
}
use nestjs_microservice_plat.Js.{Object}
use nestjs_microservice_plat.Errors.{Exception}
use nestjs_microservice_plat.Action.{ok, err}
use nestjs_microservice_plat.Database.{Update}
use nestjs_microservice_plat.Database.Memory.{Store, memory, memory-laws, replace, found}
use nestjs_microservice_plat.Database.Repository.{find_by_id, find_one_and_update}
use nestjs_microservice_plat.Database.RepositoryLaws.{some-ok-injective}
use nestjs_microservice_plat.EventLoop.{turn, interleave}
use nestjs_microservice_plat.EventLoop.Bounds.{ahead_at}
use nestjs_microservice_plat.Posts.Taps.{Tap, like_tap}
use nestjs_microservice_plat.Posts.AtOnce.{Phase, answered, tap_step}
use nestjs_microservice_plat.Posts.AtOnceLaws.{
  WellKept, KeepsWell, StoredWell, FailsCleanly, ahead, taps_keep_counts,
}
use nestjs_microservice_plat.Posts.Tests.{essay, with_cat, with_dan, fits_likes}

abbrev in_turns : List ℕ
in_turns = 0 ∷ 1 ∷ 0 ∷ 1 ∷ []

replace-none :
    (o : Option Object) (u : Update) (w w' : Store) → replace o u w ≡ (ok none, w') → w' ≡ w
replace-none none u w w' e = ground arith
replace-none (some d) u w w' e = absurd (ground arith)

replace-no_err :
    (o : Option Object) (u : Update) (w w' : Store) (x : Exception)
    → ¬ (replace o u w ≡ (err x, w'))
replace-no_err none u w w' x e = ground arith
replace-no_err (some d) u w w' x e = ground arith

clean : FailsCleanly memory
clean = record {
  missed = λ f u o w w' e. ap (λ v. memory.find_one f v) (replace-none (found f w) u w w' e);
  failed = λ f u o w w' x e. absurd (replace-no_err (found f w) u w w' x e);
}

essay_well : WellKept essay
essay_well = ("ann" ∷ [], refl, refl, λ v. ground arith)

abbrev both : List (Tap × Phase)
both = (like_tap "cat", answered (ok with_cat)) ∷ (like_tap "daniel", answered (ok with_dan)) ∷ []

taps_keep_counts_example :
    StoredWell memory memory-laws fits_likes clean "p1" (some with_dan)
    × All KeepsWell both
    × (ahead_at ahead 1 both ≤ 2 - 2)
unfolding interleave turn tap_step find_by_id find_one_and_update
taps_keep_counts_example =
    taps_keep_counts memory memory-laws fits_likes clean "p1" in_turns
      (like_tap "cat" ∷ like_tap "daniel" ∷ []) (some essay) 1
      (λ d found. subst WellKept (some-ok-injective found) essay_well)
