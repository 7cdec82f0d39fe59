-- ===== src/Posts/AtOnce.antt =====
-- Likes of one post that run at once: `like` and `unlike` of
-- apps/posts-service/src/posts/posts.service.ts, cut where they await.
use nestjs_microservice_plat.Prelude.{◌≡◌, refl, inl, inr, String, [], ◌∷◌}
use nestjs_microservice_plat.Js.{Object}
use nestjs_microservice_plat.Action.{Result, ok, err, Action, Result-cases}
use nestjs_microservice_plat.Database.{Model}
use nestjs_microservice_plat.Database.Repository as Repository
use nestjs_microservice_plat.EventLoop.{turn, interleave}
use nestjs_microservice_plat.Posts.Service.{like_found, unlike_found, like, unlike}
use nestjs_microservice_plat.Posts.Taps.{Tap, like_tap, unlike_tap, tap}

-- What a tap awaits next, with the post that it has read.
pub data Phase : Type 0 where
  reading : Phase
  writing : Object → Phase
  answered : Result Object → Phase

-- After `findById`.
abbrev pub after_find : Result Object → Phase
after_find (ok post) = writing post
after_find (err e) = answered (err e)

module _ {W : Type 0} (model : Model W) (post_id : String) where
  -- A tap from where it has read the post.
  abbrev pub finish_tap : Tap → Object → Action W Object
  finish_tap (like_tap user) post = like_found model post_id user post
  finish_tap (unlike_tap user) post = unlike_found model post_id user post

  unfoldable pub tap_step : Tap × Phase → W → (Tap × Phase) × W
  tap_step (t, reading) w =
      let r = Repository.find_by_id model post_id w in ((t, after_find r.0), r.1)
  tap_step (t, writing post) w = let r = finish_tap t post w in ((t, answered r.0), r.1)
  tap_step (t, answered r) w = ((t, answered r), w)

  -- A tap that runs alone does what the method does.
  interleave-tap :
      (t : Tap) (w : W)
      → interleave tap_step (0 ∷ 0 ∷ []) ((t, reading) ∷ []) w
        ≡ ((t, answered (tap model post_id t w).0) ∷ [], (tap model post_id t w).1)
  unfolding interleave turn tap_step like unlike
  interleave-tap (like_tap user) w = elim (Result-cases (Repository.find_by_id model post_id w).0) [
    | inr (x, failed) ↦ rw failed refl
    | inl (post, found) ↦ rw found refl
  ]
  interleave-tap (unlike_tap user) w =
      elim (Result-cases (Repository.find_by_id model post_id w).0) [
        | inr (x, failed) ↦ rw failed refl
        | inl (post, found) ↦ rw found refl
      ]
