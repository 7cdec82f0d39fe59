-- ===== src/Posts/Taps.antt =====
-- Runs of likes and unlikes of one post, against the set of the users whose last tap was a like.
use nestjs_microservice_plat.Prelude.{
  ◌≡◌, ap, ◌∙◌, String, List, [], ◌∷◌, Bool, true, false, not, ◌&&◌, ◌||◌, ◌==◌, some, arith,
  if◌then◌else◌,
}
use nestjs_microservice_plat.Js.{Value, Object}
use nestjs_microservice_plat.Action.{ok, Action}
use nestjs_microservice_plat.Database.{Model, ModelLaws, by_id}
use nestjs_microservice_plat.Posts.Service.{like, unlike}
use nestjs_microservice_plat.Posts.Likes.{Shows, FitsLikes, like-Shows, unlike-Shows}

-- What a user does to a post.
pub data Tap : Type 0 where
  like_tap unlike_tap : String → Tap

abbrev pub tap : {W : Type 0} → Model W → String → Tap → Action W Object
tap model post (like_tap user) = like model post user
tap model post (unlike_tap user) = unlike model post user

-- Taps that succeed one after the other.
pub data Run {W : Type 0} (model : Model W) (post : String) : W → List Tap → W → Type 0 where
  done : {w : W} → Run model post w [] w
  step :
      {w w1 w2 : W} {t : Tap} {ts : List Tap} (d : Object)
      → tap model post t w ≡ (ok d, w1)
      → Run model post w1 ts w2
      → Run model post w (t ∷ ts) w2

-- Whether a user likes the post after the taps: as the user's last tap says, or as before.
abbrev pub last_tap : List Tap → String → Bool → Bool
last_tap [] v before = before
last_tap (like_tap user ∷ ts) v before = last_tap ts v (if user == v then true else before)
last_tap (unlike_tap user ∷ ts) v before = last_tap ts v (if user == v then false else before)

abbrev pub after : Tap → (String → Bool) → String → Bool
after (like_tap user) likes v = likes v || user == v
after (unlike_tap user) likes v = likes v && not (user == v)

last_tap-after :
    (t : Tap) (ts : List Tap) (likes : String → Bool) (v : String)
    → last_tap ts v (after t likes v) ≡ last_tap (t ∷ ts) v (likes v)
last_tap-after (like_tap user) ts likes v = ap (last_tap ts v) (ground arith)
last_tap-after (unlike_tap user) ts likes v = ap (last_tap ts v) (ground arith)

Shows-ext : (s t : String → Bool) (d : Object) → ((v : String) → s v ≡ t v) → Shows s d → Shows t d
Shows-ext s t d same (xs, users, count, once, members) =
    (xs, users, count, once, λ v. members v ∙ same v)

module _ {W : Type 0} (model : Model W) {Fits : String → Value → Type 0}
    (laws : ModelLaws model Fits) (fits : FitsLikes Fits) where
  tap-Shows :
      (t : Tap) (likes : String → Bool) (post : String) (w w' : W) (p d : Object)
      → model.find_one (by_id post) w ≡ ok (some p)
      → Shows likes p
      → tap model post t w ≡ (ok d, w')
      → Shows (after t likes) d × (model.find_one (by_id post) w' ≡ ok (some d))
  tap-Shows (like_tap user) likes post w w' p d stored shown e =
      like-Shows model laws fits likes post user w w' p d stored shown e
  tap-Shows (unlike_tap user) likes post w w' p d stored shown e =
      unlike-Shows model laws fits likes post user w w' p d stored shown e

  pub Run-Shows :
      (post : String) (ts : List Tap) (likes : String → Bool) (w w' : W) (p : Object)
      → model.find_one (by_id post) w ≡ ok (some p)
      → Shows likes p
      → Run model post w ts w'
      → (d : Object) × (model.find_one (by_id post) w' ≡ ok (some d))
        × Shows (λ v. last_tap ts v (likes v)) d
  Run-Shows post [] likes w w' p stored shown done = (p, stored, shown)
  Run-Shows post (t ∷ ts) likes w w' p stored shown (step {w1 = w1} d e rest) =
      let (shown1, stored1) = tap-Shows t likes post w w1 p d stored shown e in
      let (d2, stored2, shown2) = Run-Shows post ts (after t likes) w1 w' d stored1 shown1 rest in
      (
        d2,
        stored2,
        Shows-ext (λ v. last_tap ts v (after t likes v)) (λ v. last_tap (t ∷ ts) v (likes v)) d2
            (last_tap-after t ts likes) shown2,
      )
