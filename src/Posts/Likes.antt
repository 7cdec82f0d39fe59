-- ===== src/Posts/Likes.antt =====
-- The users who like a post, as a set with its size: `like` and `unlike` of posts.service.ts.
use nestjs_microservice_plat.Prelude.{
  ℕ, ◌+◌, ◌≤◌, pos, ◌≡◌, refl, ◌≢◌, ◌⊎◌, inl, inr, String, List, [], ◌∷◌, ◌++◌, Bool, true, false,
  not, ◌&&◌, ◌||◌, ◌==◌, some, arith, eq_iff, eq_refl, length, keep, includes, occurrences,
  includes-append,
}
use nestjs_microservice_plat.Js.{Value, num, strs, Object}
use nestjs_microservice_plat.Action.{ok}
use nestjs_microservice_plat.Database.{Model, ModelLaws, by_id, fields, no_options}
use nestjs_microservice_plat.Database.Repository as Base
use nestjs_microservice_plat.Database.RepositoryLaws.{update_by_id-ok, find_by_id-of_stored}
use nestjs_microservice_plat.Posts.Service.{like_found, with_likes, like, unlike}

-- The list without one user, as a set.
includes-keep :
    (xs : List String) (user v : String)
    → includes (keep (λ id. not (id == user)) xs) v ≡ (includes xs v && not (user == v))
includes-keep [] user v = refl
includes-keep (x ∷ xs) user v =
    ground (arith, includes-keep xs user v, eq_iff x user, eq_iff x v, eq_iff user v)

occurrences-append :
    (xs ys : List String) (v : String)
    → occurrences v (xs ++ ys) ≡ occurrences v xs + occurrences v ys
occurrences-append [] ys v = omega arith
occurrences-append (x ∷ xs) ys v = ground (arith, occurrences-append xs ys v)

occurrences-not_includes :
    (xs : List String) (v : String) → includes xs v ≡ false → occurrences v xs ≡ 0
occurrences-not_includes [] v h = refl
occurrences-not_includes (x ∷ xs) v h = ground (arith, occurrences-not_includes xs v)

pub occurrences-keep-le :
    (p : String → Bool) (xs : List String) (v : String)
    → occurrences v (keep p xs) ≤ occurrences v xs
occurrences-keep-le p [] v = omega arith
occurrences-keep-le p (x ∷ xs) v = ground (arith, occurrences-keep-le p xs v)

pub occurrences-add-le :
    (xs : List String) (user v : String)
    → includes xs user ≡ false
    → occurrences v xs ≤ 1
    → occurrences v (xs ++ user ∷ []) ≤ 1
occurrences-add-le xs user v h k =
    ground (
      arith,
      occurrences-append xs (user ∷ []) v,
      occurrences-not_includes xs user h,
      eq_iff user v,
    )

-- The likes of a post are well kept and are those of a set of users: no user twice, and the counter
-- is their number.
abbrev pub Shows : (String → Bool) → Object → Type 0
Shows likes d =
    (xs : List String) × (d "likedBy" ≡ some (strs xs))
    × (d "likesCount" ≡ some (num (pos (length xs))))
    × ((v : String) → occurrences v xs ≤ 1)
    × ((v : String) → includes xs v ≡ likes v)

-- The two fields are stored as they are.
pub record FitsLikes (Fits : String → Value → Type 0) : Type 0 where
  pub users : (xs : List String) → Fits "likedBy" (strs xs)
  pub count : (n : ℕ) → Fits "likesCount" (num (pos n))

module _ {W : Type 0} (model : Model W) {Fits : String → Value → Type 0}
    (laws : ModelLaws model Fits) (fits : FitsLikes Fits) where
  -- The two ways in which `like` succeeds.
  like-cases :
      (post user : String) (w w' : W) (p d : Object) (xs : List String)
      → model.find_one (by_id post) w ≡ ok (some p)
      → p "likedBy" ≡ some (strs xs)
      → like model post user w ≡ (ok d, w')
      → ((includes xs user ≡ true) × (d ≡ p) × (w' ≡ w))
        ⊎ ((includes xs user ≡ false)
            × (Base.find_one_and_update model
                  (by_id post)
                  (fields (with_likes (xs ++ user ∷ []) p))
                  no_options
                  w
                ≡ (ok d, w')))
  unfolding like
  like-cases post user w w' p d xs stored likes e =
      ground (arith, find_by_id-of_stored model laws post w p stored)

  -- What an update with a new list of likes leaves.
  pub with_likes-stored :
      (post : String) (w w' : W) (p d : Object) (ys : List String)
      → Base.find_one_and_update model (by_id post) (fields (with_likes ys p)) no_options w
        ≡ (ok d, w')
      → (d "likedBy" ≡ some (strs ys))
        × (d "likesCount" ≡ some (num (pos (length ys))))
        × (model.find_one (by_id post) w' ≡ ok (some d))
  with_likes-stored post w w' p d ys e =
      let u = fields (with_likes ys p) in
      let (likes, stored) =
        update_by_id-ok model laws post u no_options w w' d "likedBy" (strs ys) e refl
          (fits.users ys) in
      let (count, _) =
        update_by_id-ok model laws post u no_options w w' d "likesCount" (num (pos (length ys))) e
          refl (fits.count (length ys)) in
      (likes, count, stored)

  -- A like adds the user to the set.
  pub like-Shows :
      (likes : String → Bool) (post user : String) (w w' : W) (p d : Object)
      → model.find_one (by_id post) w ≡ ok (some p)
      → Shows likes p
      → like model post user w ≡ (ok d, w')
      → Shows (λ v. likes v || user == v) d × (model.find_one (by_id post) w' ≡ ok (some d))
  like-Shows likes post user w w' p d stored (xs, users, count, once, members) e =
      elim (like-cases post user w w' p d xs stored users e) [
        | inl (old, same, still) ↦ (
          (
            xs,
            rw same users,
            rw same count,
            once,
            λ v. ground (arith, members v, members user, eq_iff user v),
          ),
          rw (still, same) stored,
        )
        | inr (new, updated) ↦
            let ys = xs ++ user ∷ [] in
            let (now, number, kept) = with_likes-stored post w w' p d ys updated in
            (
              (
                ys,
                now,
                number,
                λ v. occurrences-add-le xs user v new (once v),
                λ v. ground (arith, includes-append xs (user ∷ []) v, members v),
              ),
              kept,
            )
      ]

  -- An unlike takes the user out of the set.
  pub unlike-Shows :
      (likes : String → Bool) (post user : String) (w w' : W) (p d : Object)
      → model.find_one (by_id post) w ≡ ok (some p)
      → Shows likes p
      → unlike model post user w ≡ (ok d, w')
      → Shows (λ v. likes v && not (user == v)) d × (model.find_one (by_id post) w' ≡ ok (some d))
  unfolding unlike
  unlike-Shows likes post user w w' p d stored (xs, users, count, once, members) e =
      let other = λ (id : String). not (id == user) in
      let ys = keep other xs in
      let (now, number, kept) =
        with_likes-stored post w w' p d ys
          (ground (arith, find_by_id-of_stored model laws post w p stored)) in
      (
        (
          ys,
          now,
          number,
          λ v. omega (arith, once v, occurrences-keep-le other xs v),
          λ v. ground (arith, includes-keep xs user v, members v),
        ),
        kept,
      )

  -- On a model that satisfies ModelLaws and where the schema stores likedBy and likesCount as they
  -- are: when the likes of two users who do not like a post yet have both read it and then finish
  -- one after the other, the stored post has the second user among its likes and has lost the
  -- first.
  pub like_lost :
      (post a b : String) (w w1 w2 : W) (p d1 d2 : Object) (xs : List String)
      → p "likedBy" ≡ some (strs xs)
      → includes xs a ≡ false
      → includes xs b ≡ false
      → a ≢ b
      → like_found model post a p w ≡ (ok d1, w1)
      → like_found model post b p w1 ≡ (ok d2, w2)
      → (ys : List String) × (d2 "likedBy" ≡ some (strs ys))
        × (includes ys a ≡ false)
        × (includes ys b ≡ true)
        × (model.find_one (by_id post) w2 ≡ ok (some d2))
  like_lost post a b w w1 w2 p d1 d2 xs likes new_a new_b other first second =
      let ys = xs ++ b ∷ [] in
      let (now, _, kept) = with_likes-stored post w1 w2 p d2 ys (ground arith) in
      (
        ys,
        now,
        ground (arith, includes-append xs (b ∷ []) a, eq_iff b a),
        ground (arith, includes-append xs (b ∷ []) b, eq_refl b),
        kept,
      )
