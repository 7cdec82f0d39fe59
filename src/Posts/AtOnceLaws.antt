-- ===== src/Posts/AtOnceLaws.antt =====
-- What likes of one post that run at once leave of it.
use nestjs_microservice_plat.Prelude.{
  ℕ, zero, suc, pos, ◌-◌, ◌≤◌, ◌≡◌, refl, ap, sym, subst, ◌∙◌, inl, inr, String, List, [], ◌∷◌,
  ◌++◌, true, not, ◌==◌, none, some, arith, map, All, length, keep, includes, occurrences,
  Bool-cases,
}
use nestjs_microservice_plat.Js.{Value, num, strs, Object}
use nestjs_microservice_plat.Errors.{Exception, not_found}
use nestjs_microservice_plat.Database.RepositoryLaws.{some-ok-injective}
use nestjs_microservice_plat.Action.{Result, ok, err, Action, Result-cases}
use nestjs_microservice_plat.Database.{
  Model, ModelLaws, Filter, Update, QueryOptions, by_id, fields, no_options,
}
use nestjs_microservice_plat.Database.Repository as Repository
use nestjs_microservice_plat.EventLoop.{interleave, interleave-keeps}
use nestjs_microservice_plat.EventLoop.Bounds.{ahead_at, turns_of, interleave-ahead}
use nestjs_microservice_plat.Posts.Service.{like_found, unlike_found, with_likes}
use nestjs_microservice_plat.Posts.Likes.{
  FitsLikes, with_likes-stored, occurrences-add-le, occurrences-keep-le,
}
use nestjs_microservice_plat.Posts.Taps.{Tap, like_tap, unlike_tap}
use nestjs_microservice_plat.Posts.AtOnce.{
  Phase, reading, writing, answered, after_find, finish_tap, tap_step,
}

-- The likes name no user twice, and the counter is their number.
abbrev pub WellKept : Object → Type 0
WellKept d =
    (xs : List String) × (d "likedBy" ≡ some (strs xs))
    × (d "likesCount" ≡ some (num (pos (length xs))))
    × ((v : String) → occurrences v xs ≤ 1)

-- The posts that a tap has are well kept.
abbrev pub KeepsWell : Tap × Phase → Type 0
KeepsWell (t, reading) = Unit {0}
KeepsWell (t, writing post) = WellKept post
KeepsWell (t, answered (ok post)) = WellKept post
KeepsWell (t, answered (err e)) = Unit {0}

-- all at their first step
abbrev pub started : List Tap → List (Tap × Phase)
started taps = map (λ t. (t, reading)) taps

-- The steps that a tap has to take at most.
abbrev pub ahead : Tap × Phase → ℕ
ahead (t, reading) = 2
ahead (t, writing post) = 1
ahead (t, answered r) = 0

started-KeepsWell : (taps : List Tap) → All KeepsWell (started taps)
started-KeepsWell [] = tt
started-KeepsWell (t ∷ taps) = (tt, started-KeepsWell taps)

ahead_at-started : (i : ℕ) (taps : List Tap) → ahead_at ahead i (started taps) ≤ 2
ahead_at-started i [] = omega arith
ahead_at-started zero (t ∷ taps) = omega arith
ahead_at-started (suc i) (t ∷ taps) = ahead_at-started i taps

after_find-KeepsWell :
    (t : Tap) (r : Result Object)
    → ((post : Object) → r ≡ ok post → WellKept post)
    → KeepsWell (t, after_find r)
after_find-KeepsWell t (ok post) kept = kept post refl
after_find-KeepsWell t (err e) kept = tt

answered-KeepsWell :
    (t : Tap) (r : Result Object)
    → ((post : Object) → r ≡ ok post → WellKept post)
    → KeepsWell (t, answered r)
answered-KeepsWell t (ok post) kept = kept post refl
answered-KeepsWell t (err e) kept = tt

ahead-after_find : (t : Tap) (r : Result Object) → ahead (t, after_find r) ≤ 1
ahead-after_find t (ok post) = omega arith
ahead-after_find t (err e) = omega arith

ok-injective : {A : Type 0} {a b : A} → ok a ≡ ok b → a ≡ b
ok-injective e = ground arith

-- An update that answers with no document leaves what is found.
pub record FailsCleanly {W : Type 0} (model : Model W) : Type 0 where
  pub missed :
      (f : Filter) (u : Update) (o : QueryOptions) (w w' : W)
      → model.find_one_and_update f u o w ≡ (ok none, w')
      → model.find_one f w' ≡ model.find_one f w
  pub failed :
      (f : Filter) (u : Update) (o : QueryOptions) (w w' : W) (e : Exception)
      → model.find_one_and_update f u o w ≡ (err e, w')
      → model.find_one f w' ≡ model.find_one f w

module _ {W : Type 0} (model : Model W) {Fits : String → Value → Type 0}
    (laws : ModelLaws model Fits) (fits : FitsLikes Fits) (clean : FailsCleanly model)
    (post_id : String) where
  -- The stored post, if there is one, is well kept.
  abbrev pub StoredWell : W → Type 0
  StoredWell w = (d : Object) → model.find_one (by_id post_id) w ≡ ok (some d) → WellKept d

  step-ahead : (s : Tap × Phase) (w : W) → ahead (tap_step model post_id s w).0 ≤ ahead s - 1
  unfolding tap_step
  step-ahead (t, reading) w = ahead-after_find t _
  step-ahead (t, writing post) w = omega arith
  step-ahead (t, answered r) w = omega arith

  abbrev write : List String → Object → Action W Object
  write ys p =
      Repository.find_one_and_update model (by_id post_id) (fields (with_likes ys p)) no_options

  -- Where a call leaves the stored post well kept, and answers with no other.
  abbrev LeavesWell : Result Object × W → Type 0
  LeavesWell r = StoredWell r.1 × ((d : Object) → r.0 ≡ ok d → WellKept d)

  found-LeavesWell : (w : W) → StoredWell w → LeavesWell (Repository.find_by_id model post_id w)
  unfolding Repository.find_by_id
  found-LeavesWell w stored =
      let same = laws.find_by_id_lem post_id w in
      elim (Result-cases (model.find_by_id post_id w)) [
        | inr (x, failed) ↦
            let is : (err x, w) ≡ Repository.find_by_id model post_id w = rw failed refl in
            subst LeavesWell is (stored, λ d e. absurd (ground arith))
        | inl (none, missing) ↦
            let is : (err (not_found (Repository.no_document post_id)), w)
                ≡ Repository.find_by_id model post_id w =
              rw missing refl in
            subst LeavesWell is (stored, λ d e. absurd (ground arith))
        | inl (some d, found) ↦
            let is : (ok d, w) ≡ Repository.find_by_id model post_id w = rw found refl in
            subst LeavesWell is (
              stored,
              λ d' e. stored d' (sym same ∙ found ∙ ap (λ x. ok (some x)) (ok-injective e)),
            )
      ]

  written :
      (ys : List String) (p : Object) (w : W)
      → StoredWell w
      → ((v : String) → occurrences v ys ≤ 1)
      → LeavesWell (write ys p w)
  unfolding Repository.find_one_and_update
  written ys p w stored once =
      let o = record no_options { return_new = true } in
      let r = model.find_one_and_update (by_id post_id) (fields (with_likes ys p)) o w in
      elim (Result-cases r.0) [
        | inr (x, failed) ↦
            let same =
              clean.failed (by_id post_id) (fields (with_likes ys p)) o w r.1 x
                (λ i. (failed i, r.1)) in
            let is : (err x, r.1) ≡ write ys p w = rw failed refl in
            subst LeavesWell is
              (λ d found. stored d (sym same ∙ found), λ d e. absurd (ground arith))
        | inl (none, missed) ↦
            let same =
              clean.missed (by_id post_id) (fields (with_likes ys p)) o w r.1
                (λ i. (missed i, r.1)) in
            let is : (err (not_found "Document not found"), r.1) ≡ write ys p w = rw missed refl in
            subst LeavesWell is
              (λ d found. stored d (sym same ∙ found), λ d e. absurd (ground arith))
        | inl (some d, done) ↦
            let (likes, count, kept) =
              with_likes-stored model laws fits post_id w r.1 p d ys (rw done refl) in
            let well : WellKept d = (ys, likes, count, once) in
            let is : (ok d, r.1) ≡ write ys p w = rw done refl in
            subst LeavesWell is (
              λ d' found. subst WellKept (some-ok-injective (sym kept ∙ found)) well,
              λ d' e. subst WellKept (ok-injective e) well,
            )
      ]

  finish-LeavesWell :
      (t : Tap) (p : Object) (w : W)
      → StoredWell w
      → WellKept p
      → LeavesWell (finish_tap model post_id t p w)
  finish-LeavesWell (like_tap user) p w stored (xs, likes, count, once) =
      elim (Bool-cases (includes xs user)) [
        | inl old ↦
            let is : (ok p, w) ≡ like_found model post_id user p w = ground arith in
            subst LeavesWell is
              (stored, λ d e. subst WellKept (ok-injective e) (xs, likes, count, once))
        | inr new ↦
            let ys = xs ++ user ∷ [] in
            let is : write ys p w ≡ like_found model post_id user p w = ground arith in
            subst LeavesWell is
              (written ys p w stored (λ v. occurrences-add-le xs user v new (once v)))
      ]
  finish-LeavesWell (unlike_tap user) p w stored (xs, likes, count, once) =
      let other = λ (id : String). not (id == user) in
      let is : write (keep other xs) p w ≡ unlike_found model post_id user p w = ground arith in
      subst LeavesWell is (
        written (keep other xs) p w stored
          (λ v. omega (arith, once v, occurrences-keep-le other xs v)))

  step-keeps :
      (s : Tap × Phase) (w : W)
      → StoredWell w
      → KeepsWell s
      → StoredWell (tap_step model post_id s w).1 × KeepsWell (tap_step model post_id s w).0
  unfolding tap_step
  step-keeps (t, reading) w stored kept =
      let (stored', kept') = found-LeavesWell w stored in (stored', after_find-KeepsWell t _ kept')
  step-keeps (t, writing p) w stored kept =
      let (stored', kept') = finish-LeavesWell t p w stored kept in
      (stored', answered-KeepsWell t _ kept')
  step-keeps (t, answered r) w stored kept = (stored, kept)

  -- On a model that satisfies ModelLaws and stores likedBy and likesCount as they are, where an
  -- update that answers with no document leaves what is found: however many likes and unlikes of
  -- one post run at once, in whatever order their steps come, if the stored post named no user
  -- twice and counted its likes right before, it does so after, the posts that they answer with do
  -- so too, and one that has taken n steps has at most 2 - n to take.
  pub taps_keep_counts :
      (schedule : List ℕ) (taps : List Tap) (w : W) (i : ℕ)
      → StoredWell w
      → StoredWell (interleave (tap_step model post_id) schedule (started taps) w).1
        × All KeepsWell (interleave (tap_step model post_id) schedule (started taps) w).0
        × (ahead_at ahead i (interleave (tap_step model post_id) schedule (started taps) w).0
            ≤ 2 - turns_of i schedule)
  taps_keep_counts schedule taps w i stored =
      let (stored', kept) =
        interleave-keeps (tap_step model post_id) StoredWell KeepsWell step-keeps schedule
          (started taps) w stored (started-KeepsWell taps) in
      (
        stored',
        kept,
        ground (
          arith,
          interleave-ahead (tap_step model post_id) ahead step-ahead i schedule (started taps) w,
          ahead_at-started i taps,
        ),
      )
