-- ===== src/Guards/Laws.antt =====
-- Who gets past the guards.
use nestjs_microservice_plat.Prelude.{
  ℕ, ◌≤◌, ◌≡◌, refl, ◌≢◌, ◌↔◌, ◌⊎◌, inl, inr, String, List, [], ◌∷◌, true, false, Option, none,
  some, arith, Any, includes, Option-cases,
}
use nestjs_microservice_plat.Js.{default}
use nestjs_microservice_plat.Errors.{Exception, unauthorized, forbidden}
use nestjs_microservice_plat.Constants.{JwtPayload}
use nestjs_microservice_plat.Constants.Role.{role_rank}
use nestjs_microservice_plat.Action.{Result, ok, err, Result-cases}
use nestjs_microservice_plat.Guards.{
  Metadata, Verdict, override, admit, check_roles, Bound, rank, infinity, min_bound, required_rank,
  min_required_rank, is_below, ranked_can_activate, jwt_can_activate, handle_request,
}

-- What a route that is not public does with passport's answer.
abbrev admitted : List String → Option Exception → Option JwtPayload → Result (Option JwtPayload)
admitted required (some e) user = err e
admitted required none none = err (unauthorized "Invalid or missing token")
admitted required none (some u) = elim (check_roles required (some u)) [
  | err e ↦ err e
  | ok _ ↦ ok (some u)
]

admitted_sound :
    (required : List String) (error : Option Exception) (found user : Option JwtPayload)
    → admitted required error found ≡ ok user
    → (u : JwtPayload) × (user ≡ some u)
      × (found ≡ some u)
      × (error ≡ none)
      × ((required ≡ []) ⊎ (includes required u.role ≡ true))
admitted_sound required (some x) found user e = cc
admitted_sound required none none user e = cc
admitted_sound [] none (some u) user e = (u, ground arith, refl, refl, inl refl)
admitted_sound (r ∷ rs) none (some u) user e = (u, ground arith, refl, refl, inr (ground arith))

-- A request that the JWT guard and the roles guard admit to a route that is not public carries a
-- user whose token passport accepted, and the user has one of the roles the route names, if it
-- names any.
pub admit_sound :
    (handler class : Metadata) (verdict : Verdict) (user : Option JwtPayload)
    → admit handler class verdict ≡ ok user
    → default (override handler.is_public class.is_public) false ≡ false
    → (u : JwtPayload) × (user ≡ some u)
      × (verdict.user ≡ some u)
      × (verdict.error ≡ none)
      × ((default (override handler.roles class.roles) [] ≡ [])
          ⊎ (includes (default (override handler.roles class.roles) []) u.role ≡ true))
unfolding admit
admit_sound handler class verdict user e private =
    admitted_sound (default (override handler.roles class.roles) []) verdict.error verdict.user user
      (ground arith)

-- The rank of some required role is at most the user's.
abbrev pub Reaches : ℕ → String → Type 0
Reaches n r = (m : ℕ) × (role_rank r ≡ some m) × (m ≤ n)

bound_of : Option ℕ → Bound
bound_of none = infinity
bound_of (some m) = rank m

bound_of_iff :
    (n : ℕ) (o : Option ℕ) → (is_below n (bound_of o) ≡ false) ↔ ((m : ℕ) × (o ≡ some m) × (m ≤ n))
unfolding bound_of
bound_of_iff n none = (λ e. cc, λ a. cc (a.1))
bound_of_iff n (some m) =
    (λ e. (m, refl, ground arith), λ a. let (k, same, low) = a in ground arith)

Reaches-bound : (n : ℕ) (r : String) → (is_below n (required_rank r) ≡ false) ↔ Reaches n r
unfolding bound_of
Reaches-bound n r = bound_of_iff n (role_rank r)

is_below-min :
    (n : ℕ) (a b : Bound)
    → (is_below n (min_bound a b) ≡ false) ↔ ((is_below n a ≡ false) ⊎ (is_below n b ≡ false))
is_below-min n (rank a) (rank b) = (λ e. ground arith, λ h. ground arith)
is_below-min n (rank a) infinity = (λ e. inl e, λ h. ground arith)
is_below-min n infinity b = (λ e. inr e, λ h. ground arith)

is_below_iff :
    (n : ℕ) (required : List String)
    → (is_below n (min_required_rank required) ≡ false) ↔ Any (Reaches n) required
unfolding min_required_rank
is_below_iff n [] = (λ e. cc, λ a. absurd a)
is_below_iff n (r ∷ rs) =
    let k = is_below-min n (required_rank r) (min_required_rank rs) in
    let first = Reaches-bound n r in
    let rest = is_below_iff n rs in
    (
      λ e. elim (k.0 e) [ inl a ↦ inl (first.0 a) | inr b ↦ inr (rest.0 b) ],
      λ a. k.1 (elim a [ inl x ↦ inl (first.1 x) | inr y ↦ inr (rest.1 y) ]),
    )

-- The ranked roles guard lets a user pass exactly when the rank of the role, 0 if unknown, is at
-- least that of one of the required roles, if any role is required.
pub ranked_iff :
    (required : List String) (user : JwtPayload)
    → required ≢ []
    → (ranked_can_activate required (some user) ≡ ok true)
      ↔ Any (Reaches (default (role_rank user.role) 0)) required
unfolding ranked_can_activate
ranked_iff [] user h = absurd (h refl)
ranked_iff (r ∷ rs) user h =
    let n = default (role_rank user.role) 0 in
    let k = is_below_iff n (r ∷ rs) in (λ e. k.0 (ground arith), λ a. rw (k.1 a))

check_roles-err :
    (required : List String) (user : Option JwtPayload) (e : Exception)
    → check_roles required user ≡ err e
    → (m : String) × (e ≡ forbidden m)
check_roles-err [] user e h = cc
check_roles-err (r ∷ rs) none e h = ("User not authenticated", ground arith)
check_roles-err (r ∷ rs) (some u) e h = ("Insufficient permissions", ground arith)

jwt_can_activate-err :
    (handler class : Metadata) (verdict : Verdict) (e : Exception)
    → jwt_can_activate handler class verdict ≡ err e
    → (verdict.error ≡ some e) ⊎ (e ≡ unauthorized "Invalid or missing token")
unfolding jwt_can_activate handle_request
jwt_can_activate-err handler class verdict e h = elim (Option-cases verdict.error) [
  | inr (x, failed) ↦ inl (ground arith)
  | inl fine ↦ elim (Option-cases verdict.user) [
    | inl nobody ↦ inr (ground arith)
    | inr (u, known) ↦ inr (ground arith)
  ]
]

-- The exceptions of the two guards: the one of passport, or one of Nest's.
pub admit-err :
    (handler class : Metadata) (verdict : Verdict) (e : Exception)
    → admit handler class verdict ≡ err e
    → (verdict.error ≡ some e) ⊎ ((m : String) × ((e ≡ unauthorized m) ⊎ (e ≡ forbidden m)))
unfolding admit
admit-err handler class verdict e h = elim (Result-cases (jwt_can_activate handler class verdict)) [
  | inr (x, refusal) ↦ elim (jwt_can_activate-err handler class verdict e (ground arith)) [
    | inl failed ↦ inl failed
    | inr is ↦ inr ("Invalid or missing token", inl is)
  ]
  | inl (user, passed) ↦
      let (m, is) =
        check_roles-err (default (override handler.roles class.roles) []) user e (ground arith) in
      inr (m, inr is)
]
