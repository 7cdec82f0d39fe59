-- ===== src/Guards.antt =====
-- The guards that stand before every route: libs/common/src/guards, which the applications install,
-- and the ranked libs/guards. What `AuthGuard('jwt')` answers is a parameter.
pub mod Laws
pub mod Tests
use Prim.Native.Nat.{min}
use nestjs_microservice_plat.Prelude.{
  ℕ, String, List, [], ◌∷◌, map, Bool, true, false, Option, none, some, ltb, if◌then◌else◌,
  includes,
}
use nestjs_microservice_plat.Js.{default}
use nestjs_microservice_plat.Errors.{Exception, unauthorized, forbidden}
use nestjs_microservice_plat.Constants.{JwtPayload}
use nestjs_microservice_plat.Constants.Role.{role_rank}
use nestjs_microservice_plat.Action.{Result, ok, err}

-- What the decorators `@Public` and `@Roles` left on a handler and on its class.
pub record Metadata : Type 0 where
  pub is_public : Option Bool
  pub roles : Option (List String)

-- `reflector.getAllAndOverride`: the handler's value, else the class's.
abbrev pub override {ℓ} : {A : Type ℓ} → Option A → Option A → Option A
override none fallback = fallback
override (some a) fallback = some a

-- What passport hands to `handleRequest`.
pub record Verdict : Type 0 where
  pub error : Option Exception
  pub user : Option JwtPayload

-- `JwtAuthGuard.handleRequest`
unfoldable pub handle_request : Verdict → Result JwtPayload
handle_request verdict = elim verdict.error [
  | some e ↦ err e
  | none ↦ elim verdict.user [
    | none ↦ err (unauthorized "Invalid or missing token")
    | some user ↦ ok user
  ]
]

-- `JwtAuthGuard.canActivate`: on a public route the request stays without a user.
unfoldable pub jwt_can_activate : Metadata → Metadata → Verdict → Result (Option JwtPayload)
unfolding handle_request
jwt_can_activate handler class verdict =
    if default (override handler.is_public class.is_public) false
    then ok none
    else elim (handle_request verdict) [ ok user ↦ ok (some user) | err e ↦ err e ]

-- `RolesGuard.canActivate` of libs/common, by the required roles.
abbrev pub check_roles : List String → Option JwtPayload → Result Bool
check_roles [] user = ok true
check_roles (r ∷ rs) none = err (forbidden "User not authenticated")
check_roles (r ∷ rs) (some user) =
    if includes (r ∷ rs) user.role then ok true else err (forbidden "Insufficient permissions")

unfoldable pub roles_can_activate : Metadata → Metadata → Option JwtPayload → Result Bool
roles_can_activate handler class user =
    check_roles (default (override handler.roles class.roles) []) user

-- A request to a route: the JWT guard, then the roles guard.
unfoldable pub admit : Metadata → Metadata → Verdict → Result (Option JwtPayload)
unfolding jwt_can_activate roles_can_activate
admit handler class verdict = elim (jwt_can_activate handler class verdict) [
  | err e ↦ err e
  | ok user ↦ elim (roles_can_activate handler class user) [ err e ↦ err e | ok _ ↦ ok user ]
]

-- A rank or `Infinity`.
pub data Bound : Type 0 where
  rank : ℕ → Bound
  infinity : Bound

abbrev pub min_bound : Bound → Bound → Bound
min_bound (rank a) (rank b) = rank (min a b)
min_bound infinity b = b
min_bound a infinity = a

-- `ROLE_RANK[r] ?? Infinity`
abbrev pub required_rank : String → Bound
required_rank r = elim (role_rank r) [ none ↦ infinity | some n ↦ rank n ]

-- `Math.min(...required.map(…))`
unfoldable pub min_required_rank : List String → Bound
min_required_rank [] = infinity
min_required_rank (r ∷ rs) = min_bound (required_rank r) (min_required_rank rs)

-- `userRank < minRequiredRank`
abbrev pub is_below : ℕ → Bound → Bool
is_below n (rank m) = ltb n m
is_below n infinity = true

-- `RolesGuard.canActivate` of libs/guards.
unfoldable pub ranked_can_activate : List String → Option JwtPayload → Result Bool
ranked_can_activate [] user = ok true
ranked_can_activate (r ∷ rs) none = err (forbidden "Authentication required")
ranked_can_activate (r ∷ rs) (some user) =
    if is_below (default (role_rank user.role) 0) (min_required_rank (r ∷ rs))
    then err (forbidden "Insufficient role")
    else ok true
