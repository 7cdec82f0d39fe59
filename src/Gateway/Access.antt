-- ===== src/Gateway/Access.antt =====
-- Who may use the routes of the gateway, whose documents they touch, and how the errors of a service
-- reach the HTTP client.
use nestjs_microservice_plat.Prelude.{
  pos, ◌≡◌, refl, ◌≢◌, ◌⊎◌, inl, inr, String, false, Option, none, some, arith, eq_iff,
}
use nestjs_microservice_plat.Js.{Value, num, str, Object, put, spread, empty}
use nestjs_microservice_plat.Errors.{
  Exception, text, plain, Content, RpcErrorShape, DomainException, domain, http_exception, Status,
  coded, uncoded,
}
use nestjs_microservice_plat.Errors.AllExceptions.{Request, http_catch}
use nestjs_microservice_plat.Errors.RpcExceptions as RpcExceptions
use nestjs_microservice_plat.Action.{ok, err}
use nestjs_microservice_plat.Constants.{JwtPayload}
use nestjs_microservice_plat.Guards.{Metadata, Verdict, admit}
use nestjs_microservice_plat.Guards.Laws.{admit_sound}
use nestjs_microservice_plat.Database.{Model, ModelLaws, by_id}
use nestjs_microservice_plat.Todos.Controller as TodosController
use nestjs_microservice_plat.Todos.Laws.{todos_update_takes_over}
use nestjs_microservice_plat.Gateway.Call.{fields, Payload, Failure, failed, Client, call}
use nestjs_microservice_plat.Gateway.Todos as Todos
use nestjs_microservice_plat.Gateway.Users as Users
use nestjs_microservice_plat.Gateway.Auth as Auth

-- `UsersController` has no metadata of its own.
abbrev pub bare : Metadata
bare = record { is_public = none; roles = none }

-- A request that the guards admit to the route that deletes a user carries a token that passport
-- accepted, of a caller whose role is "admin".
pub user_deletion_needs_admin :
    (id : String) (verdict : Verdict) (user : Option JwtPayload)
    → admit (Users.route_metadata (Users.delete_route id)) bare verdict ≡ ok user
    → (u : JwtPayload) × (user ≡ some u) × (verdict.user ≡ some u) × (u.role ≡ "admin")
unfolding Users.route_metadata
user_deletion_needs_admin id verdict user e =
    let (u, is, accepted, _, role) = admit_sound _ bare verdict user e refl in
    (u, is, accepted, ground (arith, eq_iff "admin" u.role))

-- Every auth route but the logout lets a request in without a token, whatever passport says of it;
-- the logout, which alone reads the caller, is admitted only with a user that passport accepted.
auth_routes_admit :
    (route : Auth.Route) (verdict : Verdict)
    → (admit (Auth.route_metadata route) bare verdict ≡ ok none)
      ⊎ ((route ≡ Auth.logout_route)
          × ((user : Option JwtPayload)
              → admit (Auth.route_metadata route) bare verdict ≡ ok user
              → (u : JwtPayload) × (user ≡ some u) × (verdict.user ≡ some u)))
unfolding Auth.route_metadata admit
auth_routes_admit (Auth.register_route dto) verdict = inl refl
auth_routes_admit (Auth.login_route dto) verdict = inl refl
auth_routes_admit (Auth.refresh_route dto) verdict = inl refl
auth_routes_admit Auth.logout_route verdict = inr (
  refl,
  λ user e.
      let (u, is, accepted, _, _) =
        admit_sound (Auth.route_metadata Auth.logout_route) bare verdict user e refl in
      (u, is, accepted),
)

-- What the client of the gateway is given for a failed call.
abbrev pub transported : RpcErrorShape → Failure
transported shape = record {
  message = text_of shape.content;
  status = some (value_of shape.status);
}
  where
    value_of : Status → Value
    value_of (coded n) = num (pos n)
    value_of (uncoded v) = v

    text_of : Content → Option String
    text_of (Content.message (text m)) = some m
    text_of _ = none

-- A domain exception with a status that is not 0 and a message that is not empty, sent on by
-- RpcExceptionsFilter and thrown again by the gateway, reaches the HTTP client through
-- HttpExceptionFilter with its status and its message.
pub domain_error_arrives :
    {W A : Type 0} (client : Client W A) (fallback other name : String) (payload : Payload) (w : W)
    → (d : DomainException) (req : Request) → d.status ≢ 0
    → d.message ≢ ""
    → (client name payload w).0 ≡ failed (transported (RpcExceptions.catch (domain d)))
    → (e : Exception) × ((call client fallback other name payload w).0 ≡ err e)
      × (http_catch req e
          ≡ some (
            coded d.status,
            record {
              success = false;
              status_code = coded d.status;
              message = plain d.message;
              timestamp = req.now;
              path = req.url;
            },
          ))
unfolding call http_catch RpcExceptions.catch
domain_error_arrives client fallback other name payload w d req known said failure =
    (http_exception d.message (coded d.status), ground (arith, eq_iff d.message ""), refl)

-- On a model that satisfies ModelLaws and where the schema stores the userId as it is: a
-- successful update of a todo with what the gateway sends for a caller, whose body has no userId,
-- stores the todo with the caller as its owner, whoever owned it, and the updated todo is what the
-- store then holds.
pub gateway_update_takes_over :
    {W : Type 0} (model : Model W) {Fits : String → Value → Type 0} (laws : ModelLaws model Fits)
    (caller : JwtPayload) (id : String) (dto o d : Object) (w w' : W)
    → Fits "userId" (str caller.sub)
    → dto "userId" ≡ none
    → Todos.update_payload id caller.sub dto ≡ fields o
    → TodosController.update model id o w ≡ (ok d, w')
    → (d "userId" ≡ some (str caller.sub)) × (model.find_one (by_id id) w' ≡ ok (some d))
unfolding Todos.update_payload
gateway_update_takes_over model laws caller id dto o d w w' fits plain_dto sent done =
    let sent_fields : spread (put "id" (str id) (put "userId" (str caller.sub) empty)) dto ≡ o =
      cc in
    let owner : o "userId" ≡ some (str caller.sub) = rw (← sent_fields, spread, plain_dto) refl in
    todos_update_takes_over model laws id caller.sub o d w w' fits owner done
