-- ===== src/Http/Laws.antt =====
-- What the client of an application sees of its guards, its handlers and their errors.
use nestjs_microservice_plat.Prelude.{
  ◌≤◌, leb, ◌&&◌, Bool-cases, subst, ◌≡◌, ◌≢◌, refl, sym, true, ap, Option-cases, ◌∙◌, ◌⊎◌, inl,
  inr, Option, none, some, false, arith,
}
use nestjs_microservice_plat.Js.{default, or_text}
use nestjs_microservice_plat.Errors.{Exception, plain, domain, http, Status, coded, uncoded}
use nestjs_microservice_plat.Errors.AllExceptions.{Request, HttpErrorPayload, http_catch}
use nestjs_microservice_plat.Action.{Result, ok, err, Action, Result-cases}
use nestjs_microservice_plat.Constants.{JwtPayload}
use nestjs_microservice_plat.Guards.{Metadata, override}
use nestjs_microservice_plat.Guards.Laws.{admit_sound, admit-err}
use nestjs_microservice_plat.Gateway.Call.{
  Client, Reply, value, failed, broken, late, completed, Failure, or_status,
}
use nestjs_microservice_plat.Gateway.Laws.{
  Forwards, Settles, todos_routes-Forward, books_routes-Forward, users_routes-Forward,
}
use nestjs_microservice_plat.Gateway.Users as Users
use nestjs_microservice_plat.Http.Gateway.{
  Route, todos, books, users, route_metadata, route_message, run,
}
use nestjs_microservice_plat.Gateway.Access.{bare}
use nestjs_microservice_plat.Interceptors.{Answer, Transformed, transform}
use nestjs_microservice_plat.Http.{
  Outcome, answered, refused, uncovered, Call, guard, filter, finish, serve,
}

-- A status that node can send.
abbrev pub IsCode : Status → Type 0
IsCode (coded n) = (100 ≤ n) × (n ≤ 999)
IsCode (uncoded v) = ⊥

pub IsCode-cases : (s : Status) → IsCode s ⊎ ¬ IsCode s
IsCode-cases (coded n) = elim (Bool-cases (leb 100 n && leb n 999)) [
  | inl within ↦ inl (ground arith)
  | inr beyond ↦ inr (λ (low, high). ground arith)
]
IsCode-cases (uncoded v) = inr (λ h. h)

-- An exception that HttpExceptionFilter answers.
abbrev pub IsHttp : Exception → Type 0
IsHttp (http m r s) = IsCode s
IsHttp (domain d) = IsCode (coded d.status)
IsHttp _ = ⊥

-- An answer of the application itself: an envelope that says success, or a payload that says the
-- opposite, with the status that the payload names and that can be sent.
abbrev pub IsCovered : Outcome → Type 0
IsCovered (answered t) = t.success ≡ true
IsCovered (refused status payload) =
    (payload.success ≡ false) × (payload.status_code ≡ status) × IsCode status
IsCovered (uncovered e) = ⊥

filter-IsCovered : (request : Request) (e : Exception) → IsHttp e → IsCovered (filter request e)
unfolding filter http_catch
filter-IsCovered request (http m r s) h = (refl, refl, h)
filter-IsCovered request (domain d) h = (refl, refl, h)
filter-IsCovered request e h = absurd h

guard-err :
    (handler class : Metadata) (c : Call) (e : Exception)
    → ((x : Exception) → c.throttled ≡ err x → IsHttp x)
    → ((x : Exception) → c.verdict.error ≡ some x → IsHttp x)
    → guard handler class c ≡ err e
    → IsHttp e
unfolding guard
guard-err handler class c e throttle passport h = elim (Result-cases c.throttled) [
  | inr (x, refusal) ↦ throttle e (ground arith)
  | inl (_, passed) ↦ elim (admit-err handler class c.verdict e (ground arith)) [
    | inl same ↦ passport e same
    | inr (m, inl is) ↦ rw is (omega arith, omega arith)
    | inr (m, inr is) ↦ rw is (omega arith, omega arith)
  ]
]

run-Forwards :
    {W : Type 0} (client : Client W Answer) (route : Route) (caller : JwtPayload) (w : W)
    → Forwards client (route_message caller route) w (run client route (some caller) w)
unfolding run route_message
run-Forwards client (todos route) caller w = todos_routes-Forward client caller route w
run-Forwards client (books route) caller w = books_routes-Forward client caller route w
run-Forwards client (users route) caller w = users_routes-Forward client caller route w

is_private :
    (route : Route) → default (override (route_metadata route).is_public none) false ≡ false
unfolding route_metadata Users.route_metadata
is_private (todos route) = refl
is_private (books route) = refl
is_private (users (Users.all_route page limit)) = refl
is_private (users Users.me_route) = refl
is_private (users (Users.find_route id)) = refl
is_private (users (Users.delete_route id)) = refl
is_private (users (Users.update_route id dto)) = refl

-- On a route that is not public the guards leave a user that passport accepted.
pub guard-user :
    (handler : Metadata) (c : Call) (user : Option JwtPayload)
    → default (override handler.is_public none) false ≡ false
    → guard handler bare c ≡ ok user
    → (u : JwtPayload) × (user ≡ some u) × (c.verdict.user ≡ some u)
unfolding guard
guard-user handler c user private e = elim (Result-cases c.throttled) [
  | inr (x, refusal) ↦ let other : err x ≡ ok user = ground arith in cc
  | inl (_, passed) ↦
      let (u, is, accepted, _, _) =
        admit_sound handler bare c.verdict user (ground arith) private in
      (u, is, accepted)
]

module _ {W : Type 0} (handler class : Metadata) (c : Call)
    (body : Option JwtPayload → Action W Answer) (w : W) where
  pub serve-err :
      (e : Exception)
      → guard handler class c ≡ err e
      → serve handler class c body w ≡ (filter c.request e, w)
  unfolding serve
  serve-err e h = ground arith

  pub serve-ok :
      (user : Option JwtPayload)
      → guard handler class c ≡ ok user
      → serve handler class c body w ≡ (finish c (body user w).0, (body user w).1)
  unfolding serve
  serve-ok user h = ground arith

filter-unanswered :
    (request : Request) (e : Exception) (t : Transformed) → filter request e ≢ answered t
unfolding filter
filter-unanswered request e t h = elim (Option-cases (http_catch request e)) [
  | inl none_caught ↦ let other : uncovered e ≡ answered t = ground arith in cc
  | inr ((status, payload), caught) ↦
      let other : refused status payload ≡ answered t = ground arith in cc
]

finish-answered :
    (c : Call) (r : Result Answer) (t : Transformed)
    → finish c r ≡ answered t
    → (a : Answer) × (r ≡ ok a) × (t ≡ transform c.context a)
unfolding finish
finish-answered c (ok a) t h = (a, refl, cc)
finish-answered c (err e) t h = absurd (filter-unanswered c.request e t h)

-- A request that is answered passed the guards, and its handler answered it.
pub serve-answered :
    {W : Type 0} (handler class : Metadata) (c : Call) (body : Option JwtPayload → Action W Answer)
    (w w' : W) (t : Transformed)
    → serve handler class c body w ≡ (answered t, w')
    → (user : Option JwtPayload) × (a : Answer) × (guard handler class c ≡ ok user)
      × (body user w ≡ (ok a, w'))
      × (t ≡ transform c.context a)
serve-answered handler class c body w w' t e = elim (Result-cases (guard handler class c)) [
  | inr (x, refusal) ↦ absurd (
      filter-unanswered c.request x t
        (ap (λ out. out.0) (sym (serve-err handler class c body w x refusal) ∙ e)))
  | inl (user, passed) ↦
      let served = sym (serve-ok handler class c body w user passed) ∙ e in
      let (a, result, is) = finish-answered c (body user w).0 t (ap (λ out. out.0) served) in
      (user, a, passed, λ i. (result i, ap (λ out. out.1) served i), is)
]

-- A request for a route of todos, books or users of the gateway reaches a service only with a user
-- whose token passport accepted and whom the guards let in, and then as the one message of the
-- route; else the error of the guards is answered and no message is sent.
pub serve-needs_user :
    {W : Type 0} (client : Client W Answer) (route : Route) (c : Call) (w : W)
    → ((u : JwtPayload) × (c.verdict.user ≡ some u)
        × (guard (route_metadata route) bare c ≡ ok (some u))
        × ((serve (route_metadata route) bare c (run client route) w).1
            ≡ (client (route_message u route).0 (route_message u route).1 w).1))
      ⊎ ((e : Exception) × (guard (route_metadata route) bare c ≡ err e)
          × (serve (route_metadata route) bare c (run client route) w ≡ (filter c.request e, w)))
serve-needs_user client route c w = elim (Result-cases (guard (route_metadata route) bare c)) [
  | inr (e, refusal) ↦
      inr (e, refusal, serve-err (route_metadata route) bare c (run client route) w e refusal)
  | inl (user, passed) ↦
      let (u, is, accepted) = guard-user (route_metadata route) c user (is_private route) passed in
      let let_in : guard (route_metadata route) bare c ≡ ok (some u) = passed ∙ ap ok is in
      let served = serve-ok (route_metadata route) bare c (run client route) w (some u) let_in in
      inl (u, accepted, let_in, ap (λ out. out.1) served ∙ (run-Forwards client route u w).0)
]

-- How an error of a service comes out whose status is no code: the filter hands the status on as it
-- is, which node refuses to send.
abbrev pub HandsOn : Reply Answer → Outcome → Type 0
HandsOn reply out =
    (f : Failure) × (payload : HttpErrorPayload) × (reply ≡ failed f)
    × ¬ IsCode (or_status f.status)
    × (out ≡ refused (or_status f.status) payload)

-- How the answer of a service comes out of a handler.
pub finish-Settles :
    (c : Call) (reply : Reply Answer) (r : Result Answer)
    → Settles reply r
    → IsCovered (finish c r) ⊎ HandsOn reply (finish c r)
unfolding finish filter http_catch
finish-Settles c (value a) r h = inl (rw h refl)
finish-Settles c (failed f) r (fallback, is) = elim (IsCode-cases (or_status f.status)) [
  | inl within ↦ inl (rw is (refl, refl, within))
  | inr beyond ↦
      let payload : HttpErrorPayload = record {
        success = false;
        status_code = or_status f.status;
        message = plain (or_text f.message fallback);
        timestamp = c.request.now;
        path = c.request.url;
      } in
      inr (f, payload, refl, beyond, rw is refl)
]
finish-Settles c (broken f) r (message, is) = inl (rw is (refl, refl, (omega arith, omega arith)))
finish-Settles c late r (message, is) = inl (rw is (refl, refl, (omega arith, omega arith)))
finish-Settles c completed r (message, is) = inl (rw is (refl, refl, (omega arith, omega arith)))

-- Where the throttler and passport fail with HttpExceptions of a status from 100 to 999 only: each
-- request for a route of todos, books or users of the gateway is answered by the application
-- itself, with an envelope that says success or with a payload that says the opposite and names
-- the status that is sent; or the guards let it in and the service answered with an error whose
-- status, 500 if it has none, is no number from 100 to 999, and then HttpExceptionFilter hands
-- that status on as it is.
pub serve-IsCovered :
    {W : Type 0} (client : Client W Answer) (route : Route) (c : Call) (w : W)
    → ((x : Exception) → c.throttled ≡ err x → IsHttp x)
    → ((x : Exception) → c.verdict.error ≡ some x → IsHttp x)
    → IsCovered (serve (route_metadata route) bare c (run client route) w).0
      ⊎ ((u : JwtPayload) × (guard (route_metadata route) bare c ≡ ok (some u))
          × HandsOn
              (client (route_message u route).0 (route_message u route).1 w).0
              (serve (route_metadata route) bare c (run client route) w).0)
serve-IsCovered client route c w throttle passport =
    elim (Result-cases (guard (route_metadata route) bare c)) [
      | inr (e, refusal) ↦ inl (
          rw (serve-err (route_metadata route) bare c (run client route) w e refusal) (
            filter-IsCovered c.request e
              (guard-err (route_metadata route) bare c e throttle passport refusal)))
      | inl (user, passed) ↦
          let (u, is, _) = guard-user (route_metadata route) c user (is_private route) passed in
          let let_in : guard (route_metadata route) bare c ≡ ok (some u) = passed ∙ ap ok is in
          let served : (serve (route_metadata route) bare c (run client route) w).0
              ≡ finish c (run client route (some u) w).0 =
            ap (λ out. out.0)
              (serve-ok (route_metadata route) bare c (run client route) w (some u) let_in) in
          elim (finish-Settles c _ _ (run-Forwards client route u w).1) [
            | inl covered ↦ inl (subst IsCovered (sym served) covered)
            | inr (f, payload, fails, beyond, out) ↦
                inr (u, let_in, (f, payload, fails, beyond, served ∙ out))
          ]
    ]
