-- ===== src/Auth/Tests.antt =====
-- The auth service on a collection with one account or none, with a toy hash and toy tokens.
use Prim.Native.String
use nestjs_microservice_plat.Prelude.{
  ◌≡◌, refl, true, sym, ap, String, [], ◌∷◌, none, some, ◌==◌, arith, eq_refl,
}
use nestjs_microservice_plat.Js.{str, strs, date, Object, put, empty, default, as_text, remove}
use nestjs_microservice_plat.Errors.{bad_request}
use nestjs_microservice_plat.Action.{ok, err, pure}
use nestjs_microservice_plat.Database.{fields}
use nestjs_microservice_plat.Database.Memory.{Store, memory, updated}
use nestjs_microservice_plat.Database.RepositoryLaws.{some-ok-injective}
use nestjs_microservice_plat.Auth.{Bcrypt, Jwt, Emit, Settings}
use nestjs_microservice_plat.Auth.Service.{
  Session, Tokens, RegisterDto, LoginDto, register, login, logout, refresh_token, generate_tokens,
  sanitize_user, token_payload, new_account, by_email, controller, login_request, a_session,
}
use nestjs_microservice_plat.Auth.Registration.{register_once}
use nestjs_microservice_plat.Auth.Sessions.{HidesPassword, auth-HidesPassword, refresh_after_logout}

abbrev pub bcrypt : Bcrypt Store
bcrypt = record {
  hash = λ password rounds w. (ok (String.◌++◌ "$" password), w);
  compare = λ password hashed w. ok (default hashed "" == String.◌++◌ "$" password);
}

abbrev pub settings : Settings
settings = record {
  bcrypt_rounds = 12;
  access_secret = some "a";
  access_expires_in = none;
  refresh_secret = some "r";
  refresh_expires_in = none;
}

abbrev ann : Object
ann = put "_id" (str "u1") (
    put "email" (str "ann@x.org")
      (put "password" (str "$secret") (put "roles" (strs ("user" ∷ [])) empty)))

-- A token is the role, and it stands for Ann.
abbrev pub role_tokens : Jwt Store
role_tokens = record {
  sign = λ payload secret expires w. ok (default (as_text (payload "role")) "");
  verify = λ token secret w. ok (token_payload ann token);
}

abbrev pub silent : Emit Store
silent event content = pure tt

abbrev pub ann_registers : RegisterDto
ann_registers = record { email = "ann@x.org"; password = "secret"; name = "Ann" }

abbrev pub ann_stored : Object
ann_stored = new_account memory bcrypt role_tokens silent settings ann_registers "$secret"

abbrev pub user_tokens : Tokens
user_tokens = record { access_token = "user"; refresh_token = "user" }

-- A document that was stored is found by its email.
pub insert-found :
    (email : String) (o d : Object) (v v' : Store)
    → memory.create o v ≡ (ok d, v')
    → o "email" ≡ some (str email)
    → memory.find_one (by_email email) v' ≡ ok (some d)
insert-found email o d none v' e h = ground (arith, eq_refl email)
insert-found email o d (some old) v' e h = cc

register_once_example :
    register memory bcrypt role_tokens silent settings ann_registers (some ann_stored)
    ≡ (err (bad_request "Email already registered"), some ann_stored)
unfolding register generate_tokens sanitize_user
register_once_example =
    register_once memory bcrypt role_tokens settings silent ann_registers ann_registers none
      (some ann_stored) (record { account = remove "password" ann_stored; tokens = user_tokens })
      (insert-found "ann@x.org") (λ event content v. refl) refl refl

abbrev ann_logs_in : LoginDto
ann_logs_in = record { email = "ann@x.org"; password = "secret" }

-- Ann after a login at time 5
abbrev ann_seen : Object
ann_seen = updated (fields (put "lastLoginAt" (date 5) empty)) ann

abbrev role_session : Session
role_session = record { account = remove "password" ann; tokens = user_tokens }

auth-HidesPassword_example : HidesPassword (a_session role_session)
unfolding controller login generate_tokens sanitize_user
auth-HidesPassword_example =
    auth-HidesPassword memory bcrypt role_tokens silent settings 5 (login_request ann_logs_in)
      (some ann) (some ann_seen) (a_session role_session) refl

-- A token is the subject.
abbrev subject_tokens : Jwt Store
subject_tokens = record {
  sign = λ payload secret expires w. ok (default (as_text (payload "sub")) "");
  verify = λ token secret w. ok (put "sub" (str token) empty);
}

abbrev subject_pair : Tokens
subject_pair = record { access_token = "u1"; refresh_token = "u1" }

abbrev subject_session : Session
subject_session = record { account = remove "password" ann; tokens = subject_pair }

refresh_after_logout_example :
    (logout memory bcrypt subject_tokens silent settings "u1" (some ann_seen)
      ≡ (ok true, some ann_seen))
    × (refresh_token memory bcrypt subject_tokens silent settings "u1" (some ann_seen)
        ≡ (ok subject_pair, some ann_seen))
unfolding login generate_tokens sanitize_user
refresh_after_logout_example =
    refresh_after_logout memory bcrypt subject_tokens silent settings 5 ann_logs_in (some ann)
      (some ann_seen) subject_session "u1" ann_seen (λ token w. Unit {0}) refl
      (λ account found. sym (ap (λ (a : Object). a "_id") (some-ok-injective found)))
      (λ payload subject token v u names signed lasts.
        let is : token ≡ subject = ground arith in (put "sub" (str token) empty, refl, rw is refl))
      tt refl subject_pair refl

abbrev ann_payload : Object
ann_payload = put "sub" (str "u1") empty
