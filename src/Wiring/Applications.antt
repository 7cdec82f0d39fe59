-- ===== src/Wiring/Applications.antt =====
-- The modules of apps, with the constructors of their classes.
use nestjs_microservice_plat.Prelude.{String, List, [], ◌∷◌, Bool, false}
use nestjs_microservice_plat.Wiring.{
  Class, config, jwt, passport, throttler, clients, Import, Module, module_of, Modules, no_modules,
  with_module,
}
use nestjs_microservice_plat.Wiring.Libraries.{
  plain_import, global_import, for_feature, database_module, redis_module, rabbitmq_module,
  auth_lib_module,
}

abbrev pub class_of : String → List String → Class
class_of token needs = record { token = token; needs = needs }

-- `ClientsModule.registerAsync`
abbrev pub clients_of : List String → Import
clients_of names = record { origin = clients; is_global = false; names = names }

-- A module with a controller and a service behind it.
abbrev pub service_module : Bool → List Import → Modules → String → String → List String → Module
service_module is_global imports children controller service needs =
    module_of is_global imports children (class_of controller (service ∷ []) ∷ [])
      (class_of service needs ∷ []) [] []

-- apps/todos-service, apps/books-service and the users module of apps/user-service
unfoldable pub todos_service_module : Module
unfolding database_module
todos_service_module =
    module_of false (global_import config ∷ []) (with_module database_module no_modules)
      (class_of "TodosController" ("TodosService" ∷ []) ∷ [])
      (class_of "TodosService" ("TodosRepository" ∷ [])
        ∷ class_of "TodosRepository" ("TodoModel" ∷ [])
        ∷ [])
      [] []

unfoldable pub books_service_module : Module
unfolding database_module
books_service_module =
    module_of false (global_import config ∷ []) (with_module database_module no_modules)
      (class_of "BooksController" ("BooksService" ∷ []) ∷ [])
      (class_of "BooksService" ("BooksRepository" ∷ [])
        ∷ class_of "BooksRepository" ("BookModel" ∷ [])
        ∷ [])
      [] []

unfoldable pub users_service_module : Module
unfolding database_module
users_service_module =
    module_of false (global_import config ∷ []) (with_module database_module no_modules)
      (class_of "UsersController" ("UsersService" ∷ []) ∷ [])
      (class_of "UsersService" ("UsersRepository" ∷ [])
        ∷ class_of "UsersRepository" ("UserModel" ∷ [])
        ∷ [])
      [] []

-- the older module of apps/user-service
unfoldable pub older_users_module : Module
unfolding database_module redis_module
older_users_module =
    module_of false (global_import config ∷ for_feature ("User" ∷ []) ∷ [])
      (with_module database_module (with_module redis_module no_modules))
      (class_of "UserController" ("UserService" ∷ []) ∷ [])
      (class_of "UserService" ("UserRepository" ∷ [])
        ∷ class_of "UserRepository" ("UserModel" ∷ [])
        ∷ [])
      [] []

-- apps/auth-service
unfoldable pub auth_service_module : Module
unfolding database_module redis_module rabbitmq_module
auth_service_module =
    module_of false
      (global_import config ∷ clients_of ("EVENTS_CLIENT" ∷ []) ∷ global_import jwt ∷ [])
      (with_module database_module
        (with_module redis_module (with_module rabbitmq_module no_modules)))
      (class_of "AuthController" ("AuthService" ∷ []) ∷ [])
      (class_of "AuthService" ("UserModel" ∷ "JwtService" ∷ "EVENTS_CLIENT" ∷ []) ∷ []) [] []

-- apps/notification-worker and apps/email-worker
unfoldable pub notification_module : Module
notification_module =
    module_of false (global_import config ∷ []) no_modules
      (class_of "NotificationController" ("NotificationService" ∷ []) ∷ [])
      (class_of "NotificationService" ("ConfigService" ∷ "NotificationGateway" ∷ [])
        ∷ class_of "NotificationGateway" []
        ∷ [])
      [] []

unfoldable pub email_module : Module
email_module =
    service_module false (global_import config ∷ []) no_modules "EmailController" "EmailService" []

-- the guards: the ThrottlerGuard of the package, which takes the options and the storage of its
-- module and the Reflector, and the two of libs/common
abbrev pub app_guards : List Class
app_guards =
    class_of "ThrottlerGuard" ("THROTTLER:MODULE_OPTIONS" ∷ "ThrottlerStorage" ∷ "Reflector" ∷ [])
    ∷ class_of "JwtAuthGuard" ("Reflector" ∷ [])
    ∷ class_of "RolesGuard" ("Reflector" ∷ [])
    ∷ []

abbrev pub jwt_strategy : Class
jwt_strategy = class_of "JwtStrategy" ("ConfigService" ∷ [])

-- apps/posts-service
unfoldable pub posts_module : Module
posts_module =
    module_of false (for_feature ("Post" ∷ []) ∷ []) no_modules
      (class_of "PostsController" ("PostsService" ∷ []) ∷ [])
      (class_of "PostsService" ("PostsRepository" ∷ [])
        ∷ class_of "PostsRepository" ("PostModel" ∷ [])
        ∷ [])
      [] []

unfoldable pub posts_app_module : Module
unfolding database_module posts_module
posts_app_module =
    module_of false
      (global_import config
        ∷ plain_import throttler
        ∷ plain_import passport
        ∷ global_import jwt
        ∷ [])
      (with_module database_module (with_module posts_module no_modules))
      (class_of "HealthController" [] ∷ []) (jwt_strategy ∷ app_guards) [] []

-- apps/api-gateway
unfoldable pub gateway_auth_module : Module
gateway_auth_module =
    service_module false (clients_of ("AUTH_SERVICE" ∷ []) ∷ []) no_modules "AuthController"
      "AuthService" ("AUTH_SERVICE" ∷ [])

unfoldable pub gateway_users_module : Module
gateway_users_module =
    service_module false (clients_of ("USER_SERVICE" ∷ []) ∷ []) no_modules "UsersController"
      "UsersService" ("USER_SERVICE" ∷ [])

unfoldable pub gateway_todos_module : Module
gateway_todos_module =
    service_module false (clients_of ("TODOS_SERVICE" ∷ []) ∷ []) no_modules "TodosController"
      "TodosService" ("TODOS_SERVICE" ∷ [])

unfoldable pub gateway_books_module : Module
gateway_books_module =
    service_module false (clients_of ("BOOKS_SERVICE" ∷ []) ∷ []) no_modules "BooksController"
      "BooksService" ("BOOKS_SERVICE" ∷ [])

unfoldable pub gateway_module : Module
unfolding gateway_auth_module gateway_users_module gateway_todos_module gateway_books_module
gateway_module =
    module_of false
      (global_import config
        ∷ plain_import throttler
        ∷ plain_import passport
        ∷ global_import jwt
        ∷ clients_of ("AUTH_SERVICE" ∷ "USER_SERVICE" ∷ [])
        ∷ [])
      (with_module gateway_auth_module (
        with_module gateway_users_module
          (with_module gateway_todos_module (with_module gateway_books_module no_modules))))
      (class_of "HealthController" [] ∷ []) (jwt_strategy ∷ app_guards) [] []

-- apps/api-gateway/src/modules
unfoldable pub modules_auth_module : Module
unfolding auth_lib_module
modules_auth_module =
    service_module false [] (with_module auth_lib_module no_modules) "AuthController" "AuthService"
      ("TokenService" ∷ [])

unfoldable pub modules_user_module : Module
modules_user_module = service_module false [] no_modules "UserController" "UserService" []
