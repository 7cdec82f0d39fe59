-- ===== src/Wiring/Libraries.antt =====
-- The modules of libs/database, libs/redis, libs/rabbitmq and libs/auth, with the constructors of
-- their classes.
use Prim.Native.String as Text
use nestjs_microservice_plat.Prelude.{String, List, [], ◌∷◌, true, false, map}
use nestjs_microservice_plat.Wiring.{
  Class, Package, config, jwt, passport, mongoose, Import, Module, module_of, no_modules,
}

abbrev pub plain_import : Package → Import
plain_import p = record { origin = p; is_global = false; names = [] }

abbrev pub global_import : Package → Import
global_import p = record { origin = p; is_global = true; names = [] }

-- the token of `@InjectModel(name)`
abbrev pub model_token : String → String
model_token name = Text.◌++◌ name "Model"

-- `MongooseModule.forFeature`
abbrev pub for_feature : List String → Import
for_feature names = record { origin = mongoose; is_global = false; names = map model_token names }

-- `DatabaseModule`
unfoldable pub database_module : Module
database_module =
    module_of false
      (plain_import mongoose ∷ for_feature ("User" ∷ "Todo" ∷ "Book" ∷ "Post" ∷ []) ∷ []) no_modules
      [] [] [] (mongoose ∷ [])

abbrev pub redis_service : Class
redis_service = record { token = "RedisService"; needs = "REDIS_CLIENT" ∷ "ConfigService" ∷ [] }

-- `RedisModule`; its own constructor takes the service.
unfoldable pub redis_module : Module
redis_module =
    module_of true (plain_import config ∷ []) no_modules []
      (record { token = "REDIS_CLIENT"; needs = "ConfigService" ∷ [] }
        ∷ redis_service
        ∷ record { token = "RedisModule"; needs = "RedisService" ∷ [] }
        ∷ [])
      ("REDIS_CLIENT" ∷ "RedisService" ∷ []) []

-- `RabbitMQModule.register`
unfoldable pub rabbitmq_module : Module
rabbitmq_module =
    module_of true (plain_import config ∷ []) no_modules []
      (record { token = "RABBIT_CONNECTION"; needs = "ConfigService" ∷ [] }
        ∷ record { token = "RABBIT_CHANNEL"; needs = "RABBIT_CONNECTION" ∷ "ConfigService" ∷ [] }
        ∷ record { token = "RabbitMQPublisher"; needs = "RABBIT_CHANNEL" ∷ "ConfigService" ∷ [] }
        ∷ [])
      ("RABBIT_CONNECTION" ∷ "RABBIT_CHANNEL" ∷ "RabbitMQPublisher" ∷ []) []

-- `AuthLibModule`
unfoldable pub auth_lib_module : Module
auth_lib_module =
    module_of false (plain_import config ∷ plain_import passport ∷ plain_import jwt ∷ []) no_modules
      []
      (record { token = "JwtAccessStrategy"; needs = "ConfigService" ∷ [] }
        ∷ record { token = "JwtRefreshStrategy"; needs = "ConfigService" ∷ [] }
        ∷ record { token = "TokenService"; needs = "JwtService" ∷ "ConfigService" ∷ [] }
        ∷ [])
      ("TokenService" ∷ []) (jwt ∷ passport ∷ [])
