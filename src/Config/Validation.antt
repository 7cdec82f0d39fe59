-- ===== src/Config/Validation.antt =====
-- libs/common/src/config/validation.schema.ts: the rules that Joi checks the environment by, and the
-- environment with the defaults that ConfigModule writes back into it.
use nestjs_microservice_plat.Prelude.{
  ℕ, String, List, [], ◌∷◌, Option, none, some, ◌==◌, if◌then◌else◌,
}
use nestjs_microservice_plat.Config.{Env}

-- A rule of Joi. `default_to` has the text of the default, which is what `process.env` holds of it;
-- `allow_empty` is `allow('')`.
pub data Rule : Type 0 where
  string number boolean required optional allow_empty : Rule
  valid : List String → Rule
  at_least at_most : ℕ → Rule
  default_to : String → Rule

abbrev pub env_validation_schema : List (String × List Rule)
env_validation_schema =
    (
      "NODE_ENV",
      string
          ∷ valid ("development" ∷ "staging" ∷ "production" ∷ "test" ∷ [])
          ∷ default_to "development"
          ∷ [],
    )
    ∷ ("GATEWAY_HTTP_PORT", number ∷ default_to "3000" ∷ [])
    ∷ ("GATEWAY_GLOBAL_PREFIX", string ∷ default_to "api" ∷ [])
    ∷ ("GATEWAY_API_VERSION", string ∷ default_to "1" ∷ [])
    ∷ ("CORS_ORIGINS", string ∷ allow_empty ∷ default_to "" ∷ [])
    ∷ ("THROTTLE_TTL", number ∷ default_to "60" ∷ [])
    ∷ ("THROTTLE_LIMIT", number ∷ default_to "120" ∷ [])
    ∷ ("AUTH_SERVICE_HOST", string ∷ default_to "localhost" ∷ [])
    ∷ ("AUTH_SERVICE_PORT", number ∷ default_to "4001" ∷ [])
    ∷ ("USER_SERVICE_HOST", string ∷ default_to "localhost" ∷ [])
    ∷ ("USER_SERVICE_PORT", number ∷ default_to "4002" ∷ [])
    ∷ ("JWT_ACCESS_SECRET", string ∷ at_least 16 ∷ required ∷ [])
    ∷ ("JWT_ACCESS_EXPIRES_IN", string ∷ default_to "15m" ∷ [])
    ∷ ("JWT_REFRESH_SECRET", string ∷ at_least 16 ∷ required ∷ [])
    ∷ ("JWT_REFRESH_EXPIRES_IN", string ∷ default_to "7d" ∷ [])
    ∷ ("MONGO_URI", string ∷ required ∷ [])
    ∷ ("MONGO_DB_NAME", string ∷ default_to "enterprise_app" ∷ [])
    ∷ ("REDIS_HOST", string ∷ default_to "localhost" ∷ [])
    ∷ ("REDIS_PORT", number ∷ default_to "6379" ∷ [])
    ∷ ("REDIS_PASSWORD", string ∷ allow_empty ∷ optional ∷ [])
    ∷ ("REDIS_DB", number ∷ default_to "0" ∷ [])
    ∷ ("REDIS_KEY_PREFIX", string ∷ default_to "app:" ∷ [])
    ∷ ("REDIS_DEFAULT_TTL", number ∷ default_to "300" ∷ [])
    ∷ ("RABBITMQ_URI", string ∷ required ∷ [])
    ∷ ("RABBITMQ_EXCHANGE", string ∷ default_to "app.events" ∷ [])
    ∷ ("RABBITMQ_NOTIFICATION_QUEUE", string ∷ default_to "notification.queue" ∷ [])
    ∷ ("RABBITMQ_EMAIL_QUEUE", string ∷ default_to "email.queue" ∷ [])
    ∷ ("RABBITMQ_DLX", string ∷ default_to "app.dlx" ∷ [])
    ∷ ("RABBITMQ_DLQ", string ∷ default_to "app.dlq" ∷ [])
    ∷ ("RABBITMQ_RETRY_DELAY_MS", number ∷ default_to "10000" ∷ [])
    ∷ ("RABBITMQ_MAX_RETRIES", number ∷ default_to "5" ∷ [])
    ∷ ("RABBITMQ_PREFETCH", number ∷ default_to "20" ∷ [])
    ∷ (
      "LOG_LEVEL",
      string
          ∷ valid ("fatal" ∷ "error" ∷ "warn" ∷ "info" ∷ "debug" ∷ "trace" ∷ [])
          ∷ default_to "info"
          ∷ [],
    )
    ∷ ("LOG_PRETTY", boolean ∷ default_to "false" ∷ [])
    ∷ ("BCRYPT_SALT_ROUNDS", number ∷ at_least 10 ∷ at_most 15 ∷ default_to "12" ∷ [])
    ∷ ("COOKIE_SECRET", string ∷ at_least 16 ∷ required ∷ [])
    ∷ ("SMTP_HOST", string ∷ optional ∷ [])
    ∷ ("SMTP_PORT", number ∷ optional ∷ [])
    ∷ ("SMTP_USER", string ∷ allow_empty ∷ optional ∷ [])
    ∷ ("SMTP_PASS", string ∷ allow_empty ∷ optional ∷ [])
    ∷ ("SMTP_FROM", string ∷ optional ∷ [])
    ∷ []

abbrev pub default_among : List Rule → Option String
default_among [] = none
default_among (default_to s ∷ rules) = some s
default_among (rule ∷ rules) = default_among rules

abbrev pub default_at : List (String × List Rule) → String → Option String
default_at [] name = none
default_at ((key, rules) ∷ schema) name =
    if key == name then default_among rules else default_at schema name

-- The environment after the validation: what was set stays, the rest gets its default.
abbrev pub with_defaults : Env → Env
with_defaults env name = elim (env name) [
  | none ↦ default_at env_validation_schema name
  | some s ↦ some s
]
