-- ===== src/Deployment/Processes.antt =====
-- ecosystem.config.js: the processes that pm2 runs, and the ports of the HTTP applications.
use Prim.Native.String as Text
use nestjs_microservice_plat.Prelude.{
  ℕ, ◌≡◌, refl, String, List, [], ◌∷◌, Bool, true, false, Option, none, some, All, ◌==◌,
  if◌then◌else◌,
}
use nestjs_microservice_plat.Config.{Env}
use nestjs_microservice_plat.Config.Configuration.{text}

-- `'max'` or a number
pub data Instances : Type 0 where
  max_instances : Instances
  instances_of : ℕ → Instances

pub record Process : Type 0 where
  pub name : String
  pub script : String
  pub instances : Instances
  pub exec_mode : String
  pub env : List (String × String)
  pub error_file : String
  pub out_file : String
  pub log_date_format : String
  pub merge_logs : Option Bool
  pub autorestart : Bool
  pub watch : Bool
  pub max_memory_restart : String
  pub shutdown_with_message : Bool
  pub wait_ready : Option Bool
  pub listen_timeout : Option ℕ
  pub kill_timeout : Option ℕ

unfoldable pub api_gateway : Process
api_gateway = record {
  name = "api-gateway";
  script = "./dist/apps/api-gateway/main.js";
  instances = max_instances;
  exec_mode = "cluster";
  env = ("NODE_ENV", "production") ∷ ("API_GATEWAY_PORT", "3000") ∷ [];
  error_file = "./logs/api-gateway-error.log";
  out_file = "./logs/api-gateway-out.log";
  log_date_format = "YYYY-MM-DD HH:mm:ss Z";
  merge_logs = some true;
  autorestart = true;
  watch = false;
  max_memory_restart = "512M";
  shutdown_with_message = true;
  wait_ready = some true;
  listen_timeout = some 5000;
  kill_timeout = some 10000;
}

-- What the services and the workers have in common.
abbrev pub background : String → String → String → String → ℕ → Process
background name script error_file out_file count = record {
  name = name;
  script = script;
  instances = instances_of count;
  exec_mode = "cluster";
  env = ("NODE_ENV", "production") ∷ [];
  error_file = error_file;
  out_file = out_file;
  log_date_format = "YYYY-MM-DD HH:mm:ss Z";
  merge_logs = none;
  autorestart = true;
  watch = false;
  max_memory_restart = "256M";
  shutdown_with_message = true;
  wait_ready = none;
  listen_timeout = none;
  kill_timeout = none;
}

unfoldable pub processes : List Process
unfolding api_gateway
processes =
    api_gateway
    ∷ background "auth-service" "./dist/apps/auth-service/main.js" "./logs/auth-service-error.log"
        "./logs/auth-service-out.log" 2
    ∷ background "user-service" "./dist/apps/user-service/main.js" "./logs/user-service-error.log"
        "./logs/user-service-out.log" 2
    ∷ background "notification-worker" "./dist/apps/notification-worker/main.js"
        "./logs/notification-worker-error.log" "./logs/notification-worker-out.log" 1
    ∷ background "email-worker" "./dist/apps/email-worker/main.js" "./logs/email-worker-error.log"
        "./logs/email-worker-out.log" 2
    ∷ []

-- the port of `bootstrap` in main.ts of the gateway and of the posts service, as a text
unfoldable pub gateway_port : Env → String
unfolding text
gateway_port env = text env "GATEWAY_PORT" "3000"

unfoldable pub posts_port : Env → String
unfolding text
posts_port env = text env "POSTS_SERVICE_PORT" "3006"

-- An environment with a variable set.
abbrev pub with_variable : String → String → Env → Env
with_variable name value env other = if name == other then some value else env other

-- The port that the configuration of pm2 sets is not the port of the gateway.
gateway_port_unset :
    (env : Env) (port : String)
    → gateway_port (with_variable "API_GATEWAY_PORT" port env) ≡ gateway_port env
unfolding gateway_port text
gateway_port_unset env port = refl

-- Each process runs the program of its name.
abbrev RunsItself : Process → Type 0
RunsItself process = process.script ≡ Text.◌++◌ "./dist/apps/" (Text.◌++◌ process.name "/main.js")

processes-RunsItself : All RunsItself processes
unfolding processes
processes-RunsItself = (refl, (refl, (refl, (refl, (refl, tt)))))
