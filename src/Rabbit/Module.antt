-- ===== src/Rabbit/Module.antt =====
-- libs/rabbitmq/src/rabbitmq.module.ts: what a channel does on every connection, and the shutdown.
-- `ConfigService` is a parameter, as two look-ups by path; a number may be `NaN`, which is `none`
-- inside. The connection manager, which calls `setup`, is a parameter too.
use nestjs_microservice_plat.Prelude.{
  ℤ, pos, ◌≡◌, String, List, ◌++◌, ◌∷◌, [], true, Option, none, some, All, Any, arith,
}
use nestjs_microservice_plat.Js.{default}
use nestjs_microservice_plat.Errors.{error}
use nestjs_microservice_plat.Action.{Action, ok, pure, throw, try_catch, ◌>>=◌, ◌>>◌}
use nestjs_microservice_plat.Config.{Env}
use nestjs_microservice_plat.Config.Configuration.{
  AppConfig, configuration_factory, text, int, rabbitmq_section,
}
use nestjs_microservice_plat.Rabbit.Topology.{
  QueueConfig, Declaration, bind_queue, assert_topology, assert_topology_routes, well_ordered,
  DeadLetters,
}

-- `ConfigService`
pub record ConfigService : Type 0 where
  pub text_at : String → Option String
  pub number_at : String → Option (Option ℤ)

-- `config.getOrThrow(path)`
abbrev pub get_or_throw : {W : Type 0} → ConfigService → String → Action W String
get_or_throw config path = elim (config.text_at path) [
  | none ↦ throw (error "Configuration key does not exist")
  | some s ↦ pure s
]

-- `config.get(path, fallback)` of a number
abbrev pub get_number : ConfigService → String → Option ℤ → Option ℤ
get_number config path fallback = default (config.number_at path) fallback

module _ {W : Type 0} (prefetch : Option ℤ → Action W (Unit {0}))
    (declare : Declaration → Action W (Unit {0})) where
  -- `setup` of the channel
  unfoldable pub setup : ConfigService → List QueueConfig → Action W (Unit {0})
  unfolding assert_topology
  setup config queues = do
    prefetch (get_number config "rabbitmq.prefetch" (some (pos 20)))
    exchange ← get_or_throw config "rabbitmq.exchange"
    dlx ← get_or_throw config "rabbitmq.dlx"
    dlq ← get_or_throw config "rabbitmq.dlq"
    assert_topology declare (record {
      exchange = exchange;
      dlx = dlx;
      dlq = dlq;
      queues = queues;
      retry_delay_ms = get_number config "rabbitmq.retryDelayMs" (some (pos 10000));
    })

-- `onApplicationShutdown`: the connection that `register` made, if it made one, is closed, and an
-- error of that is left out. The argument is the `close` of the connection.
unfoldable pub on_application_shutdown :
    {W : Type 0} → Option (Action W (Unit {0})) → Action W (Unit {0})
on_application_shutdown none = pure tt
on_application_shutdown (some close) = try_catch close (λ e. pure tt)

-- The service reads the loaded configuration.
pub record Reads (config : ConfigService) (app : AppConfig) : Type 0 where
  pub exchange : config.text_at "rabbitmq.exchange" ≡ some app.rabbitmq.exchange
  pub dlx : config.text_at "rabbitmq.dlx" ≡ some app.rabbitmq.dlx
  pub dlq : config.text_at "rabbitmq.dlq" ≡ some app.rabbitmq.dlq
  pub prefetch : config.number_at "rabbitmq.prefetch" ≡ some app.rabbitmq.prefetch
  pub retry_delay_ms : config.number_at "rabbitmq.retryDelayMs" ≡ some app.rabbitmq.retry_delay_ms

module _ {W : Type 0} (prefetch : Option ℤ → Action W (Unit {0}))
    (declare : Declaration → Action W (Unit {0})) (log : W → List Declaration)
    (succeeds : (d : Declaration) (w : W) → (declare d w).0 ≡ ok tt)
    (recorded : (d : Declaration) (w : W) → log (declare d w).1 ≡ log w ++ d ∷ [])
    (limited : (n : Option ℤ) (w : W) → (prefetch n w).0 ≡ ok tt) where
  setup-found :
      (config : ConfigService) (queues : List QueueConfig) (w : W) (exchange dlx dlq : String)
      (limit delay : Option ℤ)
      → config.number_at "rabbitmq.prefetch" ≡ some limit
      → config.text_at "rabbitmq.exchange" ≡ some exchange
      → config.text_at "rabbitmq.dlx" ≡ some dlx
      → config.text_at "rabbitmq.dlq" ≡ some dlq
      → config.number_at "rabbitmq.retryDelayMs" ≡ some delay
      → setup prefetch declare config queues w
        ≡ assert_topology declare
            (record {
              exchange = exchange;
              dlx = dlx;
              dlq = dlq;
              queues = queues;
              retry_delay_ms = delay;
            })
            (prefetch limit w).1
  unfolding setup
  setup-found config queues w exchange dlx dlq limit delay h1 h2 h3 h4 h5 =
      ground (arith, limited limit w)

  -- On a channel that takes every declaration, with a ConfigService that reads the loaded
  -- configuration: what the channel does on a connection succeeds, sets the prefetch of the
  -- environment, declares nothing before what it names, sends the dead letters of every queue to
  -- the exchange that RABBITMQ_DLX names and binds the queue that RABBITMQ_DLQ names there, with
  -- the defaults of the configuration.
  pub setup_of_env :
      (config : ConfigService) (env : Env) (queues : List QueueConfig) (w : W)
      → Reads config (configuration_factory env)
      → let (r, w') = setup prefetch declare config queues w in
        (r ≡ ok tt)
        × ((ds : List Declaration) × (log w'
              ≡ log (prefetch (int env "RABBITMQ_PREFETCH" "20") w).1 ++ ds)
            × (well_ordered [] [] ds ≡ true)
            × All (DeadLetters (text env "RABBITMQ_DLX" "app.dlx") ds) queues
            × Any
                (λ d.
                  d
                  ≡ bind_queue
                      (text env "RABBITMQ_DLQ" "app.dlq")
                      (text env "RABBITMQ_DLX" "app.dlx")
                      "#")
                ds)
  unfolding configuration_factory rabbitmq_section
  setup_of_env config env queues w reads =
      rw
        (setup-found config queues w _ _ _ _ _ reads.prefetch reads.exchange reads.dlx reads.dlq
          reads.retry_delay_ms)
        (assert_topology_routes declare log succeeds recorded _
          (prefetch (int env "RABBITMQ_PREFETCH" "20") w).1)
