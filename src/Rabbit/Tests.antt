-- ===== src/Rabbit/Tests.antt =====
-- The consumer on a channel that records its calls.
use nestjs_microservice_plat.Prelude.{
  ℕ, ◌≡◌, refl, ◌⊎◌, ◌<◌, ℤ, pos, String, List, [], ◌∷◌, ◌++◌, true, Option, none, some, All, Any,
  ◌==◌, if◌then◌else◌,
}
use nestjs_microservice_plat.Js.{num, put, empty}
use nestjs_microservice_plat.Errors.{error}
use nestjs_microservice_plat.Action.{ok, err, Action, throw, pure}
use nestjs_microservice_plat.Rabbit.{Message, Op, OpenChannel}
use nestjs_microservice_plat.Rabbit.Consumer.{retry_of, consume_with_retry}
use nestjs_microservice_plat.Rabbit.Settlement.{Settled, consume_with_retry-Settled}
use nestjs_microservice_plat.Rabbit.Retries.{
  HasAttempt, SameEvent, Redeliveries, stay, again, Redeliveries-bounded, Redeliveries-end,
}
use nestjs_microservice_plat.Config.{Env}
use nestjs_microservice_plat.Config.Numbers.{parse_int, digit_of}
use nestjs_microservice_plat.Config.Configuration.{configuration_factory, rabbitmq_section, text}
use nestjs_microservice_plat.Rabbit.Module.{ConfigService, Reads, setup, setup_of_env}
use nestjs_microservice_plat.Rabbit.Topology.{
  TopologyConfig, Declaration, bind_queue, well_ordered, DeadLetters,
}

-- A channel, or a list of declarations, that takes everything and keeps it in order.
abbrev record_call : {A : Type 0} → A → Action (List A) (Unit {0})
record_call a w = (ok tt, w ++ a ∷ [])

abbrev no_numbers : String → Option ℤ
no_numbers s = none

abbrev same_log : {A : Type 0} → List A → List A
same_log w = w

abbrev channel : OpenChannel record_call same_log
channel = record { succeeds = λ op w. refl; recorded = λ op w. refl }

-- The message of attempt number `n`.
abbrev attempt : ℤ → Message
attempt n = record {
  exchange = "events";
  routing_key = "user.created";
  content = "{}";
  properties = record {
    content_type = some "application/json";
    persistent = true;
    message_id = some "m1";
    correlation_id = none;
    headers = put "x-attempt" (num n) empty;
    expiration = none;
  };
}

abbrev failing : Unit {0} → Action (List Op) (Unit {0})
failing payload = throw (error "smtp down")

consume_with_retry-Settled_example :
    let (r, w') = consume_with_retry record_call no_numbers failing 3 (attempt (pos 1)) tt [] in
    (ops : List Op) × (w' ≡ [] ++ ops)
    × Settled
        (attempt (pos 1))
        (err (error "smtp down"))
        (retry_of no_numbers 3 (attempt (pos 1)))
        ops
        r
consume_with_retry-Settled_example =
    consume_with_retry-Settled record_call same_log channel no_numbers failing 3 (attempt (pos 1))
      tt [] refl

-- The message of the next attempt, with the header set anew.
abbrev after : Message → ℤ → Message
after m n = record m {
  properties = record m.properties { headers = put "x-attempt" (num n) m.properties.headers };
}

Redeliveries-bounded_example :
    HasAttempt (after (attempt (pos 1)) (pos 2)) 2
    × ((◌≡◌ {A = ℕ} 1 0) ⊎ (2 < 3))
    × SameEvent (attempt (pos 1)) (after (attempt (pos 1)) (pos 2))
unfolding retry_of
Redeliveries-bounded_example =
    Redeliveries-bounded no_numbers 3 {m = attempt (pos 1)} {last = after (attempt (pos 1)) (pos 2)}
      1 refl (again refl stay)

Redeliveries-end_example :
    (last : Message) × Redeliveries no_numbers 3 1 (attempt (pos 1)) last
    × (retry_of no_numbers 3 last ≡ none)
    × HasAttempt last 2
Redeliveries-end_example = Redeliveries-end no_numbers 3 1 (attempt (pos 1)) 1 refl refl

abbrev topology : TopologyConfig
topology = record {
  exchange = "events";
  dlx = "events.dlx";
  dlq = "events.dlq";
  queues = record { name = "email"; routing_key = "email.send" } ∷ [];
  retry_delay_ms = some (pos 5000);
}

abbrev service : ConfigService
service = record {
  text_at = λ path.
      if path == "rabbitmq.exchange"
      then some "app.events"
      else if path == "rabbitmq.dlx"
      then some "app.dlx"
      else if path == "rabbitmq.dlq"
      then some "app.dlq"
      else none;
  number_at =
      λ path. if path == "rabbitmq.prefetch" then some (some (pos 20)) else some (some (pos 10000));
}

abbrev no_env : Env
no_env name = none

abbrev prefetch : Option ℤ → Action (List Declaration) (Unit {0})
prefetch n = pure tt

service-Reads : Reads service (configuration_factory no_env)
unfolding configuration_factory rabbitmq_section text parse_int digit_of
service-Reads = record {
  exchange = refl;
  dlx = refl;
  dlq = refl;
  prefetch = refl;
  retry_delay_ms = refl;
}

setup_of_env_example :
    let (r, w') = setup prefetch record_call service topology.queues [] in
    (r ≡ ok tt)
    × ((ds : List Declaration) × (w' ≡ [] ++ ds)
        × (well_ordered [] [] ds ≡ true)
        × All (DeadLetters (text no_env "RABBITMQ_DLX" "app.dlx") ds) topology.queues
        × Any
            (λ d.
              d
              ≡ bind_queue
                  (text no_env "RABBITMQ_DLQ" "app.dlq")
                  (text no_env "RABBITMQ_DLX" "app.dlx")
                  "#")
            ds)
setup_of_env_example =
    setup_of_env prefetch record_call same_log (λ d w. refl) (λ d w. refl) (λ n w. refl) service
      no_env topology.queues [] service-Reads
