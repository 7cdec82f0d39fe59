-- ===== src/Rabbit/Topology.antt =====
-- libs/rabbitmq/src/topology.ts: the declarations that a channel makes, in order.
use nestjs_microservice_plat.Prelude.{
  ℤ, ◌≡◌, refl, sym, ap, ◌∙◌, inl, inr, String, List, [], ◌∷◌, ◌++◌, Bool, true, ◌&&◌, Option, none,
  some, arith, eq_refl, All, All-map, Any, includes,
}
use mathlib.Core.List.{append-nil, append_assoc}
use nestjs_microservice_plat.Action.{Action, ok, pure, ◌>>◌}

pub record QueueConfig : Type 0 where
  pub name : String
  pub routing_key : String

pub record TopologyConfig : Type 0 where
  pub exchange : String
  pub dlx : String
  pub dlq : String
  pub queues : List QueueConfig
  pub retry_delay_ms : Option ℤ

-- The arguments `x-dead-letter-exchange` and `x-dead-letter-routing-key` of a queue.
pub record DeadLetter : Type 0 where
  pub exchange : String
  pub routing_key : String

-- The calls of the channel; every exchange is a durable topic exchange, every queue durable.
pub data Declaration : Type 0 where
  assert_exchange : String → Declaration
  assert_queue : String → Option DeadLetter → Declaration
  bind_queue : String → String → String → Declaration

module _ {W : Type 0} (declare : Declaration → Action W (Unit {0})) where
  -- the loop over `config.queues`
  unfoldable pub assert_queues : String → String → List QueueConfig → Action W (Unit {0})
  assert_queues exchange dlx [] = pure tt
  assert_queues exchange dlx (q ∷ qs) =
      declare (assert_queue q.name (some (record { exchange = dlx; routing_key = q.routing_key })))
      >> declare (bind_queue q.name exchange q.routing_key)
      >> assert_queues exchange dlx qs

  unfoldable pub assert_topology : TopologyConfig → Action W (Unit {0})
  unfolding assert_queues
  assert_topology config =
      declare (assert_exchange config.exchange)
      >> declare (assert_exchange config.dlx)
      >> declare (assert_queue config.dlq none)
      >> declare (bind_queue config.dlq config.dlx "#")
      >> assert_queues config.exchange config.dlx config.queues

-- What the loop declares.
abbrev queue_declarations : String → String → List QueueConfig → List Declaration
queue_declarations exchange dlx [] = []
queue_declarations exchange dlx (q ∷ qs) =
    assert_queue q.name (some (record { exchange = dlx; routing_key = q.routing_key }))
    ∷ bind_queue q.name exchange q.routing_key
    ∷ queue_declarations exchange dlx qs

abbrev declarations : TopologyConfig → List Declaration
declarations config =
    assert_exchange config.exchange
    ∷ assert_exchange config.dlx
    ∷ assert_queue config.dlq none
    ∷ bind_queue config.dlq config.dlx "#"
    ∷ queue_declarations config.exchange config.dlx config.queues

abbrev dead_letter_known : List String → Option DeadLetter → Bool
dead_letter_known exchanges none = true
dead_letter_known exchanges (some d) = includes exchanges d.exchange

-- Nothing is named before it is declared: a binding's queue and exchange, and a queue's dead-letter
-- exchange, stand further up.
abbrev pub well_ordered : List String → List String → List Declaration → Bool
well_ordered queues exchanges [] = true
well_ordered queues exchanges (assert_exchange e ∷ ds) = well_ordered queues (e ∷ exchanges) ds
well_ordered queues exchanges (assert_queue q d ∷ ds) =
    dead_letter_known exchanges d && well_ordered (q ∷ queues) exchanges ds
well_ordered queues exchanges (bind_queue q e key ∷ ds) =
    includes queues q && includes exchanges e && well_ordered queues exchanges ds

queues-well_ordered :
    (exchange dlx : String) (qs : List QueueConfig) (queues exchanges : List String)
    → includes exchanges exchange ≡ true
    → includes exchanges dlx ≡ true
    → well_ordered queues exchanges (queue_declarations exchange dlx qs) ≡ true
queues-well_ordered exchange dlx [] queues exchanges h k = refl
queues-well_ordered exchange dlx (q ∷ qs) queues exchanges h k =
    rw (h, k, eq_refl q.name) (queues-well_ordered exchange dlx qs (q.name ∷ queues) exchanges h k)

declarations-well_ordered :
    (config : TopologyConfig) → well_ordered [] [] (declarations config) ≡ true
declarations-well_ordered config = ground (
  arith,
  eq_refl config.dlx,
  eq_refl config.dlq,
  eq_refl config.exchange,
  queues-well_ordered config.exchange config.dlx config.queues (config.dlq ∷ [])
      (config.dlx ∷ config.exchange ∷ []),
)

-- The queue is declared with the dead-letter exchange `dlx` and its own routing key.
abbrev pub DeadLetters : String → List Declaration → QueueConfig → Type 0
DeadLetters dlx ds q =
    Any
      (λ d. d ≡ assert_queue q.name (some (record { exchange = dlx; routing_key = q.routing_key })))
      ds

queues-DeadLetters :
    (exchange dlx : String) (qs : List QueueConfig)
    → All (DeadLetters dlx (queue_declarations exchange dlx qs)) qs
queues-DeadLetters exchange dlx [] = tt
queues-DeadLetters exchange dlx (q ∷ qs) = (
  inl refl,
  All-map (DeadLetters dlx (queue_declarations exchange dlx qs)) _ (λ x h. inr (inr h)) qs
      (queues-DeadLetters exchange dlx qs),
)

module _ {W : Type 0} (declare : Declaration → Action W (Unit {0})) (log : W → List Declaration)
    (succeeds : (d : Declaration) (w : W) → (declare d w).0 ≡ ok tt)
    (recorded : (d : Declaration) (w : W) → log (declare d w).1 ≡ log w ++ d ∷ []) where
  two : (d e : Declaration) (w : W) → log (declare e (declare d w).1).1 ≡ log w ++ d ∷ e ∷ []
  two d e w =
      recorded e (declare d w).1
      ∙ ap (λ l. l ++ e ∷ []) (recorded d w)
      ∙ append_assoc (log w) (d ∷ []) (e ∷ [])

  assert_queues-log :
      (exchange dlx : String) (qs : List QueueConfig) (w : W)
      → let (r, w') = assert_queues declare exchange dlx qs w in
        (r ≡ ok tt) × (log w' ≡ log w ++ queue_declarations exchange dlx qs)
  unfolding assert_queues
  assert_queues-log exchange dlx [] w = (refl, sym (append-nil (log w)))
  assert_queues-log exchange dlx (q ∷ qs) w =
      let letters : DeadLetter = record { exchange = dlx; routing_key = q.routing_key } in
      let queue = assert_queue q.name (some letters) in
      let binding = bind_queue q.name exchange q.routing_key in
      let w1 = (declare queue w).1 in
      let w2 = (declare binding w1).1 in
      let (ended, logged) = assert_queues-log exchange dlx qs w2 in
      rw (succeeds queue w, succeeds binding w1)
        (
          ended,
          logged
              ∙ ap (λ l. l ++ queue_declarations exchange dlx qs) (two queue binding w)
              ∙ append_assoc (log w) (queue ∷ binding ∷ []) (queue_declarations exchange dlx qs),
        )

  -- On a channel that takes every declaration, assertTopology succeeds, declares nothing before
  -- what it names, sends the dead letters of every configured queue to the dead-letter exchange
  -- and binds the dead-letter queue there for every routing key.
  pub assert_topology_routes :
      (config : TopologyConfig) (w : W)
      → let (r, w') = assert_topology declare config w in
        (r ≡ ok tt)
        × ((ds : List Declaration) × (log w' ≡ log w ++ ds)
            × (well_ordered [] [] ds ≡ true)
            × All (DeadLetters config.dlx ds) config.queues
            × Any (λ d. d ≡ bind_queue config.dlq config.dlx "#") ds)
  unfolding assert_topology
  assert_topology_routes config w =
      let d1 = assert_exchange config.exchange in
      let d2 = assert_exchange config.dlx in
      let d3 = assert_queue config.dlq none in
      let d4 = bind_queue config.dlq config.dlx "#" in
      let rest = queue_declarations config.exchange config.dlx config.queues in
      let w2 = (declare d2 (declare d1 w).1).1 in
      let w4 = (declare d4 (declare d3 w2).1).1 in
      let (ended, logged) = assert_queues-log config.exchange config.dlx config.queues w4 in
      let all_logged : log w4 ≡ log w ++ d1 ∷ d2 ∷ d3 ∷ d4 ∷ [] =
        two d3 d4 w2
        ∙ ap (λ l. l ++ d3 ∷ d4 ∷ []) (two d1 d2 w)
        ∙ append_assoc (log w) (d1 ∷ d2 ∷ []) (d3 ∷ d4 ∷ []) in
      rw
        (succeeds d1 w, succeeds d2 (declare d1 w).1, succeeds d3 w2, succeeds d4 (declare d3 w2).1)
        (
          ended,
          (
            declarations config,
            logged
                ∙ ap (λ l. l ++ rest) all_logged
                ∙ append_assoc (log w) (d1 ∷ d2 ∷ d3 ∷ d4 ∷ []) rest,
            declarations-well_ordered config,
            All-map (DeadLetters config.dlx rest) _ (λ x h. inr (inr (inr (inr h)))) config.queues
                (queues-DeadLetters config.exchange config.dlx config.queues),
            inr (inr (inr (inl refl))),
          ),
        )
