-- ===== src/Notification/Tests.antt =====
-- The worker over transports that fail and a channel that records its calls.
use nestjs_microservice_plat.Prelude.{
  ◌≡◌, refl, ◌⊎◌, String, some, List, [], ◌∷◌, ◌++◌, true, false, none,
}
use nestjs_microservice_plat.Js.{str, put, empty}
use nestjs_microservice_plat.Errors.{error}
use nestjs_microservice_plat.Action.{ok, Action, throw}
use nestjs_microservice_plat.Rabbit.{Message, Op, ack, nack, OpenChannel}
use nestjs_microservice_plat.Notification.{Transports, Settings}
use nestjs_microservice_plat.Notification.Service.{channel_of, send}
use nestjs_microservice_plat.Notification.Laws.{
  Event, user_created, requested, consume, deliver, repeat, answer_to, address_on, consume-answers,
  poison_never_leaves,
}

abbrev Log : Type 0
Log = List Op

abbrev record_op : Op → Action Log (Unit {0})
record_op op w = (ok tt, w ++ op ∷ [])

abbrev same_log : Log → List Op
same_log w = w

abbrev channel : OpenChannel record_op same_log
channel = record { succeeds = λ op w. refl; recorded = λ op w. refl }

abbrev down : Action Log (Unit {0})
down = throw (error "connection refused")

abbrev transports : Transports Log
transports = record {
  send_mail = λ mail. down;
  is_initialized = λ w. true;
  initialize_app = down;
  send_push = λ p. down;
  create_sms = λ s. down;
  emit_to = λ r content. down;
}

abbrev settings : Settings
settings = record { smtp_from_email = none; twilio_phone_number = none }

abbrev message : Message
message = record {
  exchange = "";
  routing_key = "notification.queue";
  content = "{}";
  properties = record {
    content_type = none;
    persistent = true;
    message_id = none;
    correlation_id = none;
    headers = empty;
    expiration = none;
  };
}

abbrev ann_joined : Event
ann_joined = user_created (put "userId" (str "u1") (put "email" (str "ann@x.org") empty))

consume-answers_example :
    let (r, w') = consume transports settings record_op ann_joined message [] in
    (r ≡ ok tt)
    × (w' ≡ [] ++ answer_to message (send transports settings (requested ann_joined) []).0 ∷ [])
    × (((address_on (channel_of "email") (requested ann_joined) ≡ none)
          × (w' ≡ (record_op (ack message) []).1))
        ⊎ ((a : String) × (address_on (channel_of "email") (requested ann_joined) ≡ some a)))
unfolding send
consume-answers_example =
    consume-answers transports settings record_op same_log channel ann_joined message [] refl

poison_never_leaves_example :
    deliver transports settings record_op 3 ann_joined message []
    ≡ [] ++ repeat 3 (nack message false true)
unfolding send
poison_never_leaves_example =
    poison_never_leaves transports settings record_op same_log channel 3 ann_joined message []
      (λ v. refl) (λ v. (error "connection refused", refl))
