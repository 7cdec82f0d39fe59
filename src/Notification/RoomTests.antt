-- ===== src/Notification/RoomTests.antt =====
-- Two clients say that they are one user, and one of them leaves before a notification for him.
use nestjs_microservice_plat.Prelude.{
  ◌≡◌, refl, String, List, [], ◌∷◌, ◌++◌, Bool, false, true, not, ◌&&◌, ◌||◌, none, some, ◌==◌,
  if◌then◌else◌,
}
use nestjs_microservice_plat.Action.{ok, pure}
use nestjs_microservice_plat.Notification.{NotificationPayload, InApp, Transports, Settings}
use nestjs_microservice_plat.Notification.Service.{send}
use nestjs_microservice_plat.Notification.Rooms.{
  Rooms, Emits, Event, connected, disconnected, on_events, listen_all, in_app_content,
  notification-reaches,
}

-- Who is in which room, and what each client received.
record Hub : Type 0 where
  within : String → String → Bool
  inbox : String → List InApp

abbrev in_memory : Rooms Hub
in_memory = record {
  join = λ client name w. record {
    within = λ r c. w.within r c || name == r && client == c;
    inbox = w.inbox;
  };
  leave_all =
      λ client w. record { within = λ r c. w.within r c && not (client == c); inbox = w.inbox };
  in_room = λ w r c. w.within r c;
  join_lem = λ client name w r c. refl;
  leave_lem = λ client w r c. refl;
}

abbrev hub_transports : Transports Hub
hub_transports = record {
  send_mail = λ mail. pure tt;
  is_initialized = λ w. true;
  initialize_app = pure tt;
  send_push = λ p. pure tt;
  create_sms = λ s. pure tt;
  emit_to = λ name content w. (
    ok tt,
    record {
      within = w.within;
      inbox = λ c. if w.within name c then w.inbox c ++ content ∷ [] else w.inbox c;
    },
  );
}

abbrev hub_emits : Emits in_memory hub_transports
hub_emits = record { received = λ w. w.inbox; emit_lem = λ name content w c. refl }

abbrev hub_settings : Settings
hub_settings = record { smtp_from_email = none; twilio_phone_number = none }

abbrev nobody : Hub
nobody = record { within = λ r c. false; inbox = λ c. [] }

abbrev visit : List Event
visit =
    connected "phone" (some "ann") ∷ connected "stranger" (some "ann") ∷ disconnected "phone" ∷ []

abbrev greeting : NotificationPayload
greeting = record {
  user_id = some "ann";
  channel = "in-app";
  subject = none;
  body = some "hello";
  recipient_email = none;
  device_token = none;
  phone_number = none;
  metadata = none;
}

notification-reaches_example :
    (send hub_transports hub_settings greeting (on_events in_memory visit nobody)).1.inbox
      "stranger"
    ≡ (if listen_all visit (λ u c. false) "ann" "stranger"
        then (on_events in_memory visit nobody).inbox "stranger" ++ in_app_content greeting ∷ []
        else (on_events in_memory visit nobody).inbox "stranger")
notification-reaches_example =
    notification-reaches in_memory hub_transports hub_settings hub_emits visit (λ u c. false)
      greeting "ann" nobody (λ u c. refl) refl refl "stranger"
