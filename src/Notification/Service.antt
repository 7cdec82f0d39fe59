-- ===== src/Notification/Service.antt =====
-- apps/notification-worker/src/notification.service.ts, and `sendToUser` and `handleConnection` of
-- notification.gateway.ts.
use Prim.Native.String
use nestjs_microservice_plat.Prelude.{String, Option, none, some, ◌==◌, if◌then◌else◌}
use nestjs_microservice_plat.Js.{or_text, default}
use nestjs_microservice_plat.Action.{Action, pure, throw, try_catch, ◌>>◌}
use nestjs_microservice_plat.Notification.{NotificationPayload, InApp, Transports, Settings}

-- `NotificationChannel`
pub data NotificationChannel : Type 0 where
  email push sms in_app : NotificationChannel

-- `this.strategies.get(channel)`, by the keys of the map
abbrev pub channel_of : String → Option NotificationChannel
channel_of name =
    if name == "email"
    then some email
    else if name == "push"
    then some push
    else if name == "sms"
    then some sms
    else if name == "in-app"
    then some in_app
    else none

-- a text that is there and not empty
abbrev pub present : Option String → Option String
present none = none
present (some s) = if s == "" then none else some s

-- the room of a user
abbrev pub room : String → String
room user_id = String.◌++◌ "user:" user_id

module _ {W : Type 0} (transports : Transports W) (settings : Settings) where
  -- `EmailStrategy.send`
  unfoldable pub send_email : NotificationPayload → Action W (Unit {0})
  send_email payload = elim (present payload.recipient_email) [
    | none ↦ pure tt
    | some recipient ↦
        try_catch
          (transports.send_mail (record {
            from = or_text settings.smtp_from_email "noreply@app.com";
            to = recipient;
            subject = or_text payload.subject "Notification";
            content = payload.body;
          }))
          throw
  ]

  -- `if (!admin.apps.length) admin.initializeApp(…)`
  abbrev pub initialize_once : Action W (Unit {0})
  initialize_once w = if transports.is_initialized w then pure tt w else transports.initialize_app w

  -- `PushStrategy.send`
  unfoldable pub send_push : NotificationPayload → Action W (Unit {0})
  send_push payload = elim (present payload.device_token) [
    | none ↦ pure tt
    | some token ↦
        try_catch
          (initialize_once
            >> transports.send_push (record {
              token = token;
              title = or_text payload.subject "Notification";
              body = payload.body;
            }))
          throw
  ]

  -- `SmsStrategy.send`
  unfoldable pub send_sms : NotificationPayload → Action W (Unit {0})
  send_sms payload = elim (present payload.phone_number) [
    | none ↦ pure tt
    | some number ↦
        try_catch
          (transports.create_sms
            (record { body = payload.body; from = settings.twilio_phone_number; to = number }))
          throw
  ]

  -- `NotificationGateway.sendToUser`
  unfoldable pub send_to_user : Option String → InApp → Action W (Unit {0})
  send_to_user user_id content = transports.emit_to (room (default user_id "undefined")) content

  -- `InAppStrategy.send`
  unfoldable pub send_in_app : NotificationPayload → Action W (Unit {0})
  unfolding send_to_user
  send_in_app payload =
      try_catch
        (send_to_user payload.user_id
          (record { subject = payload.subject; body = payload.body; metadata = payload.metadata }))
        throw

  abbrev pub strategy : NotificationChannel → NotificationPayload → Action W (Unit {0})
  strategy email payload = send_email payload
  strategy push payload = send_push payload
  strategy sms payload = send_sms payload
  strategy in_app payload = send_in_app payload

  -- `NotificationService.send`
  unfoldable pub send : NotificationPayload → Action W (Unit {0})
  unfolding send_email send_push send_sms send_in_app
  send payload = elim (channel_of payload.channel) [
    | none ↦ pure tt
    | some channel ↦ try_catch (strategy channel payload) throw
  ]

-- `NotificationGateway.handleConnection`, by what the client says its user is
unfoldable pub handle_connection :
    {W : Type 0} → (String → Action W (Unit {0})) → Option String → Action W (Unit {0})
handle_connection join user_id = elim (present user_id) [
  | none ↦ pure tt
  | some id ↦ join (room id)
]
