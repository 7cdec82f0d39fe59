-- ===== src/Notification/Controller.antt =====
-- apps/notification-worker/src/notification.controller.ts
use nestjs_microservice_plat.Prelude.{true, false, none, some}
use nestjs_microservice_plat.Js.{Object, as_text}
use nestjs_microservice_plat.Action.{Action, try_catch, ◌>>◌}
use nestjs_microservice_plat.Rabbit.{Message, Op, ack, nack}
use nestjs_microservice_plat.Notification.{NotificationPayload, Transports, Settings}
use nestjs_microservice_plat.Notification.Service.{send}

-- What `handleUserCreated` sends.
abbrev pub welcome : Object → NotificationPayload
welcome payload = record {
  user_id = as_text (payload "userId");
  channel = "email";
  subject = some "Welcome to Our App";
  body = some "Thank you for registering!";
  recipient_email = as_text (payload "email");
  device_token = none;
  phone_number = none;
  metadata = none;
}

module _ {W : Type 0} (transports : Transports W) (settings : Settings)
    (perform : Op → Action W (Unit {0})) where
  unfoldable pub handle_notification_send : NotificationPayload → Message → Action W (Unit {0})
  unfolding send
  handle_notification_send payload m =
      try_catch (send transports settings payload >> perform (ack m))
        (λ e. perform (nack m false true))

  unfoldable pub handle_user_created : Object → Message → Action W (Unit {0})
  unfolding send
  handle_user_created payload m =
      try_catch (send transports settings (welcome payload) >> perform (ack m))
        (λ e. perform (nack m false true))
