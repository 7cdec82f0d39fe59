-- ===== src/Notification.antt =====
-- apps/notification-worker: the channels that a notification may go through, the service and the
-- consumer. nodemailer, firebase-admin, Twilio and socket.io are a record of calls; log lines are
-- left out.
pub mod Service
pub mod Controller
pub mod Clients
pub mod Rooms
pub mod RoomTests
pub mod Laws
pub mod Tests
use nestjs_microservice_plat.Prelude.{String, Bool, Option}
use nestjs_microservice_plat.Js.{Value}
use nestjs_microservice_plat.Action.{Action}

pub record NotificationPayload : Type 0 where
  pub user_id : Option String
  pub channel : String
  pub subject : Option String
  pub body : Option String
  pub recipient_email : Option String
  pub device_token : Option String
  pub phone_number : Option String
  pub metadata : Option Value

-- `sendMail`, with the sender, the recipient, the subject and the text
pub record Mail : Type 0 where
  pub from : String
  pub to : String
  pub subject : String
  pub content : Option String

-- `messaging().send`
pub record Push : Type 0 where
  pub token : String
  pub title : String
  pub body : Option String

-- `messages.create`
pub record Sms : Type 0 where
  pub body : Option String
  pub from : Option String
  pub to : String

-- the data of the event 'notification'
pub record InApp : Type 0 where
  pub subject : Option String
  pub body : Option String
  pub metadata : Option Value

pub record Transports (W : Type 0) : Type 0 where
  pub send_mail : Mail → Action W (Unit {0})
  pub is_initialized : W → Bool
  pub initialize_app : Action W (Unit {0})
  pub send_push : Push → Action W (Unit {0})
  pub create_sms : Sms → Action W (Unit {0})
  pub emit_to : String → InApp → Action W (Unit {0})

-- What the strategies read of `process.env`.
pub record Settings : Type 0 where
  pub smtp_from_email : Option String
  pub twilio_phone_number : Option String
