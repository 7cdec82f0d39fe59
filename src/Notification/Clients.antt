-- ===== src/Notification/Clients.antt =====
-- What the strategies of apps/notification-worker/src/notification.service.ts make their clients
-- with, and the map of the strategies. `none` is `NaN` where a number is read.
use nestjs_microservice_plat.Prelude.{
  ℤ, ◌≡◌, refl, String, List, [], ◌∷◌, Bool, false, Option, none, some, ◌==◌, if◌then◌else◌,
}
use nestjs_microservice_plat.Js.{default}
use nestjs_microservice_plat.Rabbit.Module.{ConfigService}
use nestjs_microservice_plat.Deployment.{int_at}
use nestjs_microservice_plat.Notification.Service.{
  NotificationChannel, email, push, sms, in_app, channel_of,
}

-- the options of `nodemailer.createTransport` in the constructor of `EmailStrategy`
pub record MailTransport : Type 0 where
  pub host : String
  pub port : Option ℤ
  pub secure : Bool
  pub user : Option String
  pub pass : Option String

unfoldable pub mail_transport : ConfigService → MailTransport
mail_transport config = record {
  host = default (config.text_at "SMTP_HOST") "smtp.gmail.com";
  port = int_at config "SMTP_PORT" "587";
  secure = false;
  user = config.text_at "SMTP_USER";
  pass = config.text_at "SMTP_PASSWORD";
}

-- the arguments of `Twilio` in the constructor of `SmsStrategy`
pub record TwilioClient : Type 0 where
  pub account_sid : Option String
  pub auth_token : Option String

unfoldable pub twilio_client : ConfigService → TwilioClient
twilio_client config = record {
  account_sid = config.text_at "TWILIO_ACCOUNT_SID";
  auth_token = config.text_at "TWILIO_AUTH_TOKEN";
}

abbrev pub channel_text : NotificationChannel → String
channel_text email = "email"
channel_text push = "push"
channel_text sms = "sms"
channel_text in_app = "in-app"

-- the entries of the map in the constructor of `NotificationService`
abbrev pub strategies : List NotificationChannel
strategies = email ∷ push ∷ sms ∷ in_app ∷ []

-- `strategies.get(name)`
abbrev pub strategy_named : String → List NotificationChannel → Option NotificationChannel
strategy_named name [] = none
strategy_named name (channel ∷ rest) =
    if name == channel_text channel then some channel else strategy_named name rest

-- Every text finds the strategy that `send` looks up, and every channel has its own.
strategy_named-channel_of : (name : String) → strategy_named name strategies ≡ channel_of name
strategy_named-channel_of name = refl

channel_of-text : (channel : NotificationChannel) → channel_of (channel_text channel) ≡ some channel
channel_of-text email = refl
channel_of-text push = refl
channel_of-text sms = refl
channel_of-text in_app = refl
