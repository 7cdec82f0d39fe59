-- ===== src/Notification/Laws.antt =====
-- How the worker settles its deliveries, and what becomes of one that fails again and again.
use nestjs_microservice_plat.Prelude.{
  ℕ, zero, suc, ◌⊎◌, inl, inr, Option-cases, ◌≡◌, refl, sym, ap, ◌∙◌, String, List, [], ◌∷◌, ◌++◌,
  true, false, Option, none, some, arith,
}
use mathlib.Core.List.{append_assoc, append-nil}
use nestjs_microservice_plat.Errors.{Exception}
use nestjs_microservice_plat.Action.{Action, Result, ok, err, try_catch, ◌>>◌}
use nestjs_microservice_plat.Rabbit.{Message, Op, ack, nack, OpenChannel}
use nestjs_microservice_plat.Notification.{NotificationPayload, Transports, Settings}
use nestjs_microservice_plat.Notification.Service.{
  channel_of, present, NotificationChannel, email, push, sms, in_app, send,
}
use nestjs_microservice_plat.Notification.Controller.{
  handle_notification_send, handle_user_created, welcome,
}
use nestjs_microservice_plat.Js.{Object}

-- Where a notification goes to, by its channel: nowhere on an unknown channel or without an address.
abbrev pub address_on : Option NotificationChannel → NotificationPayload → Option String
address_on none payload = none
address_on (some email) payload = present payload.recipient_email
address_on (some push) payload = present payload.device_token
address_on (some sms) payload = present payload.phone_number
address_on (some in_app) payload = some "its room"

-- The one answer to a delivery: an acknowledgement, or back into the queue.
abbrev pub answer_to : Message → Result (Unit {0}) → Op
answer_to m (ok u) = ack m
answer_to m (err e) = nack m false true

-- A message that comes `n` times.
abbrev pub repeat : ℕ → Op → List Op
repeat zero op = []
repeat (suc n) op = op ∷ repeat n op

-- The events that the worker consumes, and the notification that each asks for.
pub data Event : Type 0 where
  notification_send : NotificationPayload → Event
  user_created : Object → Event

abbrev pub requested : Event → NotificationPayload
requested (notification_send payload) = payload
requested (user_created payload) = welcome payload

module _ {W : Type 0} (transports : Transports W) (settings : Settings)
    (perform : Op → Action W (Unit {0})) where
  unfoldable pub consume : Event → Message → Action W (Unit {0})
  unfolding handle_notification_send handle_user_created
  consume (notification_send payload) m =
      handle_notification_send transports settings perform payload m
  consume (user_created payload) m = handle_user_created transports settings perform payload m

  -- The world after the same message has been delivered `n` times.
  unfoldable pub deliver : ℕ → Event → Message → W → W
  unfolding consume
  deliver zero event m w = w
  deliver (suc n) event m w = deliver n event m (consume event m w).1

module _ {W : Type 0} (transports : Transports W) (settings : Settings)
    (perform : Op → Action W (Unit {0})) (log : W → List Op)
    (channel : OpenChannel perform log) where
  -- What is left of a handler when the sending has ended.
  finish : Message → Result (Unit {0}) → W → Result (Unit {0}) × W
  finish m r w = try_catch ((λ v. (r, v)) >> perform (ack m)) (λ e. perform (nack m false true)) w

  finish-answers :
      (m : Message) (r : Result (Unit {0})) (w : W)
      → ((finish m r w).0 ≡ ok tt) × (log (finish m r w).1 ≡ log w ++ answer_to m r ∷ [])
  unfolding finish
  finish-answers m (ok u) w = rw (channel.succeeds (ack m) w) (refl, channel.recorded (ack m) w)
  finish-answers m (err e) w =
      (channel.succeeds (nack m false true) w, channel.recorded (nack m false true) w)

  -- A notification with no address is dropped without an error.
  send-unaddressed :
      (payload : NotificationPayload) (w : W)
      → address_on (channel_of payload.channel) payload ≡ none
      → send transports settings payload w ≡ (ok tt, w)
  unfolding send
  send-unaddressed payload w nowhere = ground arith

  -- How one delivery ends when the sending has ended.
  finish-unaddressed :
      (payload : NotificationPayload) (m : Message) (w : W)
      → let sent = send transports settings payload w in
        ((address_on (channel_of payload.channel) payload ≡ none)
          × ((finish m sent.0 sent.1).1 ≡ (perform (ack m) w).1))
        ⊎ ((a : String) × (address_on (channel_of payload.channel) payload ≡ some a))
  unfolding finish
  finish-unaddressed payload m w =
      elim (Option-cases (address_on (channel_of payload.channel) payload)) [
        | inr (a, known) ↦ inr (a, known)
        | inl nowhere ↦
            inl (nowhere, rw (send-unaddressed payload w nowhere, channel.succeeds (ack m) w) refl)
      ]

  -- On an open channel, where the transports leave the deliveries alone, each handler of the
  -- notification worker returns without an error and answers the delivery once: it acknowledges it
  -- if the notification was sent and puts it back into the queue if the sending failed; for a
  -- notification on an unknown channel, or without an address for its channel, the acknowledgement
  -- is all that happens.
  pub consume-answers :
      (event : Event) (m : Message) (w : W)
      → log (send transports settings (requested event) w).1 ≡ log w
      → let (r, w') = consume transports settings perform event m w in
        (r ≡ ok tt)
        × (log w' ≡ log w ++ answer_to m (send transports settings (requested event) w).0 ∷ [])
        × (((address_on (channel_of (requested event).channel) (requested event) ≡ none)
              × (w' ≡ (perform (ack m) w).1))
            ⊎ ((a : String) × (address_on (channel_of (requested event).channel) (requested event)
                  ≡ some a)))
  unfolding consume handle_notification_send handle_user_created finish
  consume-answers (notification_send payload) m w quiet =
      let sent = send transports settings payload w in
      let (ended, logged) = finish-answers m sent.0 sent.1 in
      (ended, logged ∙ ap (λ l. l ++ answer_to m sent.0 ∷ []) quiet, finish-unaddressed payload m w)
  consume-answers (user_created payload) m w quiet =
      let sent = send transports settings (welcome payload) w in
      let (ended, logged) = finish-answers m sent.0 sent.1 in
      (
        ended,
        logged ∙ ap (λ l. l ++ answer_to m sent.0 ∷ []) quiet,
        finish-unaddressed (welcome payload) m w,
      )

  -- On an open channel, where the transports leave the deliveries alone: a notification whose
  -- sending fails every time is put back into the queue by each of its deliveries, however many
  -- there are, and none acknowledges or dead-letters it.
  pub poison_never_leaves :
      (n : ℕ) (event : Event) (m : Message) (w : W)
      → ((v : W) → log (send transports settings (requested event) v).1 ≡ log v)
      → ((v : W) → (e : Exception) × ((send transports settings (requested event) v).0 ≡ err e))
      → log (deliver transports settings perform n event m w)
        ≡ log w ++ repeat n (nack m false true)
  unfolding deliver
  poison_never_leaves zero event m w quiet fails = sym (append-nil (log w))
  poison_never_leaves (suc n) event m w quiet fails =
      let (_, answered, _) = consume-answers event m w (quiet w) in
      let (e, failed) = fails w in
      let rest =
        poison_never_leaves n event m (consume transports settings perform event m w).1 quiet
          fails in
      rest
      ∙ ap (λ l. l ++ repeat n (nack m false true))
          (answered ∙ ap (λ x. log w ++ answer_to m x ∷ []) failed)
      ∙ append_assoc (log w) (nack m false true ∷ []) (repeat n (nack m false true))
