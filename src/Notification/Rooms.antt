-- ===== src/Notification/Rooms.antt =====
-- The rooms of apps/notification-worker/src/notification.gateway.ts: which clients a notification for
-- a user reaches. The rooms themselves are kept by socket.io, which is a record of laws.
use nestjs_microservice_plat.Prelude.{
  ◌≡◌, refl, ◌∙◌, ap, ◌++◌, if◌then◌else◌, String, List, [], ◌∷◌, Bool, not, ◌&&◌, ◌||◌, Option,
  none, some, ◌==◌, arith, inl, inr, Bool-cases,
}
use nestjs_microservice_plat.Prelude.Texts.{prefix-eq}
use nestjs_microservice_plat.Action.{ok, Result-cases}
use nestjs_microservice_plat.Notification.{NotificationPayload, InApp, Transports, Settings}
use nestjs_microservice_plat.Notification.Service.{
  room, in_app, channel_of, handle_connection, send, send_in_app, send_to_user,
}

-- What socket.io does: a client joins a room, and a client that disconnects leaves all of its rooms.
pub record Rooms (W : Type 0) : Type 0 where
  pub join : String → String → W → W
  pub leave_all : String → W → W
  pub in_room : W → String → String → Bool
  pub join_lem :
      (client name : String) (w : W) (r c : String)
      → in_room (join client name w) r c ≡ (in_room w r c || name == r && client == c)
  pub leave_lem :
      (client : String) (w : W) (r c : String)
      → in_room (leave_all client w) r c ≡ (in_room w r c && not (client == c))

-- What the clients have received: `to(room).emit` reaches the clients that are in the room.
pub record Emits {W : Type 0} (rooms : Rooms W) (transports : Transports W) : Type 0 where
  pub received : W → String → List InApp
  pub emit_lem :
      (name : String) (content : InApp) (w : W) (c : String)
      → received (transports.emit_to name content w).1 c
        ≡ (if rooms.in_room w name c then received w c ++ content ∷ [] else received w c)

-- What happens at the gateway: a client connects and says which user it is, or disconnects.
pub data Event : Type 0 where
  connected : String → Option String → Event
  disconnected : String → Event

module _ {W : Type 0} (rooms : Rooms W) where
  -- `handleConnection`; `handleDisconnect` only writes a line, when socket.io has left the rooms.
  unfoldable pub on_event : Event → W → W
  on_event (connected client user_id) w =
      (handle_connection (λ name w'. (ok tt, rooms.join client name w')) user_id w).1
  on_event (disconnected client) w = rooms.leave_all client w

  unfoldable pub on_events : List Event → W → W
  unfolding on_event
  on_events [] w = w
  on_events (e ∷ es) w = on_events es (on_event e w)

-- Who listens for whom: the users, each with the clients that said to be this user.
abbrev pub Listeners : Type 0
Listeners = String → String → Bool

abbrev pub listen : Event → Listeners → Listeners
listen (connected client none) of_user u c = of_user u c
listen (connected client (some user_id)) of_user u c =
    of_user u c || not (user_id == "") && (user_id == u && client == c)
listen (disconnected client) of_user u c = of_user u c && not (client == c)

abbrev pub listen_all : List Event → Listeners → Listeners
listen_all [] of_user = of_user
listen_all (e ∷ es) of_user = listen_all es (listen e of_user)

-- What a notification in the application says.
abbrev pub in_app_content : NotificationPayload → InApp
in_app_content payload = record {
  subject = payload.subject;
  body = payload.body;
  metadata = payload.metadata;
}

module _ {W : Type 0} (rooms : Rooms W) where
  on_event-listen :
      (e : Event) (of_user : Listeners) (w : W)
      → ((u c : String) → rooms.in_room w (room u) c ≡ of_user u c)
      → (u c : String) → rooms.in_room (on_event rooms e w) (room u) c ≡ listen e of_user u c
  unfolding on_event handle_connection
  on_event-listen (connected client none) of_user w same u c = same u c
  on_event-listen (connected client (some user_id)) of_user w same u c =
      elim (Bool-cases (user_id == "")) [
        | inl empty ↦ rw empty (ground (arith, same u c))
        | inr named ↦
            let joined : on_event rooms (connected client (some user_id)) w
                ≡ rooms.join client (room user_id) w =
              rw (on_event, handle_connection, named) refl in
            rw
              (
                named,
                joined,
                rooms.join_lem client (room user_id) w (room u) c,
                same u c,
                prefix-eq "user:" user_id u,
              )
              refl
      ]
  on_event-listen (disconnected client) of_user w same u c =
      rooms.leave_lem client w (room u) c ∙ rw (same u c) refl

  -- After any sequence of events the room of a user holds those who listen for him, provided that it
  -- did so before.
  pub on_events-listen :
      (es : List Event) (of_user : Listeners) (w : W)
      → ((u c : String) → rooms.in_room w (room u) c ≡ of_user u c)
      → (u c : String) → rooms.in_room (on_events rooms es w) (room u) c ≡ listen_all es of_user u c
  unfolding on_events
  on_events-listen [] of_user w same u c = same u c
  on_events-listen (e ∷ es) of_user w same u c =
      on_events-listen es (listen e of_user) (on_event rooms e w) (on_event-listen e of_user w same)
        u c

  -- What `send` does with a notification on the channel "in-app".
  send-in_app :
      (transports : Transports W) (settings : Settings) (payload : NotificationPayload) (u : String)
      (w : W)
      → payload.channel ≡ "in-app"
      → payload.user_id ≡ some u
      → (send transports settings payload w).1
        ≡ (transports.emit_to (room u) (in_app_content payload) w).1
  unfolding send send_in_app send_to_user
  send-in_app transports settings payload u w channel user =
      let which : channel_of payload.channel ≡ some in_app = rw channel refl in
      elim (Result-cases (transports.emit_to (room u) (in_app_content payload) w).0) [
        | inl (v, done) ↦ rw (which, send, send_in_app, send_to_user, user, done) refl
        | inr (e, failed) ↦ rw (which, send, send_in_app, send_to_user, user, failed) refl
      ]

  -- Where socket.io keeps the rooms and emits to the clients of a room: a notification on the
  -- channel "in-app" for a user is received, with its subject, body and metadata, by exactly the
  -- clients that said to be this user when they connected and have not disconnected since, after
  -- any sequence of events, provided that the rooms agreed with that before.
  pub notification-reaches :
      (transports : Transports W) (settings : Settings) (emits : Emits rooms transports)
      (es : List Event) (of_user : Listeners) (payload : NotificationPayload) (u : String) (w : W)
      → ((v c : String) → rooms.in_room w (room v) c ≡ of_user v c)
      → payload.channel ≡ "in-app"
      → payload.user_id ≡ some u
      → (c : String)
      → emits.received (send transports settings payload (on_events rooms es w)).1 c ≡ (
          if listen_all es of_user u c
          then emits.received (on_events rooms es w) c ++ in_app_content payload ∷ []
          else emits.received (on_events rooms es w) c)
  notification-reaches transports settings emits es of_user payload u w same channel user c =
      ap (λ v. emits.received v c)
        (send-in_app transports settings payload u (on_events rooms es w) channel user)
      ∙ emits.emit_lem (room u) (in_app_content payload) (on_events rooms es w) c
      ∙ rw (on_events-listen es of_user w same u c) refl
