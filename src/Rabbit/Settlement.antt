-- ===== src/Rabbit/Settlement.antt =====
-- Each delivery is settled once: the consumer acknowledges it or rejects it, on every path.
use nestjs_microservice_plat.Prelude.{
  ℕ, ℤ, ◌≡◌, refl, ◌⊎◌, inl, inr, sym, String, false, List, [], ◌∷◌, ◌++◌, Option, none, some, ◌∙◌,
  ap,
}
use mathlib.Core.List.{append_assoc, append-nil}
use nestjs_microservice_plat.Errors.{Exception, thrown}
use nestjs_microservice_plat.Js.{null}
use nestjs_microservice_plat.Action.{Action, Result, ok, err, try_catch, ◌>>◌}
use nestjs_microservice_plat.Rabbit.{Message, Op, ack, nack, publish, OpenChannel}
use nestjs_microservice_plat.Rabbit.Consumer.{
  retry_of, consume_with_retry, give_up_or_retry, read_message, unreadable,
}

-- An exception whose message can be read: all but `null`, which stands for `undefined` too.
abbrev pub HasMessage : Exception → Type 0
HasMessage (thrown null) = ⊥
HasMessage e = Unit {0}

-- What the channel is told about one delivery, by how the handler ended and by whether an attempt
-- is left, and how the consumer ends.
pub data Settled (m : Message)
    : Result (Unit {0}) → Option Message → List Op → Result (Unit {0}) → Type 0 where
  done : {again : Option Message} → Settled m (ok tt) again (ack m ∷ []) (ok tt)
  dead : {e : Exception} → HasMessage e → Settled m (err e) none (nack m false false ∷ []) (ok tt)
  retried :
      {e : Exception} {again : Message}
      → HasMessage e
      → Settled m (err e) (some again) (publish again ∷ ack m ∷ []) (ok tt)
  unread : {again : Option Message} → Settled m (err (thrown null)) again [] (err unreadable)

read_message-cases :
    {W : Type 0} (perform : Op → Action W (Unit {0})) (parse_number : String → Option ℤ)
    (e : Exception)
    → (e ≡ thrown null)
      ⊎ (HasMessage e × ((w : W) → read_message perform parse_number e w ≡ (ok tt, w)))
read_message-cases perform parse_number (thrown null) = inl refl
read_message-cases perform parse_number e = inr (tt, λ w. refl)

module _ {W : Type 0} (perform : Op → Action W (Unit {0})) (log : W → List Op)
    (channel : OpenChannel perform log) (parse_number : String → Option ℤ) where
  -- one call, and two calls in a row, on the open channel
  one : (op : Op) (w v : W) → log w ≡ log v → log (perform op w).1 ≡ log v ++ op ∷ []
  one op w v e = channel.recorded op w ∙ ap (λ l. l ++ op ∷ []) e

  two :
      (op next : Op) (w v : W)
      → log w ≡ log v
      → log (perform next (perform op w).1).1 ≡ log v ++ op ∷ next ∷ []
  two op next w v e =
      channel.recorded next (perform op w).1
      ∙ ap (λ l. l ++ next ∷ []) (one op w v e)
      ∙ append_assoc (log v) (op ∷ []) (next ∷ [])

  -- What is left when the handler has ended.
  finish : (max_attempts : ℕ) (m : Message) → Result (Unit {0}) → W → Result (Unit {0}) × W
  finish max_attempts m r w =
      try_catch ((λ _. (r, w)) >> perform (ack m))
        (λ e.
          read_message perform parse_number e
          >> give_up_or_retry perform parse_number max_attempts m)
        w

  -- The part after the log line.
  give_up-Settled :
      (max_attempts : ℕ) (m : Message) (x : Exception) (w v : W) (again : Option Message)
      → HasMessage x
      → retry_of parse_number max_attempts m ≡ again
      → log w ≡ log v
      → (ops : List Op) × (log (give_up_or_retry perform parse_number max_attempts m w).1
          ≡ log v ++ ops)
        × Settled m (err x) again ops (give_up_or_retry perform parse_number max_attempts m w).0
  unfolding give_up_or_retry
  give_up-Settled n m x w v none has e quiet =
      rw (give_up_or_retry, e)
        (
          nack m false false ∷ [],
          one _ w v quiet,
          rw (channel.succeeds (nack m false false) w) (dead has),
        )
  give_up-Settled n m x w v (some again) has e quiet =
      rw (give_up_or_retry, e, channel.succeeds (publish again) w)
        (
          publish again ∷ ack m ∷ [],
          two _ _ w v quiet,
          rw (channel.succeeds (ack m) (perform (publish again) w).1) (retried has),
        )

  finish-Settled :
      (max_attempts : ℕ) (m : Message) (r : Result (Unit {0})) (w v : W)
      → log w ≡ log v
      → (ops : List Op) × (log (finish max_attempts m r w).1 ≡ log v ++ ops)
        × Settled m r (retry_of parse_number max_attempts m) ops (finish max_attempts m r w).0
  unfolding finish
  finish-Settled n m (ok tt) w v quiet =
      rw (channel.succeeds (ack m) w) (ack m ∷ [], one (ack m) w v quiet, done)
  finish-Settled n m (err x) w v quiet = elim (read_message-cases perform parse_number x) [
    | inl is ↦ rw is ([], quiet ∙ sym (append-nil (log v)), unread)
    | inr (has, read) ↦
        rw (read w) (give_up-Settled n m x w v (retry_of parse_number n m) has refl quiet)
  ]

  -- On an open channel, with a handler that leaves the delivery alone: after a success the
  -- delivery is acknowledged; after a failure that has a message to log it is rejected without
  -- requeue if it was the last attempt, and else the next attempt is republished and the delivery
  -- acknowledged; in all three cases it is settled once and the consumer does not fail. Where the
  -- handler threw null or undefined, the line that logs the message throws, nothing is settled and
  -- the consumer fails with that TypeError.
  pub consume_with_retry-Settled :
      {P : Type 0} (handler : P → Action W (Unit {0})) (max_attempts : ℕ) (m : Message)
      (payload : P) (w : W)
      → log (handler payload w).1 ≡ log w
      → let (r, w') = consume_with_retry perform parse_number handler max_attempts m payload w in
        (ops : List Op) × (log w' ≡ log w ++ ops)
        × Settled m (handler payload w).0 (retry_of parse_number max_attempts m) ops r
  unfolding consume_with_retry finish
  consume_with_retry-Settled handler max_attempts m payload w quiet =
      finish-Settled max_attempts m (handler payload w).0 (handler payload w).1 w quiet
