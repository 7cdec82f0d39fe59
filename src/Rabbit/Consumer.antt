-- ===== src/Rabbit/Consumer.antt =====
-- libs/rabbitmq/src/rabbitmq.consumer.utils.ts. Of the log lines only what they read is kept.
-- `parse_number` is what JavaScript's `Number` makes of a text, `none` for `NaN`.
use nestjs_microservice_plat.Prelude.{
  ℕ, zero, suc, ℤ, pos, negsuc, String, Bool, false, Option, none, some, leb, if◌then◌else◌,
}
use nestjs_microservice_plat.Js.{Value, null, bool, num, str, date, nan, put}
use nestjs_microservice_plat.Errors.{Exception, thrown, error}
use nestjs_microservice_plat.Action.{Action, ◌>>◌, try_catch, throw, pure}
use nestjs_microservice_plat.Rabbit.{Message, Op, ack, nack, publish}

-- `ATTEMPT_HEADER`
abbrev pub attempt_header : String
attempt_header = "x-attempt"

module _ (parse_number : String → Option ℤ) where
  -- `Number(value ?? 0)`
  abbrev pub number_of : Option Value → Option ℤ
  number_of none = some (pos 0)
  number_of (some null) = some (pos 0)
  number_of (some (bool b)) = some (pos (if b then 1 else 0))
  number_of (some (num n)) = some n
  number_of (some (date n)) = some (pos n)
  number_of (some (str s)) = parse_number s
  number_of (some _) = none

  -- `attempt`
  abbrev pub attempt_of : Message → Option ℤ
  attempt_of m = number_of (m.properties.headers attempt_header)

-- what reading the message of `null` throws
abbrev pub unreadable : Exception
unreadable = error "Cannot read properties of null (reading 'message')"

-- `attempt + 1`
abbrev pub next_attempt : Option ℤ → Option ℤ
next_attempt none = none
next_attempt (some (pos n)) = some (pos (suc n))
next_attempt (some (negsuc zero)) = some (pos 0)
next_attempt (some (negsuc (suc n))) = some (negsuc n)

-- `n >= maxAttempts`, which is false of `NaN`
abbrev pub reaches : Option ℤ → ℕ → Bool
reaches (some (pos n)) most = leb most n
reaches _ most = false

abbrev pub number_value : Option ℤ → Value
number_value none = nan
number_value (some n) = num n

-- The message that is published for the next attempt, `none` when the attempts are used up.
unfoldable pub retry_of : (String → Option ℤ) → ℕ → Message → Option Message
retry_of parse_number max_attempts m =
    let next = next_attempt (attempt_of parse_number m) in
    if reaches next max_attempts
    then none
    else some (record m {
      properties = record m.properties {
        headers = put attempt_header (number_value next) m.properties.headers;
      };
    })

module _ {W : Type 0} (perform : Op → Action W (Unit {0})) (parse_number : String → Option ℤ) where
  -- the `catch` block: give up, or publish again and acknowledge
  unfoldable pub give_up_or_retry : ℕ → Message → Action W (Unit {0})
  give_up_or_retry max_attempts m = elim (retry_of parse_number max_attempts m) [
    | none ↦ perform (nack m false false)
    | some again ↦ perform (publish again) >> perform (ack m)
  ]

  -- The log line reads `error.message`, which fails where the handler threw `null` or `undefined`, for
  -- which `null` stands.
  abbrev pub read_message : Exception → Action W (Unit {0})
  read_message (thrown null) = throw unreadable
  read_message e = pure tt

  unfoldable pub consume_with_retry :
      {P : Type 0} → (P → Action W (Unit {0})) → ℕ → Message → P → Action W (Unit {0})
  unfolding give_up_or_retry
  consume_with_retry handler max_attempts m payload =
      try_catch (handler payload >> perform (ack m))
        (λ e. read_message e >> give_up_or_retry max_attempts m)
