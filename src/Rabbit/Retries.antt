-- ===== src/Rabbit/Retries.antt =====
-- How often a message is delivered: the chain of its redeliveries while the handler fails.
use nestjs_microservice_plat.Prelude.{
  ℕ, zero, suc, ◌+◌, ◌-◌, ◌≤◌, ◌<◌, ℤ, pos, ◌≡◌, refl, ◌∙◌, ◌⊎◌, inl, inr, String, Option, none,
  some, arith, Option-cases,
}
use nestjs_microservice_plat.Js.{num, Object, default, empty, spread, field}
use nestjs_microservice_plat.Rabbit.{Message}
use nestjs_microservice_plat.Rabbit.Consumer.{retry_of}
use nestjs_microservice_plat.Rabbit.Publisher.{PublishOptions, message_for}

-- The message says that it is attempt number `a`.
abbrev pub HasAttempt : Message → ℕ → Type 0
HasAttempt m a = m.properties.headers "x-attempt" ≡ some (num (pos a))

-- The same event: only the headers may differ.
pub record SameEvent (m m' : Message) : Type 0 where
  pub exchange : m'.exchange ≡ m.exchange
  pub routing_key : m'.routing_key ≡ m.routing_key
  pub content : m'.content ≡ m.content
  pub message_id : m'.properties.message_id ≡ m.properties.message_id

SameEvent-trans : {m n o : Message} → SameEvent m n → SameEvent n o → SameEvent m o
SameEvent-trans s t = record {
  exchange = t.exchange ∙ s.exchange;
  routing_key = t.routing_key ∙ s.routing_key;
  content = t.content ∙ s.content;
  message_id = t.message_id ∙ s.message_id;
}

fresh_attempt :
    (exchange routing_key payload : String) (options : PublishOptions)
    → default options.headers empty "x-attempt" ≡ none
    → HasAttempt (message_for exchange routing_key payload options) 0
unfolding message_for
fresh_attempt exchange routing_key payload options fresh =
    start (default options.headers empty) fresh
  where
    start :
        (o : Object)
        → o "x-attempt" ≡ none
        → spread (field "x-attempt" (some (num (pos 0)))) o "x-attempt" ≡ some (num (pos 0))
    start o e = ground arith

module _ (parse_number : String → Option ℤ) (max_attempts : ℕ) where
  -- `n` failures in a row turn the first message into the last one.
  pub data Redeliveries : ℕ → Message → Message → Type 0 where
    stay : {m : Message} → Redeliveries zero m m
    again :
        {n : ℕ} {m next last : Message}
        → retry_of parse_number max_attempts m ≡ some next
        → Redeliveries n next last
        → Redeliveries (suc n) m last

  -- One retry counts one attempt more, which is below the limit.
  retry_of-some :
      (m next : Message) (a : ℕ)
      → HasAttempt m a
      → retry_of parse_number max_attempts m ≡ some next
      → HasAttempt next (suc a) × (suc a < max_attempts) × SameEvent m next
  unfolding retry_of
  retry_of-some m next a h e = ground arith

  retry_of-none :
      (m : Message) (a : ℕ)
      → HasAttempt m a
      → retry_of parse_number max_attempts m ≡ none
      → max_attempts ≤ suc a
  unfolding retry_of
  retry_of-none m a h e = ground arith

  retry_of-last :
      (m : Message) (a : ℕ)
      → HasAttempt m a
      → max_attempts ≤ suc a
      → retry_of parse_number max_attempts m ≡ none
  unfolding retry_of
  retry_of-last m a h e = ground arith

  SameEvent-refl : (m : Message) → SameEvent m m
  SameEvent-refl m = record {
    exchange = refl;
    routing_key = refl;
    content = refl;
    message_id = refl;
  }

  -- From a message that says its attempt a chain of redeliveries counts its length in the
  -- x-attempt header, stays below the limit and carries the same event.
  pub Redeliveries-bounded :
      {n : ℕ} {m last : Message} (a : ℕ)
      → HasAttempt m a
      → Redeliveries n m last
      → HasAttempt last (a + n) × ((n ≡ 0) ⊎ (a + n < max_attempts)) × SameEvent m last
  Redeliveries-bounded {m} a h stay =
      let e : a + 0 ≡ a = omega arith in (rw e h, inl refl, SameEvent-refl m)
  Redeliveries-bounded {m} {last} a h (again {n} {next = next} e r) =
      let (h', low, same) = retry_of-some m next a h e in
      let (h'', short, same') = Redeliveries-bounded (suc a) h' r in
      let count : suc a + n ≡ a + suc n = omega arith in
      (rw count at h'', inr (omega arith), SameEvent-trans same same')

  -- Failing again and again ends: from a message that says it is attempt a there is a chain of
  -- redeliveries of the length that the limit leaves to a message that has no attempt left.
  pub Redeliveries-end :
      (left : ℕ) (m : Message) (a : ℕ)
      → HasAttempt m a
      → left ≡ max_attempts - suc a
      → (last : Message) × Redeliveries left m last
        × (retry_of parse_number max_attempts last ≡ none)
        × HasAttempt last (a + left)
  Redeliveries-end zero m a h e =
      let end : a + 0 ≡ a = omega arith in (m, stay, retry_of-last m a h (omega arith), rw end h)
  Redeliveries-end (suc left) m a h e = elim (Option-cases (retry_of parse_number max_attempts m)) [
    | inl none_left ↦ absurd (omega (arith, retry_of-none m a h none_left))
    | inr (next, retried) ↦
        let (h', low, _) = retry_of-some m next a h retried in
        let (last, r, ended, h'') = Redeliveries-end left next (suc a) h' (omega arith) in
        let count : suc a + left ≡ a + suc left = omega arith in
        (last, again retried r, ended, rw count at h'')
  ]

  -- A published event is delivered at most `max_attempts` times, or once if the limit is 0: its
  -- redeliveries are fewer than the limit, unless the publisher set the header itself.
  published-Redeliveries :
      {n : ℕ} (exchange routing_key payload : String) (options : PublishOptions) {last : Message}
      → default options.headers empty "x-attempt" ≡ none
      → Redeliveries n (message_for exchange routing_key payload options) last
      → (n ≡ 0) ⊎ (n < max_attempts)
  published-Redeliveries exchange routing_key payload options fresh r = omega (
    arith,
    (Redeliveries-bounded 0 (fresh_attempt exchange routing_key payload options fresh) r).1,
  )
