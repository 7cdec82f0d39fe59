-- ===== src/Redis.antt =====
-- libs/redis/src/redis.service.ts over a client, which is a parameter (ioredis), and over
-- JavaScript's JSON, of which the code uses `parse` and `stringify`. Log lines are left out.
pub mod Keys
pub mod KeyTests
pub mod Cache
pub mod Readers
pub mod ReaderLaws
pub mod ReaderTests
pub mod Scan
pub mod ScanTests
pub mod Module
pub mod Tests
use nestjs_microservice_plat.Prelude.{
  ℕ, zero, suc, ◌+◌, ℤ, pos, String, List, [], ◌∷◌, Bool, true, false, Option, none, some, ◌==◌,
  not, ltb, if◌then◌else◌, ◌||◌,
}
use nestjs_microservice_plat.Js.{default}
use nestjs_microservice_plat.Errors.{Exception}
use nestjs_microservice_plat.Action.{Action, pure, throw, ◌>>=◌, ◌>>◌, try_catch}

-- The calls of the client.
pub record Client (W : Type 0) : Type 0 where
  pub get : String → Action W (Option String)
  pub set_ex : String → String → ℕ → Action W (Unit {0})
  pub set : String → String → Action W (Unit {0})
  pub del : List String → Action W ℕ
  pub scan : String → String → Action W (String × List String)
  -- `multi().incr(key).expire(key, ttl, 'NX').exec()`: the values of its results, if there are any
  pub incr_expire : String → ℕ → Action W (Option (List (Option ℕ)))
  pub ping : Action W String
  pub quit : Action W (Unit {0})

-- JavaScript values as the cache sees them: `parse` is `none` where `JSON.parse` throws, `as_text`
-- is the text of a value whose `typeof` is 'string'.
pub record Json (V : Type 0) : Type 0 where
  pub null : V
  pub is_null : V → Bool
  pub is_undefined : V → Bool
  pub parse : String → Option V
  pub stringify : V → String
  pub as_text : V → Option String
  pub of_text : String → V

module _ {W V : Type 0} (client : Client W) (json : Json V) where
  -- `JSON.parse(raw)`, or the raw text where that throws
  abbrev pub decode : Option String → V
  decode none = json.null
  decode (some raw) = default (json.parse raw) (json.of_text raw)

  -- `typeof value === 'string' ? value : JSON.stringify(value)`
  abbrev pub encode : V → String
  encode value = default (json.as_text value) (json.stringify value)

  unfoldable pub get : String → Action W V
  get key = do raw ← client.get key; pure (decode raw)

  unfoldable pub set : String → V → ℕ → Action W (Unit {0})
  set key value ttl =
      if ltb 0 ttl then client.set_ex key (encode value) ttl else client.set key (encode value)

  -- the first `try` of `getOrSet`: `none` where there is no hit
  unfoldable pub read_cache : String → Action W (Option V)
  unfolding get
  read_cache key =
      try_catch (do hit ← get key; pure (if json.is_null hit then none else some hit))
        (λ _. pure none)

  -- the second `try`
  unfoldable pub write_cache : String → V → ℕ → Action W (Unit {0})
  unfolding set
  write_cache key value ttl =
      try_catch
        (if json.is_undefined value || json.is_null value then pure tt else set key value ttl)
        (λ _. pure tt)

  unfoldable pub get_or_set : String → ℕ → Action W V → Action W V
  unfolding read_cache write_cache
  get_or_set key ttl fetch = do
    hit ← read_cache key
    elim hit [
      | some value ↦ pure value
      | none ↦ do value ← fetch; write_cache key value ttl; pure value
    ]

module _ {W : Type 0} (client : Client W) where
  -- `del(...keys)`
  unfoldable pub del : List String → Action W ℕ
  del [] = pure 0
  del (k ∷ ks) = client.del (k ∷ ks)

  -- `Number(result?.[0]?.[1] ?? 0)`
  abbrev pub first_value : Option (List (Option ℕ)) → ℕ
  first_value none = 0
  first_value (some []) = 0
  first_value (some (v ∷ vs)) = default v 0

  unfoldable pub incr_with_ttl : String → ℕ → Action W ℕ
  incr_with_ttl key ttl = do result ← client.incr_expire key ttl; pure (first_value result)

  -- `if (batch.length) deleted += await this.client.del(...batch)`
  abbrev pub delete_batch : List String → Action W ℕ
  delete_batch [] = pure 0
  delete_batch (k ∷ ks) = client.del (k ∷ ks)

  -- The `do … while (cursor !== '0')` of `deletePattern`; `none` when the fuel runs out.
  unfoldable pub delete_from : ℕ → String → String → ℕ → Action W (Option ℕ)
  delete_from zero pattern' cursor deleted = pure none
  delete_from (suc fuel) pattern' cursor deleted = client.scan cursor pattern' >>= λ found.
      delete_batch found.1 >>= λ n. elim (found.0 == "0") [
        | true ↦ pure (some (deleted + n))
        | false ↦ delete_from fuel pattern' found.0 (deleted + n)
      ]

  unfoldable pub delete_pattern : ℕ → String → Action W (Option ℕ)
  unfolding delete_from
  delete_pattern fuel pattern' = delete_from fuel pattern' "0" 0

  unfoldable pub ping : Action W Bool
  ping = try_catch (do res ← client.ping; pure (res == "PONG")) (λ _. pure false)

  unfoldable pub quit : Action W (Unit {0})
  quit = try_catch client.quit (λ _. pure tt)
