-- ===== src/Redis/Module.antt =====
-- libs/redis/src/redis.module.ts: the pause before a new connection, and the shutdown.
use Prim.Native.Nat.{min}
use nestjs_microservice_plat.Prelude.{ℕ, ◌+◌, ◌*◌, ◌≤◌, ◌<◌, ◌≡◌, arith}
use nestjs_microservice_plat.Action.{Action}
use nestjs_microservice_plat.Redis.{Client, quit}

-- `retryStrategy`; `jitter` is what `Math.random() * 100` makes, in whole milliseconds.
unfoldable pub retry_strategy : ℕ → ℕ → ℕ
retry_strategy times jitter = min (times * 100 + jitter) 2000

-- The pause grows by a tenth of a second with each attempt, never shrinks from one attempt to the
-- next, and is two seconds from the twentieth on.
retry_strategy_bounds :
    (times jitter later : ℕ)
    → jitter < 100
    → later < 100
    → (retry_strategy times jitter ≤ 2000)
      × (retry_strategy times jitter ≤ retry_strategy (times + 1) later)
      × (20 ≤ times → retry_strategy times jitter ≡ 2000)
unfolding retry_strategy
retry_strategy_bounds times jitter later small small' =
    (omega arith, omega arith, λ h. omega (arith, h))

-- `onApplicationShutdown`
unfoldable pub on_application_shutdown : {W : Type 0} → Client W → Action W (Unit {0})
unfolding quit
on_application_shutdown client = quit client
