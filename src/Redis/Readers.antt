-- ===== src/Redis/Readers.antt =====
-- Readers that run at once: `getOrSet` of libs/redis/src/redis.service.ts, cut where it awaits.
use nestjs_microservice_plat.Prelude.{
  ℕ, zero, suc, ◌-◌, ◌≤◌, ◌≡◌, refl, inl, inr, String, List, [], ◌∷◌, Option, none, some, arith,
  map,
}
use nestjs_microservice_plat.Action.{Result, ok, err, Action, Result-cases}
use nestjs_microservice_plat.EventLoop.{turn, interleave}
use nestjs_microservice_plat.EventLoop.Bounds.{ahead_at}
use nestjs_microservice_plat.Redis.{Client, Json, read_cache, write_cache, get_or_set}

-- What a reader awaits next, with what it has.
pub data Phase (V : Type 0) : Type 0 where
  reading fetching : Phase V
  writing : V → Phase V
  answered : Result V → Phase V

module _ {V : Type 0} where
  -- After the first `try`.
  abbrev pub after_read : Result (Option V) → Phase V
  after_read (ok (some value)) = answered (ok value)
  after_read (ok none) = fetching
  after_read (err e) = answered (err e)

  -- After `fetch()`.
  abbrev pub after_fetch : Result V → Phase V
  after_fetch (ok value) = writing value
  after_fetch (err e) = answered (err e)

  -- After the second `try`.
  abbrev pub after_write : V → Result (Unit {0}) → Phase V
  after_write value (ok _) = answered (ok value)
  after_write value (err e) = answered (err e)

  -- The steps that a reader has to take at most.
  abbrev pub ahead : ℕ × Phase V → ℕ
  ahead (ttl, reading) = 3
  ahead (ttl, fetching) = 2
  ahead (ttl, writing value) = 1
  ahead (ttl, answered r) = 0

  -- all at their first step
  abbrev pub started : List ℕ → List (ℕ × Phase V)
  started ttls = map (λ ttl. (ttl, reading)) ttls

  ahead-after_read : (ttl : ℕ) (r : Result (Option V)) → ahead (ttl, after_read r) ≤ 2
  ahead-after_read ttl (ok none) = omega arith
  ahead-after_read ttl (ok (some value)) = omega arith
  ahead-after_read ttl (err e) = omega arith

pub ahead_at-started :
    (V : Type 0) (i : ℕ) (ttls : List ℕ) → ahead_at (ahead {V = V}) i (started ttls) ≤ 3
ahead_at-started V i [] = omega arith
ahead_at-started V zero (ttl ∷ ttls) = omega arith
ahead_at-started V (suc i) (ttl ∷ ttls) = ahead_at-started V i ttls

module _ {W V : Type 0} (client : Client W) (json : Json V) (key : String)
    (fetch : Action W V) where
  -- The next step of a reader with its time to live.
  unfoldable pub read_step : ℕ × Phase V → W → (ℕ × Phase V) × W
  unfolding read_cache write_cache
  read_step (ttl, reading) w = let r = read_cache client json key w in ((ttl, after_read r.0), r.1)
  read_step (ttl, fetching) w = let r = fetch w in ((ttl, after_fetch r.0), r.1)
  read_step (ttl, writing value) w =
      let r = write_cache client json key value ttl w in ((ttl, after_write value r.0), r.1)
  read_step (ttl, answered r) w = ((ttl, answered r), w)

  -- A reader that runs alone does what `getOrSet` does.
  interleave-get_or_set :
      (ttl : ℕ) (w : W)
      → interleave read_step (0 ∷ 0 ∷ 0 ∷ []) ((ttl, reading) ∷ []) w ≡ (
        (ttl, answered (get_or_set client json key ttl fetch w).0) ∷ [],
        (get_or_set client json key ttl fetch w).1,
      )
  unfolding get_or_set interleave turn read_step
  interleave-get_or_set ttl w = elim (Result-cases (read_cache client json key w).0) [
    | inr (x, failed) ↦ rw failed refl
    | inl (none, missed) ↦
        let w1 = (read_cache client json key w).1 in
        elim (Result-cases (fetch w1).0) [
          | inr (x, failed) ↦ rw (missed, failed) refl
          | inl (value, fetched) ↦
              elim (Result-cases (write_cache client json key value ttl (fetch w1).1).0) [
                | inr (x, failed) ↦ rw (missed, fetched, failed) refl
                | inl (_, written) ↦ rw (missed, fetched, written) refl
              ]
        ]
    | inl (some value, hit) ↦ rw hit refl
  ]

  pub read_step-ahead :
      (reader : ℕ × Phase V) (w : W) → ahead (read_step reader w).0 ≤ ahead reader - 1
  unfolding read_step
  read_step-ahead (ttl, reading) w = ahead-after_read ttl _
  read_step-ahead (ttl, fetching) w = ground arith
  read_step-ahead (ttl, writing value) w = ground arith
  read_step-ahead (ttl, answered r) w = omega arith
