-- ===== src/Redis/ReaderLaws.antt =====
-- What readers of one cached value that run at once answer with.
use nestjs_microservice_plat.Prelude.{
  ℕ, ◌-◌, ◌≤◌, ◌≡◌, refl, ◌⊎◌, inl, inr, String, List, [], ◌∷◌, true, Option, none, some, arith,
  All, Bool-cases, ◌||◌, ltb,
}
use nestjs_microservice_plat.Action.{Result, ok, err, Action, Result-cases}
use nestjs_microservice_plat.EventLoop.{interleave, interleave-keeps}
use nestjs_microservice_plat.EventLoop.Bounds.{ahead_at, turns_of, interleave-ahead}
use nestjs_microservice_plat.Redis.{Client, Json, decode, encode, get, set, read_cache, write_cache}
use nestjs_microservice_plat.Redis.Readers.{
  Phase, reading, fetching, writing, answered, after_read, after_fetch, after_write, ahead, started,
  read_step, ahead_at-started, read_step-ahead,
}

module _ {V : Type 0} where
  -- What a reader has is the value.
  abbrev pub Agrees : V → ℕ × Phase V → Type 0
  Agrees v (ttl, reading) = Unit {0}
  Agrees v (ttl, fetching) = Unit {0}
  Agrees v (ttl, writing value) = value ≡ v
  Agrees v (ttl, answered (ok value)) = value ≡ v
  Agrees v (ttl, answered (err e)) = Unit {0}

  after_read-Agrees :
      (v : V) (ttl : ℕ) (r : Result (Option V))
      → ((value : V) → r ≡ ok (some value) → value ≡ v)
      → Agrees v (ttl, after_read r)
  after_read-Agrees v ttl (ok none) is = tt
  after_read-Agrees v ttl (ok (some value)) is = is value refl
  after_read-Agrees v ttl (err e) is = tt

  after_fetch-Agrees :
      (v : V) (ttl : ℕ) (r : Result V)
      → ((value : V) → r ≡ ok value → value ≡ v)
      → Agrees v (ttl, after_fetch r)
  after_fetch-Agrees v ttl (ok value) is = is value refl
  after_fetch-Agrees v ttl (err e) is = tt

  after_write-Agrees :
      (v value : V) (ttl : ℕ) (r : Result (Unit {0}))
      → value ≡ v
      → Agrees v (ttl, after_write value r)
  after_write-Agrees v value ttl (ok _) is = is
  after_write-Agrees v value ttl (err e) is = tt

  started-Agrees : (v : V) (ttls : List ℕ) → All (Agrees v) (started ttls)
  started-Agrees v [] = tt
  started-Agrees v (ttl ∷ ttls) = (tt, started-Agrees v ttls)

module _ {W V : Type 0} (client : Client W) (json : Json V) (key : String)
    (fetch : Action W V) where
  -- What the client holds under the key: a read finds what is held and puts nothing in, a write
  -- leaves its text or what was held, or nothing.
  pub record Holding (held : W → Option String) : Type 0 where
    pub get_finds :
        (text : String) (w : W) → (client.get key w).0 ≡ ok (some text) → held w ≡ some text
    pub get_keeps :
        (text : String) (w : W) → held (client.get key w).1 ≡ some text → held w ≡ some text
    pub set_leaves :
        (payload text : String) (w : W)
        → held (client.set key payload w).1 ≡ some text
        → (text ≡ payload) ⊎ (held w ≡ some text)
    pub set_ex_leaves :
        (payload text : String) (ttl : ℕ) (w : W)
        → held (client.set_ex key payload ttl w).1 ≡ some text
        → (text ≡ payload) ⊎ (held w ≡ some text)

  -- The source has one value, and reading it does not write to the cache.
  pub record Source (held : W → Option String) (v : V) : Type 0 where
    pub gives : (value : V) (w : W) → (fetch w).0 ≡ ok value → value ≡ v
    pub leaves : (text : String) (w : W) → held (fetch w).1 ≡ some text → held w ≡ some text

  module _ (held : W → Option String) (holding : Holding held) (v : V) (source : Source held v)
      (null_lem : json.is_null json.null ≡ true)
      (stable : decode client json (some (encode client json v)) ≡ v) where
    -- Whatever is held under the key is the text of the value.
    abbrev pub Fresh : W → Type 0
    Fresh w = (text : String) → held w ≡ some text → decode client json (some text) ≡ v

    read-hit :
        (value : V) (w : W)
        → Fresh w
        → (read_cache client json key w).0 ≡ ok (some value)
        → value ≡ v
    unfolding read_cache get
    read-hit value w fresh hit = elim (Result-cases (client.get key w).0) [
      | inr (x, failed) ↦ absurd (ground arith)
      | inl (none, missing) ↦ absurd (ground arith)
      | inl (some text, there) ↦
          let is : decode client json (some text) ≡ v =
            fresh text (holding.get_finds text w there) in
          ground arith
    ]

    read-Fresh : (w : W) → Fresh w → Fresh (read_cache client json key w).1
    unfolding read_cache get
    read-Fresh w fresh text there =
        let same : (read_cache client json key w).1 ≡ (client.get key w).1 = ground arith in
        fresh text (holding.get_keeps text w (rw same at there))

    write-leaves :
        (value : V) (ttl : ℕ) (text : String) (w : W)
        → held (write_cache client json key value ttl w).1 ≡ some text
        → (text ≡ encode client json value) ⊎ (held w ≡ some text)
    unfolding write_cache set
    write-leaves value ttl text w there =
        elim (Bool-cases (json.is_undefined value || json.is_null value)) [
          | inl nothing ↦ inr (ground arith)
          | inr something ↦ elim (Bool-cases (ltb 0 ttl)) [
            | inl timed ↦ holding.set_ex_leaves (encode client json value) text ttl w (ground arith)
            | inr forever ↦ holding.set_leaves (encode client json value) text w (ground arith)
          ]
        ]

    write-Fresh :
        (value : V) (ttl : ℕ) (w : W)
        → Fresh w
        → value ≡ v
        → Fresh (write_cache client json key value ttl w).1
    write-Fresh value ttl w fresh same text there = elim (write-leaves value ttl text w there) [
      | inl is ↦ rw (is, same) stable
      | inr old ↦ fresh text old
    ]

    read_step-keeps :
        (reader : ℕ × Phase V) (w : W)
        → Fresh w
        → Agrees v reader
        → Fresh (read_step client json key fetch reader w).1
          × Agrees v (read_step client json key fetch reader w).0
    unfolding read_step
    read_step-keeps (ttl, reading) w fresh agrees =
        (read-Fresh w fresh, after_read-Agrees v ttl _ (λ value hit. read-hit value w fresh hit))
    read_step-keeps (ttl, fetching) w fresh agrees = (
      λ text there. fresh text (source.leaves text w there),
      after_fetch-Agrees v ttl _ (λ value given. source.gives value w given),
    )
    read_step-keeps (ttl, writing value) w fresh agrees =
        (write-Fresh value ttl w fresh agrees, after_write-Agrees v value ttl _ agrees)
    read_step-keeps (ttl, answered r) w fresh agrees = (fresh, agrees)

    -- Where a read of the client finds what is held under the key and puts nothing in, a write
    -- leaves its text, what was held or nothing, and the source gives one value only, which its
    -- text decodes to, and does not write to the cache: however many readers of the key run
    -- getOrSet at once, in whatever order their steps come, what is held under the key stays a
    -- text of the value if it was one before, each reader that has an answer answered with the
    -- value or with an error, and one that has taken n steps has at most 3 - n to take.
    pub readers_agree :
        (schedule ttls : List ℕ) (w : W) (i : ℕ)
        → Fresh w
        → Fresh (interleave (read_step client json key fetch) schedule (started ttls) w).1
          × All
              (Agrees v)
              (interleave (read_step client json key fetch) schedule (started ttls) w).0
          × (ahead_at ahead i
                (interleave (read_step client json key fetch) schedule (started ttls) w).0
              ≤ 3 - turns_of i schedule)
    readers_agree schedule ttls w i fresh =
        let (fresh', agree) =
          interleave-keeps (read_step client json key fetch) Fresh (Agrees v) read_step-keeps
            schedule (started ttls) w fresh (started-Agrees v ttls) in
        (
          fresh',
          agree,
          ground (
            arith,
            interleave-ahead (read_step client json key fetch) ahead
                (read_step-ahead client json key fetch) i schedule (started ttls) w,
            ahead_at-started V i ttls,
          ),
        )
