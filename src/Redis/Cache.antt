-- ===== src/Redis/Cache.antt =====
-- The read-through cache: a failing Redis never fails a read, and what is written is read back.
use nestjs_microservice_plat.Prelude.{
  ℕ, ◌≡◌, ap, subst, ◌⊎◌, inl, inr, String, true, false, none, some, arith, Bool-cases, ltb,
}
use nestjs_microservice_plat.Action.{Action, Result, ok, err, Result-cases, pure, ◌>>=◌, ◌>>◌}
use nestjs_microservice_plat.Errors.{Exception}
use nestjs_microservice_plat.Redis.{
  Client, Json, decode, encode, get, set, read_cache, write_cache, get_or_set,
}

module _ {W V : Type 0} (client : Client W) (json : Json V) where
  write_cache-ok :
      (key : String) (v : V) (ttl : ℕ) (w : W) → (write_cache client json key v ttl w).0 ≡ ok tt
  unfolding write_cache
  write_cache-ok key v ttl w = ground arith

  -- What happens without a hit.
  abbrev fetch_and_write : String → ℕ → Action W V → Action W V
  fetch_and_write key ttl fetch = do
    value ← fetch
    write_cache client json key value ttl
    pure value

  fetch_and_write-answer :
      (key : String) (ttl : ℕ) (fetch : Action W V) (w : W)
      → (fetch_and_write key ttl fetch w).0 ≡ (fetch w).0
  fetch_and_write-answer key ttl fetch w = elim (Result-cases (fetch w).0) [
    | inl (v, e) ↦ rw (e, write_cache-ok key v ttl (fetch w).1)
    | inr (x, e) ↦ rw e
  ]

  -- getOrSet answers with a cached value that is not null without fetching; if the cache fails or
  -- what it holds is null, it answers with the answer or the error of the fetch.
  pub get_or_set_answer :
      (key : String) (ttl : ℕ) (fetch : Action W V) (w : W)
      → let w1 = (get client json key w).1 in
        ((v : V) × (get client json key w ≡ (ok v, w1))
          × (json.is_null v ≡ false)
          × (get_or_set client json key ttl fetch w ≡ (ok v, w1)))
        ⊎ ((((x : Exception) × (get client json key w ≡ (err x, w1)))
              ⊎ ((v : V) × (get client json key w ≡ (ok v, w1)) × (json.is_null v ≡ true)))
            × ((get_or_set client json key ttl fetch w).0 ≡ (fetch w1).0))
  unfolding get_or_set get read_cache
  get_or_set_answer key ttl fetch w =
      let w1 = (client.get key w).1 in
      elim (Result-cases (client.get key w).0) [
        | inr (x, failed) ↦
            inr (inl (x, rw failed), rw failed (fetch_and_write-answer key ttl fetch w1))
        | inl (raw, e) ↦ elim (Bool-cases (json.is_null (decode client json raw))) [
          | inl missing ↦ inr (
            inr (decode client json raw, rw e, missing),
            rw (e, missing) (fetch_and_write-answer key ttl fetch w1),
          )
          | inr hit ↦ inl (decode client json raw, rw e, hit, rw (e, hit))
        ]
      ]

  -- What is relied on of the client: a key that was set holds its text.
  pub record KeepsValues : Type 0 where
    pub kept :
        (key payload : String) (w : W)
        → ((client.set key payload w).0 ≡ ok tt)
        → client.get key (client.set key payload w).1
          ≡ (ok (some payload), (client.set key payload w).1)
    pub kept_ex :
        (key payload : String) (ttl : ℕ) (w : W)
        → ((client.set_ex key payload ttl w).0 ≡ ok tt)
        → client.get key (client.set_ex key payload ttl w).1
          ≡ (ok (some payload), (client.set_ex key payload ttl w).1)

  -- A `get` after the client's own write.
  get-kept :
      (key payload : String) (r : Result (Unit {0}) × W) (w' : W)
      → client.get key r.1 ≡ (ok (some payload), r.1)
      → r ≡ (ok tt, w')
      → get client json key w' ≡ (ok (decode client json (some payload)), w')
  unfolding get
  get-kept key payload r w' k e =
      let k' : client.get key w' ≡ (ok (some payload), w') =
        subst (λ (x : Result (Unit {0}) × W). client.get key x.1 ≡ (ok (some payload), x.1)) e k in
      rw k'

  get-set :
      (key : String) (v : V) (ttl : ℕ) (w w' : W)
      → KeepsValues
      → set client json key v ttl w ≡ (ok tt, w')
      → get client json key w' ≡ (ok (decode client json (some (encode client json v))), w')
  unfolding set
  get-set key v ttl w w' keeps e = elim (Bool-cases (ltb 0 ttl)) [
    | inl timed ↦
        let e' : client.set_ex key (encode client json v) ttl w ≡ (ok tt, w') = rw timed at e in
        get-kept key (encode client json v) (client.set_ex key (encode client json v) ttl w) w'
          (keeps.kept_ex key (encode client json v) ttl w (ap (λ r. r.0) e')) e'
    | inr forever ↦
        let e' : client.set key (encode client json v) w ≡ (ok tt, w') = rw forever at e in
        get-kept key (encode client json v) (client.set key (encode client json v) w) w'
          (keeps.kept key (encode client json v) w (ap (λ r. r.0) e')) e'
  ]

  -- A value that is no text and that JSON keeps, or a text that is no JSON.
  abbrev pub IsStable : V → Type 0
  IsStable v =
      ((json.as_text v ≡ none) × (json.parse (json.stringify v) ≡ some v))
      ⊎ ((s : String) × (json.as_text v ≡ some s) × (json.of_text s ≡ v) × (json.parse s ≡ none))

  -- Where the client holds what was set: after a set that succeeded, get answers with the same
  -- value if it is no text and JSON keeps it, or if it is a text that is no JSON.
  pub set_get_roundtrip :
      (key : String) (v : V) (ttl : ℕ) (w w' : W)
      → KeepsValues
      → IsStable v
      → set client json key v ttl w ≡ (ok tt, w')
      → get client json key w' ≡ (ok v, w')
  set_get_roundtrip key v ttl w w' keeps (inl (plain, back)) e =
      let k = get-set key v ttl w w' keeps e in
      let same : decode client json (some (encode client json v)) ≡ v = rw (plain, back) in
      rw same at k
  set_get_roundtrip key v ttl w w' keeps (inr (s, text, is, unparsed)) e =
      let k = get-set key v ttl w w' keeps e in
      let same : decode client json (some (encode client json v)) ≡ v = rw (text, unparsed) is in
      rw same at k

  -- A text that happens to be JSON is not read back as it was written: `get` answers with the value
  -- that the text denotes.
  set_get_parses_text :
      (key s : String) (v u : V) (ttl : ℕ) (w w' : W)
      → KeepsValues
      → json.as_text v ≡ some s
      → json.parse s ≡ some u
      → set client json key v ttl w ≡ (ok tt, w')
      → get client json key w' ≡ (ok u, w')
  set_get_parses_text key s v u ttl w w' keeps text parsed e =
      let k = get-set key v ttl w w' keeps e in
      let same : decode client json (some (encode client json v)) ≡ u = rw (text, parsed) in
      rw same at k
