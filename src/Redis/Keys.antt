-- ===== src/Redis/Keys.antt =====
-- libs/constants/src/cache-keys.constants.ts: the names of cached values. `toLowerCase` is a
-- parameter, since its tables are Unicode's.
use Prim.Native.String.{◌++◌}
use nestjs_microservice_plat.Prelude.Texts.{strip, clash, strip-append, strip-clash}
use nestjs_microservice_plat.Prelude.{◌≡◌, refl, ap, sym, ◌∙◌, String, Option, none, some}

pub data CacheKey : Type 0 where
  user_by_id user_by_email user_list otp refresh_token rate_limit : String → CacheKey

module _ (to_lower_case : String → String) where
  -- `CACHE_KEYS`
  unfoldable pub cache_key : CacheKey → String
  cache_key (user_by_id id) = "user:id:" ++ id
  cache_key (user_by_email email) = "user:email:" ++ to_lower_case email
  cache_key (user_list hash) = "user:list:" ++ hash
  cache_key (otp email) = "otp:" ++ to_lower_case email
  cache_key (refresh_token id) = "refresh:" ++ id
  cache_key (rate_limit key) = "rl:" ++ key

  -- A key whose email is in lower case.
  abbrev pub canonical : CacheKey → CacheKey
  canonical (user_by_id id) = user_by_id id
  canonical (user_by_email email) = user_by_email (to_lower_case email)
  canonical (user_list hash) = user_list hash
  canonical (otp email) = otp (to_lower_case email)
  canonical (refresh_token id) = refresh_token id
  canonical (rate_limit key) = rate_limit key

-- The value that a key names, read off the key.
abbrev pub or_else : (String → CacheKey) → Option String → Option CacheKey → Option CacheKey
or_else kind none rest = rest
or_else kind (some s) rest = some (kind s)

unfoldable pub read_key : String → Option CacheKey
read_key text = or_else user_by_id (strip "user:id:" text) (
    or_else user_by_email (strip "user:email:" text) (
      or_else user_list (strip "user:list:" text) (
        or_else otp (strip "otp:" text) (
          or_else refresh_token (strip "refresh:" text)
            (or_else rate_limit (strip "rl:" text) none)))))

module _ (to_lower_case : String → String) where
  read_key-cache_key :
      (k : CacheKey) → read_key (cache_key to_lower_case k) ≡ some (canonical to_lower_case k)
  unfolding read_key cache_key clash
  read_key-cache_key (user_by_id id) = rw (strip-append "user:id:" id) refl
  read_key-cache_key (user_by_email email) =
      let s = to_lower_case email in
      rw (strip-clash "user:id:" "user:email:" s refl, strip-append "user:email:" s) refl
  read_key-cache_key (user_list s) =
      rw
        (
          strip-clash "user:id:" "user:list:" s refl,
          strip-clash "user:email:" "user:list:" s refl,
          strip-append "user:list:" s,
        )
        refl
  read_key-cache_key (otp email) =
      let s = to_lower_case email in
      rw
        (
          strip-clash "user:id:" "otp:" s refl,
          strip-clash "user:email:" "otp:" s refl,
          strip-clash "user:list:" "otp:" s refl,
          strip-append "otp:" s,
        )
        refl
  read_key-cache_key (refresh_token s) =
      rw
        (
          strip-clash "user:id:" "refresh:" s refl,
          strip-clash "user:email:" "refresh:" s refl,
          strip-clash "user:list:" "refresh:" s refl,
          strip-clash "otp:" "refresh:" s refl,
          strip-append "refresh:" s,
        )
        refl
  read_key-cache_key (rate_limit s) =
      rw
        (
          strip-clash "user:id:" "rl:" s refl,
          strip-clash "user:email:" "rl:" s refl,
          strip-clash "user:list:" "rl:" s refl,
          strip-clash "otp:" "rl:" s refl,
          strip-clash "refresh:" "rl:" s refl,
          strip-append "rl:" s,
        )
        refl

  some_injective : (k l : CacheKey) → some k ≡ some l → k ≡ l
  some_injective k l h = cc

  -- Two values with the same cache key are of the same kind and have the same name, but for the
  -- case of an email.
  pub cache_key_injective :
      (k l : CacheKey)
      → cache_key to_lower_case k ≡ cache_key to_lower_case l
      → canonical to_lower_case k ≡ canonical to_lower_case l
  cache_key_injective k l h =
      some_injective _ _ (sym (read_key-cache_key k) ∙ ap read_key h ∙ read_key-cache_key l)
