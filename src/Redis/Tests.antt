-- ===== src/Redis/Tests.antt =====
-- The cache over a client that keeps one text.
use nestjs_microservice_plat.Prelude.{
  pos, ◌≡◌, refl, ◌⊎◌, inr, String, [], Bool, true, false, Option, none, some, ◌==◌, if◌then◌else◌,
  length,
}
use nestjs_microservice_plat.Js.{Value, null, num, str}
use nestjs_microservice_plat.Errors.{Exception, error}
use nestjs_microservice_plat.Action.{ok, err, throw}
use nestjs_microservice_plat.Redis.{Client, Json, get, set, get_or_set}
use nestjs_microservice_plat.Redis.Cache.{KeepsValues, get_or_set_answer, set_get_roundtrip}

abbrev pub client : Client (Option String)
client = record {
  get = λ key w. (ok w, w);
  set_ex = λ key text ttl w. (ok tt, some text);
  set = λ key text w. (ok tt, some text);
  del = λ keys w. (ok (length keys), none);
  scan = λ cursor pattern' w. (ok ("0", []), w);
  incr_expire = λ key ttl w. (ok none, w);
  ping = λ w. (ok "PONG", w);
  quit = λ w. (ok tt, w);
}

abbrev is_null : Value → Bool
is_null null = true
is_null v = false

abbrev text_of : Value → Option String
text_of (str s) = some s
text_of v = none

-- The only JSON that is read is 1.
abbrev pub json : Json Value
json = record {
  null = null;
  is_null = is_null;
  is_undefined = λ v. false;
  parse = λ s. if s == "1" then some (num (pos 1)) else none;
  stringify = λ v. "1";
  as_text = text_of;
  of_text = str;
}

keeps_values : KeepsValues client json
keeps_values = record { kept = λ key text w e. refl; kept_ex = λ key text ttl w e. refl }

get_or_set_answer_example :
    ((v : Value) × (get client json "k" (some "1") ≡ (ok v, some "1"))
      × (is_null v ≡ false)
      × (get_or_set client json "k" 60 (throw (error "no fetch")) (some "1") ≡ (ok v, some "1")))
    ⊎ ((((x : Exception) × (get client json "k" (some "1") ≡ (err x, some "1")))
          ⊎ ((v : Value) × (get client json "k" (some "1") ≡ (ok v, some "1"))
              × (is_null v ≡ true)))
        × ((get_or_set client json "k" 60 (throw (error "no fetch")) (some "1")).0
            ≡ err (error "no fetch")))
unfolding get
get_or_set_answer_example =
    get_or_set_answer client json "k" 60 (throw (error "no fetch")) (some "1")

set_get_roundtrip_example : get client json "k" (some "hello") ≡ (ok (str "hello"), some "hello")
unfolding set
set_get_roundtrip_example =
    set_get_roundtrip client json "k" (str "hello") 60 none (some "hello") keeps_values
      (inr ("hello", refl, refl, refl)) refl
