-- ===== src/Platform/Laws.antt =====
-- A call of the gateway that a service answers.
use nestjs_microservice_plat.Prelude.{◌≡◌, refl, String, Option, some, arith}
use nestjs_microservice_plat.Action.{Result, ok, err, Action}
use nestjs_microservice_plat.Gateway.Call.{call, settle, Payload}
use nestjs_microservice_plat.Platform.{Transport, reply_of, service_client}

module _ {W A B : Type 0} (transport : Transport W A B) where
  settle-ok :
      (fallback message : String) (r : Result A) (a : B)
      → settle fallback message (reply_of transport r) ≡ ok a
      → (x : A) × (r ≡ ok x) × (a ≡ transport.render x)
  settle-ok fallback message (ok x) a e = (x, refl, ground arith)
  settle-ok fallback message (err x) a e = ground arith

  -- The answer of a call is what the transport makes of the answer of the handler.
  pub call-answered :
      (handlers : String → Payload → Option (Action W A)) (fallback message name : String)
      (payload : Payload) (handler : Action W A) (w w' : W) (a : B)
      → handlers name payload ≡ some handler
      → call (service_client transport handlers) fallback message name payload w ≡ (ok a, w')
      → (r : A) × (handler w ≡ (ok r, w')) × (a ≡ transport.render r)
  unfolding call service_client
  call-answered handlers fallback message name payload handler w w' a known e =
      let (x, done, is) = settle-ok fallback message (handler w).0 a (ground arith) in
      let left : (handler w).1 ≡ w' = ground arith in (x, λ i. (done i, left i), is)
