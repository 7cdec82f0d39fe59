-- ===== src/Errors/Laws.antt =====
-- What the exception filters keep and what they hide.
use nestjs_microservice_plat.Prelude.{◌≡◌, refl}
use nestjs_microservice_plat.Errors.{Exception, domain, http, rpc, error, thrown, coded}
use nestjs_microservice_plat.Errors.AllExceptions
use nestjs_microservice_plat.Errors.AllExceptions.{Request, ApiErrorResponse}
use nestjs_microservice_plat.Errors.RpcExceptions

-- An exception that no one meant for the client: neither of Nest's two classes.
abbrev pub IsUnexpected : Exception → Type 0
IsUnexpected (error m) = Unit
IsUnexpected (thrown v) = Unit
IsUnexpected _ = ⊥

-- Two exceptions that are neither HttpException nor RpcException give the client the same answer,
-- over HTTP with status 500 and over a microservice.
unexpected_opaque :
    (req : Request) (e e' : Exception)
    → IsUnexpected e
    → IsUnexpected e'
    → (AllExceptions.catch req e ≡ AllExceptions.catch req e')
      × (RpcExceptions.catch e ≡ RpcExceptions.catch e')
      × ((AllExceptions.catch req e).0 ≡ coded 500)
unfolding AllExceptions.catch RpcExceptions.catch
unexpected_opaque req (error m) (error m') h h' = (refl, refl, refl)
unexpected_opaque req (error m) (thrown v) h h' = (refl, refl, refl)
unexpected_opaque req (thrown v) (error m) h h' = (refl, refl, refl)
unexpected_opaque req (thrown v) (thrown v') h h' = (refl, refl, refl)
unexpected_opaque req (domain d) e' h h' = absurd h
unexpected_opaque req (http m r s) e' h h' = absurd h
unexpected_opaque req (rpc r) e' h h' = absurd h
unexpected_opaque req e (domain d) h h' = absurd h'
unexpected_opaque req e (http m r s) h h' = absurd h'
unexpected_opaque req e (rpc r) h h' = absurd h'
