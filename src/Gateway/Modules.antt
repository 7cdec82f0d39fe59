-- ===== src/Gateway/Modules.antt =====
-- apps/api-gateway/src/modules: the stand-ins for the auth and user services, which answer by
-- themselves.
pub mod Auth
pub mod Users
pub mod Laws
