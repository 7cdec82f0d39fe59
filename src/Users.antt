-- ===== src/Users.antt =====
-- apps/user-service: `users.*` is the service that the application runs (main.ts), `user.*` with its
-- repositories folder an older one that it keeps.
pub mod Repository
pub mod Service
pub mod Older
pub mod Laws
