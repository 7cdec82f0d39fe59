-- ===== src/Books.antt =====
-- apps/books-service: the repository, the service and the TCP controller.
pub mod Repository
pub mod Service
pub mod Controller
pub mod Laws
