-- ===== src/Todos.antt =====
-- apps/todos-service: the repository, the service and the TCP controller.
pub mod Repository
pub mod Service
pub mod Controller
pub mod Laws
pub mod Tests
