-- ===== src/Gateway.antt =====
-- apps/api-gateway: its services, which send a message to a microservice and turn every failure into
-- an `HttpException`, and its controllers.
pub mod Modules
pub mod Call
pub mod Todos
pub mod Books
pub mod Users
pub mod Auth
pub mod Access
pub mod Laws
pub mod Tests
