-- ===== src/Lib.antt =====
-- NestJS microservice platform: an API gateway over HTTP, microservices for authentication, users,
-- todos, books and posts over TCP or HTTP, and shared libraries for errors, guards, messages, caching
-- and pagination.
--
-- How the parts interact. A request passes the guards (Guards), goes to a controller of the gateway
-- (Gateway), which sends one message to a service, and the service works on a collection through its
-- repository (Todos, Books, Users, Auth; Posts is an HTTP service of its own). Errors are exceptions
-- that filters turn into answers (Errors). Events go through RabbitMQ (Rabbit); values are cached in
-- Redis (Redis).
--
-- Which file models what. Functions keep the names of the source in snake_case.
--   Js, Action: JavaScript values and objects, and asynchronous methods as functions from a world to a
--     result and a world. `await` is the bind, `throw` and `catch` are results; what was written before
--     a throw stays written.
--   Database, Database/Repository: the operations of a mongoose model that the code calls, as a record,
--     with what the code relies on as the record ModelLaws; libs/database/src/abstract.repository.ts.
--     Database/Schema has the schemas of libs/database/src/schemas. Database/Memory and
--     Database/MemorySchema are concrete models that satisfy the laws.
--   Constants: libs/common/src/constants, libs/constants/src/roles.constants.ts.
--   Errors: libs/common/src/exceptions, libs/filters/src, libs/common/src/filters.
--   Guards: libs/common/src/guards and libs/guards/src/roles.guard.ts.
--   Todos, Books, Posts, Users, Auth: the folders apps/todos-service, apps/books-service,
--     apps/posts-service, apps/user-service and apps/auth-service, each with a module per class.
--   Gateway: apps/api-gateway/src/todos, books, users and auth; Gateway/Modules: src/modules.
--   Http: the global guards, the interceptor and the filter of apps/api-gateway and apps/posts-service
--     round their routes.
--   Platform: the gateway over apps/todos-service and apps/user-service, from the HTTP request to the
--     collection and back.
--   Onboarding: a registration in apps/auth-service as the notification worker and the gateway see it.
--   Dto: libs/dto/src and the DTOs of apps/api-gateway/src/modules. Dto/Validation is what class-validator
--     checks of them.
--   Config: libs/common/src/config. Deployment: what main.ts and the module files of apps, and
--     libs/database, libs/redis and libs/rabbitmq read of the environment, and ecosystem.config.js.
--   Wiring: the module files of apps and libs: what each class is constructed from, and from where.
--   Rabbit: libs/rabbitmq/src.
--   Redis: libs/redis/src. Redis/Keys: libs/constants/src/cache-keys.constants.ts.
--   Notification, Email: apps/notification-worker/src and apps/email-worker/src.
--   Auth/TokenService, Auth/Strategies: libs/auth/src.
--   Interceptors: libs/interceptors/src and libs/common/src/interceptors.
--   Logger: libs/logger/src and libs/interceptors/src/logging.interceptor.ts.
--   Utils: libs/common/src/utils, with hash.util.ts in Utils/Hash.
--   EventLoop: methods that run at once and are cut where they await, for any order of their steps.
--   Prelude: names of the libraries and helpers that the modules share.
--
-- Outside the model are mongoose, class-validator, bcrypt, @nestjs/jwt, passport, rxjs, ioredis,
-- amqplib and the notification transports: they are parameters. A method of a model runs without other
-- requests in between, but for Auth/Race, Redis/Readers and Posts/AtOnce: they run registrations,
-- readers of the cache and likes at once, cut where the methods await. A queue that delivers at once
-- stands for the brokers.
-- The loop of `deletePattern` runs on fuel, and a scan that ends in some number of rounds needs that
-- much. Numbers are whole. The status of an exception is a number or any other value, as a service may
-- send one. A message to a service whose fields have not the types that its handler declares is left to
-- a parameter of the transport. Not modelled are Swagger, the validation pipe round a route, the
-- declarations of responses and events, and the injection itself, which Nest does.
pub mod Prelude
pub mod Js
pub mod Errors
pub mod Action
pub mod Database
pub mod Constants
pub mod Todos
pub mod Books
pub mod Auth
pub mod Posts
pub mod Users
pub mod Config
pub mod Utils
pub mod Rabbit
pub mod Notification
pub mod Email
pub mod EventLoop
pub mod Guards
pub mod Dto
pub mod Deployment
pub mod Onboarding
pub mod Http
pub mod Interceptors
pub mod Logger
pub mod Platform
pub mod Wiring
pub mod Redis
pub mod Gateway
