-- ===== src/Posts.antt =====
-- apps/posts-service: the repository, the service with its likes and the HTTP controller with its
-- checks of the owner.
pub mod Repository
pub mod Service
pub mod Controller
pub mod Likes
pub mod Taps
pub mod AtOnce
pub mod AtOnceLaws
pub mod AtOnceTests
pub mod Creation
pub mod Ownership
pub mod Tests
