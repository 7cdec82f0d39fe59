-- ===== src/Utils.antt =====
-- libs/common/src/utils: pagination, correlation ids and the hash for cache keys.
pub mod Pagination
pub mod PaginationLaws
pub mod Correlation
pub mod Hash
pub mod KeySorting
pub mod HashLaws
pub mod HashTests
pub mod Tests
