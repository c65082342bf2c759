-- ===== src/Drivers.antt =====
-- jina/drivers: what the drivers do to the documents of a request.
pub mod QueryLang
pub mod Cache
pub mod CacheLaws
pub mod Reduce
pub mod Pointers
pub mod ReduceLaws
pub mod Reading
pub mod ReadingLaws
pub mod Search
pub mod SearchLaws
pub mod Evaluate
pub mod EvaluateLaws
pub mod EvaluateShapes
pub mod Sort
pub mod SortLaws
pub mod Route
pub mod RouteLaws
pub mod Rank
pub mod RankOrder
pub mod RankLaws
pub mod RankRows
pub mod Balance
pub mod BalanceLaws
pub mod BalanceFlow
pub mod Traversal
pub mod TraversalLaws
pub mod QueryLangLaws
mod Tests
mod BalanceTests
mod RankTests
mod CacheTests
mod ReduceTests
mod SearchTests
mod EvaluateTests
