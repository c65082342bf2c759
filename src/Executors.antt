-- ===== src/Executors.antt =====
-- jina/executors: the decorators of their methods, and the indexers.
pub mod Batching
pub mod BatchingLaws
pub mod KeyValue
pub mod KeyValueLaws
pub mod Cache
pub mod Evaluators
pub mod EvaluatorLaws
pub mod CacheLaws
mod Tests
mod EvaluatorTests
