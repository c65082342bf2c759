-- ===== src/Helper.antt =====
-- jina/helper.py: the helpers that the components share.
pub mod Batches
pub mod BatchLaws
pub mod Options
pub mod OptionLaws
mod Tests
