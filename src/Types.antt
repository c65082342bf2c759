-- ===== src/Types.antt =====
-- jina/types: the identifiers of documents.
pub mod Uid
pub mod Frames
pub mod FrameLaws
pub mod UidLaws
pub mod HexLaws
pub mod ViewLaws
mod Tests
mod FrameTests
