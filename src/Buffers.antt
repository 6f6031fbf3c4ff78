-- ===== src/Buffers.antt =====
-- The byte buffers of a connection: `InputBuffer`, `OutputBuffer` and `MessageTracker` of
-- bxcommon/utils/buffers.
pub mod Input
pub mod Output
pub mod Tracker
mod Tests
