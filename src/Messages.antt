-- ===== src/Messages.antt =====
-- The messages of bxcommon/messages: their header, the factory that reads them from a buffer, and
-- their validation.
pub mod Message
pub mod Factory
pub mod Validator
pub mod Cleanup
mod Tests
