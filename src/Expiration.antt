-- ===== src/Expiration.antt =====
-- `ExpirationQueue` of bxcommon/utils/expiration_queue.py: `Defs` has the class, and the other
-- children are about its methods.
pub mod Defs
pub mod Order
pub mod Callbacks
mod Tests
