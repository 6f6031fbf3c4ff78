-- ===== src/Connections.antt =====
-- The connections of a node: `ConnectionPool` of bxcommon/connections/connection_pool.py.
pub mod Pool
pub mod Processing
pub mod Broadcast
mod Tests
