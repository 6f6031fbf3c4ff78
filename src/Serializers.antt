-- ===== src/Serializers.antt =====
-- The serializers of bxcommon/messages/bloxroute: lists of short ids, and of transactions with them,
-- as bytes in a buffer.
pub mod Wire
pub mod Hash
pub mod ShortIds
pub mod CompactBlock
pub mod Blocks
pub mod Infos
pub mod Txs
mod Tests
