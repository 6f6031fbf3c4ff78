-- ===== src/Feeds.antt =====
-- bxcommon/feed: subscribers, feeds and the manager of feeds.
pub mod Subscriber
pub mod Feed
pub mod Manager
mod Tests
