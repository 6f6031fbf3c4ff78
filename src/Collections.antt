-- ===== src/Collections.antt =====
-- The collections of bxcommon/utils: two that hold so many items at most, and a priority queue.
pub mod LimitedSet
pub mod LimitedDict
pub mod PriorityQueue
mod Tests
