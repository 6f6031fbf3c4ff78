-- ===== src/Alarms.antt =====
-- bxcommon/utils/alarm_queue.py and the containers that clean themselves up by its alarms.
pub mod Queue
pub mod Dict
mod Tests
