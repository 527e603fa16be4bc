-- ===== src/Timeline.antt =====
-- Timelines and chronological recall: src/mark/memory/timeline_order.py, timeline_build.py and
-- timeline.py.
pub mod Order
pub mod Clocks
pub mod Placed
pub mod Events
pub mod Latest
pub mod Folding
pub mod Shown
mod Tests
