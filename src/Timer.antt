-- ===== src/Timer.antt =====
-- The directory Timer: time points, timers and the timer queue of an event loop.
pub mod Timestamp
pub mod RbTreeTimer
