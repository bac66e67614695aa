-- ===== src/Writer.antt =====
-- toinflux/writer.py
pub mod Lines
pub mod Entry
pub mod Spool
pub mod Delivery
pub mod Delivered
pub mod Posting
pub mod Passing
pub mod Draining
pub mod Restart
pub mod Memory
pub mod Submit
pub mod Submitted
