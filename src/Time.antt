-- ===== src/Time.antt =====
-- Dates and instants: backend/src/time and protocol/team/http/src/python/datetime.rs.
pub mod Calendar
pub mod Instants
pub mod Texts
pub mod Isoformat
mod Tests
