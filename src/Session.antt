-- ===== src/Session.antt =====
-- backend/src/session: the Admin session socket.
pub mod Budget
pub mod Outbound
pub mod Registry
pub mod Topics
mod Tests
