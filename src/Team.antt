-- ===== src/Team.antt =====
-- backend/src/team: the Teams of the Space as Admin shows them.
pub mod Order
