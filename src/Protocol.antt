-- ===== src/Protocol.antt =====
-- protocol/team/http/src: texts of the Team protocol, as lists of bytes.
pub mod Base64
pub mod Origin
