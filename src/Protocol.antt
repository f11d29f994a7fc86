-- ===== src/Protocol.antt =====
-- Encoding and decoding for the dinit control socket (dinit-client/src/dinit_client/protocol.py).
pub mod Enums
pub mod Records
pub mod Requests
pub mod Replies
