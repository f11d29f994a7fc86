-- ===== src/Client.antt =====
-- `DinitClient` of dinit-client/src/dinit_client/client.py: one connection, the command in flight on
-- it, and the buffer of events. A method is an action on the client that returns or raises; what was
-- written before a raise stays written.
pub mod Task
pub mod Reader
pub mod Commands
pub mod Framing
pub mod Answers
pub mod Flows
pub mod Invariant
pub mod Spending
pub mod Waking
pub mod Callers
pub mod Negotiation
pub mod SocketPath
pub mod Listing
