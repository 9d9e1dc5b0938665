-- ===== src/Server.antt =====
-- src/dbsc/server.py: `DbscServer`. A method is a program over the calls of Effect, in the order
-- of the source; an exception is its result.
pub mod Instructions
pub mod Messages
pub mod Tokens
pub mod Registration
pub mod Challenge
pub mod Refresh
pub mod Gate
pub mod Progress
pub mod Requests
