-- ===== src/Json/RoundTrip.antt =====
-- The round trip.
pub mod Strings
pub mod Numbers
pub mod Plain
pub mod Steps
pub mod Values
pub mod Safe
