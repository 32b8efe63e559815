-- ===== src/Relay.antt =====
-- relay/: the parts of the relay server that are modelled.
pub mod IpLimiter
pub mod Counts
pub mod Tests
