-- ===== src/Dhcp.antt =====
-- The DHCP server of the relay's access point, crates/microfips-esp-common/src/dhcp_server.rs.
-- Addresses are lists of four bytes, the first the highest, and MACs lists of six.
pub mod Request
pub mod Leases
pub mod Server
pub mod Reply
pub mod Total
pub mod Slots
pub mod Fair
pub mod Between
pub mod Exclusive
pub mod Offered
mod Tests
