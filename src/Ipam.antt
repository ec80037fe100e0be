-- ===== src/Ipam.antt =====
-- pkg/ipam: cluster IPs are found, or allocated from a pool of their family.
pub mod Allocation
pub mod Finders
pub mod New
pub mod Create
mod Tests
