-- ===== src/Dns.antt =====
-- pkg/daemons/dns: the authoritative server over the tables active_records, active_zones and
-- zones_by_id.
pub mod Types
pub mod Lookup
pub mod Answer
pub mod Start
mod Tests
