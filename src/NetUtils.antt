-- ===== src/NetUtils.antt =====
-- pkg/net_utils: addresses of a CIDR by index, MACs of virtual Ethernet devices.
pub mod Ip
pub mod Mac
pub mod Veth
