-- ===== src/Controllers.antt =====
-- pkg/controllers: what is done when objects of the cluster are added, updated and deleted. A
-- handler's errors are logged, and it returns nothing.
pub mod Start
pub mod Vm
pub mod Network
pub mod Cdn
