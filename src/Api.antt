-- ===== src/Api.antt =====
-- The objects that the program keeps in Kubernetes, and the client that it reads and writes them
-- through: api/network/v1alpha1, api/cdn/v1alpha1 and the fields that it uses of foreign types.
pub mod Network
pub mod Cdn
pub mod Core
pub mod Kube
