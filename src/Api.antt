-- ===== src/Api.antt =====
-- The resource types of api/v1alpha1.
pub mod Machine
pub mod Cluster
pub mod Template
