-- ===== src/Machine.antt =====
-- internal/controller/vdmachine_controller.go, a module for each method of the reconciler.
pub mod Fields
pub mod Create
pub mod Hardware
pub mod Power
pub mod Addresses
pub mod Adapters
pub mod Ipam
pub mod Metadata
pub mod Bootstrap
pub mod Vnc
pub mod Folders
pub mod Delete
pub mod Normal
pub mod Reconcile
pub mod Core
pub mod Life
