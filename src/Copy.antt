-- ===== src/Copy.antt =====
-- The deep copies of api/v1alpha1/zz_generated.deepcopy.go
pub mod Structs
pub mod Slots
pub mod Heap
pub mod Values
pub mod Into
pub mod Objects
pub mod Shows
pub mod Rules
pub mod Apart
