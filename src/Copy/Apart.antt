-- ===== src/Copy/Apart.antt =====
-- The deep copies are full copies, apart from what they were made of.
pub mod Values
pub mod Network
pub mod Spec
pub mod Objects
pub mod Lists
pub mod Whole
