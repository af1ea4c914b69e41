-- ===== src/Image.antt =====
-- Image layers (pkg/lib/container/image): the merged view of OCI layers with whiteouts.
pub mod Path
pub mod PathIndex
pub mod Whiteout
pub mod Sorted
pub mod Flatten
pub mod Layers
pub mod Opaque
