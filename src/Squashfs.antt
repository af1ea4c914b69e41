-- ===== src/Squashfs.antt =====
-- The writer of squashfs images: pkg/lib/squashfs/writer.go.
pub mod Writer
pub mod Reading
pub mod Blocks
pub mod Extending
pub mod Fragments
pub mod Held
pub mod Files
pub mod Image
pub mod Metadata
pub mod Tables
pub mod Inodes
pub mod Directories
pub mod Tree
pub mod Filter
pub mod Shapes
pub mod ReadInode
pub mod Growing
pub mod Walk
pub mod Nodes
pub mod Found
pub mod Children
pub mod Kept
