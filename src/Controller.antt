-- ===== src/Controller.antt =====
-- The controller of the daemon: pkg/controller, with the names of pkg/container/config/tools.go and
-- the events of pkg/daemon/disk-events.go.
pub mod Names
pub mod Store
pub mod Sets
pub mod Watch
pub mod FileNames
pub mod Listing
pub mod Dropping
pub mod Loading
pub mod Newer
pub mod Stored
pub mod Fallback
pub mod Generations
pub mod Advancing
pub mod Loads
pub mod Lasting
pub mod Converging
