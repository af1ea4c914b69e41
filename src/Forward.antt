-- ===== src/Forward.antt =====
-- Port forwarding (pkg/container/forward): the -p flag.
pub mod Go
pub mod Spec
