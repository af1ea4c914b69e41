-- ===== src/Tests.antt =====
-- Runs of the definitions on concrete inputs, and each theorem at an input that meets its
-- hypotheses.
mod DhcpRuns
mod KvmRuns
mod RingRuns
mod ImageRuns
mod ForwardRuns
mod BuildRuns
mod LeaseRuns
mod NetRuns
mod Dhcp6Runs
mod TreeRuns
mod BlockRuns
mod RegistryRuns
mod ControllerRuns
mod SquashfsRuns
