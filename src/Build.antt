-- ===== src/Build.antt =====
-- Dockerfile parsing: pkg/lib/container/build/dockerfile.go and instruction.go.
pub mod Text
pub mod Tokens
pub mod Quoting
pub mod Flags
pub mod Pairs
pub mod Instruction
pub mod Lines
pub mod Numbers
